-- ===== src/Tapping/Storage.antt =====
-- examples/tapping/parameters.hpp, resources.hpp and search.hpp: the operators `<<` and `>>` between
-- the parameters, the resources, the timeouts and the searches of the example and the nodes of the
-- json library.
use flexman.Base.{◌≡◌, refl, Bool, [], ◌∷◌, Outcome, ok, ◌>>=◌}
use flexman.Json.{Json, IsJson, Serial, RoundTrips, read_member}
use flexman.Json.Objects.{◌≪◌, write_object, read_member-write_object}
use flexman.Core.Manager.{Members}
use flexman.Tapping.{Resources}
use flexman.Tapping.Systems.{Parameters}

-- `timelib::timespec_t`
pub record Timespec {ℓ} (Long : Type ℓ) : Type ℓ where
  pub tv_sec : Long
  pub tv_nsec : Long

module _ {ℓ} {Node : Type ℓ} ⦃j : Json Node⦄ where
  module _ {Real : Type ℓ} ⦃real : Serial Node Real⦄ where
    unfoldable pub write_parameters : Parameters Real → Node → Node
    write_parameters rhs = write_object (
        ("V" ≪ rhs.v)
        ∷ ("R" ≪ rhs.r)
        ∷ ("L" ≪ rhs.l)
        ∷ ("J" ≪ rhs.j)
        ∷ ("Kb" ≪ rhs.kb)
        ∷ ("Ke" ≪ rhs.ke)
        ∷ ("Kt" ≪ rhs.kt)
        ∷ ("Fd" ≪ rhs.fd)
        ∷ ("Fs" ≪ rhs.fs)
        ∷ ("Ts" ≪ rhs.ts)
        ∷ ("Gr" ≪ rhs.gr)
        ∷ ("Sc" ≪ rhs.sc)
        ∷ ("St" ≪ rhs.st)
        ∷ [])

    unfoldable pub read_parameters : Node → Parameters Real → Outcome (Parameters Real)
    read_parameters lhs rhs = do
      v' ← read_member lhs "V" rhs.v
      r' ← read_member lhs "R" rhs.r
      l' ← read_member lhs "L" rhs.l
      j' ← read_member lhs "J" rhs.j
      kb' ← read_member lhs "Kb" rhs.kb
      ke' ← read_member lhs "Ke" rhs.ke
      kt' ← read_member lhs "Kt" rhs.kt
      fd' ← read_member lhs "Fd" rhs.fd
      fs' ← read_member lhs "Fs" rhs.fs
      ts' ← read_member lhs "Ts" rhs.ts
      gr' ← read_member lhs "Gr" rhs.gr
      sc' ← read_member lhs "Sc" rhs.sc
      st' ← read_member lhs "St" rhs.st
      ok (record {
        v = v';
        r = r';
        l = l';
        j = j';
        kb = kb';
        ke = ke';
        kt = kt';
        fd = fd';
        fs = fs';
        ts = ts';
        gr = gr';
        sc = sc';
        st = st';
      })

    unfoldable pub write_resources : Resources Real → Node → Node
    write_resources rhs = write_object (("energy" ≪ rhs.energy) ∷ ("time" ≪ rhs.time) ∷ [])

    unfoldable pub read_resources : Node → Resources Real → Outcome (Resources Real)
    read_resources lhs rhs = do
      energy' ← read_member lhs "energy" rhs.energy
      time' ← read_member lhs "time" rhs.time
      ok (record { energy = energy'; time = time' })

    instance abbrev pub serial_resources : Serial Node (Resources Real)
    serial_resources = record { write = write_resources; read = read_resources }

  module _ {Long : Type ℓ} ⦃long : Serial Node Long⦄ where
    unfoldable pub write_timespec : Timespec Long → Node → Node
    write_timespec rhs = write_object (("tv_sec" ≪ rhs.tv_sec) ∷ ("tv_nsec" ≪ rhs.tv_nsec) ∷ [])

    unfoldable pub read_timespec : Node → Timespec Long → Outcome (Timespec Long)
    read_timespec lhs rhs = do
      tv_sec' ← read_member lhs "tv_sec" rhs.tv_sec
      tv_nsec' ← read_member lhs "tv_nsec" rhs.tv_nsec
      ok (record { tv_sec = tv_sec'; tv_nsec = tv_nsec' })

    instance abbrev pub serial_timespec : Serial Node (Timespec Long)
    serial_timespec = record { write = write_timespec; read = read_timespec }

  module _ {Real State Long : Type ℓ} ⦃real : Serial Node Real⦄ ⦃flag : Serial Node Bool⦄
      ⦃state : Serial Node State⦄ ⦃long : Serial Node Long⦄ where
    -- The operators for the two classes of searches have the same statements.
    unfoldable pub write_search : Members Real State (Timespec Long) → Node → Node
    write_search rhs = write_object (
        ("initial_state" ≪ rhs.initial_state)
        ∷ ("target_state" ≪ rhs.target_state)
        ∷ ("time_delta" ≪ rhs.time_delta)
        ∷ ("time_max" ≪ rhs.time_max)
        ∷ ("threshold" ≪ rhs.threshold)
        ∷ ("timeout" ≪ rhs.timeout)
        ∷ ("interactive" ≪ rhs.interactive)
        ∷ [])

    unfoldable pub read_search :
        Node → Members Real State (Timespec Long) → Outcome (Members Real State (Timespec Long))
    read_search lhs rhs = do
      initial_state' ← read_member lhs "initial_state" rhs.initial_state
      target_state' ← read_member lhs "target_state" rhs.target_state
      time_delta' ← read_member lhs "time_delta" rhs.time_delta
      time_max' ← read_member lhs "time_max" rhs.time_max
      threshold' ← read_member lhs "threshold" rhs.threshold
      timeout' ← read_member lhs "timeout" rhs.timeout
      interactive' ← read_member lhs "interactive" rhs.interactive
      ok (record {
        initial_state = initial_state';
        target_state = target_state';
        time_delta = time_delta';
        time_max = time_max';
        threshold = threshold';
        timeout = timeout';
        interactive = interactive';
      })

module _ {ℓ} {Node : Type ℓ} ⦃j : Json Node⦄ (laws : IsJson Node) {Real : Type ℓ}
    ⦃real : Serial Node Real⦄ (reals : RoundTrips real) where
  -- If the nodes hold what is written, and numbers read back as they were written, then so do the
  -- thirteen parameters of a machine.
  pub read_parameters-write_parameters :
      (a old : Parameters Real) (n : Node) → read_parameters (write_parameters a n) old ≡ ok a
  unfolding read_parameters write_parameters
  read_parameters-write_parameters a old n =
      rw
        (
          read_member-write_object laws _ reals "V" _ n a.v _ refl refl,
          read_member-write_object laws _ reals "R" _ n a.r _ refl refl,
          read_member-write_object laws _ reals "L" _ n a.l _ refl refl,
          read_member-write_object laws _ reals "J" _ n a.j _ refl refl,
          read_member-write_object laws _ reals "Kb" _ n a.kb _ refl refl,
          read_member-write_object laws _ reals "Ke" _ n a.ke _ refl refl,
          read_member-write_object laws _ reals "Kt" _ n a.kt _ refl refl,
          read_member-write_object laws _ reals "Fd" _ n a.fd _ refl refl,
          read_member-write_object laws _ reals "Fs" _ n a.fs _ refl refl,
          read_member-write_object laws _ reals "Ts" _ n a.ts _ refl refl,
          read_member-write_object laws _ reals "Gr" _ n a.gr _ refl refl,
          read_member-write_object laws _ reals "Sc" _ n a.sc _ refl refl,
          read_member-write_object laws _ reals "St" _ n a.st _ refl refl,
        )
        refl

  -- Resources are read, into any resources, as they were written.
  pub serial_resources-RoundTrips : RoundTrips {Node = Node} (serial_resources {Real = Real})
  unfolding read_resources write_resources
  serial_resources-RoundTrips a old n =
      rw
        (
          read_member-write_object laws _ reals "energy" _ n a.energy _ refl refl,
          read_member-write_object laws _ reals "time" _ n a.time _ refl refl,
        )
        refl

  module _ {State Long : Type ℓ} ⦃flag : Serial Node Bool⦄ ⦃state : Serial Node State⦄
      ⦃long : Serial Node Long⦄ (flags : RoundTrips flag) (states : RoundTrips state)
      (longs : RoundTrips long) where
    serial_timespec-RoundTrips : RoundTrips {Node = Node} (serial_timespec {Long = Long})
    unfolding read_timespec write_timespec
    serial_timespec-RoundTrips a old n =
        rw
          (
            read_member-write_object laws _ longs "tv_sec" _ n a.tv_sec _ refl refl,
            read_member-write_object laws _ longs "tv_nsec" _ n a.tv_nsec _ refl refl,
          )
          refl

    -- If the nodes hold what is written, and numbers, flags and states read back as they were
    -- written, then so do the data members of a search, its timeout included.
    pub read_search-write_search :
        (a old : Members Real State (Timespec Long)) (n : Node)
        → read_search (write_search a n) old ≡ ok a
    unfolding read_search write_search
    read_search-write_search a old n =
        rw
          (
            read_member-write_object laws _ states "initial_state" _ n a.initial_state _ refl refl,
            read_member-write_object laws _ states "target_state" _ n a.target_state _ refl refl,
            read_member-write_object laws _ reals "time_delta" _ n a.time_delta _ refl refl,
            read_member-write_object laws _ reals "time_max" _ n a.time_max _ refl refl,
            read_member-write_object laws _ reals "threshold" _ n a.threshold _ refl refl,
            read_member-write_object laws _ serial_timespec-RoundTrips "timeout" _ n a.timeout _
                refl refl,
            read_member-write_object laws _ flags "interactive" _ n a.interactive _ refl refl,
          )
          refl
