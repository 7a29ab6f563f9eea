-- ===== src/Search/Perform/Resuming.antt =====
-- The user lets an interactive search run on without further questions.
use flexman.Base.{
  ℕ, zero, suc, ◌/◌, ◌≡◌, refl, Bool, true, false, not, ◌&&◌, some, List, [], ◌∷◌, Outcome, ok,
  ◌>>=◌, then-same, >>=-same, is_empty, ltb, Bool-cases, inl, inr, ◌==◌,
}
use flexman.Double.{Double, Consumable}
use flexman.Core.Execution.{Mode}
use flexman.Core.Solution.{Solution, ParetoFront, Result}
use flexman.Core.Manager.{Manager}
use flexman.Search.Algorithms.{Algorithms}
use flexman.Search.Extension.{SearchAlgorithm, Clock, Deadline}
use flexman.Search.Iteration.{perform_search_n_iterations}
use flexman.Search.Perform.{
  resume, read_key, Session, record_front, pause_search, passes, init_stride, perform_search,
}

read_r : read_key (b'r' ∷ []) ≡ some (resume, [])
unfolding read_key
read_r = refl

module _ {ℓ} {Real State Resources World : Type ℓ} ⦃clock : Clock Real World⦄ where
  -- The keys play no role when a front is kept.
  record_front-keys :
      (front : ParetoFront Real State Resources) (s : Session Real State Resources World)
      (keys : List ℕ)
      → record_front front (record s { keys = keys })
        ≡ record (record_front front s) { keys = keys }
  unfolding record_front
  record_front-keys front s keys = elim (Bool-cases (is_empty front.solutions)) [
    | inl e ↦ rw e refl
    | inr e ↦ rw e refl
  ]

  record_front-asks :
      (front : ParetoFront Real State Resources) (s : Session Real State Resources World)
      → ((record_front front s).disable_interactive ≡ s.disable_interactive)
        × ((record_front front s).keys ≡ s.keys)
  unfolding record_front
  record_front-asks front s = elim (Bool-cases (is_empty front.solutions)) [
    | inl e ↦ rw e (refl, refl)
    | inr e ↦ rw e (refl, refl)
  ]

  -- The search asks nothing.
  abbrev IsQuiet : (interactive : Bool) → Session Real State Resources World → Type 0
  IsQuiet interactive s = (not s.disable_interactive && interactive) ≡ false

  pause_search_quiet :
      (interactive : Bool) (stride : ℕ) (s : Session Real State Resources World)
      → IsQuiet interactive s
      → pause_search interactive stride s ≡ ok (stride, s)
  unfolding pause_search
  pause_search_quiet interactive stride s quiet = rw quiet refl

  -- The session after the key 'r'.
  abbrev resumed : List ℕ → Session Real State Resources World → Session Real State Resources World
  resumed keys s = record s {
    disable_interactive = true;
    world = clock.start (clock.pause s.world);
    keys = keys;
  }

  pause_search_resume :
      (stride : ℕ) (s : Session Real State Resources World) (rest : List ℕ)
      → s.disable_interactive ≡ false
      → read_key s.keys ≡ some (resume, rest)
      → pause_search true stride s ≡ ok (stride, resumed rest s)
  unfolding pause_search
  pause_search_resume stride s rest asks pressed = rw (asks, pressed) refl

  abbrev result_of : Session Real State Resources World → Outcome (Result Real State Resources)
  result_of s = ok s.result

module _ {ℓ} {Real State System Input Resources Timespec World : Type ℓ} ⦃d : Double Real⦄
    ⦃c : Consumable Resources⦄ ⦃alg : Algorithms (Solution Real State Resources)⦄
    ⦃clock : Clock Real World⦄ (algorithm : SearchAlgorithm)
    (m : Manager Real State (Mode System Input) Resources Timespec) (fuel : ℕ)
    (modes : List (Mode System Input)) where
  passes-keys :
      (left stride : ℕ) (s : Session Real State Resources World) (keys : List ℕ)
      → IsQuiet m.interactive s
      → (passes algorithm m fuel modes left stride (record s { keys = keys }) >>= result_of)
        ≡ (passes algorithm m fuel modes left stride s >>= result_of)
  unfolding passes
  passes-keys zero stride s keys quiet = elim (Bool-cases (ltb stride 1)) [
    | inl e ↦ rw e refl
    | inr e ↦ rw e refl
  ]
  passes-keys (suc left) stride s keys quiet = elim (Bool-cases (ltb stride 1)) [
    | inl e ↦ rw e refl
    | inr e ↦ rw e (
        then-same (perform_search_n_iterations _ _ _ _ stride s.pareto_front s.world) _ _ result_of
          λ (front, world).
            let here = record_front front (record s { world = world }) in
            let still : IsQuiet m.interactive here =
              rw ((record_front-asks front (record s { world = world })).0) quiet in
            let (timed_out, world') = clock.has_timeout here.world in
            let next = record here { world = world' } in
            rw
              (
                record_front-keys front (record s { world = world }) keys,
                pause_search_quiet m.interactive stride here still,
                pause_search_quiet m.interactive stride (record here { keys = keys }) still,
              )
              (elim (Bool-cases timed_out) [
                | inl t ↦ rw t refl
                | inr t ↦ rw t (passes-keys left (stride / 2) next keys still)
              ]))
  ]

  passes_resume :
      (left stride : ℕ) (s : Session Real State Resources World) (keys rest rest' : List ℕ)
      → m.interactive ≡ true
      → s.disable_interactive ≡ false
      → read_key keys ≡ some (resume, rest)
      → read_key s.keys ≡ some (resume, rest')
      → (passes algorithm m fuel modes (suc left) stride (record s { keys = keys }) >>= result_of)
        ≡ (passes algorithm m fuel modes (suc left) stride s >>= result_of)
  unfolding passes
  passes_resume left stride s keys rest rest' on asks pressed pressed' =
      elim (Bool-cases (ltb stride 1)) [
        | inl e ↦ rw e refl
        | inr e ↦ rw e (
            then-same (perform_search_n_iterations _ _ _ _ stride s.pareto_front s.world) _ _
              result_of
              λ (front, world).
                let start = record s { world = world } in
                let here = record_front front start in
                let same = record_front-asks front start in
                let still : here.disable_interactive ≡ false = rw (same.0) asks in
                let next = resumed rest' here in
                let (timed_out, world') = clock.has_timeout next.world in
                rw
                  (
                    record_front-keys front start keys,
                    on,
                    pause_search_resume stride here rest' still (rw (same.1) pressed'),
                    pause_search_resume stride (record here { keys = keys }) rest still pressed,
                  )
                  (elim (Bool-cases timed_out) [
                    | inl t ↦ rw t refl
                    | inr t ↦
                        rw t
                          (passes-keys left (stride / 2) (record next { world = world' }) rest refl)
                  ]))
      ]

  -- If of the keys c, r and q the user presses r first, then `perform_search` does what it does when
  -- r is the only key that is pressed, whatever the keys after it.
  pub perform_search_resume :
      ⦃deadline : Deadline Timespec World⦄
      → (iterations : ℕ) (world : World) (keys rest : List ℕ) → read_key keys ≡ some (resume, rest)
      → perform_search algorithm (some m) fuel modes iterations world keys
        ≡ perform_search algorithm (some m) fuel modes iterations world (b'r' ∷ [])
  unfolding perform_search
  perform_search_resume iterations world keys rest pressed = elim (Bool-cases (iterations == 0)) [
    | inl e ↦ rw e refl
    | inr e ↦ rw e (
        >>=-same (init_stride algorithm iterations) _ _ λ stride. elim (Bool-cases m.interactive) [
          | inl on ↦ passes_resume 31 stride _ keys rest [] on refl pressed read_r
          | inr off ↦ passes-keys 32 stride _ keys off
        ])
  ]
