-- ===== src/Program/Saving.antt =====
-- examples/tapping/main.cpp: the document that `save_results` writes to a file.
use flexman.Base.{
  ℕ, zero, suc, ◌<◌, ◌≡◌, refl, ap, Option, none, some, List, [], ◌∷◌, length, get_elem?, Outcome,
  ok, throw, ◌>>=◌, undefined, arith, Returns,
}
use flexman.Json.{Json, IsJson, Serial, RoundTrips, read_member}
use flexman.Json.Objects.{◌≪◌, write_object, read_member-write_object, member-write_object}
use flexman.Support.{write_array}
use flexman.Support.Loops.{item-write_array}

module _ {ℓ} {Parameter Mode : Type ℓ} where
  -- `parameters[i]` and `modes[i]` for each index of the parameters. Neither vector checks it.
  unfoldable pub pairs : List Parameter → List Mode → Outcome (List (Parameter × Mode))
  pairs [] modes = ok []
  pairs (p ∷ ps) [] = throw undefined
  pairs (p ∷ ps) (m ∷ ms) = do rest ← pairs ps ms; ok ((p, m) ∷ rest)

module _ {ℓ} {Node Parameter Mode : Type ℓ} ⦃j : Json Node⦄ ⦃parameter : Serial Node Parameter⦄
    ⦃mode : Serial Node Mode⦄ where
  unfoldable pub write_pair : Option (Parameter × Mode) → Node → Node
  write_pair none n = n
  write_pair (some (p, m)) n = write_object (("parameters" ≪ p) ∷ ("mode" ≪ m) ∷ []) n

  -- `root["modes"][i]`
  unfoldable pub write_saved : List (Parameter × Mode) → ℕ → Node → Node
  write_saved saved i = write_pair (get_elem? saved i)

  -- The document, written over the node `root`.
  unfoldable pub save_results :
      {Manager Results : Type ℓ} ⦃manager : Serial Node Manager⦄ ⦃result : Serial Node Results⦄
      → (rhs : Manager) (results : Results) (parameters : List Parameter) (modes : List Mode)
      → (root : Node) → Outcome Node
  save_results rhs results parameters modes root = do
    saved ← pairs parameters modes
    let write_modes : Node → Node =
        λ n. write_array (length parameters) (write_saved saved) (j.clear n)
    ok (write_object (("manager" ≪ rhs) ∷ ("results" ≪ results) ∷ ("modes", write_modes) ∷ []) root)

  -- The parameters and the mode at an index of a document, read into `p` and `m`.
  abbrev pub read_saved : Node → ℕ → Parameter → Mode → Outcome (Parameter × Mode)
  read_saved root i p m = do
    modes ← j.member root "modes"
    n ← j.item modes i
    p' ← read_member n "parameters" p
    m' ← read_member n "mode" m
    ok (p', m')

module _ {ℓ} {Node Parameter Mode : Type ℓ} ⦃j : Json Node⦄ ⦃parameter : Serial Node Parameter⦄
    ⦃mode : Serial Node Mode⦄ where
  write_saved-some :
      (saved : List (Parameter × Mode)) (i : ℕ) (p : Parameter) (m : Mode) (n : Node)
      → get_elem? saved i ≡ some (p, m)
      → write_saved saved i n ≡ write_object (("parameters" ≪ p) ∷ ("mode" ≪ m) ∷ []) n
  unfolding write_saved write_pair
  write_saved-some saved i p m n e = ap (λ o. write_pair o n) e

module _ {ℓ} {Parameter Mode : Type ℓ} where
  pairs-Returns :
      (ps : List Parameter) (ms : List Mode)
      → length ps ≡ length ms
      → Returns
          (λ saved.
            (i : ℕ) (p : Parameter) (m : Mode)
            → get_elem? ps i ≡ some p
            → get_elem? ms i ≡ some m
            → get_elem? saved i ≡ some (p, m))
          (pairs ps ms)
  unfolding pairs
  pairs-Returns [] ms h = ([], refl, λ i p m e f. cc)
  pairs-Returns (p ∷ ps) [] h = cc
  pairs-Returns (p ∷ ps) (m ∷ ms) h =
      let (saved, eq, rest) = pairs-Returns ps ms (omega arith) in
      ((p, m) ∷ saved, rw eq refl, at saved rest)
    where
      at :
          (saved : List (Parameter × Mode))
          → ((i : ℕ) (q : Parameter) (n : Mode)
              → get_elem? ps i ≡ some q
              → get_elem? ms i ≡ some n
              → get_elem? saved i ≡ some (q, n))
          → (i : ℕ) (q : Parameter) (n : Mode) → get_elem? (p ∷ ps) i ≡ some q
          → get_elem? (m ∷ ms) i ≡ some n
          → get_elem? ((p, m) ∷ saved) i ≡ some (q, n)
      at saved rest zero q n e f = cc
      at saved rest (suc i) q n e f = rest i q n e f

get_elem?-lt {ℓ} :
    {A : Type ℓ} (xs : List A) (i : ℕ) (x : A) → get_elem? xs i ≡ some x → i < length xs
get_elem?-lt [] i x e = cc
get_elem?-lt (y ∷ xs) zero x e = omega arith
get_elem?-lt (y ∷ xs) (suc i) x e = let h = get_elem?-lt xs i x e in omega arith

module _ {ℓ} {Node Manager Results Parameter Mode : Type ℓ} ⦃j : Json Node⦄
    ⦃manager : Serial Node Manager⦄ ⦃result : Serial Node Results⦄
    ⦃parameter : Serial Node Parameter⦄ ⦃mode : Serial Node Mode⦄ (laws : IsJson Node)
    (managers : RoundTrips manager) (parametric : RoundTrips parameter)
    (modal : RoundTrips mode) where
  -- If the nodes hold what is written, and managers, parameters and modes read back as they were
  -- written, then with as many parameters as modes `save_results` gives a document, from which the
  -- manager reads back, and at each index the parameters and the mode of that index.
  pub read_saved-save_results :
      (rhs old : Manager) (results : Results) (parameters : List Parameter) (modes : List Mode)
      (root : Node)
      → length parameters ≡ length modes
      → Returns
          (λ saved.
            (read_member saved "manager" old ≡ ok rhs)
            × ((i : ℕ) (p : Parameter) (m : Mode) (p' : Parameter) (m' : Mode)
                → get_elem? parameters i ≡ some p
                → get_elem? modes i ≡ some m
                → read_saved saved i p' m' ≡ ok (p, m)))
          (save_results rhs results parameters modes root)
  unfolding save_results
  read_saved-save_results rhs old results parameters modes root h =
      let (saved, eq, at) = pairs-Returns parameters modes h in
      let write_modes : Node → Node =
        λ n. write_array (length parameters) (write_saved saved) (j.clear n) in
      let fs = ("manager" ≪ rhs) ∷ ("results" ≪ results) ∷ ("modes", write_modes) ∷ [] in
      let (n, found) = member-write_object laws "modes" write_modes fs root refl refl in
      let (_, items) = item-write_array laws (length parameters) (write_saved saved) (j.clear n) in
      (
        write_object fs root,
        rw eq refl,
        (
          read_member-write_object laws _ managers "manager" fs root rhs old refl refl,
          λ i p m p' m' e f.
              let (k, item) = items i (get_elem?-lt parameters i p e) in
              rw
                (
                  found,
                  item,
                  write_saved-some saved i p m k (at i p m e f),
                  read_member-write_object laws _ parametric "parameters" _ k p p' refl refl,
                  read_member-write_object laws _ modal "mode" _ k m m' refl refl,
                )
                refl,
        ),
      )
