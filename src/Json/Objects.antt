-- ===== src/Json/Objects.antt =====
-- An object that is written member by member: the statements `lhs[k] << a` as a list, and what each
-- member reads as afterwards.
use Prim.Native.String.{String}
use text.Mathlib.Text.{◌==◌ as str_eq}
use text.Mathlib.TextEquality.{eq_iff}
use flexman.Base.{
  ◌≡◌, refl, subst, ◌∙◌, Bool, true, false, not, ◌&&◌, Option, none, some, List, [], ◌∷◌,
  if◌then◌else◌, Bool-cases, inl, inr, arith, ok,
}
use flexman.Json.{Json, IsJson, Serial, ReadsAs, read_member}

-- `lhs[k] << a`
infix 5 ◌≪◌
abbrev pub ◌≪◌ {ℓ κ} :
    {Node : Type ℓ} {A : Type κ} ⦃s : Serial Node A⦄ → String → A → String × (Node → Node)
◌≪◌ ⦃s⦄ k a = (k, s.write a)

module _ {ℓ} {Node : Type ℓ} ⦃j : Json Node⦄ where
  unfoldable pub write_members : Node → List (String × (Node → Node)) → Node
  write_members n [] = n
  write_members n ((k, f) ∷ fs) = write_members (j.edit n k f) fs

  -- `lhs.set_type(json::JTYPE_OBJECT)` and the statements after it.
  unfoldable pub write_object : List (String × (Node → Node)) → Node → Node
  write_object fs n = write_members (j.set_object n) fs

module _ {ℓ} {Node : Type ℓ} where
  abbrev pub writer_of : String → List (String × (Node → Node)) → Option (Node → Node)
  writer_of k [] = none
  writer_of k ((l, f) ∷ fs) = if str_eq l k then some f else writer_of k fs

  abbrev pub lacks : String → List (String × (Node → Node)) → Bool
  lacks k [] = true
  lacks k ((l, f) ∷ fs) = not (str_eq l k) && lacks k fs

  -- No key is written twice.
  abbrev pub distinct : List (String × (Node → Node)) → Bool
  distinct [] = true
  distinct ((k, f) ∷ fs) = lacks k fs && distinct fs

module _ {ℓ} {Node : Type ℓ} ⦃j : Json Node⦄ (laws : IsJson Node) where
  member-lacks :
      (k : String) (fs : List (String × (Node → Node))) (n : Node)
      → lacks k fs ≡ true
      → j.is_object n ≡ true
      → j.member (write_members n fs) k ≡ j.member n k
  unfolding write_members
  member-lacks k [] n h o = refl
  member-lacks k ((l, f) ∷ fs) n h o =
      let other : str_eq l k ≡ false = ground arith in
      let rest : lacks k fs ≡ true = ground arith in
      member-lacks k fs (j.edit n l f) rest (laws.edit-is_object n l f o)
      ∙ (laws.member-edit n l f k o ∙ rw other refl)

  member-write_members :
      (k : String) (f : Node → Node) (fs : List (String × (Node → Node))) (n : Node)
      → writer_of k fs ≡ some f
      → distinct fs ≡ true
      → j.is_object n ≡ true
      → (m : Node) × (j.member (write_members n fs) k ≡ ok (f m))
  unfolding write_members
  member-write_members k f [] n e h o = cc
  member-write_members k f ((l, g) ∷ fs) n e h o = elim (Bool-cases (str_eq l k)) [
    | inl same ↦
        let here : some g ≡ some f = rw same at e in
        let writer : g ≡ f = cc in
        let missing : lacks l fs ≡ true = ground arith in
        let key : l ≡ k = (eq_iff l k).0 same in
        (
          j.slot n l,
          member-lacks k fs (j.edit n l g) (subst (λ i. lacks i fs ≡ true) key missing)
                (laws.edit-is_object n l g o)
              ∙ (laws.member-edit n l g k o ∙ rw (same, writer) refl),
        )
    | inr other ↦
        let rest : distinct fs ≡ true = ground arith in
        member-write_members k f fs (j.edit n l g) (rw other at e) rest
          (laws.edit-is_object n l g o)
  ]

  write_members-is_object :
      (fs : List (String × (Node → Node))) (n : Node)
      → j.is_object n ≡ true
      → j.is_object (write_members n fs) ≡ true
  unfolding write_members
  write_members-is_object [] n o = o
  write_members-is_object ((k, f) ∷ fs) n o =
      write_members-is_object fs (j.edit n k f) (laws.edit-is_object n k f o)

  pub write_object-is_object :
      (fs : List (String × (Node → Node))) (n : Node) → j.is_object (write_object fs n) ≡ true
  unfolding write_object
  write_object-is_object fs n =
      write_members-is_object fs (j.set_object n) (laws.set_object-is_object n)

  -- A member that one of the statements wrote is what it made of some node.
  pub member-write_object :
      (k : String) (f : Node → Node) (fs : List (String × (Node → Node))) (n : Node)
      → writer_of k fs ≡ some f
      → distinct fs ≡ true
      → (m : Node) × (j.member (write_object fs n) k ≡ ok (f m))
  unfolding write_object
  member-write_object k f fs n e h =
      member-write_members k f fs (j.set_object n) e h (laws.set_object-is_object n)

  -- A member that one of the statements wrote reads as what it wrote.
  pub read_member-write_object {κ} :
      {A : Type κ} ⦃s : Serial Node A⦄
      → (f : A → A → A) → ReadsAs s f
      → (k : String) (fs : List (String × (Node → Node))) (n : Node) (a old : A)
      → writer_of k fs ≡ some (s.write a)
      → distinct fs ≡ true
      → read_member (write_object fs n) k old ≡ ok (f a old)
  unfolding read_member
  read_member-write_object ⦃s⦄ f law k fs n a old e h =
      let (m, eq) = member-write_object k (s.write a) fs n e h in rw eq (law a old m)
