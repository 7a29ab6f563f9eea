-- ===== src/Printing/Sequences.antt =====
-- The sequence that the text of an execution or of a solution shows.
use mathlib.Core.Path.{ap₂}
use mathlib.Core.List.{append-nil, append_assoc}
use flexman.Base.{
  ℕ, ◌+◌, ◌-◌, ◌%◌, ◌<◌, ◌≤◌, ◌≡◌, refl, ap, sym, ◌∙◌, true, Option, none, some, List, [], ◌∷◌,
  ◌++◌, All, All-append, length, ltb, ◌==◌, if◌then◌else◌, arith, unsigned_mod,
}
use flexman.Core.Execution.{ModeExecution, execution}
use flexman.Core.Solution.{Solution}
use flexman.Stream.{
  Text, Stream, Printable, left_side, right_side, spaces, pad, digits_of, codes, ◌<<◌, put,
}
use flexman.Stream.Decimal.{
  Omits, pad-digits_of-Omits, pad-zero, numbers_in, numbers_in-pair, numbers_in-pairs,
}
use flexman.Printing.{Shown, execution_to_string, put_sequence, solution_to_string}

numbers_in-execution_to_string :
    (e : ModeExecution) → numbers_in (execution_to_string e) ≡ e.mode ∷ e.times ∷ []
unfolding execution_to_string
numbers_in-execution_to_string e =
    rw
      (append_assoc (spaces (2 - length (digits_of e.mode)) ++ digits_of e.mode) (42 ∷ [])
        (digits_of e.times ++ spaces (3 - length (digits_of e.times))))
      (numbers_in-pair (2 - length (digits_of e.mode)) (3 - length (digits_of e.times)) e.mode
        e.times)

-- Two executions with the same text are the same.
pub execution_to_string-inj :
    (a b : ModeExecution) → execution_to_string a ≡ execution_to_string b → a ≡ b
execution_to_string-inj a b h =
    let shown =
      sym (numbers_in-execution_to_string a) ∙ ap numbers_in h ∙ numbers_in-execution_to_string b in
    let modes : a.mode ≡ b.mode = cc in
    let times : a.times ≡ b.times = cc in ap₂ execution modes times

-- The text of one entry of a sequence.
abbrev entry_text : ModeExecution → Text
entry_text e =
    pad right_side 2 (digits_of (e.mode % unsigned_mod)) ++ 42 ∷ pad left_side 3 (digits_of e.times)

abbrev entries_text : List ModeExecution → Text
entries_text [] = []
entries_text (e ∷ s) = entry_text e ++ 32 ∷ entries_text s

-- The numbers that the text of a sequence shows: it casts a mode to `unsigned`.
abbrev pub shown_numbers : List ModeExecution → List ℕ
shown_numbers [] = []
shown_numbers (e ∷ s) = e.mode % unsigned_mod ∷ e.times ∷ shown_numbers s

abbrev after_entry : ModeExecution → Stream → Stream
after_entry e ss = record ss {
  text =
      (((ss.text ++ pad right_side 2 (digits_of (e.mode % unsigned_mod))) ++ 42 ∷ [])
        ++ pad left_side 3 (digits_of e.times))
      ++ 32 ∷ [];
  width = 0;
  adjust = left_side;
}

reassociated :
    (t a b u : Text)
    → ((((t ++ a) ++ 42 ∷ []) ++ b) ++ 32 ∷ []) ++ u ≡ t ++ ((a ++ 42 ∷ b) ++ 32 ∷ u)
reassociated t a b u = simp append_assoc

put_sequence-cons :
    (e : ModeExecution) (s : List ModeExecution) (size i : ℕ) (ss : Stream)
    → i < size
    → put_sequence size i (e ∷ s) ss ≡ put_sequence size (i + 1) s (after_entry e ss)
unfolding put_sequence
put_sequence-cons e s size i ss h =
    let inside : ltb i size ≡ true = ground arith in rw (put_sequence, inside) refl

put_sequence-text :
    (s : List ModeExecution) (size i : ℕ) (ss : Stream)
    → i + length s ≤ size
    → (put_sequence size i s ss).text ≡ ss.text ++ entries_text s
unfolding put_sequence
put_sequence-text [] size i ss h = sym (append-nil ss.text)
put_sequence-text (e ∷ s) size i ss h = rw (put_sequence-cons e s size i ss (omega arith)) (
    put_sequence-text s size (i + 1) (after_entry e ss) (omega arith)
    ∙ reassociated ss.text _ _ (entries_text s))

put_sequence-width :
    (s : List ModeExecution) (size i : ℕ) (ss : Stream)
    → i + length s ≤ size
    → ss.width ≡ 0
    → (put_sequence size i s ss).width ≡ 0
unfolding put_sequence
put_sequence-width [] size i ss h w = w
put_sequence-width (e ∷ s) size i ss h w =
    rw (put_sequence-cons e s size i ss (omega arith))
      (put_sequence-width s size (i + 1) (after_entry e ss) (omega arith) refl)

-- The end of the text of a solution.
put_sequence-end :
    (s : List ModeExecution) (ss : Stream)
    → ss.width ≡ 0
    → (ss << put "sequence:[ " << put_sequence (length s) 0 s << put " ]}").text
      ≡ (ss.text ++ codes "sequence:") ++ 91 ∷ 32 ∷ (entries_text s ++ codes " ]}")
put_sequence-end s ss h =
    rw
      (
        put_sequence-width s (length s) 0 (put "sequence:[ " ss) (omega arith) refl,
        pad-zero (put_sequence (length s) 0 s (put "sequence:[ " ss)).adjust (codes " ]}"),
        put_sequence-text s (length s) 0 (put "sequence:[ " ss) (omega arith),
        h,
        pad-zero ss.adjust (codes "sequence:[ "),
      )
      (simp append_assoc)

-- What follows the last occurrence of a character.
abbrev pub after_last : ℕ → Text → Option Text
after_last c [] = none
after_last c (x ∷ t) = elim (after_last c t) [
  | some rest ↦ some rest
  | none ↦ if x == c then some t else none
]

after_last-none : (c : ℕ) (t : Text) → Omits c t → after_last c t ≡ none
after_last-none c [] h = refl
after_last-none c (x ∷ t) (h, hs) = rw (after_last-none c t hs, h) refl

after_last-found : (c : ℕ) (t u : Text) → Omits c u → after_last c (t ++ c ∷ u) ≡ some u
after_last-found c [] u h =
    let same : (c == c) ≡ true = ground arith in rw (after_last-none c u h, same) refl
after_last-found c (x ∷ t) u h = rw (after_last-found c t u h) refl

entries_text-Omits : (s : List ModeExecution) → Omits 91 (entries_text s)
entries_text-Omits [] = tt
entries_text-Omits (e ∷ s) =
    All-append _ (entry_text e) _
      (All-append _ (pad right_side 2 (digits_of (e.mode % unsigned_mod))) _
        (pad-digits_of-Omits right_side 2 (e.mode % unsigned_mod))
        (refl, pad-digits_of-Omits left_side 3 e.times))
      (refl, entries_text-Omits s)

numbers_in-entries_text :
    (s : List ModeExecution) → numbers_in (entries_text s ++ codes " ]}") ≡ shown_numbers s
numbers_in-entries_text [] = refl
numbers_in-entries_text (e ∷ s) =
    ap numbers_in (append_assoc (entry_text e) (32 ∷ entries_text s) (codes " ]}"))
    ∙ numbers_in-pairs (2 - length (digits_of (e.mode % unsigned_mod)))
        (3 - length (digits_of e.times)) (e.mode % unsigned_mod) e.times
        (entries_text s ++ codes " ]}")
    ∙ ap (λ t. e.mode % unsigned_mod ∷ e.times ∷ t) (numbers_in-entries_text s)

abbrev numbers_of : Option Text → Option (List ℕ)
numbers_of (some rest) = some (numbers_in rest)
numbers_of none = none

-- The numbers after the last `[` of a text.
abbrev pub sequence_in : Text → Option (List ℕ)
sequence_in t = numbers_of (after_last 91 t)

sequence_in-end :
    (s : List ModeExecution) (ss : Stream)
    → ss.width ≡ 0
    → sequence_in (ss << put "sequence:[ " << put_sequence (length s) 0 s << put " ]}").text
      ≡ some (shown_numbers s)
sequence_in-end s ss h =
    let rest = 32 ∷ (entries_text s ++ codes " ]}") in
    let omits : Omits 91 rest =
      (refl, All-append _ (entries_text s) _ (entries_text-Omits s) (refl, (refl, (refl, tt)))) in
    ap sequence_in (put_sequence-end s ss h)
    ∙ ap numbers_of (after_last-found 91 (ss.text ++ codes "sequence:") rest omits)
    ∙ ap some (numbers_in-entries_text s)

shown_numbers-inj :
    (s t : List ModeExecution)
    → All (λ e. e.mode < unsigned_mod) s
    → All (λ e. e.mode < unsigned_mod) t
    → shown_numbers s ≡ shown_numbers t
    → s ≡ t
shown_numbers-inj [] [] hs ht h = refl
shown_numbers-inj [] (f ∷ t) hs ht h = cc
shown_numbers-inj (e ∷ s) [] hs ht h = cc
shown_numbers-inj (e ∷ s) (f ∷ t) (he, hs) (hf, ht) h =
    let casts : e.mode % unsigned_mod ≡ f.mode % unsigned_mod = cc in
    let times : e.times ≡ f.times = cc in
    let tails : shown_numbers s ≡ shown_numbers t = cc in
    let modes : e.mode ≡ f.mode = omega arith in
    ap₂ ◌∷◌ (ap₂ execution modes times) (shown_numbers-inj s t hs ht tails)

module _ {ℓ} {Real State Resources : Type ℓ} ⦃p : Printable Real⦄ ⦃r : Shown Resources⦄ where
  -- Whatever the resources and the distance print, the numbers after the last `[` of the text of a
  -- solution are, in their order, the modes of its sequence, each modulo 2^32, and how often each
  -- is executed.
  pub sequence_in-solution_to_string :
      (s : Solution Real State Resources)
      → sequence_in (solution_to_string s) ≡ some (shown_numbers s.sequence)
  unfolding solution_to_string
  sequence_in-solution_to_string s = sequence_in-end s.sequence _ refl

  -- If no mode of two solutions reaches 2^32 and their texts are the same, then so are their
  -- sequences.
  pub sequence-solution_to_string :
      (a b : Solution Real State Resources)
      → All (λ e. e.mode < unsigned_mod) a.sequence
      → All (λ e. e.mode < unsigned_mod) b.sequence
      → solution_to_string a ≡ solution_to_string b
      → a.sequence ≡ b.sequence
  sequence-solution_to_string a b ha hb h =
      let shown =
        sym (sequence_in-solution_to_string a)
        ∙ ap sequence_in h
        ∙ sequence_in-solution_to_string b in
      shown_numbers-inj a.sequence b.sequence ha hb cc
