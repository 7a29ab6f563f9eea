-- ===== src/Printing/Lines.antt =====
-- How many lines the texts of solutions, fronts and results have.
use flexman.Base.{
  ℕ, zero, suc, Bool, ◌+◌, ◌-◌, ◌/◌, ◌%◌, ◌≡◌, refl, ◌∙◌, false, List, [], ◌∷◌, ◌++◌, length,
  count_if, ltb, ◌==◌, arith, Bool-cases, inl, inr, unsigned_mod,
}
use flexman.Double.{Double}
use flexman.Core.Execution.{ModeExecution}
use flexman.Core.Solution.{Solution, ParetoFront, Result}
use flexman.Stream.{
  Text, Stream, Printable, Adjust, left_side, right_side, spaces, pad, digits, digits_of,
}
use flexman.Stream.Decimal.{digits_one, digits_more}
use flexman.Printing.{
  Shown, put_sequence, put_solution, put_solutions, put_pareto_front, put_pareto_fronts,
  solution_to_string, pareto_front_to_string, result_to_string,
}

-- The line feeds of a text.
abbrev pub lines : Text → ℕ
lines = count_if (λ c. c == 10)

pub lines-append : (t u : Text) → lines (t ++ u) ≡ lines t + lines u
lines-append [] u = omega arith
lines-append (c ∷ t) u = omega (arith, lines-append t u)

pub lines-spaces : (n : ℕ) → lines (spaces n) ≡ 0
lines-spaces zero = refl
lines-spaces (suc n) = omega (arith, lines-spaces n)

pub lines-pad : (a : Adjust) (w : ℕ) (t : Text) → lines (pad a w t) ≡ lines t
lines-pad left_side w t =
    omega (arith, lines-append t (spaces (w - length t)), lines-spaces (w - length t))
lines-pad right_side w t =
    omega (arith, lines-append (spaces (w - length t)) t, lines-spaces (w - length t))

lines-digits : (fuel n : ℕ) → lines (digits fuel n) ≡ 0
lines-digits zero n = refl
lines-digits (suc fuel) n = elim (Bool-cases (ltb n 10)) [
  | inl e ↦
      let plain : (48 + n == 10) ≡ false = ground arith in rw (digits_one fuel n e, plain) refl
  | inr e ↦
      let plain : (48 + n % 10 == 10) ≡ false = ground arith in
      rw
        (
          digits_more fuel n e,
          lines-append (digits fuel (n / 10)) ((48 + n % 10) ∷ []),
          lines-digits fuel (n / 10),
          plain,
        )
        refl
]

pub lines-digits_of : (n : ℕ) → lines (digits_of n) ≡ 0
unfolding digits_of
lines-digits_of n = lines-digits (suc n) n

-- What has no line feed adds no line.
keeps : (t u : Text) → lines u ≡ 0 → lines (t ++ u) ≡ lines t
keeps t u h = omega (arith, lines-append t u)

lines-number : (a : Adjust) (w n : ℕ) → lines (pad a w (digits_of n)) ≡ 0
lines-number a w n = lines-pad a w (digits_of n) ∙ lines-digits_of n

lines-entry :
    (t a b : Text) → lines a ≡ 0 → lines b ≡ 0 → lines (((t ++ a) ++ 42 ∷ []) ++ b) ≡ lines t
lines-entry t a b h k =
    keeps ((t ++ a) ++ 42 ∷ []) b k ∙ keeps (t ++ a) (42 ∷ []) refl ∙ keeps t a h

lines-put_sequence :
    (s : List ModeExecution) (size i : ℕ) (ss : Stream)
    → lines (put_sequence size i s ss).text ≡ lines ss.text
unfolding put_sequence
lines-put_sequence [] size i ss = refl
lines-put_sequence (e ∷ s) size i ss =
    let mode = pad right_side 2 (digits_of (e.mode % unsigned_mod)) in
    let times = pad left_side 3 (digits_of e.times) in
    let entry : lines (((ss.text ++ mode) ++ 42 ∷ []) ++ times) ≡ lines ss.text =
      lines-entry ss.text mode times (lines-number right_side 2 (e.mode % unsigned_mod))
        (lines-number left_side 3 e.times) in
    elim (Bool-cases (ltb i size)) [
      | inl h ↦
          rw (put_sequence, h)
            (lines-put_sequence s size (i + 1) _ ∙ keeps _ (32 ∷ []) refl ∙ entry)
      | inr h ↦ rw (put_sequence, h) (lines-put_sequence s size (i + 1) _ ∙ entry)
    ]

-- The lines of the fronts of a result.
abbrev pub front_lines {ℓ} :
    {Real State Resources : Type ℓ} → List (ParetoFront Real State Resources) → ℕ
front_lines [] = 0
front_lines (f ∷ fronts) = 7 + length f.solutions + front_lines fronts

module _ {ℓ} {Real State Resources : Type ℓ} ⦃p : Printable Real⦄ ⦃r : Shown Resources⦄
    (unbroken : (is_fixed : Bool) (precision : ℕ) (x : Real)
      → lines (p.show is_fixed precision x) ≡ 0)
    (unbroken_resources : (x : Resources) (ss : Stream)
      → lines (r.put_resources x ss).text ≡ lines ss.text) where
  lines-solution_to_string : (s : Solution Real State Resources) → lines (solution_to_string s) ≡ 0
  unfolding solution_to_string
  lines-solution_to_string s =
      simp (lines-append, lines-pad, lines-put_sequence, unbroken_resources, unbroken, lines-spaces)
        (omega arith)

  solutions_lines :
      (solutions : List (Solution Real State Resources)) (ss : Stream)
      → lines (put_solutions solutions ss).text ≡ lines ss.text + length solutions
  unfolding put_solutions put_solution
  solutions_lines [] ss = omega arith
  solutions_lines (s ∷ solutions) ss =
      solutions_lines solutions _
      ∙ simp (lines-append, lines-pad, lines-solution_to_string) (omega arith)

  lines-pareto_front_to_string :
      (f : ParetoFront Real State Resources)
      → lines (pareto_front_to_string f) ≡ 7 + length f.solutions
  unfolding pareto_front_to_string
  lines-pareto_front_to_string f =
      simp (lines-append, lines-pad, unbroken, lines-digits_of, solutions_lines, lines-spaces)
        (omega arith)

  fronts_lines :
      (fronts : List (ParetoFront Real State Resources)) (ss : Stream)
      → lines (put_pareto_fronts fronts ss).text ≡ lines ss.text + front_lines fronts
  unfolding put_pareto_fronts put_pareto_front
  fronts_lines [] ss = omega arith
  fronts_lines (f ∷ fronts) ss =
      fronts_lines fronts _
      ∙ simp (lines-append, lines-pad, lines-pareto_front_to_string) (omega arith)

  -- If numbers and resources print no line feed, the text of a result has four lines of its own, and
  -- for each front seven and one for each solution.
  pub lines-result_to_string :
      ⦃d : Double Real⦄ (result : Result Real State Resources)
      → lines (result_to_string result) ≡ 4 + front_lines result.pareto_fronts
  unfolding result_to_string
  lines-result_to_string result =
      simp (lines-append, lines-pad, unbroken, fronts_lines, lines-spaces) (omega arith)
