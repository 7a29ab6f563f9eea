-- ===== src/Tapping/Systems.antt =====
-- examples/tapping/parameters.hpp and examples/tapping/builder.hpp: the parameters of a tapping
-- machine, and the modes that are built from them. The vectors and matrices of fsmlib, its
-- discretisation, and the numbers that a literal with a fraction or an exponent stands for are
-- parameters.
use flexman.Base.{ℕ, List, [], ◌∷◌}
use flexman.Double.{Double, ◌⊗◌, ◌⊘◌}
use flexman.Core.Execution.{Mode}

-- `decimal n k` is the literal of `n` times ten to the minus `k`.
pub record Literals {ℓ} (Real : Type ℓ) : Type ℓ where
  pub decimal : ℕ → ℕ → Real
  pub negate : Real → Real

-- `fsmlib::control::StateSpace`
pub record StateSpace {ℓ} (Matrix : Type ℓ) : Type ℓ where
  pub a : Matrix
  pub b : Matrix
  pub c : Matrix
  pub d : Matrix

-- `fsmlib::control::DiscreteStateSpace`
pub record DiscreteStateSpace {ℓ} (Real Matrix : Type ℓ) : Type ℓ where
  pub a : Matrix
  pub b : Matrix
  pub c : Matrix
  pub d : Matrix
  pub sample_time : Real

-- A vector and a matrix of fsmlib from its rows, and `fsmlib::control::c2d`.
pub record Control {ℓ} (Real Vector Matrix : Type ℓ) : Type ℓ where
  pub of_entries : List Real → Vector
  pub of_rows : List (List Real) → Matrix
  pub c2d : StateSpace Matrix → Real → DiscreteStateSpace Real Matrix

pub record Parameters {ℓ} (Real : Type ℓ) : Type ℓ where
  pub v : Real
  pub r : Real
  pub l : Real
  pub j : Real
  pub kb : Real
  pub ke : Real
  pub kt : Real
  pub fd : Real
  pub fs : Real
  pub ts : Real
  pub gr : Real
  pub sc : Real
  pub st : Real

module _ {ℓ} {Real : Type ℓ} ⦃lit : Literals Real⦄ where
  unfoldable pub default_parameters : Parameters Real
  default_parameters = record {
    v = lit.decimal 480 1;
    r = lit.decimal 12 1;
    l = lit.decimal 50 5;
    j = lit.decimal 2 1;
    kb = lit.decimal 5 1;
    ke = lit.decimal 11 1;
    kt = lit.decimal 12 1;
    fd = lit.decimal 2 2;
    fs = lit.decimal 15 2;
    ts = lit.decimal 15 1;
    gr = lit.decimal 30 0;
    sc = lit.decimal 5 2;
    st = lit.decimal 2 1;
  }

module _ {ℓ} {Real Vector Matrix : Type ℓ} ⦃d : Double Real⦄ ⦃lit : Literals Real⦄
    ⦃ctl : Control Real Vector Matrix⦄ where
  unfoldable pub make_continuous_mode : Parameters Real → (id : ℕ) → Mode (StateSpace Matrix) Vector
  make_continuous_mode p id =
      let zero = lit.decimal 0 1 in
      let none = d.of_ℕ 0 in
      let one = d.of_ℕ 1 in
      let r2d = lit.decimal 57_295_779_513 9 ⊘ d.of_ℕ 360 ⊗ p.ts ⊗ p.gr in
      record {
        id = id;
        system = record {
          a = ctl.of_rows (
              (lit.negate p.kb ⊘ p.j ∷ p.kt ⊘ p.j ∷ lit.negate p.fd ⊗ p.gr ⊘ p.j ∷ [])
              ∷ (lit.negate p.ke ⊘ p.l ∷ lit.negate p.r ⊘ p.l ∷ zero ∷ [])
              ∷ (r2d ∷ zero ∷ zero ∷ [])
              ∷ []);
          b = ctl.of_rows (
              (none ∷ lit.negate p.gr ⊘ p.j ∷ [])
              ∷ (one ⊘ p.l ∷ zero ∷ [])
              ∷ (zero ∷ zero ∷ [])
              ∷ []);
          c =
              ctl.of_rows (
                (one ∷ none ∷ none ∷ [])
                ∷ (none ∷ one ∷ none ∷ [])
                ∷ (none ∷ none ∷ one ∷ [])
                ∷ []);
          d = ctl.of_rows ((none ∷ none ∷ []) ∷ (none ∷ none ∷ []) ∷ (none ∷ none ∷ []) ∷ []);
        };
        input = ctl.of_entries (p.v ∷ p.fs ∷ []);
      }

  unfoldable pub make_discrete_mode :
      Parameters Real → (id : ℕ) (sample_time : Real) → Mode (DiscreteStateSpace Real Matrix) Vector
  make_discrete_mode p id sample_time =
      let ct_mode = make_continuous_mode p id in
      record { id = id; input = ct_mode.input; system = ctl.c2d ct_mode.system sample_time }
