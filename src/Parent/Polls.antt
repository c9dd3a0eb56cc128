-- ===== src/Parent/Polls.antt =====
-- Loops that call a step until it is done: each phase of the step lasts as long as the chip is busy.
use mxfs.Base.{ℕ, zero, suc, ◌+◌, ◌≤◌, ◌<◌, ◌≡◌, refl, ap, ◌⊎◌, inl, inr, Bool, true, false, arith}
use mxfs.Outcome.{returns}
use mxfs.Nand.Waits.{Ends}
use mxfs.Parent.{repeat}

module _ {ℓ} {X : Type ℓ} (step : X → Bool × X) (busy : X → ℕ) where
  repeat_again : (g : ℕ) (x y : X) → step x ≡ (false, y) → repeat step (suc g) x ≡ repeat step g y
  unfolding repeat
  repeat_again g x y e =
      ap (λ (p : Bool × X). elim p.0 [ true ↦ returns p.1 | false ↦ repeat step g p.1 ]) e

  repeat_over : (g : ℕ) (x y : X) → step x ≡ (true, y) → repeat step (suc g) x ≡ returns y
  unfolding repeat
  repeat_over g x y e =
      ap (λ (p : Bool × X). elim p.0 [ true ↦ returns p.1 | false ↦ repeat step g p.1 ]) e

  -- From every state with `K`, `f` rounds are enough to end with `Q`.
  abbrev pub Reaches {κ ι} : (X → Type κ) → (X → Type ι) → ℕ → Type (ℓ ⊔ κ ⊔ ι)
  Reaches K Q f = (g : ℕ) (x : X) → K x → f ≤ g → Ends Q (repeat step g x)

  -- The step does nothing but look, and the chip is busy for less long.
  abbrev pub Stays {κ} : (X → Type κ) → X → Type (ℓ ⊔ κ)
  Stays K x = (y : X) × (step x ≡ (false, y)) × (busy y < busy x) × K y

  -- The step leaves the phase, and the loop.
  abbrev pub Moves {κ} : (X → Type κ) → X → Type (ℓ ⊔ κ)
  Moves K x = (y : X) × (step x ≡ (false, y)) × K y

  abbrev pub Leaves {κ} : (X → Type κ) → X → Type (ℓ ⊔ κ)
  Leaves Q x = (y : X) × (step x ≡ (true, y)) × Q y

  module _ {κ ι} (limit : ℕ) (bounded : (x : X) → busy x < limit) (K : X → Type κ)
      (Q : X → Type ι) where
    phase_rounds {o} :
        (P : X → Type o) (f : ℕ)
        → ((x : X) → K x → Stays K x ⊎ P x)
        → ((g : ℕ) (x : X) → P x → f ≤ g → Ends Q (repeat step (suc g) x))
        → (b g : ℕ) (x : X) → K x
        → busy x ≤ b
        → b + f < g
        → Ends Q (repeat step g x)
    unfolding repeat
    phase_rounds P f cases next b zero x k hb hg = absurd (omega arith)
    phase_rounds P f cases next zero (suc g) x k hb hg = elim (cases x k) [
      | inl (y, a, c, d) ↦ absurd (omega arith)
      | inr p ↦ next g x p (omega arith)
    ]
    phase_rounds P f cases next (suc b) (suc g) x k hb hg = elim (cases x k) [
      | inl (y, a, c, d) ↦
          rw (repeat_again g x y a)
            (phase_rounds P f cases next b g y d (omega (arith, c, hb)) (omega (arith, hg)))
      | inr p ↦ next g x p (omega arith)
    ]

    -- A phase, before what follows it.
    pub phase {o} :
        (K' : X → Type o) (f : ℕ)
        → ((x : X) → K x → Stays K x ⊎ Moves K' x)
        → Reaches K' Q f
        → Reaches K Q (limit + f)
    unfolding repeat
    phase K' f cases rest g x k h =
        phase_rounds (Moves K') f cases
          (λ g x (y, a, c) q. rw (repeat_again g x y a) (rest g y c q)) (busy x) g x k (omega arith)
          (omega (arith, bounded x, h))

    -- The last phase.
    pub last_phase : ((x : X) → K x → Stays K x ⊎ Leaves Q x) → Reaches K Q limit
    unfolding repeat
    last_phase cases g x k h =
        phase_rounds (Leaves Q) 0 cases (λ g x (y, a, c) q. rw (repeat_over g x y a) (y, refl, c))
          (busy x) g x k (omega arith) (omega (arith, bounded x, h))
