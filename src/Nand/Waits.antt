-- ===== src/Nand/Waits.antt =====
-- The waiting loops of the drivers on the chip, and the properties that looks and pauses keep.
use mxfs.Base.{
  ℕ, zero, suc, ◌<◌, ◌≡◌, refl, sym, subst, ◌∙◌, true, [], ◌∷◌, arith, ltb, ltb→lt, ltb→le,
  Bool-cases, inl, inr,
}
use mxfs.Outcome.{Outcome, returns, ◌>>=◌}
use mxfs.Bus.{
  Bus, status_register, write_status_register, write_enable, read_register, wait_ready,
  wait_enabled, enable_write, write_register,
}
use mxfs.Nand.{IsW25n}

-- An outcome that returns a result of which `P` holds.
abbrev pub Ends {ℓ κ} : {A : Type ℓ} → (A → Type κ) → Outcome A → Type (ℓ ⊔ κ)
Ends {A = A} P m = (a : A) × (m ≡ returns a) × P a

pub bind-Ends {ℓ κ ι o} :
    {A : Type ℓ} {B : Type κ} (Q : A → Type ι) (P : B → Type o) (m : Outcome A) (f : A → Outcome B)
    → Ends Q m
    → ((a : A) → Q a → Ends P (f a))
    → Ends P (m >>= f)
bind-Ends Q P m f (a, e, q) g = subst (λ t. Ends P (t >>= f)) (sym e) (g a q)

positive : (n : ℕ) {k : ℕ} → k < n → (m : ℕ) × (n ≡ suc m)
positive zero h = absurd (omega arith)
positive (suc n) h = (n, refl)

module _ (bus : Bus) (limit : ℕ) (chip : IsW25n bus limit) where
  -- A property that looks and pauses keep.
  pub record IsKept {κ} (K : bus.State → Type κ) : Type κ where
    pub ask : (a : ℕ) (s : bus.State) → K s → K (read_register bus a s).1
    pub pause : (s : bus.State) → K s → K (bus.pause s)

  module _ {κ} (K : bus.State → Type κ) (kept : IsKept K) where
    abbrev pub Readied : bus.State → Type κ
    Readied t = (chip.busy t ≡ 0) × K t

    wait_fuel-Ends :
        (fuel : ℕ) (s : bus.State) → chip.busy s < fuel → K s → Ends Readied (wait_ready bus fuel s)
    unfolding wait_ready
    wait_fuel-Ends zero s h k = absurd (omega arith)
    wait_fuel-Ends (suc fuel) s h k =
        let s' = (read_register bus status_register s).1 in
        let k' = kept.ask status_register s k in
        let a = (chip.asking status_register s).0 in
        elim (Bool-cases (ltb 0 (chip.busy s))) [
          | inl e ↦
              rw (chip.tells_busy s, e, wait_ready)
                (wait_fuel-Ends fuel (bus.pause s')
                  (omega (arith, (chip.pausing s').0, a, h, ltb→lt 0 (chip.busy s) e))
                  (kept.pause s' k'))
          | inr e ↦
              rw (chip.tells_busy s, e, wait_ready)
                (s', refl, (omega (arith, a, ltb→le 0 (chip.busy s) e), k'))
        ]

    pub wait_ready-Ends : (s : bus.State) → K s → Ends Readied (wait_ready bus limit s)
    wait_ready-Ends s k = wait_fuel-Ends limit s (chip.bounded s) k

    abbrev pub Enabled : bus.State → Type κ
    Enabled t = (chip.busy t ≡ 0) × (chip.enabled t ≡ true) × K t

    wait_enabled-Ends :
        (fuel : ℕ) (s : bus.State)
        → chip.busy s ≡ 0
        → chip.enabled s ≡ true
        → K s
        → Ends Enabled (wait_enabled bus (suc fuel) s)
    unfolding wait_enabled
    wait_enabled-Ends fuel s z e k =
        let (a, b) = chip.asking status_register s in
        rw (chip.tells_busy s, z, chip.tells_enabled s, e, wait_enabled)
          (
            (read_register bus status_register s).1,
            refl,
            (omega (arith, a, z), b ∙ e, kept.ask status_register s k),
          )

    -- `WRITE_ENABLE` on a chip that is not busy.
    pub enable_write-Ends :
        (s : bus.State)
        → chip.busy s ≡ 0
        → K (bus.command (write_enable ∷ []) s)
        → Ends Enabled (enable_write bus limit s)
    unfolding enable_write
    enable_write-Ends s z k =
        let (n, e) = positive limit (chip.bounded s) in
        let (a, b) = chip.enabling s z in
        rw e (wait_enabled-Ends n (bus.command (write_enable ∷ []) s) a b k)

    pub write_register-Ends :
        (address value : ℕ) (s : bus.State)
        → K (bus.command (write_status_register ∷ (address ∷ (value ∷ []))) s)
        → Ends Readied (write_register bus limit address value s)
    unfolding write_register
    write_register-Ends address value s k = wait_ready-Ends _ k

  -- Nothing at all.
  abbrev pub Anything : bus.State → Type 0
  Anything s = Unit

  abbrev pub anything : IsKept Anything
  anything = record { ask = λ a s k. tt; pause = λ s k. tt }
