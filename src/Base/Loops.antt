-- ===== src/Base/Loops.antt =====
-- `for (n = start; n < end; n += step) s = body n s;` by recursion on the rounds left.
use Prim.Native.Nat.{ℕ, zero, suc, ◌+◌, ◌-◌, ◌/◌}

-- How many of start, start + step, … lie below the end.
abbrev pub rounds : ℕ → ℕ → ℕ → ℕ
rounds start end step = (end - start + (step - 1)) / step

unfoldable pub for_step {ℓ} : {S : Type ℓ} → ℕ → ℕ → ℕ → (ℕ → S → S) → S → S
for_step zero n step body s = s
for_step (suc k) n step body s = for_step k (n + step) step body (body n s)

-- What every round keeps, the loop keeps.
pub for_step_keeps {ℓ κ} :
    {S : Type ℓ} (P : S → Type κ) (k n step : ℕ) (body : ℕ → S → S) (s : S)
    → ((m : ℕ) (t : S) → P t → P (body m t))
    → P s
    → P (for_step k n step body s)
unfolding for_step
for_step_keeps P zero n step body s h p = p
for_step_keeps P (suc k) n step body s h p =
    for_step_keeps P k (n + step) step body (body n s) h (h n s p)

-- What every round keeps between the states of two loops, the loops keep.
pub for_step_relates {ℓ ℓ' κ} :
    {S : Type ℓ} {T : Type ℓ'} (P : S → T → Type κ) (k n step : ℕ) (f : ℕ → S → S) (g : ℕ → T → T)
    (s : S) (t : T)
    → ((m : ℕ) (x : S) (y : T) → P x y → P (f m x) (g m y))
    → P s t
    → P (for_step k n step f s) (for_step k n step g t)
unfolding for_step
for_step_relates P zero n step f g s t h p = p
for_step_relates P (suc k) n step f g s t h p =
    for_step_relates P k (n + step) step f g (f n s) (g n t) h (h n s t p)
