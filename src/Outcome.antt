-- ===== src/Outcome.antt =====
-- How a C++ routine over a byte buffer ends: it returns, it reads outside the buffer, it stops the
-- program, or the fuel that bounds its loop in the model runs out.
use mxfs.Base.{
  ℕ, ◌+◌, ◌≤◌, ◌≡◌, ◌≢◌, refl, Bool, true, false, Bool-cases, inl, inr, List, length, leb, le→leb,
  if◌then◌else◌, slice,
}

pub data Outcome {ℓ} (A : Type ℓ) : Type ℓ where
  returns : A → Outcome A
  fault : Outcome A
  aborted : Outcome A
  stuck : Outcome A

infixl 5 ◌>>=◌ ◌>>◌
abbrev pub ◌>>=◌ {ℓ κ} : {A : Type ℓ} {B : Type κ} → Outcome A → (A → Outcome B) → Outcome B
returns a >>= f = f a
fault >>= f = fault
aborted >>= f = aborted
stuck >>= f = stuck

abbrev pub ◌>>◌ {ℓ κ} : {A : Type ℓ} {B : Type κ} → Outcome A → Outcome B → Outcome B
m >> k = m >>= λ _. k

-- The `n` bytes at offset `off` of a buffer; past its end the behaviour is undefined.
unfoldable pub load : ℕ → ℕ → List ℕ → Outcome (List ℕ)
load off n buf = if leb (off + n) (length buf) then returns (slice off n buf) else fault

pub load_inside :
    (off n : ℕ) (buf : List ℕ) → off + n ≤ length buf → load off n buf ≡ returns (slice off n buf)
unfolding load
load_inside off n buf h = rw (le→leb (off + n) (length buf) h)

-- What keeps a computation from running out of fuel.
pub load-ne-stuck {ℓ} :
    {A : Type ℓ} (off n : ℕ) (buf : List ℕ) (f : List ℕ → Outcome A)
    → ((m : List ℕ) → f m ≢ stuck)
    → load off n buf >>= f ≢ stuck
unfolding load
load-ne-stuck off n buf f h = elim (Bool-cases (leb (off + n) (length buf))) [
  | inl e ↦ rw e (h (slice off n buf))
  | inr e ↦ rw e (λ q. cc q)
]

pub choose-ne-stuck {ℓ} :
    {A : Type ℓ} (b : Bool) (m n : Outcome A)
    → m ≢ stuck
    → n ≢ stuck
    → (elim b [ false ↦ m | true ↦ n ]) ≢ stuck
choose-ne-stuck true m n p q = q
choose-ne-stuck false m n p q = p

pub bind-ne-stuck {ℓ κ} :
    {A : Type ℓ} {B : Type κ} (m : Outcome A) (f : A → Outcome B)
    → m ≢ stuck
    → ((a : A) → f a ≢ stuck)
    → m >>= f ≢ stuck
bind-ne-stuck (returns a) f h g = g a
bind-ne-stuck fault f h g = λ q. cc q
bind-ne-stuck aborted f h g = λ q. cc q
bind-ne-stuck stuck f h g = absurd (h refl)

pub if-ne-stuck {ℓ} :
    {A : Type ℓ} (b : Bool) (m n : Outcome A) → m ≢ stuck → n ≢ stuck → (if b then m else n) ≢ stuck
if-ne-stuck true m n p q = p
if-ne-stuck false m n p q = q
