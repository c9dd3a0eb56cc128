-- ===== src/Base/Bytes.antt =====
-- Byte arrays as lists measured by native numbers: `memcpy` out of and into them.
use Prim.Native.Nat.{ℕ, zero, suc, ◌+◌, ◌-◌, ◌≤◌, min}
use mathlib.Core.Path.{◌≡◌, refl, ap, ◌∙◌}
use mathlib.Core.List.{List, [], ◌∷◌, ◌++◌}
use native.Mathlib.Omega.{arith}

module _ {ℓ} {A : Type ℓ} where
  abbrev pub length : List A → ℕ
  length [] = 0
  length (x ∷ xs) = suc (length xs)

  abbrev pub take : ℕ → List A → List A
  take zero xs = []
  take (suc n) [] = []
  take (suc n) (x ∷ xs) = x ∷ take n xs

  abbrev pub drop : ℕ → List A → List A
  drop zero xs = xs
  drop (suc n) [] = []
  drop (suc n) (x ∷ xs) = drop n xs

  abbrev pub replicate : ℕ → A → List A
  replicate zero a = []
  replicate (suc n) a = a ∷ replicate n a

  -- The `n` items at offset `off`.
  abbrev pub slice : ℕ → ℕ → List A → List A
  slice off n xs = take n (drop off xs)

  -- `memcpy(&xs[off], ys, length ys)`, for `off` inside `xs`.
  abbrev pub splice : ℕ → List A → List A → List A
  splice off ys xs = take off xs ++ (ys ++ drop (off + length ys) xs)

  abbrev pub All {κ} : (A → Type κ) → List A → Type κ
  All P [] = Unit {κ}
  All P (x ∷ xs) = P x × All P xs

  pub length-append : (xs ys : List A) → length (xs ++ ys) ≡ length xs + length ys
  length-append [] ys = omega arith
  length-append (x ∷ xs) ys = omega (arith, length-append xs ys)

  pub length-replicate : (n : ℕ) (a : A) → length (replicate n a) ≡ n
  length-replicate zero a = refl
  length-replicate (suc n) a = ap suc (length-replicate n a)

  pub length-take : (n : ℕ) (xs : List A) → length (take n xs) ≡ min n (length xs)
  length-take zero xs = omega arith
  length-take (suc n) [] = omega arith
  length-take (suc n) (x ∷ xs) = omega (arith, length-take n xs)

  pub length-drop : (n : ℕ) (xs : List A) → length (drop n xs) ≡ length xs - n
  length-drop zero xs = omega arith
  length-drop (suc n) [] = omega arith
  length-drop (suc n) (x ∷ xs) = omega (arith, length-drop n xs)

  pub take-take : (n m : ℕ) (xs : List A) → n ≤ m → take n (take m xs) ≡ take n xs
  take-take zero m xs h = refl
  take-take (suc n) zero xs h = absurd (omega arith)
  take-take (suc n) (suc m) [] h = refl
  take-take (suc n) (suc m) (x ∷ xs) h = ap (λ t. x ∷ t) (take-take n m xs (omega arith))

  pub take-replicate : (n k : ℕ) (a : A) → n ≤ k → take n (replicate k a) ≡ replicate n a
  take-replicate zero k a h = refl
  take-replicate (suc n) zero a h = absurd (omega arith)
  take-replicate (suc n) (suc k) a h = ap (λ t. a ∷ t) (take-replicate n k a (omega arith))

  -- A list that is padded, cut at the length it is filled up to.
  pub take_padded :
      (n k : ℕ) (a : A) (xs : List A)
      → length xs ≤ n
      → n ≤ length xs + k
      → take n (xs ++ replicate k a) ≡ xs ++ replicate (n - length xs) a
  take_padded n k a [] h q =
      let e : n - 0 ≡ n = omega arith in rw e (take-replicate n k a (omega arith))
  take_padded zero k a (x ∷ xs) h q = absurd (omega arith)
  take_padded (suc n) k a (x ∷ xs) h q =
      let e : suc n - suc (length xs) ≡ n - length xs = omega arith in
      rw e (ap (λ t. x ∷ t) (take_padded n k a xs (omega arith) (omega arith)))

  pub take-append : (xs ys : List A) → take (length xs) (xs ++ ys) ≡ xs
  take-append [] ys = refl
  take-append (x ∷ xs) ys = ap (λ t. x ∷ t) (take-append xs ys)

  pub drop-append : (xs ys : List A) → drop (length xs) (xs ++ ys) ≡ ys
  drop-append [] ys = refl
  drop-append (x ∷ xs) ys = drop-append xs ys

  -- The same at a number that is only equal to the length.
  pub take-append_of : (n : ℕ) (xs ys : List A) → n ≡ length xs → take n (xs ++ ys) ≡ xs
  take-append_of n xs ys e = rw e (take-append xs ys)

  pub drop-append_of : (n : ℕ) (xs ys : List A) → n ≡ length xs → drop n (xs ++ ys) ≡ ys
  drop-append_of n xs ys e = rw e (drop-append xs ys)

  pub slice-append_of :
      (off n : ℕ) (xs ys zs : List A)
      → off ≡ length xs
      → n ≡ length ys
      → slice off n (xs ++ (ys ++ zs)) ≡ ys
  slice-append_of off n xs ys zs p q =
      ap (take n) (drop-append_of off xs (ys ++ zs) p) ∙ take-append_of n ys zs q

  pub take_all : (n : ℕ) (xs : List A) → length xs ≤ n → take n xs ≡ xs
  take_all zero [] h = refl
  take_all zero (x ∷ xs) h = absurd (omega arith)
  take_all (suc n) [] h = refl
  take_all (suc n) (x ∷ xs) h = ap (λ t. x ∷ t) (take_all n xs (omega arith))

  pub drop_all : (n : ℕ) (xs : List A) → length xs ≤ n → drop n xs ≡ []
  drop_all zero [] h = refl
  drop_all zero (x ∷ xs) h = absurd (omega arith)
  drop_all (suc n) [] h = refl
  drop_all (suc n) (x ∷ xs) h = drop_all n xs (omega arith)

  -- Writing just behind a prefix keeps the prefix and puts the written items next to it.
  pub splice-append :
      (off : ℕ) (xs ys zs : List A)
      → off ≡ length xs
      → splice off ys (xs ++ zs) ≡ xs ++ (ys ++ drop (length ys) zs)
  splice-append off xs ys zs e =
      rw (take-append_of off xs zs e) (ap (λ t. xs ++ (ys ++ t)) (rw e (skip xs)))
    where
      skip : (ws : List A) → drop (length ws + length ys) (ws ++ zs) ≡ drop (length ys) zs
      skip [] = ap (λ n. drop n zs) (omega arith)
      skip (w ∷ ws) =
          let e : length (w ∷ ws) + length ys ≡ suc (length ws + length ys) = omega arith in
          rw e (skip ws)

  pub length-splice :
      (off : ℕ) (ys xs : List A)
      → off + length ys ≤ length xs
      → length (splice off ys xs) ≡ length xs
  length-splice off ys xs h = omega (
    arith,
    length-append (take off xs) (ys ++ drop (off + length ys) xs),
    length-append ys (drop (off + length ys) xs),
    length-take off xs,
    length-drop (off + length ys) xs,
  )

  pub All-append {κ} : (P : A → Type κ) (xs ys : List A) → All P xs → All P ys → All P (xs ++ ys)
  All-append P [] ys hx hy = hy
  All-append P (x ∷ xs) ys hx hy = (hx.0, All-append P xs ys hx.1 hy)

  abbrev pub concat : List (List A) → List A
  concat [] = []
  concat (xs ∷ xss) = xs ++ concat xss

  abbrev pub set : List A → ℕ → A → List A
  set [] i v = []
  set (x ∷ xs) zero v = v ∷ xs
  set (x ∷ xs) (suc i) v = x ∷ set xs i v
