-- ===== src/Base/Slices.antt =====
-- Parts of parts of byte arrays, and of arrays that were put together.
use Prim.Native.Nat.{ℕ, zero, suc, ◌+◌, ◌-◌, ◌≤◌}
use mathlib.Core.Path.{◌≡◌, refl, sym, ap, ◌∙◌}
use mathlib.Core.List.{List, [], ◌∷◌, ◌++◌}
use native.Mathlib.Omega.{arith}
use mxfs.Base.Bytes.{length, take, drop, slice, take-take}

module _ {ℓ} {A : Type ℓ} where
  take-nil : (n : ℕ) → take {A = A} n [] ≡ []
  take-nil zero = refl
  take-nil (suc n) = refl

  drop-nil : (n : ℕ) → drop {A = A} n [] ≡ []
  drop-nil zero = refl
  drop-nil (suc n) = refl

  drop-take : (a b : ℕ) (xs : List A) → a ≤ b → drop a (take b xs) ≡ take (b - a) (drop a xs)
  drop-take zero b xs h = ap (λ n. take n xs) (omega arith)
  drop-take (suc a) zero xs h = absurd (omega arith)
  drop-take (suc a) (suc b) [] h =
      let n : ℕ = suc b - suc a in let e : [] ≡ take {A = A} n [] = sym (take-nil n) in e
  drop-take (suc a) (suc b) (x ∷ xs) h =
      let e : b - a ≡ suc b - suc a = omega arith in
      drop-take a b xs (omega (arith, h)) ∙ ap (λ n. take n (drop a xs)) e

  drop-drop : (a b : ℕ) (xs : List A) → drop a (drop b xs) ≡ drop (b + a) xs
  drop-drop a zero xs = ap (λ n. drop n xs) (omega arith)
  drop-drop a (suc b) [] = drop-nil a ∙ sym (drop-nil (suc b + a))
  drop-drop a (suc b) (x ∷ xs) =
      let e : suc (b + a) ≡ suc b + a = omega arith in
      drop-drop a b xs ∙ ap (λ n. drop n (x ∷ xs)) e

  -- A part of a part.
  pub slice-slice :
      (a n o m : ℕ) (xs : List A) → a + n ≤ m → slice a n (slice o m xs) ≡ slice (o + a) n xs
  slice-slice a n o m xs h =
      ap (take n) (drop-take a m (drop o xs) (omega (arith, h)))
      ∙ take-take n (m - a) (drop a (drop o xs)) (omega (arith, h))
      ∙ ap (take n) (drop-drop a o xs)

  skip-append : (o : ℕ) (xs ys : List A) → drop (length xs + o) (xs ++ ys) ≡ drop o ys
  skip-append o [] ys = ap (λ n. drop n ys) (omega arith)
  skip-append o (x ∷ xs) ys =
      let e : suc (length xs) + o ≡ suc (length xs + o) = omega arith in
      ap (λ n. drop n (x ∷ (xs ++ ys))) e ∙ skip-append o xs ys

  front-append : (m : ℕ) (xs ys : List A) → m ≤ length xs → take m (xs ++ ys) ≡ take m xs
  front-append zero xs ys h = refl
  front-append (suc m) [] ys h = absurd (omega arith)
  front-append (suc m) (x ∷ xs) ys h = ap (λ t. x ∷ t) (front-append m xs ys (omega (arith, h)))

  inside-append :
      (o m : ℕ) (xs ys : List A) → o + m ≤ length xs → slice o m (xs ++ ys) ≡ slice o m xs
  inside-append zero m xs ys h = front-append m xs ys (omega (arith, h))
  inside-append (suc o) zero xs ys h = refl
  inside-append (suc o) (suc m) [] ys h = absurd (omega arith)
  inside-append (suc o) (suc m) (x ∷ xs) ys h = inside-append o (suc m) xs ys (omega (arith, h))

  -- A part of the middle of three.
  pub slice_middle :
      (o m : ℕ) (xs ys zs : List A)
      → o + m ≤ length ys
      → slice (length xs + o) m (xs ++ (ys ++ zs)) ≡ slice o m ys
  slice_middle o m xs ys zs h =
      ap (take m) (skip-append o xs (ys ++ zs)) ∙ inside-append o m ys zs h
