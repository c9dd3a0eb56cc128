-- ===== src/Format/Csv/Values.antt =====
-- The vectors of the csv command (sw/parent/src/format.cc) hold the values of the samples that were copied.
use mxfs.Base.{
  ℕ, zero, suc, ◌+◌, ◌-◌, ◌*◌, ◌≤◌, ◌<◌, ◌≡◌, refl, ap, subst, ◌∙◌, List, [], ◌∷◌, ◌++◌, arith,
  length, length-append, length-take, length-drop, drop, slice, slice-slice, slice_middle, ltb,
  lt→ltb, ltb→lt, ltb→le, Bool-cases, inl, inr, ==-refl, ne→==, from_le,
}
use mxfs.Outcome.{returns, load, load_inside, ◌>>=◌}
use mxfs.Format.Csv.{decbf_size, put_values, copy_samples}

-- The `j`th value of a payload, two bytes each.
abbrev pub value_at : List ℕ → ℕ → ℕ
value_at payload j = from_le (slice (j * 2) 2 payload)

put_below : (w : List ℕ) (i j : ℕ) (v : ℕ → ℕ) → j < i → put_values i w v j ≡ v j
unfolding put_values
put_below [] i j v h = refl
put_below (a ∷ []) i j v h = refl
put_below (a ∷ (b ∷ rest)) i j v h =
    put_below rest (suc i) j _ (omega (arith, h))
    ∙ rw (ne→== j i (λ e. absurd (omega (arith, h, e)))) refl

put_inside :
    (w : List ℕ) (i q : ℕ) (v : ℕ → ℕ)
    → suc q * 2 ≤ length w
    → put_values i w v (i + q) ≡ value_at w q
unfolding put_values
put_inside [] i q v h = absurd (omega (arith, h))
put_inside (a ∷ []) i q v h = absurd (omega (arith, h))
put_inside (a ∷ (b ∷ rest)) i zero v h =
    let e : i + 0 ≡ i = omega arith in
    put_below rest (suc i) (i + 0) _ (omega arith) ∙ rw (e, ==-refl i) refl
put_inside (a ∷ (b ∷ rest)) i (suc q) v h =
    let e : i + suc q ≡ suc i + q = omega arith in
    let f : suc q * 2 ≡ suc (suc (q * 2)) = omega arith in
    rw (e, f) (put_inside rest (suc i) q _ (omega (arith, h)))

-- The first `m` values of the vector are those of the payload.
abbrev pub Values : List ℕ → ℕ → (ℕ → ℕ) → Type 0
Values payload m v = (j : ℕ) → j < m → v j ≡ value_at payload j

module _ (dims : ℕ) (positive : 0 < dims) (rbf pre payload tail : List ℕ)
    (e : rbf ≡ pre ++ (payload ++ tail)) where
  -- One sample of `dims` values.
  one_sample :
      (n : ℕ) (v : ℕ → ℕ)
      → suc n * dims * 2 ≤ length payload
      → Values payload (n * dims) v
      → Values payload
          (suc n * dims)
          (put_values (n * dims) (slice (n * dims * 2) (dims * 2) payload) v)
  one_sample n v h old j low =
      let w = slice (n * dims * 2) (dims * 2) payload in
      let m : suc n * dims ≡ n * dims + dims = grind arith in
      let size : length w ≡ dims * 2 = omega (
        arith,
        length-take (dims * 2) (drop (n * dims * 2) payload),
        length-drop (n * dims * 2) payload,
        h,
        m,
      ) in
      elim (Bool-cases (ltb j (n * dims))) [
        | inl b ↦ put_below w (n * dims) j v (ltb→lt j (n * dims) b) ∙ old j (ltb→lt j (n * dims) b)
        | inr b ↦
            let q = j - n * dims in
            let g : j ≡ n * dims + q = omega (arith, ltb→le j (n * dims) b) in
            let o : n * dims * 2 + q * 2 ≡ j * 2 = omega (arith, g) in
            ap (put_values (n * dims) w v) g
            ∙ put_inside w (n * dims) q v (omega (arith, size, low, m, g))
            ∙ ap from_le (
                slice-slice (q * 2) 2 (n * dims * 2) (dims * 2) payload (omega (arith, low, m, g))
                ∙ ap (λ x. slice x 2 payload) o)
      ]

  -- One round of the loop over the samples.
  round_at :
      (k n : ℕ) (v : ℕ → ℕ)
      → suc n * dims ≤ decbf_size
      → suc n * dims * 2 ≤ length payload
      → copy_samples dims rbf (length pre) (suc k) n v
        ≡ copy_samples dims rbf
            (length pre)
            k
            (suc n)
            (put_values (n * dims) (slice (n * dims * 2) (dims * 2) payload) v)
  unfolding copy_samples
  round_at k n v small fits =
      let m : suc n * dims ≡ n * dims + dims = grind arith in
      let o : length pre + n * (2 * dims) ≡ length pre + n * dims * 2 = grind arith in
      let d : 2 * dims ≡ dims * 2 = omega arith in
      let w = slice (n * dims * 2) (dims * 2) payload in
      let all : length rbf ≡ length pre + (length payload + length tail) =
        ap (λ (x : List ℕ). length x) e
        ∙ length-append pre (payload ++ tail)
        ∙ ap (λ x. length pre + x) (length-append payload tail) in
      let got : load (length pre + n * dims * 2) (dims * 2) rbf ≡ returns w =
        load_inside (length pre + n * dims * 2) (dims * 2) rbf (omega (arith, all, fits, m))
        ∙ ap (λ x. returns x)
            (ap (slice (length pre + n * dims * 2) (dims * 2)) e
              ∙ slice_middle (n * dims * 2) (dims * 2) pre payload tail (omega (arith, fits, m))) in
      rw
        (
          o,
          d,
          got,
          ◌>>=◌,
          lt→ltb (n * dims + (dims - 1)) decbf_size (omega (arith, small, m, positive)),
        )
        refl

  -- The loop over the samples fills the vector from the front on.
  copies :
      (k n : ℕ) (v : ℕ → ℕ)
      → (n + k) * dims ≤ decbf_size
      → (n + k) * dims * 2 ≤ length payload
      → Values payload (n * dims) v
      → (v' : ℕ → ℕ) × (copy_samples dims rbf (length pre) k n v ≡ returns v')
        × Values payload ((n + k) * dims) v'
  unfolding copy_samples
  copies zero n v small inside old =
      let z : n ≡ n + 0 = omega arith in (v, refl, subst (λ x. Values payload (x * dims) v) z old)
  copies (suc k) n v small inside old =
      let t : suc n + k ≡ n + suc k = omega arith in
      let u : (suc n + k) * dims ≡ suc n * dims + k * dims = grind arith in
      let small' : (suc n + k) * dims ≤ decbf_size = rw t small in
      let inside' : (suc n + k) * dims * 2 ≤ length payload = rw t inside in
      let fits : suc n * dims * 2 ≤ length payload = omega (arith, inside', u) in
      let v1 = put_values (n * dims) (slice (n * dims * 2) (dims * 2) payload) v in
      let (v', go, vals) = copies k (suc n) v1 small' inside' (one_sample n v fits old) in
      (
        v',
        round_at k n v (omega (arith, small', u)) fits ∙ go,
        subst (λ x. Values payload (x * dims) v') t vals,
      )

  -- From the first sample on.
  pub copies_all :
      (k : ℕ) (v : ℕ → ℕ)
      → k * dims ≤ decbf_size
      → k * dims * 2 ≤ length payload
      → (v' : ℕ → ℕ) × (copy_samples dims rbf (length pre) k 0 v ≡ returns v')
        × Values payload (k * dims) v'
  copies_all k v small inside =
      let z : 0 + k ≡ k = omega arith in
      let none : 0 * dims ≡ 0 = grind arith in
      let (v', go, vals) =
        copies k 0 v (rw z small) (rw z inside) (λ j h. absurd (omega (arith, h, none))) in
      (v', go, subst (λ x. Values payload (x * dims) v') z vals)
