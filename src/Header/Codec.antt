-- ===== src/Header/Codec.antt =====
-- A header decodes from the bytes that it was encoded to.
use mxfs.Base.{
  ℕ, ◌+◌, ◌^◌, ◌<◌, ◌≡◌, refl, sym, ap, ◌∙◌, List, [], ◌++◌, arith, append_assoc, to_le, from_le,
  length, length-append, length-to_le, from_le-to_le, slice, slice-append_of,
}
use mxfs.Header.{Compress, Fits, encode, decode}

pub length-encode : (c : Compress) → length (encode c) ≡ 16
unfolding encode
length-encode c = omega (
  arith,
  length-append (to_le 4 c.magic) (to_le 4 c.time ++ (to_le 4 c.bits ++ to_le 4 c.union)),
  length-append (to_le 4 c.time) (to_le 4 c.bits ++ to_le 4 c.union),
  length-append (to_le 4 c.bits) (to_le 4 c.union),
  length-to_le 4 c.magic,
  length-to_le 4 c.time,
  length-to_le 4 c.bits,
  length-to_le 4 c.union,
)

-- A word of four bytes read behind a prefix of two parts.
word_behind :
    (off k w : ℕ) (xs ys zs : List ℕ)
    → off ≡ length xs
    → k ≡ length ys
    → w < 2 ^ 32
    → from_le (slice (off + k) 4 (xs ++ (ys ++ (to_le 4 w ++ zs)))) ≡ w
word_behind off k w xs ys zs p q h =
    ap (λ t. from_le (slice (off + k) 4 t)) (sym (append_assoc xs ys (to_le 4 w ++ zs)))
    ∙ ap from_le (
        slice-append_of (off + k) 4 (xs ++ ys) (to_le 4 w) zs (omega (arith, length-append xs ys))
          (sym (length-to_le 4 w)))
    ∙ from_le-to_le 4 w h

module _ (off : ℕ) (c : Compress) (xs zs : List ℕ) (e : off ≡ length xs) (fits : Fits c) where
  magic_word : from_le (slice off 4 (xs ++ (encode c ++ zs))) ≡ c.magic
  unfolding encode
  magic_word =
      let z : off ≡ off + 0 = omega arith in
      rw z (simp append_assoc (word_behind off 0 c.magic xs [] _ e refl fits.0))

  time_word : from_le (slice (off + 4) 4 (xs ++ (encode c ++ zs))) ≡ c.time
  unfolding encode
  time_word =
      simp append_assoc
        (word_behind off 4 c.time xs (to_le 4 c.magic) _ e (sym (length-to_le 4 c.magic)) fits.1)

  bits_word : from_le (slice (off + 8) 4 (xs ++ (encode c ++ zs))) ≡ c.bits
  unfolding encode
  bits_word =
      let pre : List ℕ = to_le 4 c.magic ++ to_le 4 c.time in
      let n : 8 ≡ length pre = omega (
        arith,
        length-append (to_le 4 c.magic) (to_le 4 c.time),
        length-to_le 4 c.magic,
        length-to_le 4 c.time,
      ) in
      simp append_assoc
        (simp append_assoc at (word_behind off 8 c.bits xs pre (to_le 4 c.union ++ zs) e n fits.2))

  union_word : from_le (slice (off + 12) 4 (xs ++ (encode c ++ zs))) ≡ c.union
  unfolding encode
  union_word =
      let pre : List ℕ = to_le 4 c.magic ++ (to_le 4 c.time ++ to_le 4 c.bits) in
      let n : 12 ≡ length pre = omega (
        arith,
        length-append (to_le 4 c.magic) (to_le 4 c.time ++ to_le 4 c.bits),
        length-append (to_le 4 c.time) (to_le 4 c.bits),
        length-to_le 4 c.magic,
        length-to_le 4 c.time,
        length-to_le 4 c.bits,
      ) in
      simp append_assoc (simp append_assoc at (word_behind off 12 c.union xs pre zs e n fits.3))

  -- A header whose words fit 32 bits, encoded at the offset `off` of a buffer, is decoded there, whatever
  -- surrounds it.
  pub decode-encode : decode off (xs ++ (encode c ++ zs)) ≡ c
  unfolding decode
  decode-encode = λ i. record {
    magic = magic_word i;
    time = time_word i;
    bits = bits_word i;
    union = union_word i;
  }
