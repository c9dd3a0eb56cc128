-- ===== src/Read/Parts.antt =====
-- `mxfs_read` at a part of a page: it goes on to the part's end, with the part's payloads if the layer
-- is the one asked for.
use mxfs.Base.{
  ℕ, ◌+◌, ◌*◌, ◌≤◌, ◌<◌, ◌≡◌, refl, sym, ap, subst, ◌∙◌, List, [], ◌∷◌, ◌++◌, arith, append_assoc,
  append-nil, length, length-append, slice, slice-append_of, All, if◌then◌else◌, from_le,
  Bool-cases, inl, inr,
}
use mxfs.Header.{
  Fits, Compress, magic_number, header_size, encode, decode, type_of, ant_length, gyr_count,
  tmp_count,
}
use mxfs.Header.Codec.{decode-encode, length-encode}
use mxfs.Instance.{
  Layer, speed, power, cadence, gyro, accelerometer, temperature, code, record_size, same_layer,
  page_size,
}
use mxfs.Log.{Entry, IsEntry, payloads, last_time, length-payloads}
use mxfs.Flush.{antp_header, dim3_header, temperature_header}
use mxfs.Flush.Page.{antp_part, dim3_part, temperature_part}
use mxfs.Outcome.{returns, load_inside}
use mxfs.Read.{next, copy_records, read_record, read_step, read_loop, read_fuel}
use mxfs.Read.Loop.{read_loop_next}
use mxfs.Read.Headers.{Tells, antp_header-Tells, dim3_header-Tells, temperature_header-Tells}

-- The payloads of `es` where their layer is the one asked for.
abbrev pub picked : Layer → Layer → List Entry → List ℕ
picked k l es = if same_layer l k then payloads es else []

-- The loop over the records of one header copies their payloads.
copy_records-payloads :
    (l : Layer) (es : List Entry) (pre rest out : List ℕ)
    → All (IsEntry l) es
    → copy_records (length es) (record_size l) (pre ++ (payloads es ++ rest)) (length pre) out
      ≡ returns (out ++ payloads es)
unfolding copy_records
copy_records-payloads l [] pre rest out h = ap (λ x. returns x) (sym (append-nil out))
copy_records-payloads l ((t, p) ∷ es) pre rest out ((ht, hp), hs) =
    let rbf = pre ++ ((p ++ payloads es) ++ rest) in
    let e : rbf ≡ pre ++ (p ++ (payloads es ++ rest)) =
      ap (λ x. pre ++ x) (append_assoc p (payloads es) rest) in
    let e2 : rbf ≡ (pre ++ p) ++ (payloads es ++ rest) =
      e ∙ sym (append_assoc pre p (payloads es ++ rest)) in
    let inside : length pre + record_size l ≤ length rbf = rw e (
      omega (
        arith,
        length-append pre (p ++ (payloads es ++ rest)),
        length-append p (payloads es ++ rest),
        hp,
      )) in
    let cut : slice (length pre) (record_size l) rbf ≡ p =
      rw e
        (slice-append_of (length pre) (record_size l) pre p (payloads es ++ rest) refl (sym hp)) in
    let n : length pre + record_size l ≡ length (pre ++ p) =
      omega (arith, length-append pre p, hp) in
    rw (load_inside (length pre) (record_size l) rbf inside, cut, n, e2)
      (copy_records-payloads l es (pre ++ p) rest (out ++ p) hs
        ∙ ap (λ x. returns x) (append_assoc out p (payloads es)))

magic_of_decode : (off : ℕ) (rbf : List ℕ) → from_le (slice off 4 rbf) ≡ (decode off rbf).magic
unfolding decode
magic_of_decode off rbf = refl

-- A round at a header with the magic number, whatever the layer asked for.
pub read_step_magic :
    (layer bufferlen : ℕ) (rbf : List ℕ) (cp : Compress) (pre rest out : List ℕ)
    → Fits cp
    → cp.magic ≡ magic_number
    → rbf ≡ pre ++ (encode cp ++ rest)
    → read_step layer bufferlen rbf (length pre) out
      ≡ read_record layer bufferlen rbf cp (length pre + header_size) out
unfolding read_step
read_step_magic layer bufferlen rbf cp pre rest out fits m e =
    let n : length pre + header_size ≤ length rbf = rw e (
      omega (
        arith,
        length-append pre (encode cp ++ rest),
        length-append (encode cp) rest,
        length-encode cp,
      )) in
    let d : decode (length pre) rbf ≡ cp =
      rw e (decode-encode (length pre) cp pre rest refl fits) in
    let g : from_le (slice (length pre) 4 rbf) ≡ magic_number =
      magic_of_decode (length pre) rbf ∙ ap (λ (c : Compress). c.magic) d ∙ m in
    rw
      (
        load_inside (length pre) 4 rbf (omega (arith, n)),
        g,
        load_inside (length pre) header_size rbf n,
        d,
      )
      refl

module _ (k : Layer) (bufferlen : ℕ) (rbf : List ℕ) where
  -- The payload copied where the layer is the one asked for, and else nothing.
  copied :
      (l : Layer) (n size pos : ℕ) (out bytes : List ℕ)
      → copy_records n size rbf pos out ≡ returns (out ++ bytes)
      → (if same_layer l k then copy_records n size rbf pos out else returns out)
        ≡ returns (out ++ (if same_layer l k then bytes else []))
  copied l n size pos out bytes e = elim (Bool-cases (same_layer l k)) [
    | inl s ↦ rw s e
    | inr s ↦ rw s (ap (λ x. returns x) (sym (append-nil out)))
  ]

  read_antp :
      (l : Layer) (cp : Compress) (pos : ℕ) (out bytes : List ℕ)
      → record_size l ≡ 18
      → type_of cp ≡ code l
      → ant_length cp ≡ 18
      → copy_records 1 18 rbf pos out ≡ returns (out ++ bytes)
      → read_record (code k) bufferlen rbf cp pos out
        ≡ returns (next (pos + 18) (out ++ (if same_layer l k then bytes else [])))
  unfolding read_record
  read_antp speed cp pos out bytes h t n e = rw (t, copied speed 1 18 pos out bytes e, n) refl
  read_antp power cp pos out bytes h t n e = rw (t, copied power 1 18 pos out bytes e, n) refl
  read_antp cadence cp pos out bytes h t n e = rw (t, copied cadence 1 18 pos out bytes e, n) refl
  read_antp _ cp pos out bytes h t n e = absurd (omega arith)

  read_dim3 :
      (l : Layer) (cp : Compress) (n pos : ℕ) (out bytes : List ℕ)
      → record_size l ≡ 6
      → type_of cp ≡ code l
      → gyr_count cp ≡ n
      → copy_records n 6 rbf pos out ≡ returns (out ++ bytes)
      → read_record (code k) bufferlen rbf cp pos out
        ≡ returns (next (pos + n * 6) (out ++ (if same_layer l k then bytes else [])))
  unfolding read_record
  read_dim3 gyro cp n pos out bytes h t c e = rw (t, c, copied gyro n 6 pos out bytes e) refl
  read_dim3 accelerometer cp n pos out bytes h t c e =
      rw (t, c, copied accelerometer n 6 pos out bytes e) refl
  read_dim3 _ cp n pos out bytes h t c e = absurd (omega arith)

  read_temperature :
      (cp : Compress) (n pos : ℕ) (out bytes : List ℕ)
      → type_of cp ≡ code temperature
      → tmp_count cp ≡ n
      → copy_records n 2 rbf pos out ≡ returns (out ++ bytes)
      → read_record (code k) bufferlen rbf cp pos out
        ≡ returns (next (pos + n * 2) (out ++ (if same_layer temperature k then bytes else [])))
  unfolding read_record
  read_temperature cp n pos out bytes t c e = rw (t, c, copied temperature n 2 pos out bytes e) refl

  -- The loop from `pos` on gives what it gives from `pos'` on, with `bytes` more copied.
  abbrev pub GoesTo : ℕ → ℕ → List ℕ → Type 0
  GoesTo pos pos' bytes =
      (out : List ℕ)
      → read_loop (code k) bufferlen rbf read_fuel pos out
        ≡ read_loop (code k) bufferlen rbf read_fuel pos' (out ++ bytes)

  stays : (pos : ℕ) → GoesTo pos pos []
  stays pos out = ap (λ o. read_loop (code k) bufferlen rbf read_fuel pos o) (sym (append-nil out))

  pub then_goes :
      (a b c : ℕ) (xs ys : List ℕ) → GoesTo a b xs → GoesTo b c ys → GoesTo a c (xs ++ ys)
  then_goes a b c xs ys f g out =
      f out
      ∙ g (out ++ xs)
      ∙ ap (λ o. read_loop (code k) bufferlen rbf read_fuel c o) (append_assoc out xs ys)

  module _ (small : length rbf ≤ page_size) where
    -- One header with its payloads.
    module _ (l : Layer) (cp : Compress) (es : List Entry) (pre rest : List ℕ) (tells : Tells l cp)
        (entries : All (IsEntry l) es) (e : rbf ≡ pre ++ ((encode cp ++ payloads es) ++ rest)) where
      behind : rbf ≡ pre ++ (encode cp ++ (payloads es ++ rest))
      behind = e ∙ ap (λ x. pre ++ x) (append_assoc (encode cp) (payloads es) rest)

      inside : length pre < page_size
      inside = omega (
        arith,
        small,
        ap (λ (x : List ℕ). length x) behind,
        length-append pre (encode cp ++ (payloads es ++ rest)),
        length-append (encode cp) (payloads es ++ rest),
        length-encode cp,
      )

      copies :
          (out : List ℕ)
          → copy_records (length es) (record_size l) rbf (length pre + header_size) out
            ≡ returns (out ++ payloads es)
      copies out =
          let n : length pre + header_size ≡ length (pre ++ encode cp) =
            omega (arith, length-append pre (encode cp), length-encode cp) in
          rw (n, behind ∙ sym (append_assoc pre (encode cp) (payloads es ++ rest)))
            (copy_records-payloads l es (pre ++ encode cp) rest out entries)

      goes :
          (pos' : ℕ)
          → ((out : List ℕ)
              → read_record (code k) bufferlen rbf cp (length pre + header_size) out
                ≡ returns (next pos' (out ++ picked k l es)))
          → GoesTo (length pre) pos' (picked k l es)
      goes pos' h out =
          read_loop_next (code k) bufferlen rbf (length pre) pos' out (out ++ picked k l es) inside
            (read_step_magic (code k) bufferlen rbf cp pre (payloads es ++ rest) out tells.0 tells.1
                behind
              ∙ h out)

    -- What the layers' parts are made of.
    ends_at :
        (l : Layer) (cp : Compress) (es : List Entry) (pre : List ℕ)
        → All (IsEntry l) es
        → length pre + header_size + length es * record_size l
          ≡ length (pre ++ (encode cp ++ payloads es))
    ends_at l cp es pre entries = omega (
      arith,
      length-append pre (encode cp ++ payloads es),
      length-append (encode cp) (payloads es),
      length-encode cp,
      length-payloads l es entries,
    )

    picked-nil : (l : Layer) → picked k l [] ≡ []
    picked-nil l = ground arith

    picked-cons :
        (l : Layer) (t : ℕ) (p : List ℕ) (es : List Entry)
        → picked k l ((t, p) ∷ []) ++ picked k l es ≡ picked k l ((t, p) ∷ es)
    picked-cons l t p es = elim (Bool-cases (same_layer l k)) [
      | inl s ↦ rw s (ap (λ x. x ++ payloads es) (append-nil p))
      | inr s ↦ rw s refl
    ]

    nothing_goes :
        (l : Layer) (pre : List ℕ) → GoesTo (length pre) (length (pre ++ [])) (picked k l [])
    nothing_goes l pre = rw (append-nil pre, picked-nil l) (stays (length pre))

    one_antp :
        (l : Layer) (t : ℕ) (p pre rest : List ℕ)
        → record_size l ≡ 18
        → IsEntry l (t, p)
        → rbf ≡ pre ++ ((encode (antp_header l t) ++ p) ++ rest)
        → GoesTo
            (length pre)
            (length (pre ++ (encode (antp_header l t) ++ p)))
            (picked k l ((t, p) ∷ []))
    one_antp l t p pre rest h entry e =
        let cp = antp_header l t in
        let (tells, n) = antp_header-Tells l t h in
        let q : p ++ [] ≡ p = append-nil p in
        let e2 : rbf ≡ pre ++ ((encode cp ++ (p ++ [])) ++ rest) = rw q e in
        let stop = ends_at l cp ((t, p) ∷ []) pre (entry, tt) in
        let r =
          goes l cp ((t, p) ∷ []) pre rest tells (entry, tt) e2 (length pre + header_size + 18)
            (λ out.
              read_antp l cp (length pre + header_size) out (p ++ []) h tells.2 n
                (rw h at (copies l cp ((t, p) ∷ []) pre rest tells (entry, tt) e2 out))) in
        subst (λ z. GoesTo (length pre) z (picked k l ((t, p) ∷ [])))
          ((rw h at stop) ∙ ap (λ x. length (pre ++ (encode cp ++ x))) q) r

    pub antp_part-goes :
        (l : Layer) (es : List Entry) (pre rest : List ℕ)
        → record_size l ≡ 18
        → All (IsEntry l) es
        → rbf ≡ pre ++ (antp_part l es ++ rest)
        → GoesTo (length pre) (length (pre ++ antp_part l es)) (picked k l es)
    antp_part-goes l [] pre rest h entries e = nothing_goes l pre
    antp_part-goes l ((t, p) ∷ es) pre rest h (entry, entries) e =
        let one = encode (antp_header l t) ++ p in
        let e1 : rbf ≡ pre ++ (one ++ (antp_part l es ++ rest)) =
          e ∙ ap (λ x. pre ++ x) (append_assoc one (antp_part l es) rest) in
        let e2 : rbf ≡ (pre ++ one) ++ (antp_part l es ++ rest) =
          e1 ∙ sym (append_assoc pre one (antp_part l es ++ rest)) in
        let r =
          then_goes (length pre) (length (pre ++ one)) (length ((pre ++ one) ++ antp_part l es))
            (picked k l ((t, p) ∷ [])) (picked k l es)
            (one_antp l t p pre (antp_part l es ++ rest) h entry e1)
            (antp_part-goes l es (pre ++ one) rest h entries e2) in
        rw (append_assoc pre one (antp_part l es), picked-cons l t p es) at r

    pub dim3_part-goes :
        (l : Layer) (es : List Entry) (pre rest : List ℕ)
        → record_size l ≡ 6
        → length es < 2048
        → All (IsEntry l) es
        → rbf ≡ pre ++ (dim3_part l es ++ rest)
        → GoesTo (length pre) (length (pre ++ dim3_part l es)) (picked k l es)
    dim3_part-goes l [] pre rest h few entries e = nothing_goes l pre
    dim3_part-goes l ((t, p) ∷ es) pre rest h few entries e =
        let all = (t, p) ∷ es in
        let cp = dim3_header l t (last_time t es) (length all) in
        let (tells, n) = dim3_header-Tells l t (last_time t es) (length all) h few in
        let r =
          goes l cp all pre rest tells entries e (length pre + header_size + length all * 6) (λ out.
            read_dim3 l cp (length all) (length pre + header_size) out (payloads all) h tells.2 n
              (rw h at (copies l cp all pre rest tells entries e out))) in
        subst (λ z. GoesTo (length pre) z (picked k l all)) (rw h at (ends_at l cp all pre entries))
          r

    pub temperature_part-goes :
        (carried : ℕ) (es : List Entry) (pre rest : List ℕ)
        → length es < 65536
        → All (IsEntry temperature) es
        → rbf ≡ pre ++ (temperature_part carried es ++ rest)
        → GoesTo
            (length pre)
            (length (pre ++ temperature_part carried es))
            (picked k temperature es)
    temperature_part-goes carried [] pre rest few entries e = nothing_goes temperature pre
    temperature_part-goes carried ((t, p) ∷ es) pre rest few entries e =
        let all = (t, p) ∷ es in
        let cp = temperature_header t (last_time carried es) (length all) in
        let (tells, n) = temperature_header-Tells t (last_time carried es) (length all) few in
        let r =
          goes temperature cp all pre rest tells entries e
            (length pre + header_size + length all * 2)
            (λ out.
              read_temperature cp (length all) (length pre + header_size) out (payloads all) tells.2
                n (copies temperature cp all pre rest tells entries e out)) in
        subst (λ z. GoesTo (length pre) z (picked k temperature all))
          (ends_at temperature cp all pre entries) r
