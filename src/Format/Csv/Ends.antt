-- ===== src/Format/Csv/Ends.antt =====
-- The fuel of the csv command's loop over the records of a page (sw/parent/src/format.cc).
use mxfs.Base.{
  ℕ, zero, suc, ◌+◌, ◌-◌, ◌*◌, ◌≤◌, ◌≡◌, ◌≢◌, false, ◌||◌, List, arith, ltb, le→ltb, ◌==◌, from_le,
}
use mxfs.Header.{Compress, header_size, magic_number, decode, type_of, gyr_count, tmp_count}
use mxfs.Outcome.{stuck, load-ne-stuck, choose-ne-stuck, bind-ne-stuck, if-ne-stuck}
use mxfs.Format.Csv.{
  Decoded, Series, decbf_size, copy_samples, take_series, decode_record, decode_page,
}

samples-ne-stuck :
    (dims : ℕ) (decbf : List ℕ) (bp k n : ℕ) (v : ℕ → ℕ) → copy_samples dims decbf bp k n v ≢ stuck
unfolding copy_samples
samples-ne-stuck dims decbf bp zero n v = λ q. cc q
samples-ne-stuck dims decbf bp (suc k) n v =
    load-ne-stuck (bp + n * (2 * dims)) (2 * dims) decbf _ (λ w.
      if-ne-stuck (ltb (n * dims + (dims - 1)) decbf_size) _ _
        (samples-ne-stuck dims decbf bp k (suc n) _) (λ q. cc q))

series-ne-stuck :
    (dims count bp : ℕ) (decbf : List ℕ) (cp : Compress) (s : Series)
    → take_series dims count bp decbf cp s ≢ stuck
unfolding take_series
series-ne-stuck dims count bp decbf cp s =
    bind-ne-stuck (copy_samples dims decbf bp count 0 s.values) _
      (samples-ne-stuck dims decbf bp count 0 s.values) (λ v q. cc q)

record-ne-stuck :
    (decbf : List ℕ) (cp : Compress) (bp : ℕ) (d : Decoded) → decode_record decbf cp bp d ≢ stuck
unfolding decode_record
record-ne-stuck decbf cp bp d =
    let type = type_of cp in
    if-ne-stuck (type == 0 || (type == 1 || type == 2)) _ _
      (load-ne-stuck bp 18 decbf _ (λ w q. cc q))
      (if-ne-stuck (type == 3) _ _
        (bind-ne-stuck (take_series 3 (gyr_count cp) bp decbf cp d.gyro) _
          (series-ne-stuck 3 (gyr_count cp) bp decbf cp d.gyro) (λ s q. cc q))
        (if-ne-stuck (type == 4) _ _
          (bind-ne-stuck (take_series 3 (gyr_count cp) bp decbf cp d.accelerometer) _
            (series-ne-stuck 3 (gyr_count cp) bp decbf cp d.accelerometer) (λ s q. cc q))
          (if-ne-stuck (type == 5) _ _
            (bind-ne-stuck (take_series 1 (tmp_count cp) bp decbf cp d.temperature) _
              (series-ne-stuck 1 (tmp_count cp) bp decbf cp d.temperature) (λ s q. cc q))
            (λ q. cc q))))

-- With fuel for the headers that the rest of the buffer can hold, the loop ends.
rounds-ne-stuck :
    (decbf : List ℕ) (fuel offset : ℕ) (d : Decoded)
    → decbf_size ≤ offset + header_size * fuel
    → decode_page decbf (suc fuel) offset d ≢ stuck
unfolding decode_page
rounds-ne-stuck decbf zero offset d h =
    let e : ltb offset decbf_size ≡ false = le→ltb offset decbf_size (omega arith) in
    rw (e, decode_page) (λ q. cc q)
rounds-ne-stuck decbf (suc fuel) offset d h =
    choose-ne-stuck (ltb offset decbf_size) _ _ (λ q. cc q)
      (load-ne-stuck offset 4 decbf _ (λ w.
        choose-ne-stuck (from_le w == magic_number) _ _ (λ q. cc q)
          (load-ne-stuck offset header_size decbf _ (λ _.
            bind-ne-stuck (decode_record decbf (decode offset decbf) (offset + header_size) d) _
              (record-ne-stuck decbf (decode offset decbf) (offset + header_size) d)
              (λ (next, d').
                rounds-ne-stuck decbf fuel (offset + next + header_size) d' (omega (arith, h)))))))

-- The loop over the records of a page ends on every content of the buffer.
pub decode_page-ne-stuck : (decbf : List ℕ) (d : Decoded) → decode_page decbf 257 0 d ≢ stuck
decode_page-ne-stuck decbf d = rounds-ne-stuck decbf 256 0 d (omega arith)
