-- ===== src/Timerange/Loop.antt =====
-- The loop of `mxfs_timerange_by_block` over the records of a page ends.
use mxfs.Base.{
  ℕ, zero, suc, ◌+◌, ◌*◌, ◌≤◌, ◌≡◌, ◌≢◌, false, ◌||◌, List, arith, ltb, Bool-cases, inl, inr,
  le→ltb, ◌==◌, from_le,
}
use mxfs.Header.{Compress, header_size, magic_number, decode, type_of}
use mxfs.Outcome.{stuck, load-ne-stuck, choose-ne-stuck}
use mxfs.Timerange.{Span, no_span, raw_page_size, span_record, span_loop, span_fuel}

span_record-grows :
    (layer : ℕ) (cp : Compress) (offset : ℕ) (s : Span) → offset ≤ (span_record layer cp offset s).0
unfolding span_record
span_record-grows layer cp offset s =
    let type = type_of cp in
    elim (Bool-cases (type == 0 || (type == 1 || type == 2))) [
      | inl e ↦ rw e (omega arith)
      | inr e ↦ elim (Bool-cases (type == 3 || type == 4)) [
        | inl f ↦ rw (e, f) (omega arith)
        | inr f ↦ elim (Bool-cases (type == 5)) [
          | inl g ↦ rw (e, f, g) (omega arith)
          | inr g ↦ rw (e, f, g) (omega arith)
        ]
      ]
    ]

module _ (layer : ℕ) (rbf : List ℕ) where
  -- With fuel for the headers that the rest of the page can hold, the loop ends.
  loop-ne-stuck :
      (fuel offset : ℕ) (s : Span)
      → raw_page_size ≤ offset + header_size * fuel
      → span_loop layer rbf (suc fuel) offset s ≢ stuck
  unfolding span_loop
  loop-ne-stuck zero offset s h =
      let e : ltb offset raw_page_size ≡ false = le→ltb offset raw_page_size (omega arith) in
      rw (e, span_loop) (λ q. cc q)
  loop-ne-stuck (suc fuel) offset s h =
      choose-ne-stuck (ltb offset raw_page_size) _ _ (λ q. cc q)
        (load-ne-stuck offset 4 rbf _ (λ m.
          choose-ne-stuck (from_le m == magic_number) _ _ (λ q. cc q)
            (load-ne-stuck offset header_size rbf _ (λ _.
              let cp = decode offset rbf in
              loop-ne-stuck fuel (span_record layer cp (offset + header_size) s).0
                (span_record layer cp (offset + header_size) s).1
                (omega (arith, h, span_record-grows layer cp (offset + header_size) s))))))

  -- The loop over the records of a page ends on every content of the page, whatever the layer.
  pub span_loop-ne-stuck : span_loop layer rbf span_fuel 0 no_span ≢ stuck
  span_loop-ne-stuck = loop-ne-stuck 132 0 no_span (omega arith)
