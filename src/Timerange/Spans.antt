-- ===== src/Timerange/Spans.antt =====
-- What `mxfs_timerange_by_block` finds on a page that `mxfs_flush` put together.
use mxfs.Base.{
  ℕ, suc, ◌+◌, ◌-◌, ◌≤◌, ◌<◌, ◌≡◌, ◌≢◌, refl, sym, ap, ◌∙◌, List, [], ◌∷◌, ◌++◌, arith,
  append_assoc, append-nil, length, length-append, slice, take, All, if◌then◌else◌, lt→ltb, from_le,
  ne→==, drop-append,
}
use mxfs.Header.{Compress, type_of, gyr_count, tmp_count, header_size, magic_number, encode}
use mxfs.Header.Codec.{length-encode}
use mxfs.Instance.{Layer, speed, power, cadence, gyro, accelerometer, temperature, code, same_layer}
use mxfs.Outcome.{returns, load_inside, ◌>>=◌, ◌>>◌}
use mxfs.Frames.{Frame, IsFrame, bytes, frame_bytes, extent, frame-Sees}
use mxfs.Timerange.{
  Span, no_span, raw_page_size, span_record, span_loop, span_fuel, antp_span, shared_span,
}

-- What a frame adds to the span of its layer.
abbrev pub add_frame : Layer → Compress → Span → Span
add_frame speed cp s = antp_span cp s
add_frame power cp s = antp_span cp s
add_frame cadence cp s = antp_span cp s
add_frame gyro cp s = shared_span (gyr_count cp) cp s
add_frame accelerometer cp s = shared_span (gyr_count cp) cp s
add_frame temperature cp s = shared_span (tmp_count cp) cp s

module _ (k : Layer) where
  abbrev pub frame_span : Frame → Span → Span
  frame_span f s = if same_layer f.layer k then add_frame f.layer f.header s else s

  abbrev pub spans : List Frame → Span → Span
  spans [] s = s
  spans (f ∷ fs) s = spans fs (frame_span f s)

  record_of :
      (l : Layer) (cp : Compress) (off : ℕ) (s : Span)
      → type_of cp ≡ code l
      → span_record (code k) cp off s
        ≡ (off + extent l cp, if same_layer l k then add_frame l cp s else s)
  unfolding span_record
  record_of speed cp off s e = rw e refl
  record_of power cp off s e = rw e refl
  record_of cadence cp off s e = rw e refl
  record_of gyro cp off s e = rw e refl
  record_of accelerometer cp off s e = rw e refl
  record_of temperature cp off s e = rw e refl

  -- One round for each frame.
  abbrev pub more : List Frame → ℕ → ℕ
  more [] j = j
  more (f ∷ fs) j = suc (more fs j)

  pub more-add : (fs : List Frame) (j : ℕ) → more fs j ≡ length fs + j
  more-add [] j = omega arith
  more-add (f ∷ fs) j = omega (arith, more-add fs j)

  module _ (rbf : List ℕ) (long : length rbf ≡ raw_page_size) where
    round_at :
        (fuel : ℕ) (pre tail : List ℕ) (f : Frame) (s : Span)
        → IsFrame f
        → rbf ≡ pre ++ (frame_bytes f ++ tail)
        → span_loop (code k) rbf (suc fuel) (length pre) s
          ≡ span_loop (code k) rbf fuel (length (pre ++ frame_bytes f)) (frame_span f s)
    unfolding span_loop
    round_at fuel pre tail f s ok e =
        let z = frame-Sees rbf pre tail f ok e in
        let n : length (pre ++ frame_bytes f) ≡ length pre + header_size + length f.payload =
          omega (
            arith,
            length-append pre (frame_bytes f),
            length-append (encode f.header) f.payload,
            length-encode f.header,
          ) in
        let low : length pre < raw_page_size = omega (
          arith,
          long,
          n,
          ap (λ (x : List ℕ). length x) e,
          length-append pre (frame_bytes f ++ tail),
          length-append (frame_bytes f) tail,
          length-append pre (frame_bytes f),
        ) in
        let go : ((length pre + header_size) + extent f.layer f.header)
            ≡ length (pre ++ frame_bytes f) =
          omega (arith, n, ok.sized) in
        rw
          (
            lt→ltb (length pre) raw_page_size low,
            z.first,
            ◌>>=◌,
            z.magic,
            z.rest,
            ◌>>◌,
            z.decoded,
            record_of f.layer f.header (length pre + header_size) s ok.tells.2,
            go,
            span_loop,
          )
          refl

    frames_at :
        (j : ℕ) (fs : List Frame) (pre tail : List ℕ) (s : Span)
        → All IsFrame fs
        → rbf ≡ pre ++ (bytes fs ++ tail)
        → span_loop (code k) rbf (more fs j) (length pre) s
          ≡ span_loop (code k) rbf j (length (pre ++ bytes fs)) (spans fs s)
    frames_at j [] pre tail s ok e =
        ap (λ (x : List ℕ). span_loop (code k) rbf j (length x) s) (sym (append-nil pre))
    frames_at j (f ∷ fs) pre tail s (ok, oks) e =
        let e1 : rbf ≡ pre ++ (frame_bytes f ++ (bytes fs ++ tail)) =
          e ∙ ap (λ x. pre ++ x) (append_assoc (frame_bytes f) (bytes fs) tail) in
        let e2 : rbf ≡ (pre ++ frame_bytes f) ++ (bytes fs ++ tail) =
          e1 ∙ sym (append_assoc pre (frame_bytes f) (bytes fs ++ tail)) in
        round_at (more fs j) pre (bytes fs ++ tail) f s ok e1
        ∙ frames_at j fs (pre ++ frame_bytes f) tail (frame_span f s) oks e2
        ∙ ap (λ (x : List ℕ). span_loop (code k) rbf j (length x) (spans (f ∷ fs) s))
            (append_assoc pre (frame_bytes f) (bytes fs))

    ends_at :
        (fuel : ℕ) (pre tail : List ℕ) (s : Span)
        → rbf ≡ pre ++ tail
        → 4 ≤ length tail
        → from_le (take 4 tail) ≢ magic_number
        → span_loop (code k) rbf (suc fuel) (length pre) s ≡ returns s
    unfolding span_loop
    ends_at fuel pre tail s e four ne =
        let n : length pre + 4 ≤ length rbf = rw e (omega (arith, length-append pre tail, four)) in
        let cut : slice (length pre) 4 rbf ≡ take 4 tail =
          rw e (ap (take 4) (drop-append pre tail)) in
        rw
          (
            lt→ltb (length pre) raw_page_size (omega (arith, n, long)),
            load_inside (length pre) 4 rbf n,
            cut,
            ◌>>=◌,
            ne→== _ magic_number ne,
            span_loop,
          )
          refl

  -- All frames of a page, and a tail that is no header.
  pub loop-frames :
      (fs : List Frame) (tail : List ℕ)
      → All IsFrame fs
      → length fs ≤ 132
      → length (bytes fs ++ tail) ≡ raw_page_size
      → 4 ≤ length tail
      → from_le (take 4 tail) ≢ magic_number
      → span_loop (code k) (bytes fs ++ tail) span_fuel 0 no_span ≡ returns (spans fs no_span)
  loop-frames fs tail ok few long four ne =
      let rbf = bytes fs ++ tail in
      let fuel : span_fuel ≡ more fs (suc (132 - length fs)) =
        omega (arith, more-add fs (suc (132 - length fs))) in
      rw fuel (
        frames_at rbf long (suc (132 - length fs)) fs [] tail no_span ok refl
        ∙ ends_at rbf long (132 - length fs) (bytes fs) tail (spans fs no_span) refl four ne)
