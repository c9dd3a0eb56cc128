-- ===== src/Format/Csv/Runs.antt =====
-- The csv command's loop over the records of a page (sw/parent/src/format.cc), layer by layer.
use mxfs.Base.{
  ℕ, suc, ◌+◌, ◌*◌, ◌^◌, ◌<◌, ◌≡◌, sym, ap, ◌∙◌, List, [], ◌∷◌, ◌++◌, arith, append_assoc,
  append-nil, length, All,
}
use mxfs.Header.{msec_of, set_msec, init_header, set_ant_length}
use mxfs.Instance.{Layer, record_size, code}
use mxfs.Log.{Entry, IsEntry}
use mxfs.Flush.{antp_header}
use mxfs.Outcome.{returns}
use mxfs.Timerange.{stamp64}
use mxfs.Frames.{Frame, IsFrame, bytes, frame_bytes, antp_frames, antp_frames-IsFrame}
use mxfs.Format.Csv.{Line, antp, Decoded, decbf_size, decode_page}
use mxfs.Format.Csv.Lines.{antp_lines}
use mxfs.Format.Csv.Decode.{decode_round, decode_antp}

-- A stamp in milliseconds whose seconds fit 32 bits.
abbrev pub IsDated : Entry → Type 0
IsDated (t, p) = t < 1000 * 2 ^ 32

antp_stamp : (l : Layer) (t : ℕ) → t < 1000 * 2 ^ 32 → stamp64 (antp_header l t) ≡ t
unfolding antp_header init_header set_msec set_ant_length msec_of
antp_stamp l t h = omega (arith, h)

-- One round for each frame.
abbrev pub rounds_for : List Frame → ℕ → ℕ
rounds_for [] j = j
rounds_for (f ∷ fs) j = suc (rounds_for fs j)

pub rounds_for-add : (fs : List Frame) (j : ℕ) → rounds_for fs j ≡ length fs + j
rounds_for-add [] j = omega arith
rounds_for-add (f ∷ fs) j = omega (arith, rounds_for-add fs j)

module _ (rbf : List ℕ) (long : length rbf ≡ decbf_size) where
  pub antp_runs :
      (j : ℕ) (l : Layer) (es : List Entry) (pre tail : List ℕ) (d : Decoded)
      → record_size l ≡ 18
      → All (IsEntry l) es
      → All IsDated es
      → rbf ≡ pre ++ (bytes (antp_frames l es) ++ tail)
      → decode_page rbf (rounds_for (antp_frames l es) j) (length pre) d
        ≡ decode_page rbf j
            (length (pre ++ bytes (antp_frames l es)))
            (record d { lines = d.lines ++ antp_lines l es })
  antp_runs j l [] pre tail d h ok dated e =
      ap (λ (x : List ℕ). decode_page rbf j (length x) d) (sym (append-nil pre))
      ∙ ap (λ (x : List Line). decode_page rbf j (length (pre ++ [])) (record d { lines = x }))
          (sym (append-nil d.lines))
  antp_runs j l ((t, p) ∷ es) pre tail d h ((ht, hp), ok) (now, dated) e =
      let f : Frame = record { layer = l; header = antp_header l t; payload = p } in
      let fs = antp_frames l es in
      let good : IsFrame f = (antp_frames-IsFrame l ((t, p) ∷ es) h ((ht, hp), ok)).0 in
      let e1 : rbf ≡ pre ++ (frame_bytes f ++ (bytes fs ++ tail)) =
        e ∙ ap (λ x. pre ++ x) (append_assoc (frame_bytes f) (bytes fs) tail) in
      let e2 : rbf ≡ (pre ++ frame_bytes f) ++ (bytes fs ++ tail) =
        e1 ∙ sym (append_assoc pre (frame_bytes f) (bytes fs ++ tail)) in
      let line = antp (code l) 18 t p in
      let d1 : Decoded = record d { lines = d.lines ++ (line ∷ []) } in
      let one =
        decode_antp rbf pre (bytes fs ++ tail) f d good e1 h (hp ∙ h)
        ∙ ap
            (λ (x : ℕ).
              returns (length p, record d { lines = d.lines ++ (antp (code l) 18 x p ∷ []) }))
            (antp_stamp l t now) in
      decode_round rbf long (rounds_for fs j) pre (bytes fs ++ tail) f d d1 good e1 one
      ∙ antp_runs j l es (pre ++ frame_bytes f) tail d1 h ok dated e2
      ∙ ap
          (λ (x : List ℕ).
            decode_page rbf j (length x)
              (record d { lines = (d.lines ++ (line ∷ [])) ++ antp_lines l es }))
          (append_assoc pre (frame_bytes f) (bytes fs))
      ∙ ap
          (λ (x : List Line).
            decode_page rbf j (length (pre ++ bytes (f ∷ fs))) (record d { lines = x }))
          (append_assoc d.lines (line ∷ []) (antp_lines l es))
