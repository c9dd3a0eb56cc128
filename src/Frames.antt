-- ===== src/Frames.antt =====
-- A page as the sequence of its records: a header and a payload each, for the loops of
-- sw/child/src/mxfs_timerange.cc and sw/parent/src/format.cc that go from header to header.
use mxfs.Base.{
  ℕ, suc, ◌+◌, ◌*◌, ◌≤◌, ◌<◌, ◌≡◌, refl, sym, ap, ◌∙◌, List, [], ◌∷◌, ◌++◌, arith, append_assoc,
  append-nil, length, length-append, slice, All, All-append, from_le,
}
use mxfs.Header.{
  Compress, magic_number, header_size, encode, decode, ant_length, gyr_count, tmp_count,
}
use mxfs.Header.Codec.{decode-encode, length-encode}
use mxfs.Instance.{Layer, speed, power, cadence, gyro, accelerometer, temperature, record_size}
use mxfs.Log.{Entry, IsEntry, Log, payloads, last_time, length-payloads}
use mxfs.Flush.{antp_header, dim3_header, temperature_header}
use mxfs.Flush.Page.{
  antp_part, dim3_part, temperature_part, carried_time, page_of, page_cost, IsLog, length-page_of,
}
use mxfs.Sound.{shared_cost_count}
use mxfs.Outcome.{load, returns, load_inside}
use mxfs.Read.Headers.{Tells, antp_header-Tells, dim3_header-Tells, temperature_header-Tells}

pub record Frame : Type 0 where
  pub layer : Layer
  pub header : Compress
  pub payload : List ℕ

abbrev pub frame_bytes : Frame → List ℕ
frame_bytes f = encode f.header ++ f.payload

abbrev pub bytes : List Frame → List ℕ
bytes [] = []
bytes (f ∷ fs) = frame_bytes f ++ bytes fs

-- The payload's size as the header tells it.
abbrev pub extent : Layer → Compress → ℕ
extent speed cp = ant_length cp
extent power cp = ant_length cp
extent cadence cp = ant_length cp
extent gyro cp = gyr_count cp * 6
extent accelerometer cp = gyr_count cp * 6
extent temperature cp = tmp_count cp * 2

pub record IsFrame (f : Frame) : Type 0 where
  pub tells : Tells f.layer f.header
  pub sized : extent f.layer f.header ≡ length f.payload

abbrev pub antp_frames : Layer → List Entry → List Frame
antp_frames l [] = []
antp_frames l ((t, p) ∷ es) =
    record { layer = l; header = antp_header l t; payload = p } ∷ antp_frames l es

abbrev pub dim3_frames : Layer → List Entry → List Frame
dim3_frames l [] = []
dim3_frames l ((t, p) ∷ es) =
    record {
      layer = l;
      header = dim3_header l t (last_time t es) (suc (length es));
      payload = payloads ((t, p) ∷ es);
    }
    ∷ []

abbrev pub temperature_frames : ℕ → List Entry → List Frame
temperature_frames carried [] = []
temperature_frames carried ((t, p) ∷ es) =
    record {
      layer = temperature;
      header = temperature_header t (last_time carried es) (suc (length es));
      payload = payloads ((t, p) ∷ es);
    }
    ∷ []

abbrev pub frames_of : Log → List Frame
frames_of log =
    antp_frames speed (log speed)
    ++ (antp_frames power (log power)
        ++ (antp_frames cadence (log cadence)
            ++ (dim3_frames gyro (log gyro)
                ++ (dim3_frames accelerometer (log accelerometer)
                    ++ temperature_frames (carried_time log) (log temperature)))))

pub bytes-append : (fs gs : List Frame) → bytes (fs ++ gs) ≡ bytes fs ++ bytes gs
bytes-append [] gs = refl
bytes-append (f ∷ fs) gs =
    ap (λ x. frame_bytes f ++ x) (bytes-append fs gs)
    ∙ sym (append_assoc (frame_bytes f) (bytes fs) (bytes gs))

antp_part-frames : (l : Layer) (es : List Entry) → antp_part l es ≡ bytes (antp_frames l es)
antp_part-frames l [] = refl
antp_part-frames l ((t, p) ∷ es) =
    ap (λ x. (encode (antp_header l t) ++ p) ++ x) (antp_part-frames l es)

dim3_part-frames : (l : Layer) (es : List Entry) → dim3_part l es ≡ bytes (dim3_frames l es)
dim3_part-frames l [] = refl
dim3_part-frames l ((t, p) ∷ es) = sym (append-nil _)

temperature_part-frames :
    (c : ℕ) (es : List Entry) → temperature_part c es ≡ bytes (temperature_frames c es)
temperature_part-frames c [] = refl
temperature_part-frames c ((t, p) ∷ es) = sym (append-nil _)

-- The page of a log is the sequence of its frames.
pub page_of-frames : (log : Log) → page_of log ≡ bytes (frames_of log)
unfolding page_of
page_of-frames log =
    simp bytes-append (simp (antp_part-frames, dim3_part-frames, temperature_part-frames) refl)

pub antp_frames-IsFrame :
    (l : Layer) (es : List Entry)
    → record_size l ≡ 18
    → All (IsEntry l) es
    → All IsFrame (antp_frames l es)
antp_frames-IsFrame l [] h q = tt
antp_frames-IsFrame speed ((t, p) ∷ es) h ((ht, hp), hs) =
    let (a, b) = antp_header-Tells speed t h in
    (record { tells = a; sized = b ∙ sym hp }, antp_frames-IsFrame speed es h hs)
antp_frames-IsFrame power ((t, p) ∷ es) h ((ht, hp), hs) =
    let (a, b) = antp_header-Tells power t h in
    (record { tells = a; sized = b ∙ sym hp }, antp_frames-IsFrame power es h hs)
antp_frames-IsFrame cadence ((t, p) ∷ es) h ((ht, hp), hs) =
    let (a, b) = antp_header-Tells cadence t h in
    (record { tells = a; sized = b ∙ sym hp }, antp_frames-IsFrame cadence es h hs)
antp_frames-IsFrame _ ((t, p) ∷ es) h q = absurd (omega arith)

pub dim3_frames-IsFrame :
    (l : Layer) (es : List Entry)
    → record_size l ≡ 6
    → length es < 2048
    → All (IsEntry l) es
    → All IsFrame (dim3_frames l es)
dim3_frames-IsFrame l [] h few q = tt
dim3_frames-IsFrame gyro ((t, p) ∷ es) h few q =
    let (a, b) = dim3_header-Tells gyro t (last_time t es) (suc (length es)) h few in
    (
      record { tells = a; sized = ap (λ n. n * 6) b ∙ sym (length-payloads gyro ((t, p) ∷ es) q) },
      tt,
    )
dim3_frames-IsFrame accelerometer ((t, p) ∷ es) h few q =
    let (a, b) = dim3_header-Tells accelerometer t (last_time t es) (suc (length es)) h few in
    (
      record {
        tells = a;
        sized = ap (λ n. n * 6) b ∙ sym (length-payloads accelerometer ((t, p) ∷ es) q);
      },
      tt,
    )
dim3_frames-IsFrame _ ((t, p) ∷ es) h few q = absurd (omega arith)

pub temperature_frames-IsFrame :
    (c : ℕ) (es : List Entry)
    → length es < 65536
    → All (IsEntry temperature) es
    → All IsFrame (temperature_frames c es)
temperature_frames-IsFrame c [] few q = tt
temperature_frames-IsFrame c ((t, p) ∷ es) few q =
    let (a, b) = temperature_header-Tells t (last_time c es) (suc (length es)) few in
    (
      record {
        tells = a;
        sized = ap (λ n. n * 2) b ∙ sym (length-payloads temperature ((t, p) ∷ es) q);
      },
      tt,
    )

-- The headers of a log's page tell the sizes of the payloads behind them.
pub frames_of-IsFrame : (log : Log) → IsLog log → page_cost log ≤ 2000 → All IsFrame (frames_of log)
frames_of-IsFrame log valid cost =
    All-append IsFrame _ _ (antp_frames-IsFrame speed (log speed) refl (valid speed)) (
      All-append IsFrame _ _ (antp_frames-IsFrame power (log power) refl (valid power)) (
        All-append IsFrame _ _ (antp_frames-IsFrame cadence (log cadence) refl (valid cadence)) (
          All-append IsFrame _ _
            (dim3_frames-IsFrame gyro (log gyro) refl
              (omega (arith, cost, shared_cost_count 6 (log gyro))) (valid gyro))
            (All-append IsFrame _ _
              (dim3_frames-IsFrame accelerometer (log accelerometer) refl
                (omega (arith, cost, shared_cost_count 6 (log accelerometer)))
                (valid accelerometer))
              (temperature_frames-IsFrame (carried_time log) (log temperature)
                (omega (arith, cost, shared_cost_count 2 (log temperature)))
                (valid temperature))))))

-- Every frame takes 16 bytes at least.
pub frames-few : (fs : List Frame) → header_size * length fs ≤ length (bytes fs)
frames-few [] = omega arith
frames-few (f ∷ fs) = omega (
  arith,
  frames-few fs,
  length-append (encode f.header ++ f.payload) (bytes fs),
  length-append (encode f.header) f.payload,
  length-encode f.header,
)

pub length-bytes : (log : Log) → IsLog log → length (bytes (frames_of log)) ≡ page_cost log
length-bytes log valid = rw page_of-frames at (length-page_of log valid)

-- What a loop sees at a frame: the magic number, and the header.
pub record Sees (rbf : List ℕ) (off : ℕ) (cp : Compress) : Type 0 where
  pub word : List ℕ
  pub first : load off 4 rbf ≡ returns word
  pub magic : from_le word ≡ magic_number
  pub whole : List ℕ
  pub rest : load off header_size rbf ≡ returns whole
  pub decoded : decode off rbf ≡ cp

pub frame-Sees :
    (rbf pre tail : List ℕ) (f : Frame)
    → IsFrame f
    → rbf ≡ pre ++ (frame_bytes f ++ tail)
    → Sees rbf (length pre) f.header
unfolding decode
frame-Sees rbf pre tail f ok e =
    let cp = f.header in
    let e2 : rbf ≡ pre ++ (encode cp ++ (f.payload ++ tail)) =
      e ∙ ap (λ x. pre ++ x) (append_assoc (encode cp) f.payload tail) in
    let n : length pre + header_size ≤ length rbf = rw e2 (
      omega (
        arith,
        length-append pre (encode cp ++ (f.payload ++ tail)),
        length-append (encode cp) (f.payload ++ tail),
        length-encode cp,
      )) in
    let d : decode (length pre) rbf ≡ cp =
      rw e2 (decode-encode (length pre) cp pre (f.payload ++ tail) refl ok.tells.0) in
    record {
      word = slice (length pre) 4 rbf;
      first = load_inside (length pre) 4 rbf (omega (arith, n));
      magic = ap (λ (c : Compress). c.magic) d ∙ ok.tells.1;
      whole = slice (length pre) header_size rbf;
      rest = load_inside (length pre) header_size rbf n;
      decoded = d;
    }
