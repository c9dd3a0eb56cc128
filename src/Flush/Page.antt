-- ===== src/Flush/Page.antt =====
-- The page that `mxfs_flush` puts together, described from the buffered records alone.
use mxfs.Base.{ℕ, suc, ◌+◌, ◌*◌, ◌≡◌, refl, List, [], ◌∷◌, ◌++◌, arith, length, length-append, All}
use mxfs.Header.{encode}
use mxfs.Header.Codec.{length-encode}
use mxfs.Instance.{Layer, speed, power, cadence, gyro, accelerometer, temperature, record_size}
use mxfs.Log.{Entry, IsEntry, Log, payloads, last_time, length-payloads}
use mxfs.Flush.{antp_header, dim3_header, temperature_header}

-- Every ANT+ record stands behind a header of its own.
abbrev pub antp_part : Layer → List Entry → List ℕ
antp_part l [] = []
antp_part l ((t, p) ∷ es) = (encode (antp_header l t) ++ p) ++ antp_part l es

-- The samples of a three-dimensional sensor share one header, with the first stamp.
abbrev pub dim3_part : Layer → List Entry → List ℕ
dim3_part l [] = []
dim3_part l ((t, p) ∷ es) =
    encode (dim3_header l t (last_time t es) (suc (length es))) ++ payloads ((t, p) ∷ es)

-- So do the temperatures; `carried` is the last stamp of the layers before.
abbrev pub temperature_part : ℕ → List Entry → List ℕ
temperature_part carried [] = []
temperature_part carried ((t, p) ∷ es) =
    encode (temperature_header t (last_time carried es) (suc (length es))) ++ payloads ((t, p) ∷ es)

-- The last stamp before the temperatures, 0 if no other layer has a record.
abbrev pub carried_time : Log → ℕ
carried_time log =
    last_time
      (last_time (last_time (last_time (last_time 0 (log speed)) (log power)) (log cadence))
        (log gyro))
      (log accelerometer)

unfoldable pub page_of : Log → List ℕ
page_of log =
    antp_part speed (log speed)
    ++ (antp_part power (log power)
        ++ (antp_part cadence (log cadence)
            ++ (dim3_part gyro (log gyro)
                ++ (dim3_part accelerometer (log accelerometer)
                    ++ temperature_part (carried_time log) (log temperature)))))

-- The bytes that each layer takes in a page.
abbrev pub antp_cost : List Entry → ℕ
antp_cost es = length es * 34

abbrev pub shared_cost : ℕ → List Entry → ℕ
shared_cost size [] = 0
shared_cost size (e ∷ es) = 16 + suc (length es) * size

abbrev pub page_cost : Log → ℕ
page_cost log =
    antp_cost (log speed)
    + antp_cost (log power)
    + antp_cost (log cadence)
    + shared_cost 6 (log gyro)
    + shared_cost 6 (log accelerometer)
    + shared_cost 2 (log temperature)

abbrev pub IsLog : Log → Type 0
IsLog log = (l : Layer) → All (IsEntry l) (log l)

length-antp_part :
    (l : Layer) (es : List Entry)
    → record_size l ≡ 18
    → All (IsEntry l) es
    → length (antp_part l es) ≡ antp_cost es
length-antp_part l [] e h = omega arith
length-antp_part l ((t, p) ∷ es) e ((ht, hp), hs) = omega (
  arith,
  length-append (encode (antp_header l t) ++ p) (antp_part l es),
  length-append (encode (antp_header l t)) p,
  length-encode (antp_header l t),
  length-antp_part l es e hs,
)

length-dim3_part :
    (l : Layer) (es : List Entry)
    → record_size l ≡ 6
    → All (IsEntry l) es
    → length (dim3_part l es) ≡ shared_cost 6 es
length-dim3_part l [] e h = omega arith
length-dim3_part l ((t, p) ∷ es) e h =
    let n : length (payloads ((t, p) ∷ es)) ≡ suc (length es) * 6 =
      rw e at (length-payloads l ((t, p) ∷ es) h) in
    omega (
      arith,
      length-append (encode (dim3_header l t (last_time t es) (suc (length es))))
          (payloads ((t, p) ∷ es)),
      length-encode (dim3_header l t (last_time t es) (suc (length es))),
      n,
    )

length-temperature_part :
    (c : ℕ) (es : List Entry)
    → All (IsEntry temperature) es
    → length (temperature_part c es) ≡ shared_cost 2 es
length-temperature_part c [] h = omega arith
length-temperature_part c ((t, p) ∷ es) h = omega (
  arith,
  length-append (encode (temperature_header t (last_time c es) (suc (length es))))
      (payloads ((t, p) ∷ es)),
  length-encode (temperature_header t (last_time c es) (suc (length es))),
  length-payloads temperature ((t, p) ∷ es) h,
)

-- Where every payload has its layer's size, the page of a log has 34 bytes for each ANT+ record, and for
-- each other layer with records 16 bytes and its payloads.
pub length-page_of : (log : Log) → IsLog log → length (page_of log) ≡ page_cost log
unfolding page_of
length-page_of log h = simp length-append (
    omega (
      arith,
      length-antp_part speed (log speed) refl (h speed),
      length-antp_part power (log power) refl (h power),
      length-antp_part cadence (log cadence) refl (h cadence),
      length-dim3_part gyro (log gyro) refl (h gyro),
      length-dim3_part accelerometer (log accelerometer) refl (h accelerometer),
      length-temperature_part (carried_time log) (log temperature) (h temperature),
    ))
