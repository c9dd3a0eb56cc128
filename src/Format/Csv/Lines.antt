-- ===== src/Format/Csv/Lines.antt =====
-- The lines that the csv command (sw/parent/src/format.cc) prints for a page, described from its log alone.
use mxfs.Base.{ℕ, zero, suc, ◌+◌, ◌*◌, List, [], ◌∷◌, ◌++◌, length, u64, rounds}
use mxfs.Instance.{Layer, speed, power, cadence, gyro, accelerometer, temperature, code}
use mxfs.Log.{Entry, Log, payloads, last_time}
use mxfs.Flush.{sample_step}
use mxfs.Flush.Page.{carried_time}
use mxfs.Format.Csv.{Line, antp, dim3_head, temperature_head, dim3_sample, temperature_sample}
use mxfs.Format.Csv.Values.{value_at}

-- A line for each ANT+ record, with its stamp and its bytes.
abbrev pub antp_lines : Layer → List Entry → List Line
antp_lines l [] = []
antp_lines l ((t, p) ∷ es) = antp (code l) 18 t p ∷ antp_lines l es

-- A head for each other layer that has samples, with the first stamp and their number.
abbrev pub dim3_heads : Layer → List Entry → List Line
dim3_heads l [] = []
dim3_heads l ((t, p) ∷ es) = dim3_head (code l) t (suc (length es)) 3 0 ∷ []

abbrev pub temperature_heads : List Entry → List Line
temperature_heads [] = []
temperature_heads ((t, p) ∷ es) = temperature_head t (suc (length es)) ∷ []

-- The lines of samples: `k` of them, from the value `i` on, with `i` average distances to the first stamp.
abbrev pub dim3_printed : (type t step : ℕ) → List ℕ → (k i : ℕ) → List Line
dim3_printed type t step values zero i = []
dim3_printed type t step values (suc k) i =
    dim3_sample type i (u64 (t + step * i)) (value_at values i) (value_at values (i + 1))
      (value_at values (i + 2))
    ∷ dim3_printed type t step values k (i + 3)

abbrev pub temperature_printed : (t step : ℕ) → List ℕ → (k i : ℕ) → List Line
temperature_printed t step values zero i = []
temperature_printed t step values (suc k) i =
    temperature_sample i (u64 (t + step * i)) (value_at values i)
    ∷ temperature_printed t step values k (suc i)

-- Of three samples one is printed.
abbrev pub dim3_samples : Layer → List Entry → List Line
dim3_samples l [] = []
dim3_samples l ((t, p) ∷ es) =
    let n = suc (length es) in
    dim3_printed (code l) t (sample_step t (last_time t es) n) (payloads ((t, p) ∷ es))
      (rounds 0 n 3) 0

abbrev pub temperature_samples : ℕ → List Entry → List Line
temperature_samples carried [] = []
temperature_samples carried ((t, p) ∷ es) =
    let n = suc (length es) in
    temperature_printed t (sample_step t (last_time carried es) n) (payloads ((t, p) ∷ es)) n 0

abbrev pub heads_of : Log → List Line
heads_of log =
    ((((antp_lines speed (log speed) ++ antp_lines power (log power))
          ++ antp_lines cadence (log cadence))
        ++ dim3_heads gyro (log gyro))
      ++ dim3_heads accelerometer (log accelerometer))
    ++ temperature_heads (log temperature)

abbrev pub samples_of : Log → List Line
samples_of log =
    dim3_samples gyro (log gyro)
    ++ (dim3_samples accelerometer (log accelerometer)
        ++ temperature_samples (carried_time log) (log temperature))
