-- ===== src/Format/Csv/Page.antt =====
-- What the csv command (sw/parent/src/format.cc) prints for a page that mxfs_flush put together.
use mxfs.Base.{
  ℕ, suc, ◌+◌, ◌-◌, ◌≤◌, ◌<◌, ◌≡◌, ◌≢◌, refl, sym, ap, ◌∙◌, List, [], ◌++◌, arith, append_assoc,
  length, length-append, take, All, from_le,
}
use mxfs.Header.{magic_number}
use mxfs.Instance.{Layer, speed, power, cadence, gyro, accelerometer, temperature}
use mxfs.Log.{Log}
use mxfs.Flush.Page.{IsLog, page_of, page_cost, carried_time}
use mxfs.Sound.{shared_cost_count}
use mxfs.Outcome.{returns}
use mxfs.Read.RoundTrip.{regroup}
use mxfs.Frames.{
  bytes, antp_frames, dim3_frames, temperature_frames, frames_of, bytes-append, page_of-frames,
  frames-few, length-bytes,
}
use mxfs.Format.Csv.{Line, Decoded, nothing, decbf_size, decode_page, print_page}
use mxfs.Format.Csv.Lines.{dim3_samples, temperature_samples, heads_of, samples_of}
use mxfs.Format.Csv.Decode.{decode_end}
use mxfs.Format.Csv.Runs.{IsDated, rounds_for, rounds_for-add, antp_runs}
use mxfs.Format.Csv.Shared.{IsSeries, gyro_runs, accelerometer_runs, temperature_runs}
use mxfs.Format.Csv.Printed.{dim3_samples-printed, temperature_samples-printed, print_page-decoded}

-- What was decoded from the page of a log.
record IsDecoded (log : Log) (d : Decoded) : Type 0 where
  lines : d.lines ≡ heads_of log
  of_gyro : IsSeries 3 (λ t. t) (log gyro) d.gyro
  of_accelerometer : IsSeries 3 (λ t. t) (log accelerometer) d.accelerometer
  of_temperature : IsSeries 1 (λ t. carried_time log) (log temperature) d.temperature

module _ (log : Log) (valid : IsLog log) (cost : page_cost log ≤ 2000)
    (dated : (l : Layer) → All IsDated (log l)) where
  decoded :
      (rbf tail : List ℕ) (k : ℕ)
      → rbf ≡ bytes (frames_of log) ++ tail
      → length rbf ≡ decbf_size
      → 4 ≤ length tail
      → from_le (take 4 tail) ≢ magic_number
      → (d : Decoded) × (decode_page rbf
            (rounds_for (antp_frames speed (log speed)) (
              rounds_for (antp_frames power (log power)) (
                rounds_for (antp_frames cadence (log cadence)) (
                  rounds_for (dim3_frames gyro (log gyro)) (
                    rounds_for (dim3_frames accelerometer (log accelerometer)) (
                      rounds_for
                        (temperature_frames (carried_time log) (log temperature))
                        (suc k)))))))
            0
            nothing
          ≡ returns d)
        × IsDecoded log d
  decoded rbf tail k e long four ne =
      let a = bytes (antp_frames speed (log speed)) in
      let b = bytes (antp_frames power (log power)) in
      let c = bytes (antp_frames cadence (log cadence)) in
      let g = bytes (dim3_frames gyro (log gyro)) in
      let h = bytes (dim3_frames accelerometer (log accelerometer)) in
      let t = bytes (temperature_frames (carried_time log) (log temperature)) in
      let whole : bytes (frames_of log) ≡ a ++ (b ++ (c ++ (g ++ (h ++ t)))) =
        simp bytes-append refl in
      let (h1, h2, h3, h4, h5) = regroup rbf a b c g h t tail (e ∙ ap (λ x. x ++ tail) whole) in
      let h6 : rbf ≡ (((((a ++ b) ++ c) ++ g) ++ h) ++ t) ++ tail =
        h5 ∙ sym (append_assoc ((((a ++ b) ++ c) ++ g) ++ h) t tail) in
      let few_gyro : length (log gyro) < 1000 =
        omega (arith, cost, shared_cost_count 6 (log gyro)) in
      let few_accelerometer : length (log accelerometer) < 1000 =
        omega (arith, cost, shared_cost_count 6 (log accelerometer)) in
      let few_temperature : length (log temperature) < 4000 =
        omega (arith, cost, shared_cost_count 2 (log temperature)) in
      let r1 =
        antp_runs rbf long _ speed (log speed) [] _ nothing refl (valid speed) (dated speed) h1 in
      let r2 = antp_runs rbf long _ power (log power) a _ _ refl (valid power) (dated power) h1 in
      let r3 =
        antp_runs rbf long _ cadence (log cadence) (a ++ b) _ _ refl (valid cadence) (dated cadence)
          h2 in
      let (sg, r4, ig) =
        gyro_runs rbf long _ (log gyro) ((a ++ b) ++ c) _ _ few_gyro (valid gyro) (dated gyro) refl
          h3 in
      let (sa, r5, ia) =
        accelerometer_runs rbf long _ (log accelerometer) (((a ++ b) ++ c) ++ g) _ _
          few_accelerometer (valid accelerometer) (dated accelerometer) refl h4 in
      let (st, r6, it) =
        temperature_runs rbf long (suc k) (carried_time log) (log temperature)
          ((((a ++ b) ++ c) ++ g) ++ h) tail _ few_temperature (valid temperature)
          (dated temperature) refl h5 in
      let r7 = decode_end rbf long k (((((a ++ b) ++ c) ++ g) ++ h) ++ t) tail _ h6 four ne in
      (
        record { lines = heads_of log; gyro = sg; accelerometer = sa; temperature = st },
        r1 ∙ r2 ∙ r3 ∙ r4 ∙ r5 ∙ r6 ∙ r7,
        record { lines = refl; of_gyro = ig; of_accelerometer = ia; of_temperature = it },
      )

  -- For every log of at most 2000 bytes whose stamps have seconds of 32 bits, and a page that is put
  -- together from it with bytes behind it up to 4096 that do not begin with the magic number: the csv
  -- command prints a line for every ANT+ record, with its stamp and its bytes, then a head for every other
  -- layer that has samples, with its first stamp and their number. Behind these it prints the first third,
  -- rounded up, of the samples of the gyro and of the accelerometer, each with its three values but with
  -- three times its average distance to the first stamp; and all temperatures.
  pub print_page-page_of :
      (tail : List ℕ)
      → length (page_of log ++ tail) ≡ decbf_size
      → from_le (take 4 tail) ≢ magic_number
      → print_page (page_of log ++ tail) ≡ returns (heads_of log ++ samples_of log)
  print_page-page_of tail long ne =
      let fs = frames_of log in
      let rbf = page_of log ++ tail in
      let n = length-bytes log valid in
      let e : rbf ≡ bytes fs ++ tail = ap (λ x. x ++ tail) (page_of-frames log) in
      let size : length rbf ≡ length (bytes fs) + length tail =
        ap (λ (x : List ℕ). length x) e ∙ length-append (bytes fs) tail in
      let many = frames-few fs in
      let f1 = antp_frames speed (log speed) in
      let f2 = antp_frames power (log power) in
      let f3 = antp_frames cadence (log cadence) in
      let f4 = dim3_frames gyro (log gyro) in
      let f5 = dim3_frames accelerometer (log accelerometer) in
      let f6 = temperature_frames (carried_time log) (log temperature) in
      let k =
        256 - (length f1 + (length f2 + (length f3 + (length f4 + (length f5 + length f6))))) in
      let all : length fs
          ≡ length f1 + (length f2 + (length f3 + (length f4 + (length f5 + length f6)))) =
        simp length-append refl in
      let j6 = suc k in
      let j5 = rounds_for f6 j6 in
      let j4 = rounds_for f5 j5 in
      let j3 = rounds_for f4 j4 in
      let j2 = rounds_for f3 j3 in
      let j1 = rounds_for f2 j2 in
      let fuel : rounds_for f1 j1 ≡ 257 = omega (
        arith,
        rounds_for-add f6 j6,
        rounds_for-add f5 j5,
        rounds_for-add f4 j4,
        rounds_for-add f3 j3,
        rounds_for-add f2 j2,
        rounds_for-add f1 j1,
        all,
        many,
        n,
        cost,
      ) in
      let (d, go, is) = decoded rbf tail k e long (omega (arith, size, long, n, cost)) ne in
      print_page-decoded rbf d (dim3_samples gyro (log gyro))
        (dim3_samples accelerometer (log accelerometer))
        (temperature_samples (carried_time log) (log temperature))
        (ap (λ (x : ℕ). decode_page rbf x 0 nothing) (sym fuel) ∙ go)
        (dim3_samples-printed gyro (log gyro) d.gyro
          (omega (arith, cost, shared_cost_count 6 (log gyro))) is.of_gyro)
        (dim3_samples-printed accelerometer (log accelerometer) d.accelerometer
          (omega (arith, cost, shared_cost_count 6 (log accelerometer))) is.of_accelerometer)
        (temperature_samples-printed (carried_time log) (log temperature) d.temperature
          (omega (arith, cost, shared_cost_count 2 (log temperature))) is.of_temperature)
      ∙ ap (λ (x : List Line). returns (x ++ samples_of log)) is.lines
