-- ===== src/Timerange/Page.antt =====
-- `mxfs_timerange_by_block` (sw/child/src/mxfs_timerange.cc) on the page of a log.
use mxfs.Base.{
  ℕ, ◌≤◌, ◌<◌, ◌≡◌, ◌≢◌, refl, ap, ◌∙◌, false, List, ◌++◌, arith, length, length-append, take, All,
  from_le,
}
use mxfs.Header.{magic_number}
use mxfs.Instance.{
  record_size, Layer, speed, power, cadence, gyro, accelerometer, temperature, code, same_layer,
}
use mxfs.Log.{Log}
use mxfs.Flush.Page.{IsLog, page_cost, page_of, carried_time}
use mxfs.Outcome.{returns}
use mxfs.Sound.{shared_cost_count}
use mxfs.Frames.{
  bytes, frames_of, antp_frames, dim3_frames, temperature_frames, page_of-frames, frames_of-IsFrame,
  frames-few, length-bytes,
}
use mxfs.Timerange.{Span, no_span, raw_page_size, span_loop, span_fuel}
use mxfs.Timerange.Spans.{spans, loop-frames}
use mxfs.Timerange.Found.{
  IsStamp, found, spans-append, spans_other, antp_frames_own, dim3_frames_own,
  temperature_frames_own, antp_own, dim3_own, temperature_own,
}

module _ (log : Log) (cost : page_cost log ≤ 2000) where
  few_antp : (l : Layer) → record_size l ≡ 18 → length (log l) < 65536
  few_antp speed e = omega (arith, cost)
  few_antp power e = omega (arith, cost)
  few_antp cadence e = omega (arith, cost)
  few_antp _ e = absurd (omega arith)

  -- The frames of a log, of which those of one layer count.
  six :
      (k : Layer)
      → spans k (frames_of log) no_span
        ≡ spans k (temperature_frames (carried_time log) (log temperature)) (
            spans k (dim3_frames accelerometer (log accelerometer)) (
              spans k (dim3_frames gyro (log gyro)) (
                spans k (antp_frames cadence (log cadence)) (
                  spans k
                    (antp_frames power (log power))
                    (spans k (antp_frames speed (log speed)) no_span)))))
  six k = simp spans-append refl

  spans_of-found :
      (k : Layer)
      → ((l : Layer) → record_size l ≡ 18 → All IsStamp (log l))
      → spans k (frames_of log) no_span ≡ found k log
  spans_of-found k stamps = six k ∙ by_layer k
    where
      A : (k l : Layer) (s : Span) → same_layer l k ≡ false → spans k (antp_frames l (log l)) s ≡ s
      A k l s h = spans_other k l (antp_frames l (log l)) s (antp_frames_own l (log l)) h

      D : (k l : Layer) (s : Span) → same_layer l k ≡ false → spans k (dim3_frames l (log l)) s ≡ s
      D k l s h = spans_other k l (dim3_frames l (log l)) s (dim3_frames_own l (log l)) h

      T :
          (k : Layer) (s : Span)
          → same_layer temperature k ≡ false
          → spans k (temperature_frames (carried_time log) (log temperature)) s ≡ s
      T k s h =
          spans_other k temperature (temperature_frames (carried_time log) (log temperature)) s
            (temperature_frames_own (carried_time log) (log temperature)) h

      by_layer :
          (k : Layer)
          → spans k (temperature_frames (carried_time log) (log temperature)) (
              spans k (dim3_frames accelerometer (log accelerometer)) (
                spans k (dim3_frames gyro (log gyro)) (
                  spans k (antp_frames cadence (log cadence)) (
                    spans k
                      (antp_frames power (log power))
                      (spans k (antp_frames speed (log speed)) no_span)))))
            ≡ found k log
      by_layer speed =
          T speed _ refl
          ∙ D speed accelerometer _ refl
          ∙ D speed gyro _ refl
          ∙ A speed cadence _ refl
          ∙ A speed power _ refl
          ∙ antp_own speed (log speed) (few_antp speed refl) (stamps speed refl) refl (λ cp s. refl)
      by_layer power =
          T power _ refl
          ∙ D power accelerometer _ refl
          ∙ D power gyro _ refl
          ∙ A power cadence _ refl
          ∙ ap (spans power (antp_frames power (log power))) (A power speed no_span refl)
          ∙ antp_own power (log power) (few_antp power refl) (stamps power refl) refl (λ cp s. refl)
      by_layer cadence =
          T cadence _ refl
          ∙ D cadence accelerometer _ refl
          ∙ D cadence gyro _ refl
          ∙ ap (spans cadence (antp_frames cadence (log cadence)))
              (A cadence power _ refl ∙ A cadence speed no_span refl)
          ∙ antp_own cadence (log cadence) (few_antp cadence refl) (stamps cadence refl) refl
              (λ cp s. refl)
      by_layer gyro =
          T gyro _ refl
          ∙ D gyro accelerometer _ refl
          ∙ ap (spans gyro (dim3_frames gyro (log gyro)))
              (A gyro cadence _ refl ∙ A gyro power _ refl ∙ A gyro speed no_span refl)
          ∙ dim3_own gyro (log gyro) refl (omega (arith, cost, shared_cost_count 6 (log gyro)))
      by_layer accelerometer =
          T accelerometer _ refl
          ∙ ap (spans accelerometer (dim3_frames accelerometer (log accelerometer))) (
              D accelerometer gyro _ refl
              ∙ A accelerometer cadence _ refl
              ∙ A accelerometer power _ refl
              ∙ A accelerometer speed no_span refl)
          ∙ dim3_own accelerometer (log accelerometer) refl
              (omega (arith, cost, shared_cost_count 6 (log accelerometer)))
      by_layer temperature =
          ap (spans temperature (temperature_frames (carried_time log) (log temperature))) (
            D temperature accelerometer _ refl
            ∙ D temperature gyro _ refl
            ∙ A temperature cadence _ refl
            ∙ A temperature power _ refl
            ∙ A temperature speed no_span refl)
          ∙ temperature_own (carried_time log) (log temperature)
              (omega (arith, cost, shared_cost_count 2 (log temperature)))

-- On every page that is put together from a log of at most 2000 bytes, with bytes behind it up to 2112 that
-- do not begin with the magic number, the loop of `mxfs_timerange_by_block` returns for an ANT+ layer, all
-- of whose stamps are positive and have seconds of 32 bits, the first stamp, the last and the number of
-- records. For each other layer it returns the number of samples, the first stamp modulo 2 ^ 32, and behind
-- that as many average distances as there are samples.
pub span_loop-page_of :
    (k : Layer) (log : Log) (tail : List ℕ)
    → IsLog log
    → page_cost log ≤ 2000
    → ((l : Layer) → record_size l ≡ 18 → All IsStamp (log l))
    → length (page_of log ++ tail) ≡ raw_page_size
    → from_le (take 4 tail) ≢ magic_number
    → span_loop (code k) (page_of log ++ tail) span_fuel 0 no_span ≡ returns (found k log)
span_loop-page_of k log tail valid cost stamps long ne =
    let fs = frames_of log in
    let n = length-bytes log valid in
    let p = page_of-frames log in
    let long' : length (bytes fs ++ tail) ≡ raw_page_size = rw p at long in
    rw p (
      loop-frames k fs tail (frames_of-IsFrame log valid cost)
        (omega (arith, frames-few fs, n, cost)) long'
        (omega (arith, long', length-append (bytes fs) tail, n, cost)) ne
      ∙ ap (λ x. returns x) (spans_of-found log cost k stamps))
