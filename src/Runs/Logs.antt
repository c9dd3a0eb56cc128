-- ===== src/Runs/Logs.antt =====
-- Runs on the page of a log with records of two layers, with stamps of our days.
use mxfs.Base.{
  ℕ, ◌-◌, ◌≡◌, ◌≢◌, refl, List, [], ◌∷◌, ◌++◌, arith, length, length-append, length-replicate,
  replicate, take, All, from_le,
}
use mxfs.Header.{magic_number}
use mxfs.Instance.{Layer, speed, gyro, power, cadence, accelerometer, temperature, record_size}
use mxfs.Log.{Log}
use mxfs.Flush.{sample_step}
use mxfs.Flush.Page.{IsLog, page_of, page_cost, length-page_of}
use mxfs.Outcome.{returns}
use mxfs.Format.Csv.{antp, dim3_head, dim3_sample, decbf_size, print_page}
use mxfs.Format.Csv.Runs.{IsDated}
use mxfs.Format.Csv.Page.{print_page-page_of}
use mxfs.Timerange.{span_loop, span_fuel, no_span, raw_page_size}
use mxfs.Timerange.Found.{IsStamp}
use mxfs.Timerange.Page.{span_loop-page_of}

abbrev ride : Log
ride speed = (1700000000000, replicate 18 7) ∷ ((1700000000250, replicate 18 8) ∷ [])
ride gyro = (1700000000100, replicate 6 1) ∷ ((1700000000200, replicate 6 2) ∷ [])
ride _ = []

ride-IsLog : IsLog ride
ride-IsLog speed = ((omega arith, refl), ((omega arith, refl), tt))
ride-IsLog power = tt
ride-IsLog cadence = tt
ride-IsLog gyro = ((omega arith, refl), ((omega arith, refl), tt))
ride-IsLog accelerometer = tt
ride-IsLog temperature = tt

ride-IsStamp : (l : Layer) → record_size l ≡ 18 → All IsStamp (ride l)
ride-IsStamp speed h = ((omega arith, omega arith), ((omega arith, omega arith), tt))
ride-IsStamp power h = tt
ride-IsStamp cadence h = tt
ride-IsStamp gyro h = absurd (omega (arith, h))
ride-IsStamp accelerometer h = tt
ride-IsStamp temperature h = tt

-- Zeros up to the end of the page and of its spare bytes.
abbrev zeros : ℕ → List ℕ
zeros size = replicate (size - page_cost ride) 0

ride_long : length (page_of ride ++ zeros raw_page_size) ≡ raw_page_size
ride_long = omega (
  arith,
  length-append (page_of ride) (zeros raw_page_size),
  length-page_of ride ride-IsLog,
  length-replicate {A = ℕ} (raw_page_size - page_cost ride) 0,
)

no_magic : from_le (take 4 (zeros raw_page_size)) ≢ magic_number
unfolding from_le
no_magic = λ h. absurd (omega (arith, h))

span_loop-page_of_example :
    span_loop 3 (page_of ride ++ zeros raw_page_size) span_fuel 0 no_span
    ≡ returns (record { start_time = 3487918180; last_time = 3487918280; record_count = 2 })
unfolding sample_step
span_loop-page_of_example =
    span_loop-page_of gyro ride (zeros raw_page_size) ride-IsLog (omega arith) ride-IsStamp
      ride_long no_magic

ride_longer : length (page_of ride ++ zeros decbf_size) ≡ decbf_size
ride_longer = omega (
  arith,
  length-append (page_of ride) (zeros decbf_size),
  length-page_of ride ride-IsLog,
  length-replicate {A = ℕ} (decbf_size - page_cost ride) 0,
)

no_magic_behind : from_le (take 4 (zeros decbf_size)) ≢ magic_number
unfolding from_le
no_magic_behind = λ h. absurd (omega (arith, h))

ride-IsDated : (l : Layer) → All IsDated (ride l)
ride-IsDated speed = (omega arith, (omega arith, tt))
ride-IsDated power = tt
ride-IsDated cadence = tt
ride-IsDated gyro = (omega arith, (omega arith, tt))
ride-IsDated accelerometer = tt
ride-IsDated temperature = tt

print_page-page_of_example :
    print_page (page_of ride ++ zeros decbf_size)
    ≡ returns (
        antp 0 18 1700000000000 (replicate 18 7)
        ∷ (antp 0 18 1700000000250 (replicate 18 8)
            ∷ (dim3_head 3 1700000000100 2 3 0 ∷ (dim3_sample 3 0 1700000000100 257 257 257 ∷ []))))
unfolding sample_step from_le
print_page-page_of_example =
    print_page-page_of ride ride-IsLog (omega arith) ride-IsDated (zeros decbf_size) ride_longer
      no_magic_behind
