-- ===== src/Format/Csv.antt =====
-- sw/parent/src/format.cc: the csv command, which decodes the pages and prints a line for each record. The
-- lines are data here, with the 16-bit patterns of the int16_t values; `at` of a vector throws, which stops
-- the program.
pub mod Ends
mod Values
pub mod Lines
mod Decode
pub mod Runs
mod Shared
mod Printed
pub mod Page
use mxfs.Base.{
  ℕ, zero, suc, ◌+◌, ◌-◌, ◌*◌, ◌≤◌, ◌≡◌, ◌≢◌, Bool, true, false, ◌||◌, List, [], ◌∷◌, ◌++◌, arith,
  ltb, le→ltb, ◌==◌, if◌then◌else◌, u64, from_le, replicate, rounds,
}
use mxfs.Header.{
  Compress, header_size, magic_number, decode, type_of, step_of, ant_length, gyr_count, gyr_dim,
  tmp_count,
}
use mxfs.Outcome.{Outcome, returns, aborted, stuck, ◌>>=◌, ◌>>◌, load}
use mxfs.Bus.{device_reset}
use mxfs.Linux.{Linux}
use mxfs.Parent.{wait_read}
use mxfs.Timerange.{stamp64}
use mxfs.Format.{for_each}

-- The lines "rec speed", "rec power" and "rec cadence", "head gyro", "head accelerometer" and "head
-- temprature", "rec gyro" and "rec accel", "rec temp", and "not support".
pub data Line : Type 0 where
  antp : (type length time : ℕ) (bytes : List ℕ) → Line
  dim3_head : (type time count dim vcnt : ℕ) → Line
  temperature_head : (time count : ℕ) → Line
  dim3_sample : (type n time x y z : ℕ) → Line
  temperature_sample : (n time value : ℕ) → Line
  not_support : Line

-- `gyrv`, `gyrvcnt`, `gyrvtime` and `gyrvstep`, and the same for the other two.
pub record Series : Type 0 where
  pub values : ℕ → ℕ
  pub count : ℕ
  pub time : ℕ
  pub step : ℕ

pub record Decoded : Type 0 where
  pub lines : List Line
  pub gyro : Series
  pub accelerometer : Series
  pub temperature : Series

abbrev pub no_series : Series
no_series = record { values = λ i. 0; count = 0; time = 0; step = 0 }

abbrev pub nothing : Decoded
nothing = record {
  lines = [];
  gyro = no_series;
  accelerometer = no_series;
  temperature = no_series;
}

-- The size of `decbf`, and of the vectors.
abbrev pub decbf_size : ℕ
decbf_size = 4096

-- `((int16_t*)...)[0]` and so on, two bytes each, from index `i` on.
unfoldable pub put_values : (i : ℕ) → List ℕ → (ℕ → ℕ) → ℕ → ℕ
put_values i [] v = v
put_values i (a ∷ []) v = v
put_values i (a ∷ (b ∷ rest)) v =
    put_values (suc i) rest (λ j. if j == i then from_le (a ∷ (b ∷ [])) else v j)

-- `for (int n = 0; n < count; n++)` over samples of `dims` values.
pub copy_samples : (dims : ℕ) → List ℕ → (bp k n : ℕ) → (ℕ → ℕ) → Outcome (ℕ → ℕ)
copy_samples dims decbf bp zero n v = returns v
copy_samples dims decbf bp (suc k) n v = do
  w ← load (bp + n * (2 * dims)) (2 * dims) decbf
  if ltb (n * dims + (dims - 1)) decbf_size
      then copy_samples dims decbf bp k (suc n) (put_values (n * dims) w v)
      else aborted

-- The series of a record: its values stand from the front on, whatever an earlier record left there.
pub take_series : (dims count bp : ℕ) → List ℕ → Compress → Series → Outcome Series
take_series dims count bp decbf cp s = do
  v ← copy_samples dims decbf bp count 0 s.values
  returns (record { values = v; count = s.count + count; time = stamp64 cp; step = step_of cp })

abbrev pub say : Line → Decoded → Decoded
say l d = record d { lines = d.lines ++ (l ∷ []) }

-- One record with its header: how far the offset moves on behind it, and what is decoded.
pub decode_record : List ℕ → Compress → (bp : ℕ) → Decoded → Outcome (ℕ × Decoded)
decode_record decbf cp bp d =
    let type = type_of cp in
    if type == 0 || (type == 1 || type == 2)
    then (do
      w ← load bp 18 decbf
      returns (ant_length cp, say (antp type (ant_length cp) (stamp64 cp) w) d))
    else if type == 3
    then (do
      s ← take_series 3 (gyr_count cp) bp decbf cp d.gyro
      let head = dim3_head 3 (stamp64 cp) (gyr_count cp) (gyr_dim cp) d.gyro.count in
          returns (gyr_count cp * 6, record (say head d) { gyro = s }))
    else if type == 4
    then (do
      s ← take_series 3 (gyr_count cp) bp decbf cp d.accelerometer
      let head = dim3_head 4 (stamp64 cp) (gyr_count cp) (gyr_dim cp) d.accelerometer.count in
          returns (gyr_count cp * 6, record (say head d) { accelerometer = s }))
    else if type == 5
    then (do
      s ← take_series 1 (tmp_count cp) bp decbf cp d.temperature
      returns (
        tmp_count cp * 2,
        record (say (temperature_head (stamp64 cp) (tmp_count cp)) d) { temperature = s },
      ))
    else returns (0, say not_support d)

pub decode_page : List ℕ → ℕ → (offset : ℕ) → Decoded → Outcome Decoded
decode_page decbf zero offset d = stuck
decode_page decbf (suc fuel) offset d = elim (ltb offset decbf_size) [
  | false ↦ returns d
  | true ↦ (do
    w ← load offset 4 decbf
    elim (from_le w == magic_number) [
      | false ↦ returns d
      | true ↦ (do
        h ← load offset header_size decbf
        (next, d') ← decode_record decbf (decode offset decbf) (offset + header_size) d
        decode_page decbf fuel (offset + next + header_size) d')
    ])
]

-- `for (auto n = 0; n < gyrvcnt; n += 3)`, with the number of samples for the bound.
unfoldable pub dim3_lines : (type : ℕ) → Series → (k n : ℕ) → Outcome (List Line)
dim3_lines type s zero n = returns []
dim3_lines type s (suc k) n = do
  rest ← dim3_lines type s k (n + 3)
  if ltb (n + 2) decbf_size
      then returns (
          dim3_sample type n (u64 (s.time + s.step * n)) (s.values n) (s.values (n + 1))
            (s.values (n + 2))
          ∷ rest)
      else aborted

unfoldable pub temperature_lines : Series → (k n : ℕ) → Outcome (List Line)
temperature_lines s zero n = returns []
temperature_lines s (suc k) n = do
  rest ← temperature_lines s k (suc n)
  if ltb n decbf_size
      then returns (temperature_sample n (u64 (s.time + s.step * n)) (s.values n) ∷ rest)
      else aborted

-- What is printed for a page. Every round passes a header, so 257 rounds are enough for 4096 bytes.
unfoldable pub print_page : List ℕ → Outcome (List Line)
print_page decbf = do
  d ← decode_page decbf 257 0 nothing
  g ← dim3_lines 3 d.gyro (rounds 0 d.gyro.count 3) 0
  a ← dim3_lines 4 d.accelerometer (rounds 0 d.accelerometer.count 3) 0
  t ← temperature_lines d.temperature d.temperature.count 0
  returns (d.lines ++ (g ++ (a ++ t)))

module _ (pi : Linux) where
  -- The buffer is longer than a page of the chip with its spare bytes.
  unfoldable pub csv_page :
      ℕ → (block page : ℕ) → List Line × pi.State → Outcome (List Line × pi.State)
  csv_page fuel block page (lines, s) = do
    (status, decbf, s') ← wait_read pi fuel block page (device_reset, replicate decbf_size 0, s)
    more ← print_page decbf
    returns (lines ++ more, s')

  unfoldable pub csv_block :
      ℕ → (page_s page_e block : ℕ) → List Line × pi.State → Outcome (List Line × pi.State)
  csv_block fuel page_s page_e block x = for_each (csv_page fuel block) (page_e - page_s) page_s x

  unfoldable pub csv_command :
      ℕ → (block_s block_e page_s page_e : ℕ) → pi.State → Outcome (List Line × pi.State)
  csv_command fuel block_s block_e page_s page_e s =
      for_each (csv_block fuel page_s page_e) (block_e - block_s) block_s ([], s)
