-- ===== src/Instance.antt =====
-- sw/child/inc/mxfs_def.h: the constants, the return codes and the records of a mounted instance,
-- in the build without __LINUX__ (RP2040 and macOS).
use mxfs.Base.{ℕ, ◌+◌, ◌-◌, ◌%◌, Bool, false, Option, none, some, List, ◌==◌, if◌then◌else◌}

abbrev pub page_size : ℕ
page_size = 2048

abbrev pub block_count : ℕ
block_count = 1024

abbrev pub page_count : ℕ
page_count = 64

abbrev pub antp_record_size : ℕ
antp_record_size = 18

abbrev pub gyro_record_size : ℕ
gyro_record_size = 6

abbrev pub temperature_record_size : ℕ
temperature_record_size = 2

abbrev pub block_start_data_area : ℕ
block_start_data_area = 1

-- `sizeof(uint64_t)`, the time stamp in front of a buffered record.
abbrev pub stamp_size : ℕ
stamp_size = 8

-- The `int` that the functions return: OK is 0, and a count is at least 0.
pub data Ret : Type 0 where
  count : ℕ → Ret
  err need_more_buffer : Ret

abbrev pub ok : Ret
ok = count 0

abbrev pub is_ok : Ret → Bool
is_ok (count n) = n == 0
is_ok err = false
is_ok need_more_buffer = false

-- The layers LAYER_MIN .. LAYER_MAX - 1.
pub data Layer : Type 0 where
  speed power cadence gyro accelerometer temperature : Layer

-- Their numbers, which a header's `type` holds.
abbrev pub code : Layer → ℕ
code speed = 0
code power = 1
code cadence = 2
code gyro = 3
code accelerometer = 4
code temperature = 5

-- LAYER_CONFIG and LAYER_DIRECT.
abbrev pub layer_max : ℕ
layer_max = 6

abbrev pub layer_of : ℕ → Option Layer
layer_of n =
    if n == 0
    then some speed
    else if n == 1
    then some power
    else if n == 2
    then some cadence
    else if n == 3
    then some gyro
    else if n == 4
    then some accelerometer
    else if n == 5
    then some temperature
    else none

-- ANTP_RECORD_SIZE, GYRO_RECORD_SIZE and TEMPERATURE_RECORD_SIZE, by layer.
abbrev pub record_size : Layer → ℕ
record_size speed = antp_record_size
record_size power = antp_record_size
record_size cadence = antp_record_size
record_size gyro = gyro_record_size
record_size accelerometer = gyro_record_size
record_size temperature = temperature_record_size

-- PAGE_IN_ANTP_SPEED .. PAGE_IN_TEMPERATURE, the entries of `page_flags_array`.
abbrev pub page_flag : Layer → ℕ
page_flag speed = 4
page_flag power = 8
page_flag cadence = 16
page_flag gyro = 32
page_flag accelerometer = 64
page_flag temperature = 128

abbrev pub same_layer : Layer → Layer → Bool
same_layer l k = code l == code k

-- An array with an entry for each layer, and the write of one entry.
abbrev pub put {ℓ} : {A : Type ℓ} → Layer → A → (Layer → A) → Layer → A
put l v f k = if same_layer l k then v else f k

-- BLOCK_INVALID is bit 0 of `flags`: `flags & BLOCK_INVALID`, `flags |= …` and `flags &= ~…`.
abbrev pub is_invalid : ℕ → Bool
is_invalid flags = flags % 2 == 1

abbrev pub mark_invalid : ℕ → ℕ
mark_invalid flags = flags - flags % 2 + 1

abbrev pub clear_invalid : ℕ → ℕ
clear_invalid flags = flags - flags % 2

pub record TimeRange : Type 0 where
  pub start_time : ℕ
  pub last_time : ℕ
  pub block : ℕ
  pub page : ℕ
  pub record_count : ℕ

pub record BlockStatus : Type 0 where
  pub flags : ℕ
  pub start_time : ℕ
  pub pages : ℕ → ℕ

-- `mxfs_buffer[layer]` points to an array of MXFS_BUFFER_SIZE bytes, which is the list here.
pub record Inst : Type 0 where
  pub current_block : ℕ
  pub invalid_block : ℕ
  pub current_page : ℕ
  pub mxfs_buffer : Layer → List ℕ
  pub mxfs_length : Layer → ℕ
  pub mxfs_count : Layer → ℕ
  pub blocks : ℕ → BlockStatus

-- A write of one entry of an array that is indexed by numbers.
abbrev pub update {ℓ} : {A : Type ℓ} → (ℕ → A) → ℕ → A → ℕ → A
update f i v j = if i == j then v else f j
