-- ===== src/Read/Headers.antt =====
-- What the headers that `mxfs_flush` writes say to `mxfs_read`.
use mxfs.Base.{ℕ, ◌<◌, ◌≡◌, refl, arith}
use mxfs.Header.{
  Compress, magic_number, Fits, type_of, ant_length, gyr_count, tmp_count, init_header, set_step,
  set_msec, set_ant_length, set_gyr_dim, set_gyr_count, set_gyr_base, set_tmp_base, set_tmp_count,
}
use mxfs.Instance.{
  Layer, speed, power, cadence, gyro, accelerometer, temperature, code, record_size,
}
use mxfs.Flush.{antp_header, dim3_header, temperature_header}

-- A header with the magic number, of a layer.
abbrev pub Tells : Layer → Compress → Type 0
Tells l cp = Fits cp × (cp.magic ≡ magic_number) × (type_of cp ≡ code l)

pub antp_header-Tells :
    (l : Layer) (t : ℕ)
    → record_size l ≡ 18
    → Tells l (antp_header l t) × (ant_length (antp_header l t) ≡ 18)
unfolding antp_header init_header set_msec set_ant_length type_of ant_length
antp_header-Tells speed t h =
    (((omega arith, omega arith, omega arith, omega arith), refl, omega arith), omega arith)
antp_header-Tells power t h =
    (((omega arith, omega arith, omega arith, omega arith), refl, omega arith), omega arith)
antp_header-Tells cadence t h =
    (((omega arith, omega arith, omega arith, omega arith), refl, omega arith), omega arith)
antp_header-Tells _ t h = absurd (omega arith)

pub dim3_header-Tells :
    (l : Layer) (t last n : ℕ)
    → record_size l ≡ 6
    → n < 2048
    → Tells l (dim3_header l t last n) × (gyr_count (dim3_header l t last n) ≡ n)
unfolding dim3_header init_header set_msec set_step set_gyr_dim set_gyr_count set_gyr_base type_of
    gyr_count
dim3_header-Tells gyro t last n h q =
    (((omega arith, omega arith, omega arith, omega arith), refl, omega arith), omega arith)
dim3_header-Tells accelerometer t last n h q =
    (((omega arith, omega arith, omega arith, omega arith), refl, omega arith), omega arith)
dim3_header-Tells _ t last n h q = absurd (omega arith)

pub temperature_header-Tells :
    (t last n : ℕ)
    → n < 65536
    → Tells temperature (temperature_header t last n)
      × (tmp_count (temperature_header t last n) ≡ n)
unfolding temperature_header init_header set_msec set_step set_tmp_base set_tmp_count type_of
    tmp_count
temperature_header-Tells t last n q =
    (((omega arith, omega arith, omega arith, omega arith), refl, omega arith), omega arith)
