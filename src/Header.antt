-- ===== src/Header.antt =====
-- `compress_t` of sw/child/inc/mxfs_def.h: the 16-byte header in front of every record of a page.
-- It is packed: four 32-bit words, little endian, bit-fields filled from the lowest bit.
-- Word 2 holds comp:1 type:5 step:16 msec:10, and word 3 is the union of `ant`, `gyr` and `tmp`.
pub mod Codec
use mxfs.Base.{ℕ, ◌+◌, ◌-◌, ◌*◌, ◌/◌, ◌%◌, ◌^◌, ◌<◌, List, ◌++◌, u32, to_le, from_le, slice}

abbrev pub magic_number : ℕ
magic_number = 0xdeadc0de

abbrev pub header_size : ℕ
header_size = 16

-- The bit-field of `width` bits from bit `lo` on.
abbrev pub get_bits : ℕ → ℕ → ℕ → ℕ
get_bits lo width w = w / 2 ^ lo % 2 ^ width

abbrev pub set_bits : ℕ → ℕ → ℕ → ℕ → ℕ
set_bits lo width v w = w - get_bits lo width w * 2 ^ lo + v % 2 ^ width * 2 ^ lo

pub record Compress : Type 0 where
  pub magic : ℕ
  pub time : ℕ
  pub bits : ℕ
  pub union : ℕ

abbrev pub IsWord : ℕ → Type 0
IsWord w = w < 2 ^ 32

-- All four words fit 32 bits.
abbrev pub Fits : Compress → Type 0
Fits c = IsWord c.magic × IsWord c.time × IsWord c.bits × IsWord c.union

unfoldable pub comp_of : Compress → ℕ
comp_of c = get_bits 0 1 c.bits

unfoldable pub type_of : Compress → ℕ
type_of c = get_bits 1 5 c.bits

unfoldable pub step_of : Compress → ℕ
step_of c = get_bits 6 16 c.bits

unfoldable pub msec_of : Compress → ℕ
msec_of c = get_bits 22 10 c.bits

unfoldable pub ant_length : Compress → ℕ
ant_length c = get_bits 0 9 c.union

unfoldable pub gyr_dim : Compress → ℕ
gyr_dim c = get_bits 0 3 c.union

unfoldable pub gyr_count : Compress → ℕ
gyr_count c = get_bits 3 11 c.union

unfoldable pub gyr_base : Compress → ℕ
gyr_base c = get_bits 14 16 c.union

unfoldable pub tmp_base : Compress → ℕ
tmp_base c = get_bits 0 16 c.union

unfoldable pub tmp_count : Compress → ℕ
tmp_count c = get_bits 16 16 c.union

-- `compress_t cp{ magic, time, comp, type, };` the fields left out are 0.
unfoldable pub init_header : ℕ → ℕ → ℕ → ℕ → Compress
init_header m t comp type = record {
  magic = u32 m;
  time = u32 t;
  bits = set_bits 1 5 type (set_bits 0 1 comp 0);
  union = 0;
}

unfoldable pub set_type : ℕ → Compress → Compress
set_type v c = record c { bits = set_bits 1 5 v c.bits }

unfoldable pub set_step : ℕ → Compress → Compress
set_step v c = record c { bits = set_bits 6 16 v c.bits }

unfoldable pub set_msec : ℕ → Compress → Compress
set_msec v c = record c { bits = set_bits 22 10 v c.bits }

unfoldable pub set_ant_length : ℕ → Compress → Compress
set_ant_length v c = record c { union = set_bits 0 9 v c.union }

unfoldable pub set_gyr_dim : ℕ → Compress → Compress
set_gyr_dim v c = record c { union = set_bits 0 3 v c.union }

unfoldable pub set_gyr_count : ℕ → Compress → Compress
set_gyr_count v c = record c { union = set_bits 3 11 v c.union }

unfoldable pub set_gyr_base : ℕ → Compress → Compress
set_gyr_base v c = record c { union = set_bits 14 16 v c.union }

unfoldable pub set_tmp_base : ℕ → Compress → Compress
set_tmp_base v c = record c { union = set_bits 0 16 v c.union }

unfoldable pub set_tmp_count : ℕ → Compress → Compress
set_tmp_count v c = record c { union = set_bits 16 16 v c.union }

-- The 16 bytes of a header in memory.
pub encode : Compress → List ℕ
encode c = to_le 4 c.magic ++ (to_le 4 c.time ++ (to_le 4 c.bits ++ to_le 4 c.union))

-- `(compress_ptr)&rbf[off]`, for 16 bytes from `off` on inside `rbf`.
unfoldable pub decode : ℕ → List ℕ → Compress
decode off rbf = record {
  magic = from_le (slice off 4 rbf);
  time = from_le (slice (off + 4) 4 rbf);
  bits = from_le (slice (off + 8) 4 rbf);
  union = from_le (slice (off + 12) 4 rbf);
}
