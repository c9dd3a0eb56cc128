-- ===== src/LinuxBuild/Start.antt =====
-- sw/child/src/mxfs_instance.cc in the build with __LINUX__: the part of `mxfs_create_instance` from the
-- pins and the bus on.
use Prim.Native.Nat.{bit_and, digits, bit_and-bitwise}
use mxfs.Base.{
  ℕ, zero, suc, ◌+◌, ◌/◌, ◌≡◌, refl, sym, subst, ◌∙◌, not, Option, none, some, replicate, ltb, ◌==◌,
  if◌then◌else◌, min, u16, u32, rounds, for_step, for_step_keeps, arith, Bool-cases, inl, inr,
}
use mxfs.Header.{Compress, magic_number, decode}
use mxfs.Instance.{Ret, ok, err, is_ok, update, block_count, block_start_data_area}
use mxfs.Driver.{Driver}
use mxfs.LinuxBuild.{PageStatus, TimedBlock, TimedInst, page_valid, page_invalid}

abbrev pub fresh_timed : (buffer_size : ℕ) → TimedInst
fresh_timed buffer_size = record {
  current_block = block_start_data_area;
  invalid_block = 0;
  current_page = 0;
  mxfs_buffer = λ l. replicate buffer_size 0xff;
  mxfs_length = λ l. 0;
  mxfs_count = λ l. 0;
  blocks = λ b. record {
    flags = 0;
    start_time = 0;
    pages = λ p. record { flags = 0; start_time = 0; last_time = 0 };
  };
}

-- `pages[0].flags` of a block takes a value.
abbrev pub flag_first : ℕ → TimedBlock → ℕ → PageStatus
flag_first f s = update s.pages 0 (record (s.pages 0) { flags = f })

abbrev pub unread_timed : TimedBlock → TimedBlock
unread_timed s = record { flags = 1; start_time = 0; pages = flag_first page_invalid s }

abbrev pub read_timed : Compress → TimedBlock → TimedBlock
read_timed cp s = record {
  flags = if cp.magic == magic_number then 1 else 0;
  start_time = cp.time;
  pages = flag_first page_valid s;
}

-- `if (callback) { callback(inst, block); }`
abbrev pub notify : Option (ℕ → TimedInst → TimedInst) → ℕ → TimedInst → TimedInst
notify none b inst = inst
notify (some f) b inst = f b inst

-- The loop that looks for the current block; `start_tmm` has 32 bits.
pub find_current_timed : (rounds block start_tmm : ℕ) → TimedInst → TimedInst
find_current_timed zero b t inst = inst
find_current_timed (suc k) b t inst =
    let s = (inst.blocks b).pages 0 in
    if not (bit_and s.flags page_valid == 0)
    then (if ltb t s.start_time
        then find_current_timed k (suc b) (u32 s.start_time)
            (record inst { current_block = b; current_page = 0 })
        else find_current_timed k (suc b) t inst)
    else find_current_timed k (suc b) t inst

module _ (drv : Driver) (callback : Option (ℕ → TimedInst → TimedInst)) where
  unfoldable pub scan_block_timed : (block : ℕ) → TimedInst × drv.Dev → TimedInst × drv.Dev
  scan_block_timed b (inst, dev) =
      let (r, rbf, dev') = drv.read b 0 (replicate 16 0) dev in
      if not (is_ok r)
      then (
        record inst {
          blocks = update inst.blocks b (unread_timed (inst.blocks b));
          invalid_block = u16 (inst.invalid_block + 1);
        },
        dev',
      )
      else (
        notify callback b (record inst {
          blocks = update inst.blocks b (read_timed (decode 0 rbf) (inst.blocks b));
        }),
        dev',
      )

  unfoldable pub scan_timed : TimedInst × drv.Dev → TimedInst × drv.Dev
  unfolding for_step scan_block_timed
  scan_timed s =
      for_step (rounds block_start_data_area block_count 1) block_start_data_area 1
        (λ b t. scan_block_timed b t) s

  unfoldable pub mount_timed : TimedInst → drv.Dev → Ret × Option TimedInst × drv.Dev
  mount_timed inst dev =
      let (r, dev1) = drv.create_gpio dev in
      if not (is_ok r)
      then (err, some inst, dev1)
      else (let (q, dev2) = drv.create_spi dev1 in
          if not (is_ok q)
          then (err, some inst, dev2)
          else (let (scanned, dev3) = scan_timed (inst, dev2) in
              (
                ok,
                some (
                    find_current_timed (rounds block_start_data_area block_count 1)
                      block_start_data_area 0 scanned),
                dev3,
              )))

-- No digit is left of a conjunction with 0.
digits-zero : (n a : ℕ) → digits (λ b. zero) min n a 0 ≡ 0
digits-zero zero a = refl
digits-zero (suc n) zero = refl
digits-zero (suc n) (suc a) = rw (digits-zero n (suc a / 2)) (omega arith)

bit_and-zero : (a : ℕ) → bit_and a 0 ≡ 0
bit_and-zero a = (λ i. bit_and-bitwise a 0 i) ∙ digits-zero a a

-- The test for a valid page never holds, so that the loop goes on to its end and sets nothing.
pub find_current_timed-stays : (k b t : ℕ) (inst : TimedInst) → find_current_timed k b t inst ≡ inst
unfolding find_current_timed
find_current_timed-stays zero b t inst = refl
find_current_timed-stays (suc k) b t inst =
    rw (bit_and-zero ((inst.blocks b).pages 0).flags) (find_current_timed-stays k (suc b) t inst)

-- The position of a fresh instance.
abbrev pub IsFirst : TimedInst → Type 0
IsFirst inst = (inst.current_block ≡ 1) × (inst.current_page ≡ 0)

module _ (drv : Driver) (callback : Option (ℕ → TimedInst → TimedInst))
    (calm : (b : ℕ) (inst : TimedInst) → IsFirst inst → IsFirst (notify callback b inst)) where
  scan_block_timed-IsFirst :
      (b : ℕ) (s : TimedInst × drv.Dev)
      → IsFirst s.0
      → IsFirst (scan_block_timed drv callback b s).0
  unfolding scan_block_timed
  scan_block_timed-IsFirst b (inst, dev) h =
      elim (Bool-cases (is_ok (drv.read b 0 (replicate 16 0) dev).0)) [
        | inl e ↦ rw e (calm b _ h)
        | inr e ↦ rw e h
      ]

  pub scan_timed-IsFirst :
      (s : TimedInst × drv.Dev) → IsFirst s.0 → IsFirst (scan_timed drv callback s).0
  unfolding scan_timed
  scan_timed-IsFirst s h =
      for_step_keeps (λ (t : TimedInst × drv.Dev). IsFirst t.0) 1023 1 1
        (λ b t. scan_block_timed drv callback b t) s scan_block_timed-IsFirst h

  -- Whatever the flash holds, in the build with __LINUX__: where the pins and the bus come up and the
  -- callback leaves the position alone, the part of `mxfs_create_instance` behind its allocations returns
  -- OK with an instance whose position is the first page of the first block of the data area.
  pub mount_timed-IsFirst :
      (buffer_size : ℕ) (dev : drv.Dev)
      → (drv.create_gpio dev).0 ≡ ok
      → (drv.create_spi (drv.create_gpio dev).1).0 ≡ ok
      → let r = mount_timed drv callback (fresh_timed buffer_size) dev in
        (inst : TimedInst) × (r.0 ≡ ok) × (r.1 ≡ some inst) × IsFirst inst
  unfolding mount_timed
  mount_timed-IsFirst buffer_size dev g s =
      rw (g, s)
        (
          _,
          refl,
          refl,
          subst (λ i. IsFirst i) (sym (find_current_timed-stays 1023 1 0 _))
              (scan_timed-IsFirst _ (refl, refl)),
        )
