-- ===== src/Mount.antt =====
-- sw/child/src/mxfs_instance.cc: the one instance is created from what the flash holds, and released,
-- in the build without __LINUX__.
pub mod Current
pub mod Sound
pub mod Calls
use mxfs.Base.{
  ℕ, zero, suc, ◌+◌, ◌-◌, Bool, true, false, not, Option, none, some, List, [], replicate, ltb,
  ◌==◌, ◌&&◌, if◌then◌else◌, rounds, for_step, u32,
}
use mxfs.Header.{Compress, magic_number, decode}
use mxfs.Instance.{
  Ret, ok, err, is_ok, code, Layer, Inst, BlockStatus, is_invalid, update, block_count,
  block_start_data_area,
}
use mxfs.Driver.{Driver}

-- `singleton` and `singleton_lock`; on the RP2040 there is no lock.
pub record Global : Type 0 where
  pub singleton : ℕ
  pub locked : Bool

-- Whether a call that takes the lock comes to an end.
pub data Call {ℓ} (A : Type ℓ) : Type ℓ where
  ends : A → Call A
  blocks_forever : Call A

-- The instance after `memset` to 0, the first position and the buffers full of 0xFF.
abbrev pub fresh_inst : (buffer_size : ℕ) → Inst
fresh_inst buffer_size = record {
  current_block = block_start_data_area;
  invalid_block = 0;
  current_page = 0;
  mxfs_buffer = λ l. replicate buffer_size 0xff;
  mxfs_length = λ l. 0;
  mxfs_count = λ l. 0;
  blocks = λ b. record { flags = 0; start_time = 0; pages = λ p. 0 };
}

-- Where `malloc` does not give the buffer of layer `m`: it and those of the later layers are NULL, which is
-- the empty list here.
abbrev pub partial_inst : (buffer_size : ℕ) → Layer → Inst
partial_inst buffer_size m = record (fresh_inst buffer_size) {
  mxfs_buffer = λ l. if ltb (code l) (code m) then replicate buffer_size 0xff else [];
}

abbrev pub unread_status : BlockStatus
unread_status = record { flags = 1; start_time = 0; pages = λ p. 0x00 }

abbrev pub read_status : Compress → BlockStatus
read_status cp = record {
  flags = if cp.magic == magic_number then 1 else 0;
  start_time = cp.time;
  pages = λ p. 0xff;
}

-- The loop that finds the current block: the first that is not marked, and where all are marked the one
-- with the latest start time. `start_tmm` has 32 bits.
pub find_current : (rounds block start_tmm : ℕ) → Inst → Inst
find_current zero b t inst = inst
find_current (suc k) b t inst =
    let s = inst.blocks b in
    if is_invalid s.flags
    then (if ltb t s.start_time
        then find_current k (suc b) (u32 s.start_time)
            (record inst { current_block = b; current_page = 0 })
        else find_current k (suc b) t inst)
    else record inst { current_block = b; current_page = 0 }

module _ (drv : Driver) where
  -- One block of the loop that reads the first 16 bytes of every block; `callback` is the caller's
  -- function, or nothing where it is NULL.
  pub scan_block : Option (ℕ → Inst → Inst) → (block : ℕ) → Inst × drv.Dev → Inst × drv.Dev
  scan_block callback b (inst, dev) =
      let (r, rbf, dev') = drv.read b 0 (replicate 16 0) dev in
      if not (is_ok r)
      then (record inst { blocks = update inst.blocks b unread_status }, dev')
      else (let i : Inst = record inst {
        blocks = update inst.blocks b (read_status (decode 0 rbf));
      } in
          (elim callback [ none ↦ i | some f ↦ f b i ], dev'))

  pub scan : Option (ℕ → Inst → Inst) → Inst × drv.Dev → Inst × drv.Dev
  unfolding for_step scan_block
  scan callback s =
      for_step (rounds block_start_data_area block_count 1) block_start_data_area 1
        (λ b t. scan_block callback b t) s

  -- From the created pins and bus on.
  pub mount : Option (ℕ → Inst → Inst) → Inst → drv.Dev → Ret × Option Inst × drv.Dev
  mount callback inst dev =
      let (r, dev1) = drv.create_gpio dev in
      if not (is_ok r)
      then (err, some inst, dev1)
      else (let (q, dev2) = drv.create_spi dev1 in
          if not (is_ok q)
          then (err, some inst, dev2)
          else (let (scanned, dev3) = scan callback (inst, dev2) in
              (
                ok,
                some (
                    find_current (rounds block_start_data_area block_count 1) block_start_data_area
                      0 scanned),
                dev3,
              )))

  -- `rp2040` says whether the build has no lock, `allocated` whether `malloc` of the instance succeeds, and
  -- `missing` names the first layer whose buffer it does not give.
  pub create_instance :
      (rp2040 : Bool) (buffer_size : ℕ) (allocated : Bool) (missing : Option Layer)
      → Option (ℕ → Inst → Inst)
      → Global
      → drv.Dev
      → Call (Ret × Option Inst × Global × drv.Dev)
  create_instance rp2040 buffer_size allocated missing callback g dev =
      if not rp2040 && g.locked
      then blocks_forever
      else if not (g.singleton == 0)
      then ends (err, none, record g { locked = not rp2040 }, dev)
      else (let g1 : Global = record { singleton = suc g.singleton; locked = false } in
          if not allocated then ends (err, none, g1, dev) else elim missing [
            | some m ↦ ends (err, some (partial_inst buffer_size m), g1, dev)
            | none ↦
                let (r, inst, dev') = mount callback (fresh_inst buffer_size) dev in
                ends (r, inst, g1, dev')
          ])

  -- The instance is given back to `free` where the call returns OK.
  pub release_instance :
      (rp2040 : Bool) → Option Inst → Global → drv.Dev → Call (Ret × Global × drv.Dev)
  release_instance rp2040 none g dev = ends (err, g, dev)
  release_instance rp2040 (some inst) g dev =
      if not rp2040 && g.locked
      then blocks_forever
      else if g.singleton == 0
      then ends (err, record g { locked = not rp2040 }, dev)
      else (let g1 : Global = record { singleton = g.singleton - 1; locked = false } in
          let (r, dev1) = drv.release_gpio dev in
          if not (is_ok r)
          then ends (err, g1, dev1)
          else (let (q, dev2) = drv.release_spi dev1 in
              if not (is_ok q) then ends (err, g1, dev2) else ends (ok, g1, dev2)))
