-- ===== src/LinuxBuild/Lost.antt =====
-- sw/child/src/mxfs_instance.cc in the build with __LINUX__: what a new instance does to the log that the
-- flash holds.
use mxfs.Base.{
  ℕ, List, zero, suc, ◌+◌, ◌<◌, ◌≡◌, ◌≢◌, refl, sym, subst, inl, inr, none, some, arith, replicate,
  ne→==, Bool-cases, for_step,
}
use mxfs.Header.{magic_number, decode}
use mxfs.Instance.{ok, is_ok, Layer}
use mxfs.Driver.{Driver}
use mxfs.LinuxBuild.{TimedInst, erase_first_timed}
use mxfs.LinuxBuild.Start.{
  fresh_timed, scan_block_timed, scan_timed, mount_timed, find_current_timed-stays, IsFirst,
  scan_timed-IsFirst,
}

module _ (drv : Driver) where
  -- The first block of the data area is marked as used.
  abbrev IsMarked : TimedInst → Type 0
  IsMarked inst = (inst.blocks 1).flags ≡ 1

  -- The scan of that block marks it.
  first-IsMarked :
      (inst : TimedInst) (dev : drv.Dev)
      → (drv.read 1 0 (replicate 16 0) dev).0 ≡ ok
      → (decode 0 (drv.read 1 0 (replicate 16 0) dev).1).magic ≡ magic_number
      → IsMarked (scan_block_timed drv none 1 (inst, dev)).0
  unfolding scan_block_timed
  first-IsMarked inst dev h used = rw (h, used) refl

  -- The scan of another block leaves the mark alone.
  scan_block_timed-IsMarked :
      (b : ℕ) (s : TimedInst × drv.Dev)
      → b ≢ 1
      → IsMarked s.0
      → IsMarked (scan_block_timed drv none b s).0
  unfolding scan_block_timed
  scan_block_timed-IsMarked b (inst, dev) n m =
      elim (Bool-cases (is_ok (drv.read b 0 (replicate 16 0) dev).0)) [
        | inl e ↦ rw (e, ne→== b 1 n) m
        | inr e ↦ rw (e, ne→== b 1 n) m
      ]

  scan_blocks-IsMarked :
      (k b : ℕ) (s : TimedInst × drv.Dev)
      → 1 < b
      → IsMarked s.0
      → IsMarked (for_step k b 1 (λ c t. scan_block_timed drv none c t) s).0
  unfolding for_step
  scan_blocks-IsMarked zero b s hb m = m
  scan_blocks-IsMarked (suc k) b s hb m =
      scan_blocks-IsMarked k (b + 1) (scan_block_timed drv none b s) (omega arith)
        (scan_block_timed-IsMarked b s (omega arith) m)

  scan_timed-IsMarked :
      (inst : TimedInst) (dev : drv.Dev)
      → (drv.read 1 0 (replicate 16 0) dev).0 ≡ ok
      → (decode 0 (drv.read 1 0 (replicate 16 0) dev).1).magic ≡ magic_number
      → IsMarked (scan_timed drv none (inst, dev)).0
  unfolding scan_timed for_step
  scan_timed-IsMarked inst dev h used =
      scan_blocks-IsMarked 1022 2 (scan_block_timed drv none 1 (inst, dev)) (omega arith)
        (first-IsMarked inst dev h used)

-- At the first position, with its block marked, the erase of a flush erases that block.
due_erase :
    (drv : Driver) (inst : TimedInst) (dev : drv.Dev)
    → IsFirst inst
    → (inst.blocks 1).flags ≡ 1
    → (erase_first_timed drv inst dev).2 ≡ (drv.erase 1 dev).1
unfolding erase_first_timed
due_erase drv inst dev (at, _) m = rw (at, m) refl

-- In the build with __LINUX__, on every driver: where the pins and the bus come up, and the first page of
-- the data area is read then and starts with the magic number, the part of `mxfs_create_instance` behind
-- its allocations, without a callback, returns OK with an instance at that page. Whatever its buffers hold
-- later, the erase before the next write erases the block of that page.
pub mount_timed-IsDue :
    (drv : Driver) (buffer_size : ℕ) (dev : drv.Dev)
    → (drv.create_gpio dev).0 ≡ ok
    → (drv.create_spi (drv.create_gpio dev).1).0 ≡ ok
    → (drv.read 1 0 (replicate 16 0) (drv.create_spi (drv.create_gpio dev).1).1).0 ≡ ok
    → (decode 0 (drv.read 1 0 (replicate 16 0) (drv.create_spi (drv.create_gpio dev).1).1).1).magic
      ≡ magic_number
    → let r = mount_timed drv none (fresh_timed buffer_size) dev in
      (inst : TimedInst) × (r.0 ≡ ok)
      × (r.1 ≡ some inst)
      × IsFirst inst
      × ((buffers : Layer → List ℕ) (lengths counts : Layer → ℕ) (later : drv.Dev)
          → (erase_first_timed drv
              (record inst { mxfs_buffer = buffers; mxfs_length = lengths; mxfs_count = counts })
              later).2
            ≡ (drv.erase 1 later).1)
unfolding mount_timed
mount_timed-IsDue drv buffer_size dev g s h used =
    let dev2 = (drv.create_spi (drv.create_gpio dev).1).1 in
    let fresh = fresh_timed buffer_size in
    let scanned = (scan_timed drv none (fresh, dev2)).0 in
    let stays = sym (find_current_timed-stays 1023 1 0 scanned) in
    let first =
      subst (λ i. IsFirst i) stays
        (scan_timed-IsFirst drv none (λ b i k. k) (fresh, dev2) (refl, refl)) in
    let marked =
      subst (λ i. (i.blocks 1).flags ≡ 1) stays (scan_timed-IsMarked drv fresh dev2 h used) in
    rw (g, s)
      (_, refl, refl, first, λ buffers lengths counts later. due_erase drv _ later first marked)
