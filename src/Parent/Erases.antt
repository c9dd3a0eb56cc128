-- ===== src/Parent/Erases.antt =====
-- The loop around the host tool's `erase_block` (sw/parent/src/erase.cc), phase by phase.
use mxfs.Base.{
  ℕ, ◌+◌, ◌/◌, ◌<◌, ◌≡◌, ◌≢◌, refl, ap, ◌∙◌, inr, Bool, false, List, [], ◌∷◌, arith, take,
}
use mxfs.Instance.{page_size, page_count, block_count}
use mxfs.Driver.{blank}
use mxfs.Bus.{
  device_reset, write_enable, block_erase, write_status_register, protection_register,
  configuration_register, read_register, high_address, low_address,
}
use mxfs.Linux.{Linux, linux_command}
use mxfs.Nand.{Content, IsFlash, IsTimed}
use mxfs.Nand.Waits.{Ends}
use mxfs.Nand.Pages.{clear_block}
use mxfs.Parent.{parent_bus, Place, erase_block, erase_no_done, erase_done, left_erase, wait_erase}
use mxfs.Parent.Polls.{Leaves, phase, last_phase}
use mxfs.Parent.Places.{
  busy_of, At, AtEnabled, IsQuiet, looked, Waits, sends, enabled_look, unprotect_sends,
  enable_sends,
}

module _ (pi : Linux) (limit : ℕ) (flash : IsFlash (parent_bus pi) limit)
    (timed : IsTimed (parent_bus pi) limit flash.timing) (block : ℕ) where
  abbrev step : Place pi → Bool × Place pi
  step x = left_erase (erase_block pi block x)

  -- The first two of the three registers that are asked for.
  abbrev pre : pi.State → pi.State
  pre s =
      (read_register (parent_bus pi) configuration_register
        (read_register (parent_bus pi) protection_register s).1).1

  abbrev post : pi.State → pi.State
  post s = s

  pre_quiet : IsQuiet pi limit flash timed pre
  pre_quiet s =
      let s1 = (read_register (parent_bus pi) protection_register s).1 in
      let (a, b) = flash.timing.asking protection_register s in
      let (x, y) = flash.timing.asking configuration_register s1 in
      (
        omega (arith, a, x),
        y ∙ b,
        flash.asking_keeps configuration_register s1 ∙ flash.asking_keeps protection_register s,
      )

  post_quiet : IsQuiet pi limit flash timed post
  post_quiet s = (omega arith, refl, refl)

  abbrev after : pi.State → pi.State
  after = looked pi limit flash timed step pre post pre_quiet post_quiet

  waits : Waits pi limit flash timed step pre post pre_quiet post_quiet
  unfolding erase_block
  waits st s h =
      let eq : erase_block pi block (st, s) ≡ (erase_no_done, (st, after s)) =
        rw (erase_block, flash.timing.tells_busy (pre s), h) refl in
      ap left_erase eq

  abbrev bytes : List ℕ
  bytes = block_erase ∷ (0 ∷ (high_address block ∷ (low_address block ∷ [])))

  -- The erase is over: the block's pages are blank, the others as they were.
  abbrev pub HasErased : Content → Place pi → Type 0
  HasErased c (st, s) =
      (st ≡ device_reset)
      × ((m : ℕ) → m / page_count ≡ block → take page_size ((flash.content s).cell m) ≡ blank)
      × ((m : ℕ) → m / page_count ≢ block → (flash.content s).cell m ≡ c.cell m)
      × ((flash.content s).is_protected ≡ false)

  erase-Leaves :
      (c : Content) (x : Place pi)
      → block < block_count
      → AtEnabled pi limit flash timed block_erase (record c { is_protected = false }) x
      → Leaves step (busy_of pi limit flash timed) (HasErased c) x
  unfolding erase_block
  erase-Leaves c (st, s) hb (e, z, n, k) =
      let c1 : Content = record c { is_protected = false } in
      let (a, b, d) = pre_quiet s in
      let quiet : flash.timing.busy (pre s) ≡ 0 = omega (arith, a, z) in
      let on = b ∙ n in
      let y : Place pi = (device_reset, linux_command pi bytes (after s)) in
      let eq : erase_block pi block (st, s) ≡ (erase_done, y) =
        rw
          (
            erase_block,
            flash.timing.tells_busy (pre s),
            quiet,
            e,
            flash.timing.tells_enabled (pre s),
            on,
          )
          refl in
      let (f, g, o) =
        clear_block (parent_bus pi) limit flash c1 block (after s) hb
          (enabled_look pi limit flash timed step pre post pre_quiet post_quiet c1 s z n k) refl in
      (y, ap left_erase eq, (refl, f, g, o))

  -- On a chip that keeps its data sheet and whose time goes by: the loop around `erase_block`, begun at the
  -- status DEVICE_RESET for a block of the chip, ends after at most three times as many rounds as the chip
  -- can be busy. All pages of the block are blank then, the others are as they were, and the status is
  -- DEVICE_RESET again; the protection register is 0.
  pub wait_erase-Ends :
      (s : pi.State)
      → block < block_count
      → Ends
          (HasErased (flash.content s))
          (wait_erase pi (limit + (limit + limit)) block (device_reset, s))
  unfolding erase_block
  wait_erase-Ends s hb =
      let c = flash.content s in
      let c1 : Content = record c { is_protected = false } in
      let busy = busy_of pi limit flash timed in
      let bounded : (x : Place pi) → busy x < limit = λ (st, t). flash.timing.bounded t in
      let K1 = At pi limit flash timed device_reset c in
      let K2 = At pi limit flash timed write_enable c1 in
      let K3 = AtEnabled pi limit flash timed block_erase c1 in
      let send = sends pi limit flash timed step pre post pre_quiet post_quiet waits in
      let protect = write_status_register ∷ (protection_register ∷ (0 ∷ [])) in
      phase step busy limit bounded K1 (HasErased c) K2 (limit + limit)
        (send device_reset write_enable protect c K2
          (λ t h.
            let eq : erase_block pi block (device_reset, t)
                ≡ (erase_no_done, (write_enable, linux_command pi protect (after t))) =
              rw (erase_block, flash.timing.tells_busy (pre t), h) refl in
            ap left_erase eq)
          (unprotect_sends pi limit flash timed step pre post pre_quiet post_quiet write_enable c))
        (phase step busy limit bounded K2 (HasErased c) K3 limit
          (send write_enable block_erase (write_enable ∷ []) c1 K3
            (λ t h.
              let eq : erase_block pi block (write_enable, t)
                  ≡ (erase_no_done, (block_erase, linux_command pi (write_enable ∷ []) (after t))) =
                rw (erase_block, flash.timing.tells_busy (pre t), h) refl in
              ap left_erase eq)
            (enable_sends pi limit flash timed step pre post pre_quiet post_quiet block_erase c1))
          (last_phase step busy limit bounded K3 (HasErased c)
            (λ x k. inr (erase-Leaves c x hb k))))
        (limit + (limit + limit)) (device_reset, s) (refl, refl) (omega arith)
