-- ===== src/Parent/Writes.antt =====
-- The loop around the host tool's `write_block_page` (sw/parent/src/write.cc), phase by phase.
use mxfs.Base.{
  ℕ, ◌+◌, ◌-◌, ◌*◌, ◌≤◌, ◌<◌, ◌≡◌, ◌≢◌, refl, ap, ◌∙◌, inr, Bool, false, List, [], ◌∷◌, ◌++◌, arith,
  ltb, take, drop, length, le→ltb,
}
use mxfs.Instance.{page_size, page_count, block_count}
use mxfs.Driver.{blank}
use mxfs.Bus.{
  device_reset, write_enable, random_pg_data_load, pg_execute, write_status_register,
  protection_register, high_address, page_address,
}
use mxfs.Linux.{Linux, linux_command}
use mxfs.Nand.{Content, IsFlash, IsTimed}
use mxfs.Nand.Waits.{Ends}
use mxfs.Nand.Steps.{loaded}
use mxfs.Nand.Pages.{program_page}
use mxfs.Parent.{
  parent_bus, Place, write_disable, write_block_page, write_no_done, write_done, left_write,
  wait_write,
}
use mxfs.Parent.Polls.{Moves, Leaves, phase, last_phase}
use mxfs.Parent.Places.{
  busy_of, At, AtEnabled, IsQuiet, looked, Waits, sends, enabled_look, unprotect_sends,
  enable_sends,
}

module _ (pi : Linux) (limit : ℕ) (flash : IsFlash (parent_bus pi) limit)
    (timed : IsTimed (parent_bus pi) limit flash.timing) (block page : ℕ) (wbf : List ℕ) where
  abbrev step : Place pi → Bool × Place pi
  step x = left_write pi (write_block_page pi block page wbf x)

  abbrev pre : pi.State → pi.State
  pre s = s

  abbrev post : pi.State → pi.State
  post s = pi.usleep 1000 s

  pre_quiet : IsQuiet pi limit flash timed pre
  pre_quiet s = (omega arith, refl, refl)

  post_quiet : IsQuiet pi limit flash timed post
  post_quiet s = let (a, b) = flash.timing.pausing s in (omega (arith, a), b, flash.pausing_keeps s)

  abbrev after : pi.State → pi.State
  after = looked pi limit flash timed step pre post pre_quiet post_quiet

  waits : Waits pi limit flash timed step pre post pre_quiet post_quiet
  unfolding write_block_page
  waits st s h =
      let eq : write_block_page pi block page wbf (st, s) ≡ (write_no_done, (st, after s)) =
        rw (write_block_page, flash.timing.tells_busy s, h) refl in
      ap (left_write pi) eq

  -- One call that sends a command to a chip that is not busy.
  abbrev Sends : (status status' : ℕ) → List ℕ → Type 0
  Sends status status' bytes =
      (s : pi.State)
      → ltb 0 (flash.timing.busy s) ≡ false
      → step (status, s) ≡ (false, (status', post (linux_command pi bytes (after s))))

  abbrev protect : List ℕ
  protect = write_status_register ∷ (protection_register ∷ (0 ∷ []))

  reset-Sends : Sends device_reset write_enable protect
  unfolding write_block_page
  reset-Sends s h =
      let eq : write_block_page pi block page wbf (device_reset, s)
          ≡ (write_no_done, (write_enable, linux_command pi protect (after s))) =
        rw (write_block_page, flash.timing.tells_busy s, h) refl in
      ap (left_write pi) eq

  first-Sends : Sends write_enable write_disable (write_enable ∷ [])
  unfolding write_block_page
  first-Sends s h =
      let eq : write_block_page pi block page wbf (write_enable, s)
          ≡ (write_no_done, (write_disable, linux_command pi (write_enable ∷ []) (after s))) =
        rw (write_block_page, flash.timing.tells_busy s, h) refl in
      ap (left_write pi) eq

  second-Sends : Sends random_pg_data_load pg_execute (write_enable ∷ [])
  unfolding write_block_page
  second-Sends s h =
      let eq : write_block_page pi block page wbf (random_pg_data_load, s)
          ≡ (write_no_done, (pg_execute, linux_command pi (write_enable ∷ []) (after s))) =
        rw (write_block_page, flash.timing.tells_busy s, h) refl in
      ap (left_write pi) eq

  -- The content behind the load.
  abbrev with_load : Content → Content
  with_load c = record c { is_protected = false; cache = wbf ++ drop (length wbf) c.cache }

  load-Moves :
      (c : Content) (x : Place pi)
      → length wbf ≤ 2109
      → AtEnabled pi limit flash timed write_disable (record c { is_protected = false }) x
      → Moves step
          (busy_of pi limit flash timed)
          (At pi limit flash timed random_pg_data_load (with_load c))
          x
  unfolding write_block_page
  load-Moves c (st, s) hl (e, z, n, k) =
      let c1 : Content = record c { is_protected = false } in
      let small : length wbf ≤ 2112 - 3 = omega (arith, hl) in
      let t = linux_command pi (random_pg_data_load ∷ (0 ∷ (0 ∷ wbf))) (after s) in
      let eq : write_block_page pi block page wbf (st, s)
          ≡ (write_no_done, (random_pg_data_load, t)) =
        rw
          (
            write_block_page,
            flash.timing.tells_busy s,
            z,
            e,
            flash.timing.tells_enabled s,
            n,
            le→ltb (2112 - 3) (length wbf) small,
          )
          refl in
      let (_, d) =
        loaded (parent_bus pi) limit flash c1 wbf (after s)
          (enabled_look pi limit flash timed step pre post pre_quiet post_quiet c1 s z n k)
          (omega (arith, hl)) in
      ((random_pg_data_load, post t), ap (left_write pi) eq, (refl, flash.pausing_keeps t ∙ d))

  -- The write is over: the page has the bytes, the others are as they were.
  abbrev pub HasWritten : Content → Place pi → Type 0
  HasWritten c (st, s) =
      (st ≡ device_reset)
      × (take page_size ((flash.content s).cell (block * page_count + page))
          ≡ take page_size (wbf ++ drop (length wbf) c.cache))
      × ((m : ℕ) → m ≢ block * page_count + page → (flash.content s).cell m ≡ c.cell m)

  write-Leaves :
      (c : Content) (x : Place pi)
      → block < block_count
      → page < page_count
      → take page_size (c.cell (block * page_count + page)) ≡ blank
      → AtEnabled pi limit flash timed pg_execute (with_load c) x
      → Leaves step (busy_of pi limit flash timed) (HasWritten c) x
  unfolding write_block_page
  write-Leaves c (st, s) hb hp empty (e, z, n, k) =
      let bytes = pg_execute ∷ (0 ∷ (high_address block ∷ (page_address block page ∷ []))) in
      let y : Place pi = (device_reset, linux_command pi bytes (after s)) in
      let eq : write_block_page pi block page wbf (st, s) ≡ (write_done, y) =
        rw (write_block_page, flash.timing.tells_busy s, z, e, flash.timing.tells_enabled s, n)
          refl in
      let (f, g, _) =
        program_page (parent_bus pi) limit flash (with_load c) block page (after s) hb hp
          (enabled_look pi limit flash timed step pre post pre_quiet post_quiet (with_load c) s z n
            k)
          refl empty in
      (y, ap (left_write pi) eq, (refl, f, g))

  pub wait_write-Ends :
      (s : pi.State)
      → block < block_count
      → page < page_count
      → length wbf ≤ 2109
      → take page_size ((flash.content s).cell (block * page_count + page)) ≡ blank
      → Ends (HasWritten (flash.content s)) (
          wait_write pi
            (limit + (limit + (limit + (limit + limit))))
            block
            page
            wbf
            (device_reset, s))
  wait_write-Ends s hb hp hl empty =
      let c = flash.content s in
      let c1 : Content = record c { is_protected = false } in
      let c2 = with_load c in
      let busy = busy_of pi limit flash timed in
      let bounded : (x : Place pi) → busy x < limit = λ (st, t). flash.timing.bounded t in
      let Q = HasWritten c in
      let K1 = At pi limit flash timed device_reset c in
      let K2 = At pi limit flash timed write_enable c1 in
      let K3 = AtEnabled pi limit flash timed write_disable c1 in
      let K4 = At pi limit flash timed random_pg_data_load c2 in
      let K5 = AtEnabled pi limit flash timed pg_execute c2 in
      let send = sends pi limit flash timed step pre post pre_quiet post_quiet waits in
      let enable = enable_sends pi limit flash timed step pre post pre_quiet post_quiet in
      let p1 =
        send device_reset write_enable protect c K2 reset-Sends (
          unprotect_sends pi limit flash timed step pre post pre_quiet post_quiet write_enable c) in
      let p2 =
        send write_enable write_disable (write_enable ∷ []) c1 K3 first-Sends
          (enable write_disable c1) in
      let p4 =
        send random_pg_data_load pg_execute (write_enable ∷ []) c2 K5 second-Sends
          (enable pg_execute c2) in
      phase step busy limit bounded K1 Q K2 (limit + (limit + (limit + limit))) p1
        (phase step busy limit bounded K2 Q K3 (limit + (limit + limit)) p2 (
          phase step busy limit bounded K3 Q K4 (limit + limit) (λ x k. inr (load-Moves c x hl k))
            (phase step busy limit bounded K4 Q K5 limit p4 (
              last_phase step busy limit bounded K5 Q
                (λ x k. inr (write-Leaves c x hb hp empty k))))))
        (limit + (limit + (limit + (limit + limit)))) (device_reset, s) (refl, refl) (omega arith)
