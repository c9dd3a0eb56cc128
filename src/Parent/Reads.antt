-- ===== src/Parent/Reads.antt =====
-- The loop around the host tool's `read_by_block_page` (sw/parent/src/read.cc), phase by phase.
use mxfs.Base.{
  sym, subst, ◌/◌, ◌%◌, ℕ, ◌+◌, ◌*◌, ◌≤◌, ◌<◌, ◌≡◌, refl, ap, ◌∙◌, ◌⊎◌, inl, inr, Bool, true, false,
  List, [], ◌∷◌, arith, length, take, ltb, ltb→lt, ltb→le, Bool-cases,
}
use mxfs.Instance.{page_count, block_count}
use mxfs.Bus.{
  read_mode, device_reset, pg_data_read, read_instruction, status_register, protection_register,
  high_address, page_address, read_register,
}
use mxfs.Linux.{Linux, linux_command, linux_query}
use mxfs.Nand.{Content, IsFlash, IsTimed, address}
use mxfs.Nand.Waits.{Ends}
use mxfs.Nand.Pages.{fetched, read_page}
use mxfs.Parent.{
  parent_bus, Buffered, start_read, read_by_block_page, left_read, read_no_data, read_with_data,
  wait_read,
}
use mxfs.Parent.Polls.{Stays, Moves, Leaves, phase, last_phase}

module _ (pi : Linux) (limit : ℕ) (flash : IsFlash (parent_bus pi) limit)
    (timed : IsTimed (parent_bus pi) limit flash.timing) where
  abbrev busy_of : Buffered pi → ℕ
  busy_of (status, rbf, s) = flash.timing.busy s

  module _ (block page n : ℕ) where
    -- The read stands at this status, and the chip has this content.
    abbrev At : ℕ → Content → Buffered pi → Type 0
    At status c (st, rbf, s) = (st ≡ status) × (length rbf ≡ n) × (flash.content s ≡ c)

    -- The read is over: the buffer has the bytes of the page.
    abbrev pub HasRead : Content → Buffered pi → Type 0
    HasRead c (st, rbf, s) =
        (st ≡ device_reset)
        × (rbf ≡ take n (c.cell (block * page_count + page)))
        × ((flash.content s).cell ≡ c.cell)
        × ((flash.content s).is_protected ≡ false)

    abbrev step : Buffered pi → Bool × Buffered pi
    step x = left_read (read_by_block_page pi block page x)

    -- A busy chip: the call does nothing but look.
    abbrev Case : (x : Buffered pi) (st : ℕ) → Content → (Buffered pi → Type 0) → Type 0
    Case x st c P = Stays step busy_of (At st c) x ⊎ P x

    -- The chip after a look, and the busy time before it.
    abbrev looked : pi.State → pi.State
    looked s = (read_register (parent_bus pi) status_register s).1

    read-Stays :
        {status : ℕ} (c : Content) (st : ℕ) (rbf : List ℕ) (s : pi.State)
        → ltb 0 (flash.timing.busy s) ≡ true
        → At status c (st, rbf, s)
        → Stays step busy_of (At status c) (st, rbf, s)
    unfolding read_by_block_page
    read-Stays c st rbf s h (e, l, k) =
        let eq : read_by_block_page pi block page (st, rbf, s)
            ≡ (read_no_data, (st, rbf, looked s)) =
          rw (read_by_block_page, flash.timing.tells_busy s, h) refl in
        (
          (st, rbf, looked s),
          ap left_read eq,
          timed.looking s (ltb→lt 0 (flash.timing.busy s) h),
          (e, l, flash.asking_keeps status_register s ∙ k),
        )

    -- A look at a chip that is not busy.
    ready_look :
        {c : Content} (s : pi.State)
        → ltb 0 (flash.timing.busy s) ≡ false
        → flash.content s ≡ c
        → (flash.timing.busy (looked s) ≡ 0) × (flash.content (looked s) ≡ c)
    ready_look s h k = (
      omega (arith, (flash.timing.asking status_register s).0, ltb→le 0 (flash.timing.busy s) h),
      flash.asking_keeps status_register s ∙ k,
    )

    reset-Moves :
        (c : Content) (x : Buffered pi)
        → c.is_protected ≡ false
        → At device_reset c x
        → Stays step busy_of (At device_reset c) x
          ⊎ Moves step busy_of (At pg_data_read (record c { is_buffered = true })) x
    unfolding read_by_block_page start_read
    reset-Moves c (st, rbf, s) safe (e, l, k) = elim (Bool-cases (ltb 0 (flash.timing.busy s))) [
      | inl h ↦ inl (read-Stays c st rbf s h (e, l, k))
      | inr h ↦
          let s1 = looked s in
          let (z, k1) = ready_look s h k in
          let (v, s2) = read_register (parent_bus pi) protection_register s1 in
          let b = (flash.timing.asking protection_register s1).0 in
          let told : v ≡ 0 =
            flash.tells_unprotected s1 (ap (λ (d : Content). d.is_protected) k1 ∙ safe) in
          let y : Buffered pi = (pg_data_read, rbf, start_read pi s1) in
          let eq : read_by_block_page pi block page (st, rbf, s) ≡ (read_no_data, y) =
            rw (read_by_block_page, flash.timing.tells_busy s, h, e) refl in
          inr (
            y,
            ap left_read eq,
            (
              refl,
              l,
              flash.configuring (read_mode v) s2 (omega (arith, b, z))
                    (subst (λ a. read_mode a / 8 % 2 ≡ 1) (sym told) refl)
                    (subst (λ a. read_mode a / 64 % 2 ≡ 0) (sym told) refl)
                  ∙ ap (λ (d : Content). record d { is_buffered = true })
                      (flash.asking_keeps protection_register s1 ∙ k1),
            ),
          )
    ]

    fetch-Moves :
        (c : Content) (x : Buffered pi)
        → At pg_data_read (record c { is_buffered = true }) x
        → Stays step busy_of (At pg_data_read (record c { is_buffered = true })) x
          ⊎ Moves step busy_of (At read_instruction (fetched block page c)) x
    unfolding read_by_block_page
    fetch-Moves c (st, rbf, s) (e, l, k) = elim (Bool-cases (ltb 0 (flash.timing.busy s))) [
      | inl h ↦ inl (read-Stays _ st rbf s h (e, l, k))
      | inr h ↦
          let (z, k1) = ready_look s h k in
          let hi = high_address block in
          let lo = page_address block page in
          let y : Buffered pi = (
            read_instruction,
            rbf,
            linux_command pi (pg_data_read ∷ (0 ∷ (hi ∷ (lo ∷ [])))) (looked s),
          ) in
          let eq : read_by_block_page pi block page (st, rbf, s) ≡ (read_no_data, y) =
            rw (read_by_block_page, flash.timing.tells_busy s, h, e) refl in
          inr (
            y,
            ap left_read eq,
            (
              refl,
              l,
              flash.fetching hi lo (looked s) z
                  ∙ ap (λ (x : Content). record x { cache = x.cell (address hi lo) }) k1,
            ),
          )
    ]

    read-Leaves :
        (c : Content) (x : Buffered pi)
        → block < block_count
        → page < page_count
        → n ≤ 2112
        → c.is_protected ≡ false
        → At read_instruction (fetched block page c) x
        → Stays step busy_of (At read_instruction (fetched block page c)) x
          ⊎ Leaves step busy_of (HasRead c) x
    unfolding read_by_block_page
    read-Leaves c (st, rbf, s) hb hp hn safe (e, l, k) =
        elim (Bool-cases (ltb 0 (flash.timing.busy s))) [
          | inl h ↦ inl (read-Stays _ st rbf s h (e, l, k))
          | inr h ↦
              let (z, k1) = ready_look s h k in
              let (answer, s2) =
                linux_query pi (read_instruction ∷ (0 ∷ (0 ∷ (0 ∷ [])))) (length rbf) (looked s) in
              let y : Buffered pi = (device_reset, answer, s2) in
              let eq : read_by_block_page pi block page (st, rbf, s) ≡ (read_with_data, y) =
                rw (read_by_block_page, flash.timing.tells_busy s, h, e) refl in
              let (a, b, o) =
                read_page (parent_bus pi) limit flash c block page (length rbf) (looked s) hb hp
                  (rw l hn) (z, k1) in
              inr (
                y,
                ap left_read eq,
                (refl, a ∙ ap (λ m. take m (c.cell (block * page_count + page))) l, b, o ∙ safe),
              )
        ]

    pub wait_read-Ends :
        (rbf : List ℕ) (s : pi.State)
        → block < block_count
        → page < page_count
        → n ≤ 2112
        → length rbf ≡ n
        → (flash.content s).is_protected ≡ false
        → Ends
            (HasRead (flash.content s))
            (wait_read pi (limit + (limit + limit)) block page (device_reset, rbf, s))
    wait_read-Ends rbf s hb hp hn l safe =
        let c = flash.content s in
        let c1 : Content = record c { is_buffered = true } in
        let bounded : (x : Buffered pi) → busy_of x < limit =
          λ (st, b, t). flash.timing.bounded t in
        let K1 = At device_reset c in
        let K2 = At pg_data_read c1 in
        let K3 = At read_instruction (fetched block page c) in
        let Q = HasRead c in
        phase step busy_of limit bounded K1 Q K2 (limit + limit) (λ x k. reset-Moves c x safe k)
          (phase step busy_of limit bounded K2 Q K3 limit (fetch-Moves c)
            (last_phase step busy_of limit bounded K3 Q (λ x k. read-Leaves c x hb hp hn safe k)))
          (limit + (limit + limit)) (device_reset, rbf, s) (refl, l, refl) (omega arith)
