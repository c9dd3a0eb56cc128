-- ===== src/Bcm2711/Steps.antt =====
-- The steps that the BCM2711 driver's operations (sw/child/src/drivers/bcm2711) share, on a chip that
-- keeps its data sheet.
use mxfs.Base.{
  ℕ, ◌+◌, ◌-◌, ◌*◌, ◌≤◌, ◌<◌, ◌≡◌, refl, ap, subst, sym, ◌∙◌, true, false, List, [], ◌∷◌, arith,
  length, take, le→ltb,
}
use mxfs.Instance.{page_size, page_count, block_count}
use mxfs.Driver.{blank}
use mxfs.Bus.{
  protection_register, configuration_register, write_status_register, write_enable,
  random_pg_data_load, pg_execute, pg_data_read, read_mode, high_address, page_address,
  read_register, write_register, wait_ready,
}
use mxfs.Linux.{Linux, linux_command}
use mxfs.Nand.{Content, IsFlash}
use mxfs.Nand.Waits.{Ends, bind-Ends}
use mxfs.Nand.Steps.{
  Puts, HasPage, ReadyWith, EnabledWith, Is, ready-Ends, enable-Ends, unprotect-Ends,
  configure-Ends, fetch-Ends,
}
use mxfs.Nand.Pages.{fetched, program_page}
use mxfs.Bcm2711.{bcm2711_bus, bcm2711_write}
use mxfs.Bcm2711.Spi.{Malloc, driver_command, driver_register, driver_ready, driver_enabled}
use mxfs.Bcm2711.Memory.{
  HasMemory, IsDeaf, Later, command_same, register_same, ready-Later, enabled-Later,
}

-- Memory for the larger buffers is memory for the smaller ones.
pub fewer :
    (pi : Linux) (malloc : Malloc pi) (j k : ℕ)
    → HasMemory pi malloc k
    → j ≤ k
    → HasMemory pi malloc j
fewer pi malloc j k memory h n s q = memory n s (omega (arith, h, q))

module _ (pi : Linux) (malloc : Malloc pi) (limit : ℕ) (flash : IsFlash (bcm2711_bus pi) limit)
    (deaf : IsDeaf pi) where
  abbrev pub R : Content → pi.State → Type 0
  R c = ReadyWith (bcm2711_bus pi) limit flash (Is (bcm2711_bus pi) limit flash c)

  abbrev pub E : Content → pi.State → Type 0
  E c = EnabledWith (bcm2711_bus pi) limit flash (Is (bcm2711_bus pi) limit flash c)

  module _ (memory : HasMemory pi malloc 4) where
    -- A short command, and the loop behind it.
    behind {κ} :
        (P : pi.State → Type κ) (bytes : List ℕ) (flag : ℕ) (s : pi.State)
        → length bytes ≤ 4
        → Ends P (wait_ready (bcm2711_bus pi) limit (linux_command pi bytes s))
        → Ends
            (Later pi malloc memory deaf P)
            (driver_ready pi malloc limit flag (driver_command pi malloc bytes s))
    behind P bytes flag s h e =
        let r = ready-Later pi malloc memory deaf P limit flag (linux_command pi bytes s) e in
        subst (λ t. Ends (Later pi malloc memory deaf P) (driver_ready pi malloc limit flag t))
          (sym (command_same pi malloc 4 memory bytes s h)) r

    pub first-Ends :
        (flag : ℕ) (s : pi.State)
        → Ends
            (Later pi malloc memory deaf (R (flash.content s)))
            (driver_ready pi malloc limit flag s)
    first-Ends flag s =
        let c = flash.content s in
        ready-Later pi malloc memory deaf (R c) limit flag s
          (ready-Ends (bcm2711_bus pi) limit flash (Is (bcm2711_bus pi) limit flash c) s refl)

    pub open_up-Ends :
        (c : Content) (flag : ℕ) (s : pi.State)
        → R c s
        → Ends (Later pi malloc memory deaf (R (record c { is_protected = false }))) (
            driver_ready pi malloc limit flag (
              driver_command pi malloc
                (write_status_register ∷ (protection_register ∷ (0 ∷ [])))
                s))
    unfolding write_register
    open_up-Ends c flag s r =
        behind (R (record c { is_protected = false }))
          (write_status_register ∷ (protection_register ∷ (0 ∷ []))) flag s (omega arith)
          (unprotect-Ends (bcm2711_bus pi) limit flash c s r)

    pub take_write-Ends :
        (c : Content) (flag : ℕ) (s : pi.State)
        → R c s
        → Ends
            (Later pi malloc memory deaf (E c))
            (driver_enabled pi malloc limit flag (driver_command pi malloc (write_enable ∷ []) s))
    take_write-Ends c flag s r =
        enabled-Later pi malloc memory deaf (E c) limit flag s
          (enable-Ends (bcm2711_bus pi) limit flash (Is (bcm2711_bus pi) limit flash c) s r)

    pub configured-Ends :
        (c : Content) (flag : ℕ) (s : pi.State)
        → c.is_protected ≡ false
        → R c s
        → Ends (Later pi malloc memory deaf (R (record c { is_buffered = true }))) (
            let (v, t) = driver_register pi malloc protection_register 0xff s in
            driver_ready pi malloc limit flag (
              driver_command pi malloc
                (write_status_register ∷ (configuration_register ∷ (read_mode v ∷ [])))
                t))
    unfolding write_register
    configured-Ends c flag s safe (z, k) =
        let bus = bcm2711_bus pi in
        let r = read_register bus protection_register s in
        rw (register_same pi malloc memory deaf protection_register 0xff s) (
          behind (R (record c { is_buffered = true }))
            (write_status_register ∷ (configuration_register ∷ (read_mode r.0 ∷ []))) flag r.1
            (omega arith)
            (configure-Ends bus limit flash c r.0 r.1
              (flash.tells_unprotected s (ap (λ (x : Content). x.is_protected) k ∙ safe))
              (
                omega (arith, (flash.timing.asking protection_register s).0, z),
                flash.asking_keeps protection_register s ∙ k,
              )))

    pub fetched-Ends :
        (c : Content) (flag block page : ℕ) (s : pi.State)
        → R (record c { is_buffered = true }) s
        → Ends (Later pi malloc memory deaf (R (fetched block page c))) (
            driver_ready pi malloc limit flag (
              driver_command pi malloc
                (pg_data_read ∷ (0 ∷ (high_address block ∷ (page_address block page ∷ []))))
                s))
    fetched-Ends c flag block page s r =
        behind (R (fetched block page c))
          (pg_data_read ∷ (0 ∷ (high_address block ∷ (page_address block page ∷ [])))) flag s
          (omega arith)
          (fetch-Ends (bcm2711_bus pi) limit flash (record c { is_buffered = true })
            (high_address block) (page_address block page) s r)

    -- A write, where the load in its middle leaves the content `d` behind.
    pub write-with :
        (block page : ℕ) (buffer : List ℕ) (s : pi.State) (d : Content)
        → block < block_count
        → page < page_count
        → length buffer ≤ page_size
        → d.is_protected ≡ false
        → d.cell ≡ (flash.content s).cell
        → take page_size ((flash.content s).cell (block * page_count + page)) ≡ blank
        → ((t : pi.State)
            → E (record (flash.content s) { is_protected = false }) t
            → R d (driver_command pi malloc (random_pg_data_load ∷ (0 ∷ (0 ∷ buffer))) t))
        → Ends
            (Puts
              (bcm2711_bus pi)
              limit
              flash
              (block * page_count + page)
              (take page_size d.cache)
              (flash.content s))
            (bcm2711_write pi malloc limit block page buffer s)
    unfolding bcm2711_write
    write-with block page buffer s d hb hp hl open_up same empty load =
        let bus = bcm2711_bus pi in
        let c = flash.content s in
        let c1 : Content = record c { is_protected = false } in
        let L = λ (K : pi.State → Type 0). Later pi malloc memory deaf K in
        let P = Puts bus limit flash (block * page_count + page) (take page_size d.cache) c in
        bind-Ends (L (R c)) P _ _ (first-Ends 0xff s) (λ (f1, s1) r1.
          bind-Ends (L (R c1)) P _ _ (open_up-Ends c f1 s1 r1) (λ (f2, s2) r2.
            bind-Ends (L (E c1)) P _ _ (take_write-Ends c1 f2 s2 r2) (λ (f3, s3) r3.
              rw (le→ltb (2112 - 3) (length buffer) (omega (arith, hl))) (
                bind-Ends (L (E d)) P _ _ (take_write-Ends d f3 _ (load s3 r3)) (λ (f4, s4) r4. (
                  _,
                  refl,
                  (
                    refl,
                    rw
                        (command_same pi malloc 4 memory
                          (pg_execute ∷ (0 ∷ (high_address block ∷ (page_address block page ∷ []))))
                          s4 (omega arith))
                        (subst
                          (λ (cell : ℕ → List ℕ).
                            HasPage bus limit flash (block * page_count + page)
                              (take page_size d.cache) (record c { cell = cell })
                              (flash.content (
                                linux_command pi
                                  (pg_execute
                                    ∷ (0 ∷ (high_address block ∷ (page_address block page ∷ []))))
                                  s4)))
                          same
                          (program_page bus limit flash d block page s4 hb hp r4 open_up (
                            ap
                              (λ (cell : ℕ → List ℕ).
                                take page_size (cell (block * page_count + page)))
                              same
                            ∙ empty))),
                  ),
                ))))))
