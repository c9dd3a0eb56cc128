-- ===== src/Bcm2711/Pages.antt =====
-- What the BCM2711 driver's read, write and erase (sw/child/src/drivers/bcm2711) make of the content of the
-- chip. Its write sends the caller's bytes alone, with an instruction that keeps the rest of the page cache.
use mxfs.Base.{
  ℕ, ◌+◌, ◌*◌, ◌≤◌, ◌<◌, ◌≡◌, refl, subst, ◌∙◌, none, true, false, List, [], ◌∷◌, ◌++◌, arith,
  length, take, drop,
}
use mxfs.Instance.{page_size, page_count, block_count}
use mxfs.Driver.{blank}
use mxfs.Bus.{block_erase, random_pg_data_load, read_instruction, high_address, low_address}
use mxfs.Linux.{Linux, gpset0, gpclr0, cs_bit}
use mxfs.Nand.{Content, IsFlash}
use mxfs.Nand.Waits.{Ends, bind-Ends}
use mxfs.Nand.Steps.{Gives, Puts, Clears, loaded}
use mxfs.Nand.Pages.{fetched, read_page, clear_block}
use mxfs.Bcm2711.{bcm2711_bus, bcm2711_erase, bcm2711_read, bcm2711_write}
use mxfs.Bcm2711.Spi.{Malloc}
use mxfs.Bcm2711.Steps.{
  R, E, fewer, first-Ends, open_up-Ends, take_write-Ends, configured-Ends, fetched-Ends, write-with,
}
use mxfs.Bcm2711.Memory.{HasMemory, IsDeaf, Later, command_same, query_same, command_lost}

module _ (pi : Linux) (malloc : Malloc pi) (limit : ℕ) (flash : IsFlash (bcm2711_bus pi) limit)
    (deaf : IsDeaf pi) where
  module _ (memory : HasMemory pi malloc 4) where
    -- On a chip that keeps its data sheet, from any state, where malloc gives memory for up to 4 bytes: the
    -- driver's erase of a block of the chip ends with OK, all pages of the block are blank then, and no
    -- other page changes.
    pub bcm2711_erase-Clears :
        (block : ℕ) (s : pi.State)
        → block < block_count
        → Ends
            (Clears (bcm2711_bus pi) limit flash block (flash.content s))
            (bcm2711_erase pi malloc limit block s)
    unfolding bcm2711_erase
    bcm2711_erase-Clears block s hb =
        let c = flash.content s in
        let c1 : Content = record c { is_protected = false } in
        let bus = bcm2711_bus pi in
        let bytes = block_erase ∷ (0 ∷ (high_address block ∷ (low_address block ∷ []))) in
        let L = λ (K : pi.State → Type 0). Later pi malloc memory deaf K in
        let P = Clears bus limit flash block c in
        bind-Ends (L (R pi malloc limit flash deaf c)) P _ _
          (first-Ends pi malloc limit flash deaf memory 0xff s)
          (λ (f1, s1) r1.
            bind-Ends (L (R pi malloc limit flash deaf c1)) P _ _
              (open_up-Ends pi malloc limit flash deaf memory c f1 s1 r1)
              (λ (f2, s2) r2.
                bind-Ends (L (E pi malloc limit flash deaf c1)) P _ _
                  (take_write-Ends pi malloc limit flash deaf memory c1 f2 s2 r2)
                  (λ (f3, s3) r3. (
                    _,
                    refl,
                    rw (command_same pi malloc 4 memory bytes s3 (omega arith)) (
                        let (a, b, o) = clear_block bus limit flash c1 block s3 hb r3 refl in
                        (refl, a, b, o)),
                  ))))

    -- On a chip that keeps its data sheet and takes no notice of a chip select without bytes, where malloc
    -- gives memory for up to 4 bytes but not for the bytes of the load: the driver's write of up to 2048
    -- bytes to a blank page ends with OK all the same. The page then holds what the chip's page cache held
    -- at the call and nothing of the caller's bytes, and no other page changes.
    pub bcm2711_write-load_lost :
        (block page : ℕ) (buffer : List ℕ) (s : pi.State)
        → block < block_count
        → page < page_count
        → length buffer ≤ page_size
        → take page_size ((flash.content s).cell (block * page_count + page)) ≡ blank
        → ((t : pi.State) → malloc (length buffer + 3) t ≡ none)
        → ((t : pi.State)
            → flash.timing.busy t ≡ 0
            → let u = pi.write_gpio gpset0 cs_bit (pi.write_gpio gpclr0 cs_bit t) in
              (flash.timing.busy u ≡ 0) × (flash.content u ≡ flash.content t))
        → Ends
            (Puts
              (bcm2711_bus pi)
              limit
              flash
              (block * page_count + page)
              (take page_size (flash.content s).cache)
              (flash.content s))
            (bcm2711_write pi malloc limit block page buffer s)
    bcm2711_write-load_lost block page buffer s hb hp hl empty lost idle =
        write-with pi malloc limit flash deaf memory block page buffer s
          (record (flash.content s) { is_protected = false }) hb hp hl refl refl empty
          (λ t (z, e, k).
            let bytes = random_pg_data_load ∷ (0 ∷ (0 ∷ buffer)) in
            let n : length buffer + 3 ≡ length bytes = omega arith in
            let u = pi.write_gpio gpclr0 cs_bit t in
            rw (command_lost pi malloc bytes t (subst (λ m. malloc m u ≡ none) n (lost u)))
              (let (a, b) = idle t z in (a, b ∙ k)))

  module _ (memory : HasMemory pi malloc 2112) where
    -- On a chip that keeps its data sheet and whose protection register is 0, where malloc gives memory
    -- for up to 2112 bytes: the driver's read of up to 2112 bytes of a page of the chip ends with OK and
    -- gives the first bytes of that page; no page changes.
    pub bcm2711_read-Gives :
        (block page : ℕ) (buffer : List ℕ) (s : pi.State)
        → block < block_count
        → page < page_count
        → length buffer ≤ 2112
        → (flash.content s).is_protected ≡ false
        → let c = flash.content s in
          Ends
            (Gives
              (bcm2711_bus pi)
              limit
              flash
              (take (length buffer) (c.cell (block * page_count + page)))
              c)
            (bcm2711_read pi malloc limit block page buffer s)
    unfolding bcm2711_read
    bcm2711_read-Gives block page buffer s hb hp hl safe =
        let c = flash.content s in
        let c1 : Content = record c { is_buffered = true } in
        let bus = bcm2711_bus pi in
        let few = fewer pi malloc 4 2112 memory (omega arith) in
        let bytes = read_instruction ∷ (0 ∷ (0 ∷ (0 ∷ []))) in
        let L = λ (K : pi.State → Type 0). Later pi malloc few deaf K in
        let P =
          Gives bus limit flash (take (length buffer) (c.cell (block * page_count + page))) c in
        bind-Ends (L (R pi malloc limit flash deaf c)) P _ _
          (first-Ends pi malloc limit flash deaf few 0xff s)
          (λ (f1, s1) r1.
            bind-Ends (L (R pi malloc limit flash deaf c1)) P _ _
              (configured-Ends pi malloc limit flash deaf few c f1 s1 safe r1)
              (λ (f3, s3) r3.
                bind-Ends (L (R pi malloc limit flash deaf (fetched block page c))) P _ _
                  (fetched-Ends pi malloc limit flash deaf few c f3 block page s3 r3)
                  (λ (f4, s4) r4. (
                    _,
                    refl,
                    rw
                        (query_same pi malloc 2112 memory bytes buffer s4 (omega arith) hl
                          (λ tx. deaf.giving tx s4))
                        (let (a, b, o) =
                            read_page bus limit flash c block page (length buffer) s4 hb hp hl r4 in
                          (refl, a, b, o ∙ safe)),
                  ))))

    -- On a chip that keeps its data sheet, from any state, where malloc gives memory for up to 2112 bytes:
    -- the driver's write of up to 2048 bytes to a blank page of the chip ends with OK, and no other page
    -- changes. The page then holds these bytes, and behind them not a fixed value but what the chip's page
    -- cache held at the call.
    pub bcm2711_write-Puts :
        (block page : ℕ) (buffer : List ℕ) (s : pi.State)
        → block < block_count
        → page < page_count
        → length buffer ≤ page_size
        → take page_size ((flash.content s).cell (block * page_count + page)) ≡ blank
        → Ends
            (Puts
              (bcm2711_bus pi)
              limit
              flash
              (block * page_count + page)
              (take page_size (buffer ++ drop (length buffer) (flash.content s).cache))
              (flash.content s))
            (bcm2711_write pi malloc limit block page buffer s)
    bcm2711_write-Puts block page buffer s hb hp hl empty =
        let c = flash.content s in
        let c1 : Content = record c { is_protected = false } in
        let bus = bcm2711_bus pi in
        write-with pi malloc limit flash deaf (fewer pi malloc 4 2112 memory (omega arith)) block
          page buffer s (record c1 { cache = buffer ++ drop (length buffer) c.cache }) hb hp hl refl
          refl empty
          (λ t r.
            rw
              (command_same pi malloc 2112 memory (random_pg_data_load ∷ (0 ∷ (0 ∷ buffer))) t
                (omega (arith, hl)))
              (loaded bus limit flash c1 buffer t r (omega (arith, hl))))
