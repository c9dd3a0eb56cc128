-- ===== src/Rp2040/Pages.antt =====
-- What the RP2040 driver's read, write and erase make of the content of the chip.
use mxfs.Base.{
  ℕ, ◌+◌, ◌-◌, ◌*◌, ◌/◌, ◌≤◌, ◌<◌, ◌≡◌, ◌≢◌, refl, sym, ap, ◌∙◌, true, false, List, ◌++◌, arith,
  length, take, drop, replicate, le→ltb, take_padded, take-append_of, length-append,
  length-replicate, length-take,
}
use mxfs.Instance.{page_size, page_count, block_count}
use mxfs.Driver.{blank}
use mxfs.Bus.{protection_register, high_address, page_address, read_register}
use mxfs.Board.{Board, rp2040_bus}
use mxfs.Nand.{Content, IsFlash}
use mxfs.Nand.Waits.{Ends, bind-Ends}
use mxfs.Nand.Steps.{
  Gives, Puts, Clears, ReadyWith, EnabledWith, Is, HasPage, ready-Ends, enable-Ends, unprotect-Ends,
  configure-Ends, fetch-Ends, loaded,
}
use mxfs.Nand.Pages.{fetched, read_page, program_page, clear_block}
use mxfs.Rp2040.{erase, read, write, load_command}

-- What is sent to the page cache of a write.
abbrev load_bytes : List ℕ → List ℕ
load_bytes buffer = take page_size (buffer ++ replicate page_size 0)

length-load_bytes : (buffer : List ℕ) → length (load_bytes buffer) ≡ page_size
length-load_bytes buffer = omega (
  arith,
  length-take page_size (buffer ++ replicate page_size 0),
  length-append buffer (replicate page_size 0),
  length-replicate {A = ℕ} page_size 0,
)

load_bytes-page :
    (buffer rest : List ℕ)
    → length buffer ≤ page_size
    → take page_size (load_bytes buffer ++ rest) ≡ buffer ++ replicate (page_size - length buffer) 0
load_bytes-page buffer rest h =
    take-append_of page_size (load_bytes buffer) rest (sym (length-load_bytes buffer))
    ∙ take_padded page_size page_size 0 buffer h (omega arith)

module _ (board : Board) (limit : ℕ) (flash : IsFlash (rp2040_bus board) limit) where
  -- On a chip that keeps its data sheet and whose protection register is 0: the driver's read of up to 2112
  -- bytes of a page of the chip ends with OK and gives the first bytes of that page; no page changes, and
  -- the register stays 0.
  pub read-Gives :
      (block page bufferlen : ℕ) (s : board.State)
      → block < block_count
      → page < page_count
      → bufferlen ≤ 2112
      → (flash.content s).is_protected ≡ false
      → let c = flash.content s in
        Ends
          (Gives
            (rp2040_bus board)
            limit
            flash
            (take bufferlen (c.cell (block * page_count + page)))
            c)
          (read board limit block page bufferlen s)
  unfolding read
  read-Gives block page bufferlen s hb hp hl safe =
      let c = flash.content s in
      let c1 : Content = record c { is_buffered = true } in
      let bus = rp2040_bus board in
      let R = ReadyWith bus limit flash in
      let P = Gives bus limit flash (take bufferlen (c.cell (block * page_count + page))) c in
      bind-Ends (R (Is bus limit flash c)) P _ _
        (ready-Ends bus limit flash (Is bus limit flash c) s refl)
        (λ s1 (z1, k1).
          let s2 = (read_register bus protection_register s1).1 in
          bind-Ends (R (Is bus limit flash c)) P _ _
            (ready-Ends bus limit flash (Is bus limit flash c) s2
              (flash.asking_keeps protection_register s1 ∙ k1))
            (λ s3 r3.
              bind-Ends (R (Is bus limit flash c1)) P _ _
                (configure-Ends bus limit flash c (read_register bus protection_register s1).0 s3
                  (flash.tells_unprotected s1 (ap (λ (x : Content). x.is_protected) k1 ∙ safe)) r3)
                (λ s4 r4.
                  bind-Ends (R (Is bus limit flash (fetched block page c))) P _ _
                    (fetch-Ends bus limit flash c1 (high_address block) (page_address block page) s4
                      r4)
                    (λ s5 r5.
                      let (a, b, o) =
                        read_page bus limit flash c block page bufferlen s5 hb hp hl r5 in
                      (_, refl, (refl, a, b, o ∙ safe))))))

  -- On a chip that keeps its data sheet, from any state: the driver's write of up to 2048 bytes to a blank
  -- page of the chip ends with OK, and the page then holds these bytes with zeros behind them; no other
  -- page changes, and the protection register is 0.
  pub write-Puts :
      (block page : ℕ) (buffer : List ℕ) (s : board.State)
      → block < block_count
      → page < page_count
      → length buffer ≤ page_size
      → take page_size ((flash.content s).cell (block * page_count + page)) ≡ blank
      → Ends
          (Puts
            (rp2040_bus board)
            limit
            flash
            (block * page_count + page)
            (buffer ++ replicate (page_size - length buffer) 0)
            (flash.content s))
          (write board limit block page buffer s)
  unfolding write load_command
  write-Puts block page buffer s hb hp hl empty =
      let small : length buffer ≤ page_size + 64 - 3 = omega (arith, hl) in
      let c = flash.content s in
      let c1 : Content = record c { is_protected = false } in
      let bytes = load_bytes buffer in
      let c2 : Content = record c1 { cache = bytes ++ drop (length bytes) c.cache } in
      let bus = rp2040_bus board in
      let n = block * page_count + page in
      let R = ReadyWith bus limit flash in
      let E = EnabledWith bus limit flash in
      let page_bytes = buffer ++ replicate (page_size - length buffer) 0 in
      let P = Puts bus limit flash n page_bytes c in
      rw (le→ltb (page_size + 64 - 3) (length buffer) small) (
        bind-Ends (R (Is bus limit flash c)) P _ _
          (ready-Ends bus limit flash (Is bus limit flash c) s refl)
          (λ s1 r1.
            bind-Ends (R (Is bus limit flash c1)) P _ _ (unprotect-Ends bus limit flash c s1 r1)
              (λ s2 r2.
                bind-Ends (E (Is bus limit flash c1)) P _ _
                  (enable-Ends bus limit flash (Is bus limit flash c1) s2 r2)
                  (λ s3 r3.
                    let (z, k) =
                      loaded bus limit flash c1 bytes s3 r3
                        (omega (arith, length-load_bytes buffer)) in
                    bind-Ends (R (Is bus limit flash c2)) P _ _
                      (ready-Ends bus limit flash (Is bus limit flash c2) _ k)
                      (λ s4 r4.
                        bind-Ends (E (Is bus limit flash c2)) P _ _
                          (enable-Ends bus limit flash (Is bus limit flash c2) s4 r4)
                          (λ s5 r5.
                            let (a, b, o) =
                              program_page bus limit flash c2 block page s5 hb hp r5 refl empty in
                            let H = HasPage bus limit flash n page_bytes c in
                            bind-Ends (R H) P _ _
                              (ready-Ends bus limit flash H _
                                (a ∙ load_bytes-page buffer (drop (length bytes) c.cache) hl, b, o))
                              (λ s6 (z6, k6). (_, refl, (refl, k6)))))))))

  -- On a chip that keeps its data sheet, from any state: the driver's erase of a block of the chip ends
  -- with OK, all pages of the block are blank then, no other page changes, and the protection register is 0.
  pub erase-Clears :
      (block : ℕ) (s : board.State)
      → block < block_count
      → Ends
          (Clears (rp2040_bus board) limit flash block (flash.content s))
          (erase board limit block s)
  unfolding erase
  erase-Clears block s hb =
      let c = flash.content s in
      let c1 : Content = record c { is_protected = false } in
      let bus = rp2040_bus board in
      let R = ReadyWith bus limit flash in
      let E = EnabledWith bus limit flash in
      let P = Clears bus limit flash block c in
      let H = λ (d : Content).
        ((m : ℕ) → m / page_count ≡ block → take page_size (d.cell m) ≡ blank)
        × ((m : ℕ) → m / page_count ≢ block → d.cell m ≡ c.cell m)
        × (d.is_protected ≡ false) in
      bind-Ends (R (Is bus limit flash c)) P _ _
        (ready-Ends bus limit flash (Is bus limit flash c) s refl)
        (λ s1 r1.
          bind-Ends (E (Is bus limit flash c)) P _ _
            (enable-Ends bus limit flash (Is bus limit flash c) s1 r1)
            (λ s2 (z2, _, k2).
              bind-Ends (R (Is bus limit flash c1)) P _ _
                (unprotect-Ends bus limit flash c s2 (z2, k2))
                (λ s3 r3.
                  bind-Ends (E (Is bus limit flash c1)) P _ _
                    (enable-Ends bus limit flash (Is bus limit flash c1) s3 r3)
                    (λ s4 r4.
                      bind-Ends (R H) P _ _
                        (ready-Ends bus limit flash H _
                          (clear_block bus limit flash c1 block s4 hb r4 refl))
                        (λ s5 (z5, (a, b, o)). (_, refl, (refl, a, b, o)))))))
