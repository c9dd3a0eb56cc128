-- ===== src/Nand/Pages.antt =====
-- The last commands of a read, a write and an erase, at the block and the page that the caller names.
use mxfs.Base.{
  ℕ, ◌+◌, ◌*◌, ◌/◌, ◌≤◌, ◌<◌, ◌≡◌, ◌≢◌, sym, ap, subst, ◌∙◌, true, false, [], ◌∷◌, arith, take,
}
use mxfs.Instance.{page_size, page_count, block_count}
use mxfs.Driver.{blank}
use mxfs.Bus.{
  Bus, block_erase, pg_execute, read_instruction, high_address, low_address, page_address,
}
use mxfs.Nand.{Content, IsFlash, address}
use mxfs.Nand.Steps.{ReadyWith, EnabledWith, Is, HasPage, programmed, erased}
use mxfs.Rp2040.Address.{page_number-address, block_number-address}

-- The content with buffer reads on and this page in the cache.
abbrev pub fetched : (block page : ℕ) → Content → Content
fetched block page c = record c {
  is_buffered = true;
  cache = c.cell (address (high_address block) (page_address block page));
}

module _ (bus : Bus) (limit : ℕ) (flash : IsFlash bus limit) where
  -- The answer to READ behind a page's fetch, and the chip then.
  pub read_page :
      (c : Content) (block page bufferlen : ℕ) (s : bus.State)
      → block < block_count
      → page < page_count
      → bufferlen ≤ 2112
      → ReadyWith bus limit flash (Is bus limit flash (fetched block page c)) s
      → let r = bus.query (read_instruction ∷ (0 ∷ (0 ∷ (0 ∷ [])))) bufferlen s in
        (r.0 ≡ take bufferlen (c.cell (block * page_count + page)))
        × ((flash.content r.1).cell ≡ c.cell)
        × ((flash.content r.1).is_protected ≡ c.is_protected)
  read_page c block page bufferlen s hb hp hl (z, k) =
      let (a, b, _) = flash.reading bufferlen s z (ap (λ (x : Content). x.is_buffered) k) hl in
      (
        a
            ∙ ap (λ (x : Content). take bufferlen x.cache) k
            ∙ ap (λ n. take bufferlen (c.cell n)) (page_number-address block page hb hp),
        ap (λ (x : Content). x.cell) (b ∙ k),
        ap (λ (x : Content). x.is_protected) (b ∙ k),
      )

  -- The pages behind PG_EXECUTE.
  pub program_page :
      (c : Content) (block page : ℕ) (s : bus.State)
      → block < block_count
      → page < page_count
      → EnabledWith bus limit flash (Is bus limit flash c) s
      → c.is_protected ≡ false
      → take page_size (c.cell (block * page_count + page)) ≡ blank
      → HasPage bus limit flash (block * page_count + page) (take page_size c.cache) c (
          flash.content (
            bus.command
              (pg_execute ∷ (0 ∷ (high_address block ∷ (page_address block page ∷ []))))
              s))
  program_page c block page s hb hp e p empty =
      let at = page_number-address block page hb hp in
      let (a, b, o) =
        programmed bus limit flash c (high_address block) (page_address block page) s e p
          (subst (λ m. take page_size (c.cell m) ≡ blank) (sym at) empty) in
      (rw at at a, rw at at b, o)

  -- The pages behind BLOCK_ERASE.
  pub clear_block :
      (c : Content) (block : ℕ) (s : bus.State)
      → block < block_count
      → EnabledWith bus limit flash (Is bus limit flash c) s
      → c.is_protected ≡ false
      → let d =
          flash.content
            (bus.command (block_erase ∷ (0 ∷ (high_address block ∷ (low_address block ∷ [])))) s) in
        ((m : ℕ) → m / page_count ≡ block → take page_size (d.cell m) ≡ blank)
        × ((m : ℕ) → m / page_count ≢ block → d.cell m ≡ c.cell m)
        × (d.is_protected ≡ false)
  clear_block c block s hb e p =
      let at = block_number-address block hb in
      let row : (block * page_count) / 64 ≡ block = omega arith in
      let (a, b, o) = erased bus limit flash c (high_address block) (low_address block) s e p in
      (rw (at, row) at a, rw (at, row) at b, o)
