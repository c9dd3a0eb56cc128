-- ===== src/Rp2040/Ends.antt =====
-- The waiting loops of the RP2040 driver end on a chip that keeps what its data sheet says of its busy
-- and write-enable bits, and so do the driver's erase, read, write and setup of the bus.
use mxfs.Base.{ℕ, ◌+◌, ◌≤◌, ◌≡◌, refl, List, [], ◌∷◌, length, le→ltb}
use mxfs.Instance.{Ret, ok, page_size}
use mxfs.Board.{Board, query, rp2040_bus}
use mxfs.Bus.{jedec_id, is_known, wait_ready, enable_write, write_register}
use mxfs.Nand.{IsW25n}
use mxfs.Nand.Waits.{
  Ends, bind-Ends, Readied, Enabled, Anything, anything, wait_ready-Ends, enable_write-Ends,
  write_register-Ends,
}
use mxfs.Rp2040.{erase, read, write, create_spi}

module _ (board : Board) (limit : ℕ) (chip : IsW25n (rp2040_bus board) limit) where
  -- The call returned OK, and the chip is ready.
  abbrev pub Done : Ret × board.State → Type 0
  Done (r, s) = (r ≡ ok) × (chip.busy s ≡ 0)

  -- The call returned OK.
  abbrev pub Answered : Ret × List ℕ × board.State → Type 0
  Answered (r, answer, s) = r ≡ ok

  abbrev Ready : board.State → Type 0
  Ready =
      Readied (rp2040_bus board) limit chip (Anything (rp2040_bus board) limit chip)
        (anything (rp2040_bus board) limit chip)

  ready : (s : board.State) → Ends Ready (wait_ready (rp2040_bus board) limit s)
  ready s =
      wait_ready-Ends (rp2040_bus board) limit chip (Anything (rp2040_bus board) limit chip)
        (anything (rp2040_bus board) limit chip) s tt

  abbrev Taking : board.State → Type 0
  Taking =
      Enabled (rp2040_bus board) limit chip (Anything (rp2040_bus board) limit chip)
        (anything (rp2040_bus board) limit chip)

  enabled :
      (s : board.State) → chip.busy s ≡ 0 → Ends Taking (enable_write (rp2040_bus board) limit s)
  enabled s z =
      enable_write-Ends (rp2040_bus board) limit chip (Anything (rp2040_bus board) limit chip)
        (anything (rp2040_bus board) limit chip) s z tt

  written : (a v : ℕ) (s : board.State) → Ends Ready (write_register (rp2040_bus board) limit a v s)
  written a v s =
      write_register-Ends (rp2040_bus board) limit chip (Anything (rp2040_bus board) limit chip)
        (anything (rp2040_bus board) limit chip) a v s tt

  -- On a chip that keeps its data sheet: a block's erase ends with OK, and the chip is ready then.
  pub erase-Ends : (block : ℕ) (s : board.State) → Ends Done (erase board limit block s)
  unfolding erase
  erase-Ends block s = bind-Ends Ready Done _ _ (ready s) (λ s1 (z1, _).
      bind-Ends Taking Done _ _ (enabled s1 z1) (λ s2 _.
        bind-Ends Ready Done _ _ (written _ _ s2) (λ s3 (z3, _).
          bind-Ends Taking Done _ _ (enabled s3 z3)
            (λ s4 _. bind-Ends Ready Done _ _ (ready _) (λ s5 (z5, _). (_, refl, (refl, z5)))))))

  -- On a chip that keeps its data sheet: a page's read ends with OK.
  pub read-Ends :
      (block page bufferlen : ℕ) (s : board.State)
      → Ends Answered (read board limit block page bufferlen s)
  unfolding read
  read-Ends block page bufferlen s = bind-Ends Ready Answered _ _ (ready s) (λ s1 _.
      bind-Ends Ready Answered _ _ (ready _) (λ s3 _.
        bind-Ends Ready Answered _ _ (written _ _ s3)
          (λ s4 _. bind-Ends Ready Answered _ _ (ready _) (λ s5 _. (_, refl, refl)))))

  -- On a chip that keeps its data sheet: a page's write of up to 2109 bytes ends with OK, and the chip is
  -- ready then.
  pub write-Ends :
      (block page : ℕ) (buffer : List ℕ) (s : board.State)
      → length buffer ≤ page_size + 61
      → Ends Done (write board limit block page buffer s)
  unfolding write
  write-Ends block page buffer s h = rw (le→ltb _ _ h) (
      bind-Ends Ready Done _ _ (ready s) (λ s1 _.
        bind-Ends Ready Done _ _ (written _ _ s1) (λ s2 (z2, _).
          bind-Ends Taking Done _ _ (enabled s2 z2) (λ s3 _.
            bind-Ends Ready Done _ _ (ready _) (λ s4 (z4, _).
              bind-Ends Taking Done _ _ (enabled s4 z4) (λ s5 _.
                bind-Ends Ready Done _ _ (ready _) (λ s6 (z6, _). (_, refl, (refl, z6)))))))))

  -- On a chip that keeps its data sheet and gives the id of a W25N01G: the setup of the bus ends with OK,
  -- and the chip is ready then.
  pub create_spi-Ends :
      (s : board.State)
      → ((t : board.State)
          → (query board (jedec_id ∷ (0 ∷ [])) 3 t).0 ≡ 0xef ∷ (0xaa ∷ (0x21 ∷ [])))
      → Ends Done (create_spi board limit s)
  unfolding create_spi is_known
  create_spi-Ends s known = bind-Ends Ready Done _ _ (ready _) (λ s1 _.
      bind-Ends Ready Done _ _ (ready _) (λ s2 _. rw (known s2) (
        bind-Ends Ready Done _ _ (written _ _ _) (λ s3 (z3, _).
          bind-Ends Taking Done _ _ (enabled s3 z3) (λ s4 (z4, _, _). (_, refl, (refl, z4)))))))
