-- ===== src/Rp2040/Store.antt =====
-- The RP2040 driver behind the file system's interface, and the contract PageStore for it on the chip.
use mxfs.Base.{
  ℕ, ◌+◌, ◌-◌, ◌*◌, ◌/◌, ◌≤◌, ◌<◌, ◌≡◌, ◌≢◌, ◌⊎◌, inl, inr, refl, sym, ap, ◌∙◌, subst, ◌&&◌, false,
  List, [], ◌++◌, arith, length, take, take-take, ltb, lt→ltb, ltb→lt, if◌then◌else◌, Bool-cases,
  replicate,
}
use mxfs.Instance.{ok, err, page_size, page_count, block_count}
use mxfs.Driver.{Driver, PageStore, blank}
use mxfs.Outcome.{Outcome, returns, fault, aborted, stuck}
use mxfs.Board.{Board, rp2040_bus}
use mxfs.Nand.{Content, IsFlash}
use mxfs.Nand.Waits.{Ends}
use mxfs.Rp2040.{read, write, erase, create_spi, release_spi, create_gpio, release_gpio}
use mxfs.Nand.Steps.{Gives, Puts, Clears}
use mxfs.Rp2040.Pages.{read-Gives, write-Puts, erase-Clears}

-- A call that does not come to an end counts as one that fails.
abbrev settled : {A : Type 0} → A → Outcome A → A
settled a (returns b) = b
settled a fault = a
settled a aborted = a
settled a stuck = a

-- What an ended call gives.
settled-Ends : {A : Type 0} (P : A → Type 0) (a : A) (m : Outcome A) → Ends P m → P (settled a m)
settled-Ends P a m (b, e, p) = subst (λ t. P (settled a t)) (sym e) p

-- The driver, with fuel for the polling loops of a call.
abbrev pub rp2040_driver : Board → ℕ → Driver
rp2040_driver board fuel = record {
  Dev = board.State;
  read = λ b p buf d. settled (err, buf, d) (read board fuel b p (length buf) d);
  write = λ b p buf d. settled (err, d) (write board fuel b p buf d);
  erase = λ b d. settled (err, d) (erase board fuel b d);
  create_spi = λ d. settled (err, d) (create_spi board fuel d);
  release_spi = release_spi board;
  create_gpio = create_gpio board;
  release_gpio = release_gpio board;
}

-- The 2048 bytes of a page of the chip.
abbrev pub page_bytes : Content → ℕ → ℕ → List ℕ
page_bytes c b p =
    if ltb b block_count && ltb p page_count
    then take page_size (c.cell (b * page_count + p))
    else []

pub page_bytes_inside :
    (c : Content) (b p : ℕ)
    → b < block_count
    → p < page_count
    → page_bytes c b p ≡ take page_size (c.cell (b * page_count + p))
page_bytes_inside c b p hb hp = rw (lt→ltb b block_count hb, lt→ltb p page_count hp) refl

-- Pages agree where their cells do.
page_bytes_agree :
    (c d : Content) (b p : ℕ)
    → (b < block_count → p < page_count → d.cell (b * page_count + p) ≡ c.cell (b * page_count + p))
    → page_bytes d b p ≡ page_bytes c b p
page_bytes_agree c d b p h = elim (Bool-cases (ltb b block_count)) [
  | inl e ↦ elim (Bool-cases (ltb p page_count)) [
    | inl f ↦
        rw (e, f) (ap (λ x. take page_size x) (h (ltb→lt b block_count e) (ltb→lt p page_count f)))
    | inr f ↦ rw (e, f) refl
  ]
  | inr e ↦ rw e refl
]

another_page :
    (b p q s : ℕ)
    → p < page_count
    → s < page_count
    → (b ≢ q) ⊎ (p ≢ s)
    → q * page_count + s ≢ b * page_count + p
another_page b p q s hp hs (inl n) = λ e. n (omega (arith, e))
another_page b p q s hp hs (inr n) = λ e. n (omega (arith, e))

another_block : (b q s : ℕ) → s < page_count → b ≢ q → (q * page_count + s) / page_count ≢ b
another_block b q s hs n = λ e. n (omega (arith, e))

module _ (board : Board) (limit : ℕ) (flash : IsFlash (rp2040_bus board) limit) where
  abbrev pub stored_page : board.State → ℕ → ℕ → List ℕ
  stored_page d b p = page_bytes (flash.content d) b p

  -- The protection register is 0, as the driver's setup, its writes and its erases leave it.
  abbrev pub IsOpen : board.State → Type 0
  IsOpen d = (flash.content d).is_protected ≡ false

  pub stores_read :
      (b p : ℕ) (buf : List ℕ) (d : board.State)
      → IsOpen d
      → b < block_count
      → p < page_count
      → length buf ≤ page_size
      → let r = (rp2040_driver board limit).read b p buf d in
        (r.0 ≡ ok)
        × (r.1 ≡ take (length buf) (stored_page d b p))
        × ((q s : ℕ) → stored_page r.2 q s ≡ stored_page d q s)
        × IsOpen r.2
  stores_read b p buf d safe hb hp hl =
      let c = flash.content d in
      let after = flash.content ((rp2040_driver board limit).read b p buf d).2 in
      let bytes = take (length buf) (c.cell (b * page_count + p)) in
      let (r, a, e, safe') =
        settled-Ends (Gives (rp2040_bus board) limit flash bytes c) (err, buf, d)
          (read board limit b p (length buf) d)
          (read-Gives board limit flash b p (length buf) d hb hp (omega (arith, hl)) safe) in
      (
        r,
        a
            ∙ sym (take-take (length buf) page_size (c.cell (b * page_count + p)) hl)
            ∙ ap (λ x. take (length buf) x) (sym (page_bytes_inside c b p hb hp)),
        λ q s.
            page_bytes_agree c after q s (λ _ _. ap (λ (f : ℕ → List ℕ). f (q * page_count + s)) e),
        safe',
      )

  pub stores_write :
      (b p : ℕ) (buf : List ℕ) (d : board.State)
      → b < block_count
      → p < page_count
      → length buf ≤ page_size
      → stored_page d b p ≡ blank
      → let r = (rp2040_driver board limit).write b p buf d in
        (r.0 ≡ ok)
        × (stored_page r.1 b p ≡ buf ++ replicate (page_size - length buf) 0)
        × ((q s : ℕ) → (b ≢ q) ⊎ (p ≢ s) → stored_page r.1 q s ≡ stored_page d q s)
        × IsOpen r.1
  stores_write b p buf d hb hp hl empty =
      let c = flash.content d in
      let after = flash.content ((rp2040_driver board limit).write b p buf d).1 in
      let n = b * page_count + p in
      let bytes = buf ++ replicate (page_size - length buf) 0 in
      let (r, (a, o, safe)) =
        settled-Ends (Puts (rp2040_bus board) limit flash n bytes c) (err, d)
          (write board limit b p buf d)
          (write-Puts board limit flash b p buf d hb hp hl
            (sym (page_bytes_inside c b p hb hp) ∙ empty)) in
      (
        r,
        page_bytes_inside after b p hb hp ∙ a,
        λ q s ne.
            page_bytes_agree c after q s
              (λ hq hs. o (q * page_count + s) (another_page b p q s hp hs ne)),
        safe,
      )

  pub stores_erase :
      (b : ℕ) (d : board.State)
      → b < block_count
      → let r = (rp2040_driver board limit).erase b d in
        (r.0 ≡ ok)
        × ((p : ℕ) → p < page_count → stored_page r.1 b p ≡ blank)
        × ((q s : ℕ) → b ≢ q → stored_page r.1 q s ≡ stored_page d q s)
        × IsOpen r.1
  stores_erase b d hb =
      let c = flash.content d in
      let after = flash.content ((rp2040_driver board limit).erase b d).1 in
      let (r, a, o, safe) =
        settled-Ends (Clears (rp2040_bus board) limit flash b c) (err, d) (erase board limit b d)
          (erase-Clears board limit flash b d hb) in
      (
        r,
        λ p hp. page_bytes_inside after b p hb hp ∙ a (b * page_count + p) (omega (arith, hp)),
        λ q s ne.
            page_bytes_agree c after q s
              (λ hq hs. o (q * page_count + s) (another_block b q s hs ne)),
        safe,
      )

  -- The contract for this driver: zeros stand behind a page's bytes, and the chip is ready
  -- for it when its protection register is 0.
  abbrev pub rp2040_store : PageStore (rp2040_driver board limit)
  rp2040_store = record {
    page_at = stored_page;
    IsReady = IsOpen;
    fill = 0;
    fill_IsByte = omega arith;
    read_ok = stores_read;
    write_ok = λ b p buf d _ hb hp hl empty. stores_write b p buf d hb hp hl empty;
    erase_ok = λ b d _ hb. stores_erase b d hb;
  }
