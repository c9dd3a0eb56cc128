-- ===== src/Driver/Fake/Store.antt =====
-- The memory driver is a page store, once `mxfs_driver_create_spi` has allocated it.
use mxfs.Base.{
  ℕ, zero, suc, ◌+◌, ◌-◌, ◌≤◌, ◌<◌, ◌≡◌, ◌≢◌, refl, ap, ap₂, ◌∙◌, ◌⊎◌, ◌&&◌, Option, none, some,
  List, [], ◌++◌, arith, take, drop, length, replicate, min, ltb, leb, ◌==◌, if◌then◌else◌,
  for_step, take_all, drop_all, append-nil,
}
use mxfs.Instance.{page_size, page_count, ok}
use mxfs.Driver.{PageStore, blank}
use mxfs.Driver.Fake.{Flash, FakeDev, fake_driver, fake_read, fake_write, fake_erase, write_page}

abbrev pub flash_page : FakeDev → ℕ → ℕ → List ℕ
flash_page none b p = []
flash_page (some flash) b p = flash b p

-- The chip is allocated.
abbrev pub IsReady : FakeDev → Type 0
IsReady none = ⊥
IsReady (some flash) = Unit

drop-replicate : (n m : ℕ) (a : ℕ) → drop n (replicate m a) ≡ replicate (m - n) a
drop-replicate zero m a = let e : m ≡ m - 0 = omega arith in ap (λ k. replicate k a) e
drop-replicate (suc n) zero a = let e : 0 ≡ 0 - suc n = omega arith in ap (λ k. replicate k a) e
drop-replicate (suc n) (suc m) a =
    let e : m - n ≡ suc m - suc n = omega arith in drop-replicate n m a ∙ ap (λ k. replicate k a) e

-- The loop blanks the pages from `page` up to `page + k`.
erase_loop :
    (k page block b p : ℕ) (flash : Flash)
    → for_step k page 1 (λ q f. write_page block q blank f) flash b p
      ≡ (if block == b && (leb page p && ltb p (page + k)) then blank else flash b p)
unfolding for_step write_page
erase_loop zero page block b p flash = ground arith
erase_loop (suc k) page block b p flash =
    erase_loop k (page + 1) block b p (write_page block page blank flash) ∙ ground arith

min_left : (n m : ℕ) → n ≤ m → min n m ≡ n
min_left n m h = omega arith

module _ (allocated : Option Flash) where
  -- A write of at most a page to a blank page: its bytes, then 0xFF.
  write_blank :
      (buf : List ℕ)
      → length buf ≤ page_size
      → take (min (length buf) page_size) buf ++ drop (min (length buf) page_size) blank
        ≡ buf ++ replicate (page_size - length buf) 0xff
  write_blank buf h = rw (min_left (length buf) page_size h) (
      ap₂ ◌++◌ (take_all (length buf) buf (omega arith))
        (drop-replicate (length buf) page_size 0xff))

  fake_write-other :
      (b p q r : ℕ) (bytes : List ℕ) (flash : Flash)
      → (b ≢ q) ⊎ (p ≢ r)
      → write_page b p bytes flash q r ≡ flash q r
  unfolding write_page
  fake_write-other b p q r bytes flash h = ground arith

  fake_write_self :
      (b p : ℕ) (bytes : List ℕ) (flash : Flash) → write_page b p bytes flash b p ≡ bytes
  unfolding write_page
  fake_write_self b p bytes flash = ground arith

  pub fake_read-ok :
      (b p : ℕ) (buf : List ℕ) (d : FakeDev)
      → IsReady d
      → length buf ≤ page_size
      → ((fake_read b p buf d).0 ≡ ok)
        × ((fake_read b p buf d).1 ≡ take (length buf) (flash_page d b p))
        × ((q r : ℕ) → flash_page (fake_read b p buf d).2 q r ≡ flash_page d q r)
        × IsReady (fake_read b p buf d).2
  unfolding fake_read
  fake_read-ok b p buf none ready h = elim ready [ ]
  fake_read-ok b p buf (some flash) ready h = (
    refl,
    rw (min_left (length buf) page_size h)
        (rw (drop_all (length buf) buf (omega arith)) (append-nil _)),
    λ q r. refl,
    tt,
  )

  -- With the memory allocated, a write of at most 2048 bytes to a blank page returns OK, puts the bytes
  -- there with 0xFF behind them and leaves all other pages alone; the memory stays allocated.
  pub fake_write-ok :
      (b p : ℕ) (buf : List ℕ) (d : FakeDev)
      → IsReady d
      → length buf ≤ page_size
      → flash_page d b p ≡ blank
      → ((fake_write b p buf d).0 ≡ ok)
        × (flash_page (fake_write b p buf d).1 b p ≡ buf ++ replicate (page_size - length buf) 0xff)
        × ((q r : ℕ)
            → (b ≢ q) ⊎ (p ≢ r)
            → flash_page (fake_write b p buf d).1 q r ≡ flash_page d q r)
        × IsReady (fake_write b p buf d).1
  unfolding fake_write
  fake_write-ok b p buf none ready h e = elim ready [ ]
  fake_write-ok b p buf (some flash) ready h e = (
    refl,
    rw (fake_write_self, e) (write_blank buf h),
    λ q r ne. fake_write-other b p q r _ flash ne,
    tt,
  )

  -- With the memory allocated, an erase returns OK, blanks all 64 pages of its block and leaves the pages
  -- of all other blocks alone; the memory stays allocated.
  pub fake_erase-ok :
      (b : ℕ) (d : FakeDev)
      → IsReady d
      → ((fake_erase b d).0 ≡ ok)
        × ((p : ℕ) → p < page_count → flash_page (fake_erase b d).1 b p ≡ blank)
        × ((q r : ℕ) → b ≢ q → flash_page (fake_erase b d).1 q r ≡ flash_page d q r)
        × IsReady (fake_erase b d).1
  unfolding fake_erase
  fake_erase-ok b none ready = elim ready [ ]
  fake_erase-ok b (some flash) ready = (
    refl,
    λ p h. erase_loop 64 0 b b p flash ∙ ground arith,
    λ q r ne. erase_loop 64 0 b q r flash ∙ ground arith,
    tt,
  )

  abbrev pub fake_store : PageStore (fake_driver allocated)
  fake_store = record {
    page_at = flash_page;
    IsReady = IsReady;
    fill = 0xff;
    fill_IsByte = omega arith;
    read_ok = λ b p buf d ready _ _. fake_read-ok b p buf d ready;
    write_ok = λ b p buf d ready _ _. fake_write-ok b p buf d ready;
    erase_ok = λ b d ready _. fake_erase-ok b d ready;
  }
