-- ===== src/Driver/Fake.antt =====
-- sw/child/src/drivers/macos: the flash chip of 1024 * 64 pages, kept in memory.
pub mod Store
use mxfs.Base.{
  ℕ, ◌+◌, ◌≤◌, ◌<◌, Option, none, some, List, ◌++◌, take, drop, length, min, ltb, ◌==◌, ◌&&◌,
  if◌then◌else◌, rounds, for_step,
}
use mxfs.Instance.{Ret, ok, err, page_size, page_count}
use mxfs.Driver.{Driver, blank}

-- `fakeflashmem_t`: the bytes of each page of each block.
abbrev pub Flash : Type 0
Flash = ℕ → ℕ → List ℕ

-- `fakeflashmem_instance`, which is NULL until the driver is created.
abbrev pub FakeDev : Type 0
FakeDev = Option Flash

-- `memcpy(dst, src, MIN(length, PAGE_SIZE))`: the rest of `dst` stays.
abbrev copy_over : ℕ → List ℕ → List ℕ → List ℕ
copy_over n src dst = take n src ++ drop n dst

unfoldable pub fake_read : ℕ → ℕ → List ℕ → FakeDev → Ret × List ℕ × FakeDev
fake_read block page buffer none = (err, buffer, none)
fake_read block page buffer (some flash) =
    (ok, copy_over (min (length buffer) page_size) (flash block page) buffer, some flash)

pub write_page : ℕ → ℕ → List ℕ → Flash → Flash
write_page block page bytes flash b p = if block == b && page == p then bytes else flash b p

pub fake_write : ℕ → ℕ → List ℕ → FakeDev → Ret × FakeDev
unfolding write_page
fake_write block page buffer none = (err, none)
fake_write block page buffer (some flash) =
    let bytes = copy_over (min (length buffer) page_size) buffer (flash block page) in
    (ok, some (write_page block page bytes flash))

-- `for (page = 0; page < PAGE_COUNT; page++) memset(pages[page].data, 0xFF, PAGE_SIZE);`
pub erase_pages : ℕ → Flash → Flash
unfolding for_step write_page
erase_pages block flash =
    for_step (rounds 0 page_count 1) 0 1 (λ page f. write_page block page blank f) flash

pub fake_erase : ℕ → FakeDev → Ret × FakeDev
unfolding erase_pages
fake_erase block none = (err, none)
fake_erase block (some flash) = (ok, some (erase_pages block flash))

-- `malloc` of the whole chip, which may fail, and `memset` to 0xFF.
unfoldable pub fake_create_spi : (allocated : Option Flash) → FakeDev → Ret × FakeDev
fake_create_spi none dev = (err, none)
fake_create_spi (some memory) dev = (ok, some (λ b p. blank))

pub fake_release_spi : FakeDev → Ret × FakeDev
fake_release_spi dev = (ok, none)

unfoldable pub fake_create_gpio : FakeDev → Ret × FakeDev
fake_create_gpio dev = (ok, dev)

pub fake_release_gpio : FakeDev → Ret × FakeDev
fake_release_gpio dev = (ok, dev)

-- The driver, given what `malloc` returns in `mxfs_driver_create_spi`.
abbrev pub fake_driver : Option Flash → Driver
fake_driver allocated = record {
  Dev = FakeDev;
  read = fake_read;
  write = fake_write;
  erase = fake_erase;
  create_spi = fake_create_spi allocated;
  release_spi = fake_release_spi;
  create_gpio = fake_create_gpio;
  release_gpio = fake_release_gpio;
}
