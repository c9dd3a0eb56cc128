-- ===== src/Runs/Device.antt =====
-- A small flash chip behind the RP2040's bus: it answers its status, keeps its pages, and is busy for some
-- milliseconds after a command.
use mxfs.Base.{
  ℕ, zero, suc, ◌+◌, ◌-◌, ◌*◌, ◌≢◌, ◌/◌, ◌%◌, ◌<◌, ◌≡◌, refl, Bool, true, false, not, ◌&&◌, List,
  [], ◌∷◌, ◌++◌, arith, min, ltb, ◌==◌, if◌then◌else◌, replicate, take, drop, length, from_le,
  ==-refl, ne→==, take-replicate,
}
use mxfs.Instance.{page_size}
use mxfs.Driver.{blank}
use mxfs.Bus.{is_busy, is_write_enabled, read_register}
use mxfs.Board.{Act, Board, sleep_ms, spi_write, acts, command, query, rp2040_bus}
use mxfs.Nand.{IsW25n, Content, IsFlash, address}

pub record Chip : Type 0 where
  pub busy : ℕ
  pub enabled : Bool
  pub content : Content
  pub asked : List ℕ

abbrev pub byte_at : ℕ → List ℕ → ℕ
byte_at n [] = 0
byte_at zero (x ∷ xs) = x
byte_at (suc n) (x ∷ xs) = byte_at n xs

abbrev set_register : (a v : ℕ) → Content → Content
set_register a v c =
    if a == 0xa0
    then record c { is_protected = not (v == 0) }
    else if a == 0xb0
    then record c { is_buffered = v / 8 % 2 == 1 }
    else c

abbrev set_page : ℕ → List ℕ → (ℕ → List ℕ) → ℕ → List ℕ
set_page n bytes cell m = if m == n then bytes else cell m

abbrev clear_block : ℕ → (ℕ → List ℕ) → ℕ → List ℕ
clear_block b cell m = if m / 64 == b then replicate 2112 0xff else cell m

-- A program and an erase are taken if the chip is enabled and not protected.
abbrev pub on_command : List ℕ → Chip → Chip
on_command [] c = c
on_command (i ∷ bytes) c =
    let n = address (byte_at 1 bytes) (byte_at 2 bytes) in
    let content = c.content in
    let takes = c.enabled && not content.is_protected in
    if i == 0x06
    then record c { enabled = true }
    else if i == 0x84
    then record c {
      content = record content {
        cache = drop 2 bytes ++ drop (length (drop 2 bytes)) content.cache;
      };
    }
    else if i == 0x1f
    then record c { content = set_register (byte_at 0 bytes) (byte_at 1 bytes) content }
    else if i == 0x13
    then record c { busy = 1; content = record content { cache = content.cell n } }
    else if i == 0x10
    then (if takes
        then record c {
          busy = 3;
          enabled = false;
          content = record content { cell = set_page n content.cache content.cell };
        }
        else c)
    else if i == 0xd8
    then (if takes
        then record c {
          busy = 9;
          enabled = false;
          content = record content { cell = clear_block (n / 64) content.cell };
        }
        else c)
    else c

abbrev pub on_act : Act → Chip → Chip
on_act (sleep_ms n) c = record c { busy = min c.busy 9 - n }
on_act (spi_write bytes) c = record (on_command bytes c) { asked = bytes }
on_act _ c = c

abbrev pub status : Chip → ℕ
status c = (if ltb 0 (min c.busy 9) then 1 else 0) + (if c.enabled then 2 else 0)

-- What a register answers; a chip that starts up is protected by the bits 0x7C.
abbrev pub register : ℕ → Chip → ℕ
register a c =
    if a == 0xc0
    then status c
    else if a == 0xa0
    then (if c.content.is_protected then 0x7c else 0)
    else 0

abbrev pub answer : ℕ → Chip → List ℕ
answer n c =
    if byte_at 0 c.asked == 0x03
    then take n c.content.cache
    else if byte_at 0 c.asked == 0x9f
    then 0xef ∷ (0xaa ∷ (0x21 ∷ []))
    else replicate n (register (byte_at 1 c.asked) c)

pub tells_busy : (c : Chip) → is_busy (status c + 256 * 0) ≡ ltb 0 (min c.busy 9)
tells_busy c = ground arith

pub tells_enabled : (c : Chip) → is_write_enabled (status c + 256 * 0) ≡ c.enabled
tells_enabled c = ground arith

pub status_small : (a : ℕ) (c : Chip) → (if a == 0xc0 then status c else 0) + 0 < 256
status_small a c = ground arith

pub blank_page : take page_size (replicate 2112 0xff) ≡ blank
blank_page = take-replicate page_size 2112 0xff (omega arith)

pub programs :
    (hi lo : ℕ) (c : Chip)
    → c.enabled ≡ true
    → c.content.is_protected ≡ false
    → let d = (on_command (0x10 ∷ (0 ∷ (hi ∷ (lo ∷ [])))) c).content in
      (take page_size (d.cell (address hi lo)) ≡ take page_size c.content.cache)
      × ((n : ℕ) → n ≢ address hi lo → d.cell n ≡ c.content.cell n)
      × (d.is_protected ≡ false)
programs hi lo c e p =
    rw (e, p)
      (rw (==-refl (address hi lo)) refl, λ n ne. rw (ne→== n (address hi lo) ne) refl, refl)

pub erases :
    (hi lo : ℕ) (c : Chip)
    → c.enabled ≡ true
    → c.content.is_protected ≡ false
    → let d = (on_command (0xd8 ∷ (0 ∷ (hi ∷ (lo ∷ [])))) c).content in
      ((n : ℕ) → n / 64 ≡ address hi lo / 64 → take page_size (d.cell n) ≡ blank)
      × ((n : ℕ) → n / 64 ≢ address hi lo / 64 → d.cell n ≡ c.content.cell n)
      × (d.is_protected ≡ false)
erases hi lo c e p =
    rw (e, p)
      (
        λ n eq. rw (eq, ==-refl (address hi lo / 64)) blank_page,
        λ n ne. rw (ne→== (n / 64) (address hi lo / 64) ne) refl,
        refl,
      )

abbrev pub chip : Board
chip = record { State = Chip; act = on_act; spi_read = λ n c. (answer n c, c) }

unfoldable pub chip-IsW25n : IsW25n (rp2040_bus chip) 10
unfolding acts command query read_register from_le
chip-IsW25n = record {
  busy = λ c. min c.busy 9;
  enabled = λ c. c.enabled;
  bounded = λ c. omega arith;
  tells_busy = λ c. tells_busy c;
  tells_enabled = λ c. tells_enabled c;
  asking = λ a c. (omega arith, refl);
  pausing = λ c. (omega arith, refl);
  enabling = λ c z. (z, refl);
}

unfoldable pub chip-IsFlash : IsFlash (rp2040_bus chip) 10
unfolding acts command query read_register from_le chip-IsW25n
chip-IsFlash = record {
  timing = chip-IsW25n;
  content = λ c. c.content;
  tells_unprotected = λ c p. rw p refl;
  asking_keeps = λ a c. refl;
  pausing_keeps = λ c. refl;
  enabling_keeps = λ c z. refl;
  unprotecting = λ c z. refl;
  configuring = λ v c z h _. rw h refl;
  fetching = λ hi lo c z. refl;
  reading = λ n c z b h. (refl, refl, z);
  loading = λ bytes c z e h. (refl, z);
  programming = λ hi lo c z e p b. programs hi lo c e p;
  erasing = λ hi lo c z e p. erases hi lo c e p;
}
