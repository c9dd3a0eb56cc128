-- ===== src/Rp2040/Address.antt =====
-- The address bytes of the RP2040 driver's commands name a page of the chip.
use Prim.Native.Nat.{bit_or}
use mxfs.Base.{ℕ, ◌+◌, ◌*◌, ◌%◌, ◌<◌, ◌≡◌, refl, true, ◌==◌, arith, ==→eq, all_below, below}
use mxfs.Instance.{block_count, page_count}
use mxfs.Bus.{high_address, low_address, page_address}

-- The block's two lowest bits and the page's six do not overlap.
or_fields : all_below 4 (λ b. all_below 64 (λ p. bit_or (b * 64) p == b * 64 + p)) ≡ true
or_fields = refl

or_adds : (b p : ℕ) → b < 4 → p < 64 → bit_or (b * 64) p ≡ b * 64 + p
or_adds b p hb hp = ==→eq (bit_or (b * 64) p) (b * 64 + p) (
    below 64 p (λ p. bit_or (b * 64) p == b * 64 + p)
      (below 4 b (λ b. all_below 64 (λ p. bit_or (b * 64) p == b * 64 + p)) or_fields hb) hp)

low : (block : ℕ) → low_address block ≡ block % 4 * 64
unfolding low_address
low block = omega arith

-- For a block and a page of the chip, the two address bytes of a command are one 16-bit number, the
-- page's number counted from the start of the chip.
pub page_number-address :
    (block page : ℕ)
    → block < block_count
    → page < page_count
    → high_address block * 256 + page_address block page ≡ block * page_count + page
unfolding high_address page_address
page_number-address block page hb hp =
    let e : page % 64 ≡ page = omega (arith, hp) in
    let o : bit_or (low_address block) (page % 64) ≡ block % 4 * 64 + page =
      rw (low block, e) (or_adds (block % 4) page (omega arith) hp) in
    rw o (omega (arith, hb))

-- The address bytes of an erase name the first page of the block.
pub block_number-address :
    (block : ℕ)
    → block < block_count
    → high_address block * 256 + low_address block ≡ block * page_count
unfolding high_address low_address
block_number-address block hb = omega (arith, hb)
