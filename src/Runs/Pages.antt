-- ===== src/Runs/Pages.antt =====
-- Runs of the calls that write a page of their own or search the pages, on the macOS driver's flash.
use mxfs.Base.{
  ℕ, ◌&&◌, ◌==◌, ◌∷◌, zero, suc, ◌≡◌, ◌≢◌, refl, true, none, some, List, [], arith, length,
  replicate, length-replicate, leb, if◌then◌else◌, IsByte, All,
}
use mxfs.Instance.{ok, count, need_more_buffer, speed, page_size, TimeRange, Inst}
use mxfs.Driver.Fake.{FakeDev, fake_driver}
use mxfs.Driver.Fake.Store.{fake_store}
use mxfs.Outcome.{returns, stuck}
use mxfs.Read.{read}
use mxfs.Write.{write}
use mxfs.Write.RoundTrip.{write-read}
use mxfs.Mount.{fresh_inst}
use mxfs.Timerange.{timerange, span_loop, span_fuel, no_span}
use mxfs.Timerange.Loop.{span_loop-ne-stuck}
use mxfs.Timerange.Marked.{nth, entry, marked_blocks, Same, timerange-marked}

abbrev flash : FakeDev
flash = some (λ b p. replicate page_size 0xff)

abbrev config : List ℕ
config = 0x7b ∷ (0x7d ∷ [])

zeros-IsByte : (n : ℕ) → All IsByte (replicate n 0)
zeros-IsByte zero = tt
zeros-IsByte (suc n) = (omega arith, zeros-IsByte n)

write-read_example :
    let w = write (fake_driver none) 6 true config 0 0 (some (replicate page_size 0)) flash in
    (w.0 ≡ returns ok)
    × ((read (fake_driver none) 6 true 512 0 0 (some (replicate page_size 0)) w.1).0
        ≡ returns (count 2, config))
write-read_example =
    write-read (fake_driver none) (fake_store none) flash config (replicate page_size 0)
      (replicate page_size 0) 512 0 0 tt (omega arith) (omega arith) refl (omega arith)
      (omega arith) (zeros-IsByte page_size) (omega arith) (length-replicate {A = ℕ} page_size 0)

span_loop-ne-stuck_example : span_loop 3 (replicate 2112 0xff) span_fuel 0 no_span ≢ stuck
span_loop-ne-stuck_example = span_loop-ne-stuck 3 (replicate 2112 0xff)

abbrev no_range : TimeRange
no_range = record { start_time = 0; last_time = 0; block = 0; page = 0; record_count = 0 }

-- Every page starts with the magic number, and one is marked with speed records.
abbrev used_flash : FakeDev
used_flash = some (λ b p. 222 ∷ (192 ∷ (173 ∷ (222 ∷ replicate 2044 0))))

abbrev marked_inst : Inst
marked_inst = record (fresh_inst 16384) {
  blocks =
      λ b. record { flags = 1; start_time = 0; pages = λ p. if b == 1 && p == 3 then 4 else 0 };
}

timerange-marked_example :
    let r = timerange (fake_driver none) marked_inst speed 4 true (λ i. no_range) used_flash in
    let pages =
      marked_blocks (fake_driver none) (fake_store none) marked_inst speed used_flash 1023 1 in
    (r.0 ≡ (if leb (length pages) 4 then count (length pages) else need_more_buffer))
    × ((i : ℕ) → r.1 i ≡ entry 4 i (nth i pages) no_range)
    × Same (fake_driver none) (fake_store none) marked_inst speed used_flash r.2
timerange-marked_example =
    timerange-marked (fake_driver none) (fake_store none) marked_inst speed used_flash 4
      (λ i. no_range) tt (omega arith)
