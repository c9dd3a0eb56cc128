-- ===== src/Runs/Flash.antt =====
-- Runs of the file system on the flash of the macOS driver.
use mxfs.Base.{
  ℕ, zero, suc, ◌+◌, ◌-◌, ◌%◌, ◌≤◌, ◌<◌, ◌≡◌, ◌≢◌, refl, inr, true, false, none, some, List, [],
  ◌∷◌, ◌++◌, arith, length, replicate, length-replicate, if◌then◌else◌, ◌==◌,
}
use mxfs.Header.{Compress}
use mxfs.Instance.{ok, need_more_buffer, count, speed, Inst, page_size}
use mxfs.Driver.Fake.{FakeDev, fake_driver, fake_create_gpio, fake_create_spi}
use mxfs.Driver.Fake.Store.{fake_store}
use mxfs.Log.{IsEntry, Log, payloads}
use mxfs.Flush.{pending_length, prepare, flush}
use mxfs.Flush.Page.{IsLog, page_of, page_cost}
use mxfs.Flush.Prepare.Whole.{empty_log, prepare-page_of}
use mxfs.Flush.Outcome.{flush-IsSound, position-flush}
use mxfs.Flush.Stores.{IsFresh, Stored, flush-Stored}
use mxfs.Sound.{IsSound, pending_length-counts, position, ring_size}
use mxfs.Append.{append, current_length}
use mxfs.Append.Outcome.{current_length-page_cost}
use mxfs.Append.Refines.{is_full, is_taken, log_step, log_append, append-Refines}
use mxfs.Outcome.{returns, stuck}
use mxfs.Read.{read, read_loop, read_fuel}
use mxfs.Read.Loop.{read_loop-ne-stuck}
use mxfs.Read.RoundTrip.{read_loop-page_of, flush-read}
use mxfs.Mount.{Global, fresh_inst, find_current, mount}
use mxfs.Mount.Calls.{Request, creates, releases}
use mxfs.Mount.Current.{at_block, is_used, start_of, find_current_free, find_current_latest}
use mxfs.Mount.Sound.{fresh_inst-IsSound, mount-IsSound}

abbrev pub flash : FakeDev
flash = some (λ b p. replicate page_size 0xff)

abbrev pub payload : List ℕ
payload = replicate 18 7

abbrev pub one_log : Log
one_log = log_append speed (5, payload) empty_log

abbrev pub one : Inst
one = (append (fake_driver none) 16384 0 5 payload (fresh_inst 16384) flash).1

entry : IsEntry speed (5, payload)
entry = (omega arith, refl)

append-Refines_example :
    let r = append (fake_driver none) 16384 0 5 payload (fresh_inst 16384) flash in
    (r.0 ≡ (if is_taken 16384 empty_log speed then ok else need_more_buffer))
    × IsSound 16384 r.1 (log_step 16384 speed (5, payload) empty_log)
    × (r.2 ≡ (
        if is_full empty_log speed
        then (flush (fake_driver none) (fresh_inst 16384) flash).2
        else flash))
append-Refines_example =
    append-Refines 16384 (omega arith) (omega arith) (fake_driver none) speed 5 payload
      (fresh_inst 16384) empty_log flash (fresh_inst-IsSound 16384) entry

pub one-IsSound : IsSound 16384 one one_log
one-IsSound =
    let (a, b, c) =
      append-Refines 16384 (omega arith) (omega arith) (fake_driver none) speed 5 payload
        (fresh_inst 16384) empty_log flash (fresh_inst-IsSound 16384) entry in
    b

pub one_pending : pending_length one ≢ 0
one_pending =
    rw (pending_length-counts one one_log one-IsSound.holds one-IsSound.cost) (omega arith)

one-IsFresh : IsFresh (fake_driver none) (fake_store none) one flash
one-IsFresh = record { ready = tt; blank_ahead = inr (λ p _ _. refl) }

one-IsLog : IsLog one_log
one-IsLog l = (one-IsSound.holds l).entries

flush-read_example :
    (read
      (fake_driver none)
      0
      true
      100
      one.current_block
      one.current_page
      (some (replicate page_size 0))
      (flush (fake_driver none) one flash).2).0
    ≡ returns (count (length (payloads (one_log speed))), payloads (one_log speed))
flush-read_example =
    flush-read (fake_driver none) (fake_store none) 16384 one one_log flash speed 100
      (replicate page_size 0) one-IsSound one-IsFresh one_pending (omega arith)
      (length-replicate {A = ℕ} page_size 0)

flush-Stored_example :
    Stored
      (fake_driver none)
      (fake_store none)
      (page_of one_log)
      one
      flash
      (flush (fake_driver none) one flash)
flush-Stored_example =
    flush-Stored (fake_driver none) (fake_store none) 16384 one one_log flash one-IsSound
      one-IsFresh one_pending

read_loop-page_of_example :
    read_loop 0 18
      (page_of one_log ++ replicate (page_size - length (page_of one_log)) 0xff)
      read_fuel
      0
      []
    ≡ returns payload
read_loop-page_of_example =
    read_loop-page_of speed 18 one_log 0xff one-IsLog one-IsSound.cost (omega arith)

prepare-page_of_example : (prepare one).1.work_buffer ≡ page_of one_log
prepare-page_of_example = prepare-page_of one one_log one-IsSound.holds

flush-IsSound_example : IsSound 16384 (flush (fake_driver none) one flash).1 empty_log
flush-IsSound_example = flush-IsSound (fake_driver none) 16384 one one_log flash one-IsSound

position-flush_example :
    ((flush (fake_driver none) one flash).0 ≡ ok
      → position (flush (fake_driver none) one flash).1 ≡ (position one + 1) % ring_size)
    × ((flush (fake_driver none) one flash).0 ≢ ok
        → position (flush (fake_driver none) one flash).1 ≡ position one)
position-flush_example =
    position-flush (fake_driver none) 16384 one one_log flash one-IsSound one_pending

current_length-page_cost_example : current_length one ≡ page_cost one_log
current_length-page_cost_example =
    current_length-page_cost one one_log one-IsSound.holds one-IsSound.cost

read_loop-ne-stuck_example : read_loop 0 10 (replicate page_size 0xff) read_fuel 0 [] ≢ stuck
read_loop-ne-stuck_example = read_loop-ne-stuck 0 10 (replicate page_size 0xff)

abbrev header : Compress
header = record { magic = 0xdeadc0de; time = 7; bits = 5; union = 18 }

mount-IsSound_example :
    let r = mount (fake_driver (some (λ b p. []))) none (fresh_inst 16384) none in
    (inst : Inst) × (r.0 ≡ ok) × (r.1 ≡ some inst) × IsSound 16384 inst empty_log
unfolding fake_create_gpio fake_create_spi
mount-IsSound_example = mount-IsSound 16384 (fake_driver (some (λ b p. []))) none refl refl

abbrev no_instance : Global
no_instance = record { singleton = 0; locked = false }

-- An instance is created, released and created again; a second one is refused, and then NULL is released.
abbrev calls : List Request
calls =
    creates true none none
    ∷ (releases (some (fresh_inst 16384))
        ∷ (creates true none none ∷ (creates false none none ∷ (releases none ∷ []))))

-- Blocks 1 and 2 are used from the times 5 and 9 on; the others are free.
abbrev two_used : Inst
two_used = record (fresh_inst 16384) {
  blocks = λ b. record {
    flags = if b == 1 then 1 else if b == 2 then 1 else 0;
    start_time = if b == 1 then 5 else if b == 2 then 9 else 0;
    pages = λ p. 0xff;
  };
}

two_are_used : (d : ℕ) → 1 ≤ d → d < 3 → is_used two_used d ≡ true
two_are_used (suc zero) p q = refl
two_are_used (suc (suc zero)) p q = refl
two_are_used _ p q = absurd (omega arith)

find_current_free_example : find_current 1023 1 0 two_used ≡ at_block 3 two_used
find_current_free_example =
    find_current_free 1023 1 0 3 two_used (omega arith) (omega arith) refl two_are_used

at_most_nine : (d : ℕ) → 1 ≤ d → d < 3 → start_of two_used d ≤ 9
at_most_nine (suc zero) p q = omega arith
at_most_nine (suc (suc zero)) p q = omega arith
at_most_nine _ p q = absurd (omega arith)

below_nine : (d : ℕ) → 1 ≤ d → d < 2 → start_of two_used d < 9
below_nine (suc zero) p q = omega arith
below_nine _ p q = absurd (omega arith)

find_current_latest_example : find_current 2 1 0 two_used ≡ at_block 2 two_used
find_current_latest_example =
    find_current_latest 2 1 0 2 two_used (omega arith) (omega arith) (omega arith) (omega arith)
      two_are_used at_most_nine below_nine
