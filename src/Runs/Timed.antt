-- ===== src/Runs/Timed.antt =====
-- Runs of the build with __LINUX__ on the flash of the macOS driver.
use mxfs.Base.{
  List, ℕ, ◌≡◌, ◌≢◌, refl, true, none, some, ◌∷◌, arith, replicate, from_le, if◌then◌else◌, ◌==◌,
}
use mxfs.Instance.{Layer, ok, speed, TimeRange}
use mxfs.Header.{decode}
use mxfs.Driver.{Driver}
use mxfs.Driver.Fake.{FakeDev, fake_driver, fake_create_gpio, fake_read}
use mxfs.Flush.{flush}
use mxfs.Flush.Prepare.{HoldsAll}
use mxfs.Flush.{prepare}
use mxfs.LinuxBuild.{erase_first_timed, TimedInst, plain, flush_timed}
use mxfs.LinuxBuild.Plain.{plain_result, flush_timed-plain}
use mxfs.LinuxBuild.Start.{fresh_timed, mount_timed, IsFirst}
use mxfs.LinuxBuild.Lost.{mount_timed-IsDue}
use mxfs.LinuxBuild.Ranges.{timerange_timed, marked_count, AreFound, timerange_timed-AreFound}
use mxfs.LinuxBuild.Stamps.{status_at, status_after, flush_timed-IsStamped}
use mxfs.Flush.Prepare.Whole.Starts.{ant_start}
use mxfs.Flush.{pending_length}
use mxfs.Sound.{pending_length-counts}
use mxfs.Runs.Flash.{flash, one, one_log, one-IsSound}

-- One speed record is buffered.
abbrev one_timed : TimedInst
one_timed = record (fresh_timed 16384) {
  mxfs_buffer = one.mxfs_buffer;
  mxfs_length = one.mxfs_length;
  mxfs_count = one.mxfs_count;
}

flush_timed-plain_example :
    plain_result (flush_timed (fake_driver none) one_timed flash)
    ≡ flush (fake_driver none) (plain one_timed) flash
flush_timed-plain_example = flush_timed-plain (fake_driver none) one_timed flash

one_timed-HoldsAll : HoldsAll (plain one_timed) one_log
one_timed-HoldsAll l =
    let k = one-IsSound.holds l in
    record {
      rest = k.rest;
      buffered = k.buffered;
      lengths = k.lengths;
      counts = k.counts;
      entries = k.entries;
    }

one_timed_pending : pending_length (plain one_timed) ≢ 0
one_timed_pending =
    rw (pending_length-counts (plain one_timed) one_log one_timed-HoldsAll one-IsSound.cost)
      (omega arith)

flush_timed-IsStamped_example :
    let r = flush_timed (fake_driver none) one_timed flash in
    let w = (prepare (plain one_timed)).1 in
    status_at r.1 1 0
    ≡ status_after
        (record { flags = w.page_flags; start_time = ant_start one_log; last_time = w.last_tmm })
        r.0
        one_timed
        1
        0
flush_timed-IsStamped_example =
    flush_timed-IsStamped (fake_driver none) one_timed one_log flash 1 0 one_timed-HoldsAll
      one_timed_pending

-- A driver whose flash keeps what it holds while the bus is set up.
abbrev kept_driver : Driver
kept_driver = record (fake_driver none) { create_spi = λ dev. (ok, dev) }

-- Every page starts with the magic number.
abbrev used_flash : FakeDev
used_flash = some (λ b p. 222 ∷ 192 ∷ 173 ∷ 222 ∷ replicate 2044 0)

mount_timed-IsDue_example :
    let r = mount_timed kept_driver none (fresh_timed 16384) used_flash in
    (inst : TimedInst) × (r.0 ≡ ok)
    × (r.1 ≡ some inst)
    × IsFirst inst
    × ((buffers : Layer → List ℕ) (lengths counts : Layer → ℕ) (later : FakeDev)
        → (erase_first_timed kept_driver
            (record inst { mxfs_buffer = buffers; mxfs_length = lengths; mxfs_count = counts })
            later).2
          ≡ (kept_driver.erase 1 later).1)
unfolding fake_create_gpio fake_read decode from_le
mount_timed-IsDue_example = mount_timed-IsDue kept_driver 16384 used_flash refl refl refl refl

-- A page with speed records, from 5 to 9.
abbrev speeds_timed : TimedInst
speeds_timed = record (fresh_timed 16384) {
  blocks = λ b. record {
    flags = 0;
    start_time = 0;
    pages = λ p. record { flags = if b == 1 then 4 else 0; start_time = 5; last_time = 9 };
  };
}

abbrev no_ranges : ℕ → TimeRange
no_ranges i = record { start_time = 0; last_time = 0; block = 0; page = 0; record_count = 0 }

timerange_timed-AreFound_example :
    AreFound speeds_timed speed 70
      (marked_count speeds_timed speed)
      (timerange_timed speeds_timed speed 70 true no_ranges)
timerange_timed-AreFound_example =
    timerange_timed-AreFound speeds_timed speed 70 no_ranges (omega arith)
