-- ===== src/Runs/Full.antt =====
-- A run of an append to an instance whose page is full.
use mxfs.Base.{
  ℕ, zero, suc, ◌-◌, ◌*◌, ◌≡◌, refl, inr, none, some, List, ◌++◌, All, arith, length, length-append,
  replicate, length-replicate, true,
}
use mxfs.Instance.{count, Layer, speed, put, Inst}
use mxfs.Log.{Entry, IsEntry, Log, packed, payloads, length-packed}
use mxfs.Driver.Fake.{FakeDev, fake_driver}
use mxfs.Driver.Fake.Store.{fake_store}
use mxfs.Outcome.{returns}
use mxfs.Sound.{IsSound}
use mxfs.Flush.Prepare.{HoldsAll}
use mxfs.Flush.Prepare.Whole.{empty_log}
use mxfs.Flush.Stores.{IsFresh}
use mxfs.Read.{read}
use mxfs.Append.{append}
use mxfs.Append.Durable.{append-read}
use mxfs.Mount.{fresh_inst}

abbrev flash : FakeDev
flash = some (λ b p. replicate 2048 0xff)

abbrev speeds : List Entry → Log
speeds es = put speed es empty_log

-- An instance that holds these records.
with_speeds : List Entry → Inst
with_speeds es = record (fresh_inst 16384) {
  mxfs_buffer =
      put speed (packed es ++ replicate (16384 - length es * 26) 0xff)
        (fresh_inst 16384).mxfs_buffer;
  mxfs_length = put speed (length es * 26) (fresh_inst 16384).mxfs_length;
  mxfs_count = put speed (length es) (fresh_inst 16384).mxfs_count;
}

module _ (es : List Entry) (h : All (IsEntry speed) es) (n : length es ≡ 58) where
  with_speeds-HoldsAll : HoldsAll (with_speeds es) (speeds es)
  unfolding with_speeds
  with_speeds-HoldsAll speed = record {
    rest = replicate (16384 - length es * 26) 0xff;
    buffered = refl;
    lengths = refl;
    counts = refl;
    entries = h;
  }
  with_speeds-HoldsAll l = record {
    rest = (fresh_inst 16384).mxfs_buffer l;
    buffered = refl;
    lengths = refl;
    counts = refl;
    entries = tt;
  }

  with_speeds-sizes : (l : Layer) → length ((with_speeds es).mxfs_buffer l) ≡ 16384
  unfolding with_speeds
  with_speeds-sizes speed = omega (
    arith,
    length-append (packed es) (replicate (16384 - length es * 26) 0xff),
    length-packed speed es h,
    length-replicate {A = ℕ} (16384 - length es * 26) 0xff,
    n,
  )
  with_speeds-sizes _ = length-replicate {A = ℕ} 16384 0xff

  with_speeds-IsSound : IsSound 16384 (with_speeds es) (speeds es)
  unfolding with_speeds
  with_speeds-IsSound = record {
    holds = with_speeds-HoldsAll;
    cost = omega (arith, n);
    sizes = with_speeds-sizes;
    block_low = omega arith;
    block_high = omega arith;
    page_high = omega arith;
  }

  with_speeds-IsFresh : IsFresh (fake_driver none) (fake_store none) (with_speeds es) flash
  with_speeds-IsFresh = record { ready = tt; blank_ahead = inr (λ p _ _. refl) }

abbrev sample : Entry
sample = (5, replicate 18 7)

abbrev samples : List Entry
samples = replicate 58 sample

samples-All : (k : ℕ) → All (IsEntry speed) (replicate k sample)
samples-All zero = tt
samples-All (suc k) = ((omega arith, refl), samples-All k)

append-read_example :
    (read
      (fake_driver none)
      0
      true
      2048
      (with_speeds samples).current_block
      (with_speeds samples).current_page
      (some (replicate 2048 0))
      (append (fake_driver none) 16384 0 9 (replicate 18 8) (with_speeds samples) flash).2).0
    ≡ returns (count (length (payloads samples)), payloads samples)
append-read_example =
    append-read (fake_driver none) (fake_store none) 16384 speed 9 (replicate 18 8)
      (with_speeds samples) (speeds samples) flash speed 2048 (replicate 2048 0) (omega arith)
      (omega arith)
      (with_speeds-IsSound samples (samples-All 58) (length-replicate {A = Entry} 58 sample))
      (with_speeds-IsFresh samples (samples-All 58) (length-replicate {A = Entry} 58 sample))
      (omega arith, refl) refl (omega arith) (length-replicate {A = ℕ} 2048 0)
