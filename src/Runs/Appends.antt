-- ===== src/Runs/Appends.antt =====
-- Runs of sequences of appends, and of an instance whose buffer is full before its page.
use mxfs.Base.{
  ◌≤◌, ℕ, zero, suc, ◌*◌, ◌≡◌, refl, inr, none, some, List, [], ◌∷◌, All, arith, length, replicate,
  length-replicate, append-nil, sym,
}
use mxfs.Flush.{prepare}
use mxfs.Instance.{page_size, need_more_buffer, speed, temperature, put, Inst}
use mxfs.Log.{Entry, IsEntry, packed}
use mxfs.Driver.Fake.{FakeDev, fake_driver}
use mxfs.Sound.{IsSound}
use mxfs.Driver.Fake.Store.{fake_store}
use mxfs.Flush.Stores.{IsFresh}
use mxfs.Append.Fresh.{appends-IsFresh}
use mxfs.Flush.Prepare.{HoldsAll}
use mxfs.Flush.Prepare.Whole.{empty_log}
use mxfs.Append.{append}
use mxfs.Append.Sequence.{
  Record, appends, answers, log_answers, log_steps, appends-Refines, appends-fit,
}
use mxfs.Append.Wedge.{temperatures, append_wedged}
use mxfs.Mount.{fresh_inst}
use mxfs.Mount.Sound.{fresh_inst-IsSound}

abbrev flash : FakeDev
flash = some (λ b p. replicate 2048 0xff)

abbrev two_records : List Record
two_records = (speed, (5, replicate 18 7)) ∷ ((temperature, (6, 1 ∷ (2 ∷ []))) ∷ [])

appends-Refines_example :
    (answers (fake_driver none) 8192 two_records (fresh_inst 8192, flash)
      ≡ log_answers (fake_driver none) 8192 two_records empty_log)
    × IsSound 8192
        (appends (fake_driver none) 8192 two_records (fresh_inst 8192, flash)).0
        (log_steps 8192 two_records empty_log)
appends-Refines_example =
    appends-Refines (fake_driver none) 8192 (omega arith) (omega arith) two_records
      (fresh_inst 8192) empty_log flash (fresh_inst-IsSound 8192)
      ((omega arith, refl), ((omega arith, refl), tt))

appends-fit_example :
    let w = (prepare (appends (fake_driver none) 8192 two_records (fresh_inst 8192, flash)).0).1 in
    length w.work_buffer ≤ page_size
appends-fit_example =
    appends-fit (fake_driver none) 8192 (omega arith) (omega arith) two_records (fresh_inst 8192)
      empty_log flash (fresh_inst-IsSound 8192) ((omega arith, refl), ((omega arith, refl), tt))

abbrev sample : Entry
sample = (5, 1 ∷ (2 ∷ []))

abbrev samples : List Entry
samples = replicate 819 sample

-- An instance whose temperatures are 819 samples.
wedged : List Entry → Inst
wedged es = record (fresh_inst 8192) {
  mxfs_buffer = put temperature (packed es) (fresh_inst 8192).mxfs_buffer;
  mxfs_length = put temperature (length es * 10) (fresh_inst 8192).mxfs_length;
  mxfs_count = put temperature (length es) (fresh_inst 8192).mxfs_count;
}

samples-All : (n : ℕ) → All (IsEntry temperature) (replicate n sample)
samples-All zero = tt
samples-All (suc n) = ((omega arith, refl), samples-All n)

wedged-HoldsAll :
    (es : List Entry) → All (IsEntry temperature) es → HoldsAll (wedged es) (temperatures es)
unfolding wedged
wedged-HoldsAll es h temperature = record {
  rest = [];
  buffered = sym (append-nil (packed es));
  lengths = refl;
  counts = refl;
  entries = h;
}
wedged-HoldsAll es h l = record {
  rest = (fresh_inst 8192).mxfs_buffer l;
  buffered = refl;
  lengths = refl;
  counts = refl;
  entries = tt;
}

append_wedged_example :
    append (fake_driver none) 8192 5 9 (3 ∷ (4 ∷ [])) (wedged samples) flash
    ≡ (need_more_buffer, wedged samples, flash)
append_wedged_example =
    append_wedged (fake_driver none) (wedged samples) samples flash
      (wedged-HoldsAll samples (samples-All 819)) (length-replicate {A = Entry} 819 sample) 9
      (3 ∷ (4 ∷ [])) refl

fresh_inst-IsFresh : IsFresh (fake_driver none) (fake_store none) (fresh_inst 8192) flash
fresh_inst-IsFresh = record { ready = tt; blank_ahead = inr (λ p _ _. refl) }

appends-IsFresh_example :
    let s = appends (fake_driver none) 8192 two_records (fresh_inst 8192, flash) in
    IsFresh (fake_driver none) (fake_store none) s.0 s.1
appends-IsFresh_example =
    appends-IsFresh (fake_driver none) (fake_store none) 8192 (omega arith) (omega arith)
      two_records (fresh_inst 8192) empty_log flash (fresh_inst-IsSound 8192) fresh_inst-IsFresh
      ((omega arith, refl), ((omega arith, refl), tt))
