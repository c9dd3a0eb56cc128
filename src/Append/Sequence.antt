-- ===== src/Append/Sequence.antt =====
-- Any sequence of appends, and what an instance holds after it.
use mxfs.Base.{length, arith, ℕ, ◌^◌, ◌≤◌, ◌<◌, ◌≡◌, refl, ap₂, if◌then◌else◌, List, [], ◌∷◌, All}
use mxfs.Instance.{page_size, Ret, ok, need_more_buffer, Layer, code, Inst}
use mxfs.Log.{Entry, IsEntry, Log}
use mxfs.Driver.{Driver}
use mxfs.Sound.{IsSound}
use mxfs.Flush.{prepare}
use mxfs.Flush.Page.{length-page_of}
use mxfs.Flush.Prepare.Whole.{prepare-page_of}
use mxfs.Append.{append}
use mxfs.Append.Refines.{is_taken, log_step, append-Refines}

-- A record with its layer.
abbrev pub Record : Type 0
Record = Layer × Entry

abbrev pub IsRecord : Record → Type 0
IsRecord (l, e) = IsEntry l e

abbrev pub log_steps : (buffer_size : ℕ) → List Record → Log → Log
log_steps buffer_size [] log = log
log_steps buffer_size ((l, e) ∷ rs) log = log_steps buffer_size rs (log_step buffer_size l e log)

module _ (drv : Driver) (buffer_size : ℕ) where
  -- One call after the other.
  abbrev pub appends : List Record → Inst × drv.Dev → Inst × drv.Dev
  appends [] s = s
  appends ((l, (t, p)) ∷ rs) (inst, dev) =
      let r = append drv buffer_size (code l) t p inst dev in appends rs (r.1, r.2)

  -- What the calls return, one after the other, and what they should on a log.
  abbrev pub answers : List Record → Inst × drv.Dev → List Ret
  answers [] s = []
  answers ((l, (t, p)) ∷ rs) (inst, dev) =
      let r = append drv buffer_size (code l) t p inst dev in r.0 ∷ answers rs (r.1, r.2)

  abbrev pub log_answers : List Record → Log → List Ret
  log_answers [] log = []
  log_answers ((l, e) ∷ rs) log =
      (if is_taken buffer_size log l then ok else need_more_buffer)
      ∷ log_answers rs (log_step buffer_size l e log)

  -- On every driver, with buffers of 26 bytes at least and less than 2^16: from an instance that holds
  -- `log`, the calls of a sequence of appends of records of their layers' sizes return what the same
  -- sequence of steps of the log answers, OK or NEED_MORE_BUFFER, and the instance then holds the log after
  -- these steps.
  pub appends-Refines :
      26 ≤ buffer_size
      → buffer_size < 2 ^ 16
      → (rs : List Record) (inst : Inst) (log : Log) (dev : drv.Dev) → IsSound buffer_size inst log
      → All IsRecord rs
      → (answers rs (inst, dev) ≡ log_answers rs log)
        × IsSound buffer_size (appends rs (inst, dev)).0 (log_steps buffer_size rs log)
  appends-Refines large small [] inst log dev h valid = (refl, h)
  appends-Refines large small ((l, (t, p)) ∷ rs) inst log dev h (v, vs) =
      let (a, b, _) = append-Refines buffer_size large small drv l t p inst log dev h v in
      let r = append drv buffer_size (code l) t p inst dev in
      let (c, d) =
        appends-Refines large small rs r.1 (log_step buffer_size l (t, p) log) r.2 b vs in
      (ap₂ (λ x xs. x ∷ xs) a c, d)

  -- On every driver, with buffers of 26 bytes at least and less than 2^16: after any sequence of appends of
  -- records of their layers' sizes to a sound instance, what the loops of `mxfs_flush` would put into its
  -- work buffer of 2048 bytes fits there.
  pub appends-fit :
      26 ≤ buffer_size
      → buffer_size < 2 ^ 16
      → (rs : List Record) (inst : Inst) (log : Log) (dev : drv.Dev) → IsSound buffer_size inst log
      → All IsRecord rs
      → length (prepare (appends rs (inst, dev)).0).1.work_buffer ≤ page_size
  appends-fit large small rs inst log dev h valid =
      let s = (appends-Refines large small rs inst log dev h valid).1 in
      let after = log_steps buffer_size rs log in
      rw (prepare-page_of (appends rs (inst, dev)).0 after s.holds)
        (omega (arith, length-page_of after (λ l. (s.holds l).entries), s.cost))
