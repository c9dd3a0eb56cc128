-- ===== src/LinuxBuild/Stamps.antt =====
-- The times that the build with __LINUX__ keeps for a page that it writes.
use mxfs.Base.{
  ◌&&◌, ==→ne, sym, ℕ, ◌≡◌, ◌≢◌, refl, ap, ◌∙◌, ◌⊎◌, inl, inr, leb, ◌==◌, ==→eq, ==-refl, ne→==,
  if◌then◌else◌, Bool-cases, ◌+◌, u16,
}
use mxfs.Instance.{
  Ret, ok, is_ok, update, is_invalid, mark_invalid, clear_invalid, page_count, block_count,
  block_start_data_area,
}
use mxfs.Driver.{Driver}
use mxfs.Log.{Log}
use mxfs.Flush.Prepare.{HoldsAll}
use mxfs.Flush.{Work, pending_length, prepare}
use mxfs.Flush.Prepare.Whole.Starts.{ant_start, prepare-start_tmm}
use mxfs.LinuxBuild.{
  PageStatus, TimedInst, plain, prepare_timed, page_status, timed_flags, set_timed_flags,
  advance_timed, erase_first_timed, write_work_timed, write_out_timed, flush_timed,
}

abbrev pub status_at : TimedInst → ℕ → ℕ → PageStatus
status_at inst b p = (inst.blocks b).pages p

-- `j` has the status `s` for the page at the position of `inst`, and for all others what `inst` has.
abbrev pub IsStamped : PageStatus → TimedInst → TimedInst → Type 0
IsStamped s inst j =
    (status_at j inst.current_block inst.current_page ≡ s)
    × ((q p : ℕ)
        → (inst.current_block ≢ q) ⊎ (inst.current_page ≢ p)
        → status_at j q p ≡ status_at inst q p)

-- The flags of a block do not matter.
set_flags-status :
    (b f : ℕ) (inst : TimedInst) (q p : ℕ)
    → status_at (set_timed_flags b f inst) q p ≡ status_at inst q p
set_flags-status b f inst q p = elim (Bool-cases (b == q)) [
  | inl e ↦ rw (status_at, e) (ap (λ c. status_at inst c p) (==→eq b q e))
  | inr e ↦ rw (status_at, e) refl
]

-- Before the position moves.
abbrev written : Work → TimedInst → TimedInst
written w inst = record inst {
  blocks = update inst.blocks inst.current_block (record (inst.blocks inst.current_block) {
    pages = update (inst.blocks inst.current_block).pages inst.current_page (page_status w);
  });
  current_page = u16 (inst.current_page + 1);
}

written-IsStamped : (w : Work) (inst : TimedInst) → IsStamped (page_status w) inst (written w inst)
written-IsStamped w inst = (
  rw (status_at, ==-refl inst.current_block, ==-refl inst.current_page) refl,
  λ q p n. elim (Bool-cases (inst.current_block == q)) [
    | inl e ↦ elim n [
      | inl c ↦ absurd (c (==→eq inst.current_block q e))
      | inr c ↦
          rw (status_at, e, ne→== inst.current_page p c)
            (ap (λ c. status_at inst c p) (==→eq inst.current_block q e))
    ]
    | inr e ↦ rw (status_at, e) refl
  ],
)

advance_timed-IsStamped :
    (w : Work) (inst : TimedInst) → IsStamped (page_status w) inst (advance_timed w inst)
unfolding advance_timed
advance_timed-IsStamped w inst =
    let (a, b) = written-IsStamped w inst in
    let block = u16 (inst.current_block + 1) in
    let next = if leb block_count block then block_start_data_area else block in
    let marked = mark_invalid (timed_flags (written w inst) next) in
    let moved : TimedInst = record (written w inst) { current_page = 0; current_block = next } in
    elim (Bool-cases (leb page_count (u16 (inst.current_page + 1)))) [
      | inl e ↦ rw e (
        set_flags-status next marked moved inst.current_block inst.current_page ∙ a,
        λ q p n. set_flags-status next marked moved q p ∙ b q p n,
      )
      | inr e ↦ rw e (a, b)
    ]

-- The status of a page behind a step that returns OK only where it has written the page at the position.
abbrev pub status_after : PageStatus → Ret → TimedInst → ℕ → ℕ → PageStatus
status_after s r inst q p =
    if is_ok r && (inst.current_block == q && inst.current_page == p) then s else status_at inst q p

IsStamped-status :
    (s : PageStatus) (inst j : TimedInst)
    → IsStamped s inst j
    → (q p : ℕ) → status_at j q p ≡ status_after s ok inst q p
IsStamped-status s inst j (here, others) q p = elim (Bool-cases (inst.current_block == q)) [
  | inl e ↦ elim (Bool-cases (inst.current_page == p)) [
    | inl f ↦
        let a = ap (λ x. status_at j x p) (sym (==→eq inst.current_block q e)) in
        let b = ap (λ x. status_at j inst.current_block x) (sym (==→eq inst.current_page p f)) in
        rw (status_after, e, f) (a ∙ b ∙ here)
    | inr f ↦ rw (status_after, e, f) (others q p (inr (==→ne inst.current_page p f)))
  ]
  | inr e ↦ rw (status_after, e) (others q p (inl (==→ne inst.current_block q e)))
]

module _ (drv : Driver) where
  -- What a step makes of the status of the pages.
  abbrev Records : PageStatus → TimedInst → Ret × TimedInst × drv.Dev → Type 0
  Records s inst (r, j, dev) = (q p : ℕ) → status_at j q p ≡ status_after s r inst q p

  write_work_timed-Records :
      (w : Work) (inst : TimedInst) (dev : drv.Dev)
      → Records (page_status w) inst (write_work_timed drv w inst dev)
  unfolding write_work_timed
  write_work_timed-Records w inst dev q p =
      let r = (drv.write inst.current_block inst.current_page w.work_buffer dev).0 in
      elim (Bool-cases (is_ok r)) [
        | inl e ↦ rw e (
            IsStamped-status (page_status w) inst (advance_timed w inst)
              (advance_timed-IsStamped w inst) q p)
        | inr e ↦ rw e refl
      ]

  write_out_timed-Records :
      (inst : TimedInst) (w : Work) (dev : drv.Dev)
      → Records (page_status w) inst (write_out_timed drv (inst, w) dev)
  unfolding write_out_timed erase_first_timed
  write_out_timed-Records inst w dev q p =
      let b = inst.current_block in
      let f = clear_invalid (timed_flags inst b) in
      let cleared = set_timed_flags b f inst in
      let erased = drv.erase b dev in
      let s = page_status w in
      let same = set_flags-status b f inst q p in
      elim (Bool-cases (is_invalid (timed_flags inst b))) [
        | inl e ↦ elim (Bool-cases (is_ok erased.0)) [
          | inl g ↦
              let r = (write_work_timed drv w cleared erased.1).0 in
              let here = is_ok r && (inst.current_block == q && inst.current_page == p) in
              rw (e, g)
                (write_work_timed-Records w cleared erased.1 q p
                  ∙ ap (λ x. if here then s else x) same)
          | inr g ↦ rw (e, g) same
        ]
        | inr e ↦ rw e (write_work_timed-Records w inst dev q p)
      ]

  -- In the build with __LINUX__, on every driver, whatever it answers: a flush of an instance whose buffers
  -- hold a log, with records pending, changes the status of no page, but for the page at the position before
  -- it where the flush returns OK. That page's start time is then the first stamp, but 0, of the ANT+ layers
  -- of the log, and 0 where they have none; its flags and its last time are those that the loops of the
  -- flush leave.
  pub flush_timed-IsStamped :
      (inst : TimedInst) (log : Log) (dev : drv.Dev) (q p : ℕ)
      → HoldsAll (plain inst) log
      → pending_length (plain inst) ≢ 0
      → let r = flush_timed drv inst dev in
        let w = (prepare (plain inst)).1 in
        status_at r.1 q p
        ≡ status_after
            (record { flags = w.page_flags; start_time = ant_start log; last_time = w.last_tmm })
            r.0
            inst
            q
            p
  unfolding flush_timed prepare_timed
  flush_timed-IsStamped inst log dev q p h n =
      let (i, w) = prepare_timed inst in
      rw (ne→== (pending_length (plain inst)) 0 n, sym (prepare-start_tmm (plain inst) log h))
        (write_out_timed-Records i w dev q p)
