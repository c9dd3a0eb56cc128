-- ===== src/Flush/Stores.antt =====
-- `mxfs_flush` on a driver that stores pages: the page that it writes, and what becomes of the others.
use mxfs.Base.{
  ℕ, suc, ◌-◌, ◌%◌, ◌≤◌, ◌<◌, ◌≡◌, ◌≢◌, ◌⊎◌, inl, inr, refl, ap, ◌∙◌, Bool, true, false, List, ◌++◌,
  arith, length, replicate, ltb, ltb→lt, ltb→le, Bool-cases, ==-refl,
}
use mxfs.Instance.{Ret, ok, Inst, BlockStatus, is_invalid, clear_invalid, page_size, page_count}
use mxfs.Log.{Log}
use mxfs.Driver.{Driver, PageStore, blank}
use mxfs.Flush.{
  Work, block_flags, set_block_flags, pending_length, prepare, advance, erase_first, write_work,
  write_out, flush,
}
use mxfs.Flush.Page.{page_of, length-page_of}
use mxfs.Flush.Prepare.Whole.{prepare-SamePlace, prepare-page_of}
use mxfs.Flush.Outcome.{IsPlaced, flush_busy}
use mxfs.Sound.{IsSound}

set_block_flags_self : (b f : ℕ) (inst : Inst) → block_flags (set_block_flags b f inst) b ≡ f
set_block_flags_self b f inst = ground arith

-- A block that is entered is marked for its erase.
module _ (flags : ℕ) (inst : Inst) where
  advance_same_block :
      suc inst.current_page < page_count
      → ((advance flags inst).current_block ≡ inst.current_block)
        × ((advance flags inst).current_page ≡ suc inst.current_page)
        × (block_flags (advance flags inst) inst.current_block
            ≡ block_flags inst inst.current_block)
  unfolding advance
  advance_same_block h = ground (arith, ==-refl inst.current_block)

  advance_next_block :
      suc inst.current_page ≡ page_count
      → is_invalid (block_flags (advance flags inst) (advance flags inst).current_block) ≡ true
  unfolding advance
  advance_next_block h = ground arith

module _ (drv : Driver) (st : PageStore drv) where
  abbrev pub BlankFrom : drv.Dev → ℕ → ℕ → Type 0
  BlankFrom dev b k = (p : ℕ) → k ≤ p → p < page_count → st.page_at dev b p ≡ blank

  -- The current block is marked for its erase, or is blank from the current page on.
  pub record IsFresh (inst : Inst) (dev : drv.Dev) : Type 0 where
    pub ready : st.IsReady dev
    pub blank_ahead :
        (is_invalid (block_flags inst inst.current_block) ≡ true)
        ⊎ BlankFrom dev inst.current_block inst.current_page

  -- The erase before the first page of a block, where it is due.
  record Erased (inst : Inst) (dev : drv.Dev) (r : Ret × Inst × drv.Dev) : Type 0 where
    returns : r.0 ≡ ok
    block : r.1.current_block ≡ inst.current_block
    page : r.1.current_page ≡ inst.current_page
    ready : st.IsReady r.2
    cleared : is_invalid (block_flags r.1 inst.current_block) ≡ false
    blank_ahead : BlankFrom r.2 inst.current_block inst.current_page
    others : (q s : ℕ) → inst.current_block ≢ q → st.page_at r.2 q s ≡ st.page_at dev q s
    kept :
        is_invalid (block_flags inst inst.current_block) ≡ false
        → (q s : ℕ) → st.page_at r.2 q s ≡ st.page_at dev q s

  cleared_flag : (f : ℕ) → is_invalid (f - f % 2) ≡ false
  cleared_flag f = ground arith

  true-false : {b : Bool} → b ≡ true → b ≡ false → ⊥
  true-false p q = cc (p, q)

  right_of {ℓ} : {A : Type ℓ} {b : Bool} → (b ≡ true) ⊎ A → b ≡ false → A
  right_of (inl p) q = absurd (true-false p q)
  right_of (inr a) q = a

  erase_first-Erased :
      (inst : Inst) (dev : drv.Dev)
      → IsPlaced inst
      → IsFresh inst dev
      → Erased inst dev (erase_first drv inst dev)
  unfolding erase_first
  erase_first-Erased inst dev place h =
      elim (Bool-cases (is_invalid (block_flags inst inst.current_block))) [
        | inl e ↦
            let (a, b, c, d) = st.erase_ok inst.current_block dev h.ready place.block_high in
            rw e (record {
              returns = rw a refl;
              block = refl;
              page = refl;
              ready = d;
              cleared =
                  ap (λ f. is_invalid f)
                    (set_block_flags_self inst.current_block
                      (clear_invalid (block_flags inst inst.current_block)) inst)
                  ∙ cleared_flag (block_flags inst inst.current_block);
              blank_ahead = λ p _ q. b p q;
              others = c;
              kept = λ n q s. absurd (true-false e n);
            })
        | inr e ↦ rw e (record {
          returns = refl;
          block = refl;
          page = refl;
          ready = h.ready;
          cleared = e;
          blank_ahead = right_of h.blank_ahead e;
          others = λ q s n. refl;
          kept = λ n q s. refl;
        })
      ]

  -- What a page holds after `bytes` were written to it.
  abbrev pub filled : List ℕ → List ℕ
  filled bytes = bytes ++ replicate (page_size - length bytes) st.fill

  pub record Stored (bytes : List ℕ) (inst : Inst) (dev : drv.Dev) (r : Ret × Inst × drv.Dev)
      : Type 0 where
    pub returns : r.0 ≡ ok
    pub fresh : IsFresh r.1 r.2
    pub stored : st.page_at r.2 inst.current_block inst.current_page ≡ filled bytes
    pub other_blocks : (q s : ℕ) → inst.current_block ≢ q → st.page_at r.2 q s ≡ st.page_at dev q s
    pub other_pages :
        is_invalid (block_flags inst inst.current_block) ≡ false
        → (s : ℕ) → inst.current_page ≢ s
        → st.page_at r.2 inst.current_block s ≡ st.page_at dev inst.current_block s

  write_work-Stored :
      (w : Work) (inst : Inst) (dev : drv.Dev)
      → IsPlaced inst
      → st.IsReady dev
      → is_invalid (block_flags inst inst.current_block) ≡ false
      → BlankFrom dev inst.current_block inst.current_page
      → length w.work_buffer ≤ page_size
      → Stored w.work_buffer inst dev (write_work drv w inst dev)
  unfolding write_work
  write_work-Stored w inst dev place ready clean ahead fits =
      let here = ahead inst.current_page (omega arith) place.page_high in
      let (a, b, c, d) =
        st.write_ok inst.current_block inst.current_page w.work_buffer dev ready place.block_high
          place.page_high fits here in
      rw a (record {
        returns = refl;
        fresh = record {
          ready = d;
          blank_ahead = elim (Bool-cases (ltb (suc inst.current_page) page_count)) [
            | inl e ↦
                let (x, y, z) =
                  advance_same_block w.page_flags inst
                    (ltb→lt (suc inst.current_page) page_count e) in
                inr (
                  rw (x, y)
                    (λ p lo hi.
                      c inst.current_block p (inr (λ q. omega arith)) ∙ ahead p (omega arith) hi))
            | inr e ↦
                let full = ltb→le (suc inst.current_page) page_count e in
                inl (advance_next_block w.page_flags inst (omega (arith, place.page_high)))
          ];
        };
        stored = b;
        other_blocks = λ q s n. c q s (inl n);
        other_pages = λ _ s n. c inst.current_block s (inr n);
      })

  write_out-Stored :
      (inst : Inst) (w : Work) (dev : drv.Dev)
      → IsPlaced inst
      → IsFresh inst dev
      → length w.work_buffer ≤ page_size
      → Stored w.work_buffer inst dev (write_out drv (inst, w) dev)
  unfolding write_out
  write_out-Stored inst w dev place h fits =
      let r = erase_first drv inst dev in
      let e = erase_first-Erased inst dev place h in
      let place' : IsPlaced r.1 = record {
        block_low = rw e.block place.block_low;
        block_high = rw e.block place.block_high;
        page_high = rw e.page place.page_high;
      } in
      let s : Stored w.work_buffer r.1 r.2 (write_work drv w r.1 r.2) =
        write_work-Stored w r.1 r.2 place' e.ready (rw e.block e.cleared)
          (rw (e.block, e.page) e.blank_ahead) fits in
      rw e.returns (record {
        returns = s.returns;
        fresh = s.fresh;
        stored = rw (e.block, e.page) at s.stored;
        other_blocks = λ q p n. s.other_blocks q p (rw e.block n) ∙ e.others q p n;
        other_pages = λ c p n.
            (rw e.block at (s.other_pages (rw e.block e.cleared) p (rw e.page n)))
            ∙ e.kept c inst.current_block p;
      })

  -- On a driver that stores pages and is ready: from a sound instance whose current block is due for its
  -- erase or blank ahead, a flush with records pending returns OK and stores exactly the page of the log
  -- at the current position; pages of other blocks stay, and so do the other pages of the current block if
  -- it was not due for its erase. The current block after it is again due for its erase or blank ahead.
  pub flush-Stored :
      (buffer_size : ℕ) (inst : Inst) (log : Log) (dev : drv.Dev)
      → IsSound buffer_size inst log
      → IsFresh inst dev
      → pending_length inst ≢ 0
      → Stored (page_of log) inst dev (flush drv inst dev)
  flush-Stored buffer_size inst log dev h f n =
      let i = (prepare inst).0 in
      let s = prepare-SamePlace inst log h.holds in
      let bytes = prepare-page_of inst log h.holds in
      let fits : length (page_of log) ≤ page_size =
        omega (arith, length-page_of log (λ l. (h.holds l).entries), h.cost) in
      let flags : block_flags i inst.current_block ≡ block_flags inst inst.current_block =
        ap (λ (f : ℕ → BlockStatus). (f inst.current_block).flags) s.blocks in
      let place : IsPlaced i = record {
        block_low = rw s.current_block h.block_low;
        block_high = rw s.current_block h.block_high;
        page_high = rw s.current_page h.page_high;
      } in
      let fresh : IsFresh i dev = record {
        ready = f.ready;
        blank_ahead = rw (s.current_block, s.current_page, flags) f.blank_ahead;
      } in
      let r = write_out-Stored i (prepare inst).1 dev place fresh (rw bytes fits) in
      rw (flush_busy drv buffer_size inst log dev n) (record {
        returns = r.returns;
        fresh = r.fresh;
        stored = rw (s.current_block, s.current_page, bytes) at r.stored;
        other_blocks = rw s.current_block at r.other_blocks;
        other_pages = rw (s.current_block, s.current_page, flags) at r.other_pages;
      })
