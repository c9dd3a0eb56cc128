-- ===== src/LinuxBuild/Plain.antt =====
-- A flush of the build with __LINUX__ does on the device, and on what both builds keep, what the other
-- build does.
use mathlib.Core.Path.{fun_ext}
use mxfs.Base.{
  ℕ, ◌+◌, ◌%◌, ◌≡◌, refl, sym, ap, ◌∙◌, leb, ◌==◌, if◌then◌else◌, u16, Bool-cases, inl, inr,
}
use mxfs.Instance.{
  Ret, is_ok, Inst, BlockStatus, update, is_invalid, mark_invalid, clear_invalid, block_count,
  page_count, block_start_data_area,
}
use mxfs.Driver.{Driver}
use mxfs.Flush.{
  Work, prepare, pending_length, advance, erase_first, write_work, write_out, flush, block_flags,
  set_block_flags,
}
use mxfs.Flush.Emptied.{prepare-IsEmptied}
use mxfs.LinuxBuild.{
  TimedInst, TimedBlock, plain, plain_block, prepare_timed, advance_timed, erase_first_timed,
  write_work_timed, write_out_timed, flush_timed, timed_flags, set_timed_flags, page_status,
  PageStatus,
}

-- A function goes through the write of an array's entry.
update-map {ℓ ℓ'} :
    {A : Type ℓ}
    → {B : Type ℓ'} → (f : A → B) (g : ℕ → A) (i : ℕ) (v : A)
    → (λ (j : ℕ). f (update g i v j)) ≡ update (λ j. f (g j)) i (f v)
update-map f g i v =
    fun_ext (λ j. elim (Bool-cases (i == j)) [ inl e ↦ rw e refl | inr e ↦ rw e refl ])

prepare_timed-plain : (inst : TimedInst) → plain (prepare_timed inst).0 ≡ (prepare (plain inst)).0
unfolding prepare_timed
prepare_timed-plain inst = sym (prepare-IsEmptied (plain inst))

set_flags-plain :
    (b f : ℕ) (inst : TimedInst)
    → plain (set_timed_flags b f inst) ≡ set_block_flags b f (plain inst)
set_flags-plain b f inst =
    let block : TimedBlock = record (inst.blocks b) { flags = f } in
    ap (λ bs. record (plain inst) { blocks = bs })
      (update-map (λ s. plain_block s) inst.blocks b block)

-- The block of the page that was written.
marked : Work → TimedInst → TimedBlock
marked w inst = record (inst.blocks inst.current_block) {
  pages = update (inst.blocks inst.current_block).pages inst.current_page (page_status w);
}

marked-plain :
    (w : Work) (inst : TimedInst)
    → let s = inst.blocks inst.current_block in
      plain_block (marked w inst) ≡ record (plain_block s) {
        pages = update (plain_block s).pages inst.current_page (w.page_flags % 256);
      }
unfolding marked
marked-plain w inst =
    let s = inst.blocks inst.current_block in
    ap (λ ps. record (plain_block s) { pages = ps })
      (update-map (λ (t : PageStatus). t.flags % 256) s.pages inst.current_page (page_status w))

-- The position moves in the same way.
advance_timed-plain :
    (w : Work) (inst : TimedInst) → plain (advance_timed w inst) ≡ advance w.page_flags (plain inst)
unfolding advance_timed advance marked
advance_timed-plain w inst =
    let b = inst.current_block in
    let s = plain_block (inst.blocks b) in
    let page = u16 (inst.current_page + 1) in
    let next = if leb block_count (u16 (b + 1)) then block_start_data_area else u16 (b + 1) in
    let i : TimedInst = record inst {
      blocks = update inst.blocks b (marked w inst);
      current_page = page;
    } in
    let j : BlockStatus → Inst =
      λ m. record (plain inst) { blocks = update (plain inst).blocks b m; current_page = page } in
    let e : plain i ≡ j (plain_block (marked w inst)) =
      ap (λ bs. record (plain inst) { blocks = bs; current_page = page })
        (update-map (λ t. plain_block t) inst.blocks b (marked w inst)) in
    let f = e ∙ ap j (marked-plain w inst) in
    elim (Bool-cases (leb page_count page)) [
      | inl c ↦ rw c (
          set_flags-plain next (mark_invalid (timed_flags i next))
            (record i { current_page = 0; current_block = next })
          ∙ ap
              (λ m.
                set_block_flags next (mark_invalid (block_flags m next))
                  (record m { current_page = 0; current_block = next }))
              f)
      | inr c ↦ rw c f
    ]

-- The result of a step, with what both builds keep of the instance.
abbrev pub plain_result : {D : Type 0} → Ret × TimedInst × D → Ret × Inst × D
plain_result (r, inst, dev) = (r, plain inst, dev)

module _ (drv : Driver) where
  erase_first_timed-plain :
      (inst : TimedInst) (dev : drv.Dev)
      → plain_result (erase_first_timed drv inst dev) ≡ erase_first drv (plain inst) dev
  unfolding erase_first_timed erase_first
  erase_first_timed-plain inst dev =
      let b = inst.current_block in
      elim (Bool-cases (is_invalid (timed_flags inst b))) [
        | inl e ↦ rw (e, set_flags-plain b (clear_invalid (timed_flags inst b)) inst) refl
        | inr e ↦ rw e refl
      ]

  write_work_timed-plain :
      (w : Work) (inst : TimedInst) (dev : drv.Dev)
      → plain_result (write_work_timed drv w inst dev) ≡ write_work drv w (plain inst) dev
  unfolding write_work_timed write_work
  write_work_timed-plain w inst dev =
      let r = drv.write inst.current_block inst.current_page w.work_buffer dev in
      elim (Bool-cases (is_ok r.0)) [
        | inl e ↦ rw (e, advance_timed-plain w inst) refl
        | inr e ↦ rw e refl
      ]

  write_out_timed-plain :
      (inst : TimedInst) (w : Work) (dev : drv.Dev)
      → plain_result (write_out_timed drv (inst, w) dev) ≡ write_out drv (plain inst, w) dev
  unfolding write_out_timed write_out
  write_out_timed-plain inst w dev =
      let t = erase_first_timed drv inst dev in
      rw (sym (erase_first_timed-plain inst dev)) (elim (Bool-cases (is_ok t.0)) [
        | inl e ↦ rw e (write_work_timed-plain w t.1 t.2)
        | inr e ↦ rw e refl
      ])

  -- On every driver, instance and device: a flush of the build with __LINUX__ returns what the flush of
  -- the other build returns on the instance without the pages' times, leaves the device in the same state,
  -- and its instance without the pages' times is the other build's.
  pub flush_timed-plain :
      (inst : TimedInst) (dev : drv.Dev)
      → plain_result (flush_timed drv inst dev) ≡ flush drv (plain inst) dev
  unfolding flush_timed flush prepare_timed
  flush_timed-plain inst dev = elim (Bool-cases (pending_length (plain inst) == 0)) [
    | inl e ↦ rw e refl
    | inr e ↦
        let (i, w) = prepare_timed inst in
        rw e (
          write_out_timed-plain i w dev
          ∙ ap (λ x. write_out drv (x, w) dev) (prepare_timed-plain inst))
  ]
