-- ===== src/Append/Wedge.antt =====
-- `mxfs_append` with the RP2040's MXFS_BUFFER_SIZE of 8192 bytes, where a log of temperatures fills its
-- buffer before its page.
use mxfs.Base.{ℕ, ◌+◌, ◌<◌, ◌≡◌, refl, ◌∙◌, List, [], ◌∷◌, arith, length}
use mxfs.Instance.{need_more_buffer, temperature, code, put, Inst}
use mxfs.Log.{Entry, Log}
use mxfs.Driver.{Driver}
use mxfs.Flush.Page.{page_cost}
use mxfs.Flush.Prepare.{HoldsAll}
use mxfs.Flush.Prepare.Whole.{empty_log}
use mxfs.Append.{current_length, append_valid, flush_if_full, append}
use mxfs.Append.Outcome.{current_length-page_cost, store_record_full}
use mxfs.Append.Refines.{append_accepts}

abbrev pub temperatures : List Entry → Log
temperatures es = put temperature es empty_log

temperatures_cost : (es : List Entry) → length es ≡ 819 → page_cost (temperatures es) ≡ 1654
temperatures_cost [] h = omega arith
temperatures_cost (e ∷ es) h = omega arith

module _ (drv : Driver) (inst : Inst) (es : List Entry) (dev : drv.Dev)
    (h : HoldsAll inst (temperatures es)) (n : length es ≡ 819) where
  no_flush : flush_if_full drv temperature 2 inst dev ≡ (inst, dev)
  unfolding flush_if_full
  no_flush =
      let c = temperatures_cost es n in
      let e : current_length inst ≡ 1654 =
        current_length-page_cost inst (temperatures es) h (omega arith) ∙ c in
      rw e refl

  -- With a buffer of 8192 bytes: an instance that holds 819 temperatures and no other record takes no
  -- further temperature; every such call returns NEED_MORE_BUFFER, changes nothing and flushes nothing.
  pub append_wedged :
      (t : ℕ) (p : List ℕ)
      → length p ≡ 2
      → append drv 8192 (code temperature) t p inst dev ≡ (need_more_buffer, inst, dev)
  unfolding append_valid
  append_wedged t p e =
      let full : 8192 < inst.mxfs_length temperature + 8 + length p =
        omega (arith, (h temperature).lengths, n, e) in
      append_accepts drv 8192 temperature t p inst dev e
      ∙ rw (e, no_flush, store_record_full 8192 temperature t p inst full) refl
