-- ===== src/Read/RoundTrip.antt =====
-- A page that `mxfs_flush` wrote, read by `mxfs_read`: each layer gets its payloads back, in order.
use mxfs.Base.{
  ℕ, suc, ◌+◌, ◌-◌, ◌≤◌, ◌<◌, ◌≡◌, ◌≢◌, refl, ap, ◌∙◌, true, some, List, [], ◌∷◌, ◌++◌, arith,
  append_assoc, append-nil, length, length-append, length-replicate, replicate, slice,
  slice-append_of, from_le, ne→==, take, take_all,
}
use mxfs.Header.{magic_number}
use mxfs.Instance.{
  count, Inst, Layer, speed, power, cadence, gyro, accelerometer, temperature, code, page_size,
}
use mxfs.Log.{Log, payloads}
use mxfs.Driver.{Driver, PageStore}
use mxfs.Flush.Page.{
  IsLog, page_of, page_cost, length-page_of, antp_part, dim3_part, temperature_part, carried_time,
}
use mxfs.Sound.{IsSound, shared_cost_count}
use mxfs.Flush.{pending_length, flush}
use mxfs.Flush.Stores.{IsFresh, flush-Stored}
use mxfs.Outcome.{returns, load_inside}
use mxfs.Read.{read_step, read_loop, read_fuel, read}
use mxfs.Read.Loop.{read_loop_leave}
use mxfs.Read.Parts.{
  GoesTo, picked, then_goes, antp_part-goes, dim3_part-goes, temperature_part-goes,
}

-- What the six layers give is what the layer asked for holds.
all_picked :
    (k : Layer) (log : Log)
    → ((((picked k speed (log speed) ++ picked k power (log power))
              ++ picked k cadence (log cadence))
            ++ picked k gyro (log gyro))
          ++ picked k accelerometer (log accelerometer))
        ++ picked k temperature (log temperature)
      ≡ payloads (log k)
all_picked speed log = simp append-nil refl
all_picked power log = simp append-nil refl
all_picked cadence log = simp append-nil refl
all_picked gyro log = simp append-nil refl
all_picked accelerometer log = simp append-nil refl
all_picked temperature log = refl

abbrev pub Regroups : (rbf a b c d e f tail : List ℕ) → Type 0
Regroups rbf a b c d e f tail =
    (rbf ≡ a ++ (b ++ (c ++ (d ++ (e ++ (f ++ tail))))))
    × (rbf ≡ (a ++ b) ++ (c ++ (d ++ (e ++ (f ++ tail)))))
    × (rbf ≡ ((a ++ b) ++ c) ++ (d ++ (e ++ (f ++ tail))))
    × (rbf ≡ (((a ++ b) ++ c) ++ d) ++ (e ++ (f ++ tail)))
    × (rbf ≡ ((((a ++ b) ++ c) ++ d) ++ e) ++ (f ++ tail))

pub regroup :
    (rbf a b c d e f tail : List ℕ)
    → rbf ≡ (a ++ (b ++ (c ++ (d ++ (e ++ f))))) ++ tail
    → Regroups rbf a b c d e f tail
regroup rbf a b c d e f tail h =
    let g : rbf ≡ a ++ (b ++ (c ++ (d ++ (e ++ (f ++ tail))))) = simp append_assoc at h in
    (g, simp append_assoc g, simp append_assoc g, simp append_assoc g, simp append_assoc g)

flat :
    (a b c d e f : List ℕ) → ((((a ++ b) ++ c) ++ d) ++ e) ++ f ≡ a ++ (b ++ (c ++ (d ++ (e ++ f))))
flat a b c d e f = simp append_assoc refl

module _ (k : Layer) (bufferlen : ℕ) (log : Log) (valid : IsLog log)
    (cost : page_cost log ≤ 2000) where
  -- The loop passes over the whole page.
  page-goes :
      (rbf tail : List ℕ)
      → length rbf ≤ page_size
      → rbf ≡ page_of log ++ tail
      → GoesTo k bufferlen rbf 0 (length (page_of log)) (payloads (log k))
  unfolding page_of
  page-goes rbf tail small h =
      let a = antp_part speed (log speed) in
      let b = antp_part power (log power) in
      let c = antp_part cadence (log cadence) in
      let d = dim3_part gyro (log gyro) in
      let e = dim3_part accelerometer (log accelerometer) in
      let f = temperature_part (carried_time log) (log temperature) in
      let (h1, h2, h3, h4, h5) = regroup rbf a b c d e f tail h in
      let go = then_goes k bufferlen rbf in
      let g1 = antp_part-goes k bufferlen rbf small speed (log speed) [] _ refl (valid speed) h1 in
      let g2 = antp_part-goes k bufferlen rbf small power (log power) a _ refl (valid power) h1 in
      let g3 =
        antp_part-goes k bufferlen rbf small cadence (log cadence) (a ++ b) _ refl (valid cadence)
          h2 in
      let g4 =
        dim3_part-goes k bufferlen rbf small gyro (log gyro) ((a ++ b) ++ c) _ refl
          (omega (arith, cost, shared_cost_count 6 (log gyro))) (valid gyro) h3 in
      let g5 =
        dim3_part-goes k bufferlen rbf small accelerometer (log accelerometer)
          (((a ++ b) ++ c) ++ d) _ refl
          (omega (arith, cost, shared_cost_count 6 (log accelerometer))) (valid accelerometer) h4 in
      let g6 =
        temperature_part-goes k bufferlen rbf small (carried_time log) (log temperature)
          ((((a ++ b) ++ c) ++ d) ++ e) tail
          (omega (arith, cost, shared_cost_count 2 (log temperature))) (valid temperature) h5 in
      rw (flat a b c d e f, all_picked k log) at
        (go _ _ _ _ _ (go _ _ _ _ _ (go _ _ _ _ _ (go _ _ _ _ _ (go _ _ _ _ _ g1 g2) g3) g4) g5) g6)

-- Four bytes of one value are no magic number.
no_magic : (fill : ℕ) → fill < 256 → from_le (replicate 4 fill) ≢ magic_number
unfolding from_le
no_magic fill h = omega (arith, h)

split_four : (n a : ℕ) → 4 ≤ n → replicate n a ≡ replicate 4 a ++ replicate (n - 4) a
split_four (suc (suc (suc (suc n)))) a h =
    ap (λ m. a ∷ (a ∷ (a ∷ (a ∷ replicate m a)))) (omega arith)
split_four _ a h = absurd (omega arith)

module _ (k : Layer) (bufferlen : ℕ) (page : List ℕ) (n fill : ℕ) where
  -- Behind the records the loop ends.
  fill-leaves :
      (out : List ℕ)
      → fill < 256
      → 4 ≤ n
      → length page + n ≤ page_size
      → read_loop (code k) bufferlen (page ++ replicate n fill) read_fuel (length page) out
        ≡ returns out
  unfolding read_step
  fill-leaves out byte four small =
      let rbf = page ++ replicate n fill in
      let inside : length page + 4 ≤ length rbf =
        omega (arith, length-append page (replicate n fill), length-replicate n fill, four) in
      let cut : slice (length page) 4 rbf ≡ replicate 4 fill =
        ap (λ x. slice (length page) 4 (page ++ x)) (split_four n fill four)
        ∙ slice-append_of (length page) 4 page (replicate 4 fill) (replicate (n - 4) fill) refl
            refl in
      let e : from_le (slice (length page) 4 rbf) ≢ magic_number = rw cut (no_magic fill byte) in
      read_loop_leave (code k) bufferlen rbf (length page) out out (omega (arith, four, small))
        (rw (load_inside (length page) 4 rbf inside, ne→== _ magic_number e) refl)

-- On every page that is put together from a log of at most 2000 bytes, with one byte value behind it up
-- to the page's end, the loop of `mxfs_read` returns exactly the payloads of the layer asked for, in the
-- order in which they were appended, whatever the length of the caller's buffer.
pub read_loop-page_of :
    (k : Layer) (bufferlen : ℕ) (log : Log) (fill : ℕ)
    → IsLog log
    → page_cost log ≤ 2000
    → fill < 256
    → read_loop
        (code k)
        bufferlen
        (page_of log ++ replicate (page_size - length (page_of log)) fill)
        read_fuel
        0
        []
      ≡ returns (payloads (log k))
read_loop-page_of k bufferlen log fill valid cost byte =
    let n = page_size - length (page_of log) in
    let rbf = page_of log ++ replicate n fill in
    let len : length (page_of log) ≤ 2000 = omega (arith, length-page_of log valid, cost) in
    let small : length rbf ≤ page_size =
      omega (arith, len, length-append (page_of log) (replicate n fill), length-replicate n fill) in
    page-goes k bufferlen log valid cost rbf (replicate n fill) small refl []
    ∙ fill-leaves k bufferlen (page_of log) n fill (payloads (log k)) byte (omega (arith, len))
        (omega (arith, len))

module _ (drv : Driver) (st : PageStore drv) (buffer_size : ℕ) (inst : Inst) (log : Log)
    (dev : drv.Dev) where
  -- On a driver that stores pages and is ready: from a sound instance with records pending whose current
  -- block is due for its erase or blank ahead, a flush and then a read of the page just written, with a
  -- buffer of the caller and a read buffer of PAGE_SIZE bytes, return for each layer exactly the payloads
  -- appended to it, in order, and their length.
  pub flush-read :
      (k : Layer) (bufferlen : ℕ) (rbf : List ℕ)
      → IsSound buffer_size inst log
      → IsFresh drv st inst dev
      → pending_length inst ≢ 0
      → bufferlen ≢ 0
      → length rbf ≡ page_size
      → (read drv
          (code k)
          true
          bufferlen
          inst.current_block
          inst.current_page
          (some rbf)
          (flush drv inst dev).2).0
        ≡ returns (count (length (payloads (log k))), payloads (log k))
  unfolding read
  flush-read k bufferlen rbf h f n len size =
      let valid : IsLog log = λ l. (h.holds l).entries in
      let s = flush-Stored drv st buffer_size inst log dev h f n in
      let after = (flush drv inst dev).2 in
      let b = inst.current_block in
      let p = inst.current_page in
      let (r, bytes, _, _) =
        st.read_ok b p rbf after s.fresh.ready h.block_high h.page_high (omega (arith, size)) in
      let fill = replicate (page_size - length (page_of log)) st.fill in
      let whole : length (page_of log ++ fill) ≤ length rbf = omega (
        arith,
        size,
        length-page_of log valid,
        h.cost,
        length-append (page_of log) fill,
        length-replicate (page_size - length (page_of log)) st.fill,
      ) in
      let content : (drv.read b p rbf after).1 ≡ page_of log ++ fill =
        bytes ∙ ap (λ x. take (length rbf) x) s.stored ∙ take_all (length rbf) _ whole in
      rw
        (
          ne→== bufferlen 0 len,
          r,
          content,
          read_loop-page_of k bufferlen log st.fill valid h.cost st.fill_IsByte,
        )
        refl
