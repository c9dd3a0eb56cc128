-- ===== src/LinuxBuild/Ranges.antt =====
-- sw/child/src/mxfs_timerange.cc in the build with __LINUX__: `mxfs_timerange` looks at the status of the
-- pages, and does not read the device.
use mxfs.Base.{
  ℕ, suc, ◌≤◌, ◌<◌, ◌≡◌, ◌≢◌, refl, inl, inr, Bool, true, not, ◌||◌, arith, ltb, ltb→lt, ltb→le,
  leb, le→leb, lt→leb, ap, for_step_relates, ◌==◌, ne→==, ==→ne, Bool-cases, if◌then◌else◌, rounds,
  for_step,
}
use mxfs.Instance.{
  Ret, count, err, need_more_buffer, Layer, TimeRange, update, block_count, page_count,
  block_start_data_area,
}
use mxfs.Timerange.{Search, going, left, finish, has_layer}
use mxfs.LinuxBuild.{PageStatus, TimedInst}

-- Both times of an entry come from the start time.
abbrev pub enter_page : ℕ → ℕ → PageStatus → TimeRange → TimeRange
enter_page b p s t = record t {
  block = b;
  page = p;
  start_time = s.start_time;
  last_time = s.start_time;
}

abbrev pub add_timed : (timerangecount block page : ℕ) → PageStatus → ℕ → (ℕ → TimeRange) → Search
add_timed limit b p s cnt ranges =
    if ltb cnt limit
    then going (suc cnt) (update ranges cnt (enter_page b p s (ranges cnt)))
    else left need_more_buffer ranges

module _ (inst : TimedInst) (l : Layer) (timerangecount : ℕ) where
  pub search_page_timed : (block page : ℕ) → Search → Search
  search_page_timed b p (left r ranges) = left r ranges
  search_page_timed b p (going cnt ranges) =
      if has_layer l ((inst.blocks b).pages p).flags
      then add_timed timerangecount b p ((inst.blocks b).pages p) cnt ranges
      else going cnt ranges

  pub search_block_timed : (block : ℕ) → Search → Search
  unfolding for_step search_page_timed
  search_block_timed b s = for_step (rounds 0 page_count 1) 0 1 (λ p t. search_page_timed b p t) s

  pub search_blocks_timed : (ℕ → TimeRange) → Search
  unfolding for_step search_block_timed
  search_blocks_timed ranges =
      for_step (rounds block_start_data_area block_count 1) block_start_data_area 1
        (λ b t. search_block_timed b t) (going 0 ranges)

  pub timerange_timed : (given : Bool) → (ℕ → TimeRange) → Ret × (ℕ → TimeRange)
  timerange_timed given ranges =
      if not given || timerangecount == 0
      then (err, ranges)
      else finish (search_blocks_timed ranges)

-- How many pages of the data area have the layer in their status.
module _ (inst : TimedInst) (l : Layer) where
  abbrev pub count_page : (block page : ℕ) → ℕ → ℕ
  count_page b p n = if has_layer l ((inst.blocks b).pages p).flags then suc n else n

  pub count_block : (block : ℕ) → ℕ → ℕ
  unfolding for_step
  count_block b n = for_step 64 0 1 (λ p m. count_page b p m) n

  pub marked_count : ℕ
  unfolding for_step count_block
  marked_count = for_step 1023 1 1 (λ b n. count_block b n) 0

-- What the search has done when it has passed `n` pages with the layer: the entries below its count are
-- such pages, and each of their times is the page's start time. It was left where they are too many.
module _ (inst : TimedInst) (l : Layer) (limit : ℕ) where
  abbrev pub IsEntry : TimeRange → Type 0
  IsEntry t =
      let s = (inst.blocks t.block).pages t.page in
      (has_layer l s.flags ≡ true) × (t.start_time ≡ s.start_time) × (t.last_time ≡ s.start_time)

  abbrev Agrees : Search → ℕ → Type 0
  Agrees (going cnt ranges) n = (cnt ≡ n) × (cnt ≤ limit) × ((i : ℕ) → i < cnt → IsEntry (ranges i))
  Agrees (left r ranges) n =
      (limit < n) × (r ≡ need_more_buffer) × ((i : ℕ) → i < limit → IsEntry (ranges i))

  search_page_timed-Agrees :
      (b p : ℕ) (s : Search) (n : ℕ)
      → Agrees s n
      → Agrees (search_page_timed inst l limit b p s) (count_page inst l b p n)
  unfolding search_page_timed
  search_page_timed-Agrees b p (left r ranges) n (more, q, h) =
      elim (Bool-cases (has_layer l ((inst.blocks b).pages p).flags)) [
        | inl e ↦ rw e (omega arith, q, h)
        | inr e ↦ rw e (more, q, h)
      ]
  search_page_timed-Agrees b p (going cnt ranges) n (same, low, h) =
      elim (Bool-cases (has_layer l ((inst.blocks b).pages p).flags)) [
        | inl e ↦ elim (Bool-cases (ltb cnt limit)) [
          | inl f ↦
              rw (e, f)
                (
                  ap suc same,
                  omega (arith, ltb→lt cnt limit f),
                  λ i k. elim (Bool-cases (cnt == i)) [
                    | inl q ↦ rw q (e, refl, refl)
                    | inr q ↦ rw q (h i (omega (arith, ==→ne cnt i q)))
                  ],
                )
          | inr f ↦
              let full = ltb→le cnt limit f in
              rw (e, f) (omega arith, refl, λ i k. h i (omega arith))
        ]
        | inr e ↦ rw e (same, low, h)
      ]

  search_block_timed-Agrees :
      (b : ℕ) (s : Search) (n : ℕ)
      → Agrees s n
      → Agrees (search_block_timed inst l limit b s) (count_block inst l b n)
  unfolding search_block_timed count_block
  search_block_timed-Agrees b s n h =
      for_step_relates Agrees 64 0 1 (λ p t. search_page_timed inst l limit b p t)
        (λ p m. count_page inst l b p m) s n (search_page_timed-Agrees b) h

  search_timed-Agrees :
      (ranges : ℕ → TimeRange)
      → Agrees (search_blocks_timed inst l limit ranges) (marked_count inst l)
  unfolding search_blocks_timed marked_count
  search_timed-Agrees ranges =
      for_step_relates Agrees 1023 1 1 (λ b t. search_block_timed inst l limit b t)
        (λ b n. count_block inst l b n) (going 0 ranges) 0 search_block_timed-Agrees
        (refl, omega arith, λ i k. absurd (omega arith))

  -- What the caller gets where `n` pages have the layer.
  abbrev pub AreFound : ℕ → Ret × (ℕ → TimeRange) → Type 0
  AreFound n r =
      (r.0 ≡ (if leb n limit then count n else need_more_buffer))
      × ((i : ℕ) → i < n → i < limit → IsEntry (r.1 i))

  finish-AreFound : (s : Search) (n : ℕ) → Agrees s n → AreFound n (finish s)
  finish-AreFound (going cnt ranges) n (same, low, h) =
      rw (le→leb n limit (omega arith)) (ap count same, λ i k _. h i (omega arith))
  finish-AreFound (left r ranges) n (more, e, h) = rw (lt→leb n limit more) (e, λ i _ k. h i k)

  -- In the build with __LINUX__: `mxfs_timerange` with room for at least one entry returns the number of
  -- pages of the data area whose status has the layer, if the array has room for them, and
  -- NEED_MORE_BUFFER otherwise. Each entry that it made names such a page, and both of the entry's times
  -- are the start time of that page.
  pub timerange_timed-AreFound :
      (ranges : ℕ → TimeRange)
      → limit ≢ 0
      → AreFound (marked_count inst l) (timerange_timed inst l limit true ranges)
  unfolding timerange_timed
  timerange_timed-AreFound ranges n =
      rw (ne→== limit 0 n) (finish-AreFound _ _ (search_timed-Agrees ranges))
