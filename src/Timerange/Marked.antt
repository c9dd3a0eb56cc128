-- ===== src/Timerange/Marked.antt =====
-- `mxfs_timerange` finds the pages with records of a layer, in order.
use mxfs.Base.{
  Option, none, some, ◌-◌, le→ltb, lt→ltb, ==→eq, ==→ne, false, ℕ, zero, suc, ◌+◌, ◌≤◌, ◌<◌, ◌≡◌,
  ◌≢◌, refl, sym, ap, ◌∙◌, Bool, true, ◌&&◌, List, [], ◌∷◌, ◌++◌, arith, length, take, replicate,
  ltb, leb, le→leb, lt→leb, ltb→le, ltb→lt, Bool-cases, inl, inr, ◌==◌, if◌then◌else◌, for_step,
  ne→==,
}
use mxfs.Header.{magic_number, decode}
use mxfs.Instance.{Ret, count, need_more_buffer, Layer, Inst, TimeRange, page_count, block_count}
use mxfs.Driver.{Driver, PageStore}
use mxfs.Timerange.{
  Search, going, left, finish, has_layer, mark_page, add_page, search_page, search_block,
  search_blocks, timerange,
}

-- The entries that a list of pages makes.
abbrev pub enter : ℕ → List (ℕ × ℕ) → Search → Search
enter limit [] s = s
enter limit ((b, p) ∷ xs) (left r ranges) = left r ranges
enter limit ((b, p) ∷ xs) (going cnt ranges) = enter limit xs (add_page limit b p cnt ranges)

enter-left :
    (limit : ℕ) (xs : List (ℕ × ℕ)) (r : Ret) (ranges : ℕ → TimeRange)
    → enter limit xs (left r ranges) ≡ left r ranges
enter-left limit [] r ranges = refl
enter-left limit (x ∷ xs) r ranges = refl

enter-append :
    (limit : ℕ) (xs ys : List (ℕ × ℕ)) (s : Search)
    → enter limit (xs ++ ys) s ≡ enter limit ys (enter limit xs s)
enter-append limit [] ys s = refl
enter-append limit (x ∷ xs) ys (left r ranges) = sym (enter-left limit ys r ranges)
enter-append limit ((b, p) ∷ xs) ys (going cnt ranges) =
    enter-append limit xs ys (add_page limit b p cnt ranges)

-- How many entries there are, or that they are too many.
enter-returns :
    (limit cnt : ℕ) (xs : List (ℕ × ℕ)) (ranges : ℕ → TimeRange)
    → cnt ≤ limit
    → (finish (enter limit xs (going cnt ranges))).0
      ≡ (if leb (cnt + length xs) limit then count (cnt + length xs) else need_more_buffer)
enter-returns limit cnt [] ranges h =
    let z : cnt + 0 ≡ cnt = omega arith in rw (z, le→leb cnt limit h) refl
enter-returns limit cnt ((b, p) ∷ xs) ranges h = elim (Bool-cases (ltb cnt limit)) [
  | inl e ↦
      let n : cnt + suc (length xs) ≡ suc cnt + length xs = omega arith in
      rw (e, n) (enter-returns limit (suc cnt) xs _ (ltb→lt cnt limit e))
  | inr e ↦
      let full : limit < cnt + suc (length xs) = omega (arith, ltb→le cnt limit e) in
      rw (e, enter-left limit xs need_more_buffer ranges, lt→leb _ _ full) refl
]

enter_all-returns :
    (limit : ℕ) (xs : List (ℕ × ℕ)) (ranges : ℕ → TimeRange)
    → (finish (enter limit xs (going 0 ranges))).0
      ≡ (if leb (length xs) limit then count (length xs) else need_more_buffer)
enter_all-returns limit xs ranges =
    let z : 0 + length xs ≡ length xs = omega arith in
    rw z at (enter-returns limit 0 xs ranges (omega arith))

-- The pages of a list, by number.
abbrev pub nth : ℕ → List (ℕ × ℕ) → Option (ℕ × ℕ)
nth i [] = none
nth zero (x ∷ xs) = some x
nth (suc i) (x ∷ xs) = nth i xs

-- Entry `i` of the caller's array: the page of that number, if there is one and room for it, with no times.
abbrev pub entry : (limit i : ℕ) → Option (ℕ × ℕ) → TimeRange → TimeRange
entry limit i none t = t
entry limit i (some (b, p)) t =
    if ltb i limit
    then record {
      start_time = 0;
      last_time = 0;
      block = b;
      page = p;
      record_count = t.record_count;
    }
    else t

no_entry : (limit i : ℕ) (x : Option (ℕ × ℕ)) (t : TimeRange) → limit ≤ i → entry limit i x t ≡ t
no_entry limit i none t h = refl
no_entry limit i (some (b, p)) t h = rw (le→ltb i limit h) refl

enter-entry :
    (limit cnt i : ℕ) (xs : List (ℕ × ℕ)) (ranges : ℕ → TimeRange)
    → cnt ≤ limit
    → (finish (enter limit xs (going cnt ranges))).1 i
      ≡ (if ltb i cnt then ranges i else entry limit i (nth (i - cnt) xs) (ranges i))
enter-entry limit cnt i [] ranges h = elim (Bool-cases (ltb i cnt)) [
  | inl e ↦ rw e refl
  | inr e ↦ rw e refl
]
enter-entry limit cnt i ((b, p) ∷ xs) ranges h = elim (Bool-cases (ltb cnt limit)) [
  | inr e ↦
      rw (e, enter-left limit xs need_more_buffer ranges)
        (elim (Bool-cases (ltb i cnt)) [
          | inl f ↦ rw f refl
          | inr f ↦
              let over : limit ≤ i = omega (arith, ltb→le i cnt f, ltb→le cnt limit e) in
              rw (f, no_entry limit i (nth (i - cnt) ((b, p) ∷ xs)) (ranges i) over) refl
        ])
  | inl e ↦
      let next = enter-entry limit (suc cnt) i xs _ (ltb→lt cnt limit e) in
      elim (Bool-cases (ltb i cnt)) [
        | inl f ↦
            let below = ltb→lt i cnt f in
            rw (e, f) (next ∙ rw (lt→ltb i (suc cnt) (omega arith), ne→== cnt i (omega arith)) refl)
        | inr f ↦
            let over = ltb→le i cnt f in
            elim (Bool-cases (cnt == i)) [
              | inl g ↦
                  let same = ==→eq cnt i g in
                  let first : i - cnt ≡ 0 = omega (arith, same) in
                  rw (e, f, first, lt→ltb i limit (omega (arith, ltb→lt cnt limit e, same)))
                    (next
                      ∙ rw (lt→ltb i (suc cnt) (omega (arith, same)), g)
                          (ap (λ c. mark_page b p (ranges c)) same))
              | inr g ↦
                  let other = ==→ne cnt i g in
                  let later : i - cnt ≡ suc (i - suc cnt) = omega (arith, over, other) in
                  rw (e, f, later)
                    (next ∙ rw (le→ltb i (suc cnt) (omega (arith, over, other)), g) refl)
            ]
      ]
]

module _ (drv : Driver) (st : PageStore drv) (inst : Inst) (l : Layer) (dev0 : drv.Dev) where
  -- A page that starts with a magic number and is marked with the layer.
  abbrev pub is_marked : ℕ → ℕ → Bool
  is_marked b p =
      (decode 0 (take 16 (st.page_at dev0 b p))).magic == magic_number
      && has_layer l ((inst.blocks b).pages p)

  -- The marked pages among the `k` from `p` on, and those of the `k` blocks from `b` on, in order.
  abbrev pub marked_pages : (k p b : ℕ) → List (ℕ × ℕ)
  marked_pages zero p b = []
  marked_pages (suc k) p b = (if is_marked b p then (b, p) ∷ [] else []) ++ marked_pages k (p + 1) b

  pub marked_blocks : (k b : ℕ) → List (ℕ × ℕ)
  marked_blocks zero b = []
  marked_blocks (suc k) b = marked_pages page_count 0 b ++ marked_blocks k (b + 1)

  -- The device still holds what it held.
  abbrev pub Same : drv.Dev → Type 0
  Same dev = st.IsReady dev × ((q r : ℕ) → st.page_at dev q r ≡ st.page_at dev0 q r)

  module _ (limit : ℕ) where
    search_page-enter :
        (b p : ℕ) (s : Search) (dev : drv.Dev)
        → b < block_count
        → p < page_count
        → Same dev
        → ((search_page drv inst l limit b p (s, dev)).0
            ≡ enter limit (if is_marked b p then (b, p) ∷ [] else []) s)
          × Same (search_page drv inst l limit b p (s, dev)).1
    unfolding search_page
    search_page-enter b p (left r ranges) dev hb hp h =
        (sym (enter-left limit (if is_marked b p then (b, p) ∷ [] else []) r ranges), h)
    search_page-enter b p (going cnt ranges) dev hb hp (ready, same) =
        let (e, bytes, kept, ready') =
          st.read_ok b p (replicate 16 0) dev ready hb hp (omega arith) in
        let here : (drv.read b p (replicate 16 0) dev).1 ≡ take 16 (st.page_at dev0 b p) =
          bytes ∙ ap (λ x. take 16 x) (same b p) in
        let after : Same (drv.read b p (replicate 16 0) dev).2 =
          (ready', λ q r. kept q r ∙ same q r) in
        elim (Bool-cases ((decode 0 (take 16 (st.page_at dev0 b p))).magic == magic_number)) [
          | inl m ↦ elim (Bool-cases (has_layer l ((inst.blocks b).pages p))) [
            | inl f ↦ rw (e, here, m, f) (refl, after)
            | inr f ↦ rw (e, here, m, f) (refl, after)
          ]
          | inr m ↦ rw (e, here, m) (refl, after)
        ]

    search_pages-enter :
        (k p b : ℕ) (s : Search) (dev : drv.Dev)
        → b < block_count
        → p + k ≤ page_count
        → Same dev
        → let r = for_step k p 1 (λ q t. search_page drv inst l limit b q t) (s, dev) in
          (r.0 ≡ enter limit (marked_pages k p b) s) × Same r.1
    unfolding for_step
    search_pages-enter zero p b s dev hb hp h = (refl, h)
    search_pages-enter (suc k) p b s dev hb hp h =
        let one : List (ℕ × ℕ) = if is_marked b p then (b, p) ∷ [] else [] in
        let t = search_page drv inst l limit b p (s, dev) in
        let (e, h') = search_page-enter b p s dev hb (omega (arith, hp)) h in
        let (f, h'') = search_pages-enter k (p + 1) b t.0 t.1 hb (omega (arith, hp)) h' in
        (
          f
              ∙ ap (λ x. enter limit (marked_pages k (p + 1) b) x) e
              ∙ sym (enter-append limit one (marked_pages k (p + 1) b) s),
          h'',
        )

    search_blocks-enter :
        (k b : ℕ) (s : Search) (dev : drv.Dev)
        → b + k ≤ block_count
        → Same dev
        → let r = for_step k b 1 (λ c t. search_block drv inst l limit c t) (s, dev) in
          (r.0 ≡ enter limit (marked_blocks k b) s) × Same r.1
    unfolding for_step search_block marked_blocks
    search_blocks-enter zero b s dev hb h = (refl, h)
    search_blocks-enter (suc k) b s dev hb h =
        let t = search_block drv inst l limit b (s, dev) in
        let (e, h') = search_pages-enter page_count 0 b s dev (omega (arith, hb)) (omega arith) h in
        let (f, h'') = search_blocks-enter k (b + 1) t.0 t.1 (omega (arith, hb)) h' in
        (
          f
              ∙ ap (λ x. enter limit (marked_blocks k (b + 1)) x) e
              ∙ sym (enter-append limit (marked_pages page_count 0 b) (marked_blocks k (b + 1)) s),
          h'',
        )

    data_area-enter :
        (ranges : ℕ → TimeRange)
        → st.IsReady dev0
        → let r = search_blocks drv inst l limit 1023 (going 0 ranges, dev0) in
          (r.0 ≡ enter limit (marked_blocks 1023 1) (going 0 ranges)) × Same r.1
    unfolding search_blocks
    data_area-enter ranges ready =
        search_blocks-enter 1023 1 (going 0 ranges) dev0 (omega arith) (ready, λ q r. refl)

    -- On a driver that stores pages and is ready: `mxfs_timerange` with room for at least one entry
    -- returns the number of pages of the data area that start with a magic number and are marked with the
    -- layer, if the array has room for them, and NEED_MORE_BUFFER otherwise. Entry number `i`, as far as
    -- there is room, has the block and the page of the `i`-th of these pages, in order, 0 for both times,
    -- and the count that the caller's array held; all other entries stay, and the device holds what it
    -- held.
    pub timerange-marked :
        (ranges : ℕ → TimeRange)
        → st.IsReady dev0
        → limit ≢ 0
        → let r = timerange drv inst l limit true ranges dev0 in
          let pages = marked_blocks 1023 1 in
          (r.0 ≡ (if leb (length pages) limit then count (length pages) else need_more_buffer))
          × ((i : ℕ) → r.1 i ≡ entry limit i (nth i pages) (ranges i))
          × Same r.2
    unfolding timerange
    timerange-marked ranges ready n =
        let (e, h) = data_area-enter ranges ready in
        rw (ne→== limit 0 n, e)
          (
            enter_all-returns limit (marked_blocks 1023 1) ranges,
            λ i.
                let start : ltb i 0 ≡ false = le→ltb i 0 (omega arith) in
                let all : i - 0 ≡ i = omega arith in
                rw (start, all) at
                  (enter-entry limit 0 i (marked_blocks 1023 1) ranges (omega arith)),
            h,
          )
