-- ===== src/Mount/Current.antt =====
-- Which block `mxfs_create_instance` makes the current one.
use mxfs.Base.{
  u32, ◌^◌, ℕ, zero, suc, ◌+◌, ◌≤◌, ◌<◌, ◌≡◌, refl, ◌⊎◌, inl, inr, Bool, true, false, arith, ltb,
  lt→ltb, le→ltb, Bool-cases,
}
use mxfs.Instance.{Inst, is_invalid}
use mxfs.Mount.{find_current}

abbrev pub at_block : ℕ → Inst → Inst
at_block c inst = record inst { current_block = c; current_page = 0 }

-- Whether a block of the instance is marked as used, and when its first record was made.
abbrev pub is_used : Inst → ℕ → Bool
is_used inst b = is_invalid (inst.blocks b).flags

abbrev pub start_of : Inst → ℕ → ℕ
start_of inst b = (inst.blocks b).start_time

-- If one of the `k` blocks from `b` on is not marked as used, the first of these becomes the current block,
-- at its first page, and nothing else of the instance changes.
pub find_current_free :
    (k b t c : ℕ) (inst : Inst)
    → b ≤ c
    → c < b + k
    → is_used inst c ≡ false
    → ((d : ℕ) → b ≤ d → d < c → is_used inst d ≡ true)
    → find_current k b t inst ≡ at_block c inst
unfolding find_current
find_current_free zero b t c inst lo hi f u = absurd (omega arith)
find_current_free (suc k) b t c inst lo hi f u =
    let cases : (b ≡ c) ⊎ (b < c) = ground arith in
    elim cases [
      | inl e ↦ rw (e, f) refl
      | inr l ↦
          let used = u b (omega arith) l in
          elim (Bool-cases (ltb t (start_of inst b))) [
            | inl e ↦
                rw (used, e)
                  (find_current_free k (suc b) (u32 (start_of inst b)) c (at_block b inst) l
                    (omega arith) f (λ d p q. u d (omega arith) q))
            | inr e ↦
                rw (used, e)
                  (find_current_free k (suc b) t c inst l (omega arith) f
                    (λ d p q. u d (omega arith) q))
          ]
    ]

-- Where all blocks are marked and none is later than `t`, the position stays.
find_current_stays :
    (k b t : ℕ) (inst : Inst)
    → ((d : ℕ) → b ≤ d → d < b + k → is_used inst d ≡ true)
    → ((d : ℕ) → b ≤ d → d < b + k → start_of inst d ≤ t)
    → find_current k b t inst ≡ inst
unfolding find_current
find_current_stays zero b t inst u s = refl
find_current_stays (suc k) b t inst u s =
    rw
      (
        u b (omega arith) (omega arith),
        le→ltb t (start_of inst b) (s b (omega arith) (omega arith)),
      )
      (find_current_stays k (suc b) t inst (λ d p q. u d (omega arith) (omega arith))
        (λ d p q. s d (omega arith) (omega arith)))

-- If all of the `k` blocks from `b` on are marked as used, the first of those with the latest start time
-- becomes the current block, at its first page, where that time is later than `t` and, as that of a header,
-- has 32 bits.
pub find_current_latest :
    (k b t c : ℕ) (inst : Inst)
    → b ≤ c
    → c < b + k
    → start_of inst c < 2 ^ 32
    → t < start_of inst c
    → ((d : ℕ) → b ≤ d → d < b + k → is_used inst d ≡ true)
    → ((d : ℕ) → b ≤ d → d < b + k → start_of inst d ≤ start_of inst c)
    → ((d : ℕ) → b ≤ d → d < c → start_of inst d < start_of inst c)
    → find_current k b t inst ≡ at_block c inst
unfolding find_current
find_current_latest zero b t c inst lo hi small h u s f = absurd (omega arith)
find_current_latest (suc k) b t c inst lo hi small h u s f =
    let used = u b (omega arith) (omega arith) in
    let narrow : u32 (start_of inst b) ≡ start_of inst b =
      omega (arith, s b (omega arith) (omega arith), small) in
    let cases : (b ≡ c) ⊎ (b < c) = ground arith in
    elim cases [
      | inl e ↦
          rw (used, lt→ltb t (start_of inst b) (rw e h), narrow)
            (rw e (
              find_current_stays k (suc c) (start_of inst c) (at_block c inst)
                (λ d p q. u d (omega arith) (omega arith))
                (λ d p q. s d (omega arith) (omega arith))))
      | inr l ↦ elim (Bool-cases (ltb t (start_of inst b))) [
        | inl e ↦
            rw (used, e, narrow)
              (find_current_latest k (suc b) (start_of inst b) c (at_block b inst) l (omega arith)
                small (f b (omega arith) l) (λ d p q. u d (omega arith) (omega arith))
                (λ d p q. s d (omega arith) (omega arith)) (λ d p q. f d (omega arith) q))
        | inr e ↦
            rw (used, e)
              (find_current_latest k (suc b) t c inst l (omega arith) small h
                (λ d p q. u d (omega arith) (omega arith))
                (λ d p q. s d (omega arith) (omega arith)) (λ d p q. f d (omega arith) q))
      ]
    ]
