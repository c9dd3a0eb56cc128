-- ===== src/Append/Outcome.antt =====
-- `mxfs_append` on the log that the buffers hold, for every driver.
use mxfs.Base.{
  ℕ, ◌+◌, ◌*◌, ◌^◌, ◌≤◌, ◌<◌, ◌≡◌, inl, inr, refl, sym, ap, subst, ◌∙◌, List, [], ◌∷◌, ◌++◌, arith,
  length, length-append, append_assoc, append-nil, All, All-append, Bool-cases, to_le, length-to_le,
  splice, drop, splice-append, length-splice, le→ltb, lt→ltb, u16, ==-refl,
}
use mxfs.Instance.{
  ok, need_more_buffer, Layer, speed, power, cadence, gyro, accelerometer, temperature, record_size,
  code, put, same_layer, Inst, stamp_size,
}
use mxfs.Log.{Entry, IsEntry, Log, Holds, packed, packed-append, length-packed}
use mxfs.Flush.Page.{page_cost, shared_cost}
use mxfs.Flush.Prepare.{HoldsAll, same→eq}
use mxfs.Append.{add_cost, current_length, store_record}

-- What a further record of layer `l` adds to the page.
abbrev pub added_cost : Layer → List Entry → ℕ
added_cost speed es = 34
added_cost power es = 34
added_cost cadence es = 34
added_cost l [] = 16 + record_size l
added_cost l (e ∷ es) = record_size l

add_cost-antp :
    (l : Layer) (n acc : ℕ)
    → record_size l ≡ 18
    → acc + n * 34 ≤ 2000
    → add_cost l n acc ≡ acc + n * 34
unfolding add_cost
add_cost-antp speed n acc s h = omega arith
add_cost-antp power n acc s h = omega arith
add_cost-antp cadence n acc s h = omega arith
add_cost-antp gyro n acc s h = absurd (omega arith)
add_cost-antp accelerometer n acc s h = absurd (omega arith)
add_cost-antp temperature n acc s h = absurd (omega arith)

add_cost-shared :
    (l : Layer) (k : ℕ) (es : List Entry) (n acc : ℕ)
    → record_size l ≡ k
    → k ≤ 6
    → n ≡ length es
    → acc + shared_cost k es ≤ 2000
    → add_cost l n acc ≡ acc + shared_cost k es
unfolding add_cost
add_cost-shared gyro k [] n acc s b e h = ground arith
add_cost-shared gyro k (x ∷ es) n acc s b e h = ground arith
add_cost-shared accelerometer k [] n acc s b e h = ground arith
add_cost-shared accelerometer k (x ∷ es) n acc s b e h = ground arith
add_cost-shared temperature k [] n acc s b e h = ground arith
add_cost-shared temperature k (x ∷ es) n acc s b e h = ground arith
add_cost-shared speed k es n acc s b e h = absurd (omega arith)
add_cost-shared power k es n acc s b e h = absurd (omega arith)
add_cost-shared cadence k es n acc s b e h = absurd (omega arith)

-- For an instance whose buffers hold a log of at most 2000 bytes, the uint16_t sum `current_length` of
-- `mxfs_append` is the number of bytes that the log takes in a page.
pub current_length-page_cost :
    (inst : Inst) (log : Log)
    → HoldsAll inst log
    → page_cost log ≤ 2000
    → current_length inst ≡ page_cost log
unfolding current_length
current_length-page_cost inst log h c =
    let s1 : ℕ = 0 + length (log speed) * 34 in
    let s2 : ℕ = s1 + length (log power) * 34 in
    let s3 : ℕ = s2 + length (log cadence) * 34 in
    let s4 : ℕ = s3 + shared_cost 6 (log gyro) in
    let s5 : ℕ = s4 + shared_cost 6 (log accelerometer) in
    rw
      (
        (h speed).counts,
        add_cost-antp speed (length (log speed)) 0 refl (omega arith),
        (h power).counts,
        add_cost-antp power (length (log power)) s1 refl (omega arith),
        (h cadence).counts,
        add_cost-antp cadence (length (log cadence)) s2 refl (omega arith),
        add_cost-shared gyro 6 (log gyro) _ s3 refl (omega arith) (h gyro).counts (omega arith),
        add_cost-shared accelerometer 6 (log accelerometer) _ s4 refl (omega arith)
            (h accelerometer).counts (omega arith),
        add_cost-shared temperature 2 (log temperature) _ s5 refl (omega arith)
            (h temperature).counts (omega arith),
      )
      (omega arith)

-- The record is written behind the others in the layer's buffer.
stored_bytes :
    (l : Layer) (t : ℕ) (p : List ℕ) (es : List Entry) (rest : List ℕ) (lpos : ℕ)
    → lpos ≡ length (packed es)
    → splice (lpos + stamp_size) p (splice lpos (to_le 8 t) (packed es ++ rest))
      ≡ packed (es ++ ((t, p) ∷ [])) ++ drop (length p) (drop 8 rest)
stored_bytes l t p es rest lpos e =
    ap (λ x. splice (lpos + 8) p x)
      (splice-append lpos (packed es) (to_le 8 t) rest e
        ∙ ap (λ n. packed es ++ (to_le 8 t ++ drop n rest)) (length-to_le 8 t)
        ∙ sym (append_assoc (packed es) (to_le 8 t) (drop 8 rest)))
    ∙ splice-append (lpos + 8) (packed es ++ to_le 8 t) p (drop 8 rest)
        (omega (arith, length-append (packed es) (to_le 8 t), length-to_le 8 t))
    ∙ simp (packed-append, append_assoc, append-nil)

pub length-stored :
    (t : ℕ) (p buffer : List ℕ) (lpos : ℕ)
    → lpos + 8 + length p ≤ length buffer
    → length (splice (lpos + 8) p (splice lpos (to_le 8 t) buffer)) ≡ length buffer
length-stored t p buffer lpos h =
    let n = length-to_le 8 t in
    let inner : length (splice lpos (to_le 8 t) buffer) ≡ length buffer =
      length-splice lpos (to_le 8 t) buffer (omega (arith, n)) in
    length-splice (lpos + 8) p (splice lpos (to_le 8 t) buffer) (omega (arith, inner)) ∙ inner

-- The log with one more record of layer `l`.
abbrev pub logged : Layer → Entry → Log → Log
logged l e log = put l (log l ++ (e ∷ [])) log

le-mul_stamp : (c r : ℕ) → c ≤ c * (8 + r)
le-mul_stamp c r = grind arith

IsEntry-snoc :
    (l : Layer) (es : List Entry) (e : Entry)
    → All (IsEntry l) es
    → IsEntry l e
    → All (IsEntry l) (es ++ (e ∷ []))
IsEntry-snoc l es e h he = All-append (IsEntry l) es (e ∷ []) h (he, tt)

module _ (buffer_size : ℕ) (l : Layer) (t : ℕ) (p : List ℕ) where
  -- The instance with the record behind the others.
  abbrev pub stored : Inst → Inst
  stored inst = record inst {
    mxfs_buffer =
        put l
          (splice (inst.mxfs_length l + stamp_size) p
            (splice (inst.mxfs_length l) (to_le 8 t) (inst.mxfs_buffer l)))
          inst.mxfs_buffer;
    mxfs_length = put l (u16 (u16 (inst.mxfs_length l + stamp_size) + length p)) inst.mxfs_length;
    mxfs_count = put l (u16 (inst.mxfs_count l + 1)) inst.mxfs_count;
  }

  pub store_record_fits :
      (inst : Inst)
      → inst.mxfs_length l + 8 + length p ≤ buffer_size
      → store_record buffer_size l t p inst ≡ (ok, stored inst)
  unfolding store_record
  store_record_fits inst h = rw (le→ltb buffer_size (inst.mxfs_length l + 8 + length p) h)

  pub store_record_refuses :
      (inst : Inst)
      → buffer_size < inst.mxfs_length l + 8 + length p
      → store_record buffer_size l t p inst ≡ (need_more_buffer, inst)
  unfolding store_record
  store_record_refuses inst h = rw (lt→ltb buffer_size (inst.mxfs_length l + 8 + length p) h) refl

  stored-Holds :
      (inst : Inst) (es : List Entry)
      → Holds l inst es
      → IsEntry l (t, p)
      → inst.mxfs_length l + 8 + length p < 2 ^ 16
      → Holds l (stored inst) (es ++ ((t, p) ∷ []))
  stored-Holds inst es h e fits =
      let n : length (es ++ ((t, p) ∷ [])) ≡ length es + 1 =
        omega (arith, length-append es ((t, p) ∷ [])) in
      let pos : inst.mxfs_length l ≡ length (packed es) =
        h.lengths ∙ sym (length-packed l es h.entries) in
      let few : length es < 2 ^ 15 * 2 =
        omega (arith, h.lengths, le-mul_stamp (length es) (record_size l)) in
      record {
        rest = drop (length p) (drop 8 h.rest);
        buffered =
            rw (==-refl (code l), h.buffered)
              (stored_bytes l t p es h.rest (inst.mxfs_length l) pos);
        lengths = rw (==-refl (code l), n) (grind (arith, h.lengths, e.1));
        counts = rw (==-refl (code l), n) (omega (arith, h.counts, fits, few));
        entries = IsEntry-snoc l es (t, p) h.entries e;
      }

  pub stored-HoldsAll :
      (inst : Inst) (log : Log)
      → HoldsAll inst log
      → IsEntry l (t, p)
      → inst.mxfs_length l + 8 + length p < 2 ^ 16
      → HoldsAll (stored inst) (logged l (t, p) log)
  stored-HoldsAll inst log h e fits k = elim (Bool-cases (same_layer l k)) [
    | inl s ↦
        subst (λ j. Holds j (stored inst) (logged l (t, p) log j)) (same→eq l k s)
          (rw (==-refl (code l)) (stored-Holds inst (log l) (h l) e fits))
    | inr s ↦ rw s (record {
      rest = (h k).rest;
      buffered = rw s (h k).buffered;
      lengths = rw s (h k).lengths;
      counts = rw s (h k).counts;
      entries = (h k).entries;
    })
  ]

  -- One that does not fit is refused, and nothing changes.
  pub store_record_full :
      (inst : Inst)
      → buffer_size < inst.mxfs_length l + 8 + length p
      → store_record buffer_size l t p inst ≡ (need_more_buffer, inst)
  unfolding store_record
  store_record_full inst h = rw (lt→ltb buffer_size (inst.mxfs_length l + 8 + length p) h)
