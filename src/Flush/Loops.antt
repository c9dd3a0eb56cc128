-- ===== src/Flush/Loops.antt =====
-- The loops of `mxfs_flush` over a buffer that holds records, as recursions on the records.
use Prim.Native.Nat.{bit_or}
use mxfs.Base.{
  ℕ, suc, ◌+◌, ◌*◌, ◌<◌, ◌^◌, ◌≡◌, refl, sym, ap, ◌∙◌, List, [], ◌∷◌, ◌++◌, arith, append_assoc,
  append-nil, length, length-append, All, to_le, from_le, length-to_le, from_le-to_le, slice,
  slice-append_of, rounds, for_step, if◌then◌else◌, ◌==◌,
}
use mxfs.Header.{encode}
use mxfs.Instance.{Layer, page_flag}
use mxfs.Log.{Entry, packed, payloads, last_time}
use mxfs.Flush.{Work, stamp_at, antp_header, antp_record, antp_loop, last_stamp, copy_payloads}

-- The records behind a prefix: the stamp and the payload of the first one.
pub stamp_behind :
    (n t : ℕ) (pre zs : List ℕ)
    → n ≡ length pre
    → t < 2 ^ 64
    → stamp_at n (pre ++ (to_le 8 t ++ zs)) ≡ t
stamp_behind n t pre zs e h =
    ap from_le (slice-append_of n 8 pre (to_le 8 t) zs e (sym (length-to_le 8 t)))
    ∙ from_le-to_le 8 t h

payload_behind :
    (n t k : ℕ) (pre p zs : List ℕ)
    → n ≡ length pre
    → length p ≡ k
    → slice (n + 8) k (pre ++ (to_le 8 t ++ (p ++ zs))) ≡ p
payload_behind n t k pre p zs e h =
    ap (λ x. slice (n + 8) k x) (sym (append_assoc pre (to_le 8 t) (p ++ zs)))
    ∙ slice-append_of (n + 8) k (pre ++ to_le 8 t) p zs
        (omega (arith, length-append pre (to_le 8 t), length-to_le 8 t)) (sym h)

-- The next record stands behind a longer prefix.
regroup :
    (pre : List ℕ) (t : ℕ) (p es rest : List ℕ)
    → pre ++ ((to_le 8 t ++ (p ++ es)) ++ rest) ≡ (pre ++ (to_le 8 t ++ p)) ++ (es ++ rest)
regroup pre t p es rest = simp append_assoc

abbrev pub fold_entries {ℓ} : {S : Type ℓ} → (Entry → S → S) → List Entry → S → S
fold_entries g [] s = s
fold_entries g (e ∷ es) s = fold_entries g es (g e s)

-- The entries of a layer with payloads of `k` bytes.
abbrev pub IsSized : ℕ → Entry → Type 0
IsSized k (t, p) = (t < 2 ^ 64) × (length p ≡ k)

-- A loop whose round reads one record is a fold over the records.
module _ {S : Type 0} (k : ℕ) (f : List ℕ → ℕ → S → S) (g : Entry → S → S) where
  abbrev pub Round : Type 0
  Round =
      (n t : ℕ) (p pre zs : List ℕ) (s : S)
      → n ≡ length pre
      → t < 2 ^ 64
      → length p ≡ k
      → f (pre ++ (to_le 8 t ++ (p ++ zs))) n s ≡ g (t, p) s

  pub loop_behind :
      Round
      → (es : List Entry) (n : ℕ) (pre rest : List ℕ) (s : S) → n ≡ length pre
      → All (IsSized k) es
      → for_step (length es) n (8 + k) (f (pre ++ (packed es ++ rest))) s ≡ fold_entries g es s
  unfolding for_step
  loop_behind round [] n pre rest s e h = refl
  loop_behind round ((t, p) ∷ es) n pre rest s e ((ht, hp), hs) =
      ap (λ b. for_step (length es) (n + (8 + k)) (8 + k) (f b) (f b n s))
        (regroup pre t p (packed es) rest)
      ∙ ap
          (λ v.
            for_step (length es) (n + (8 + k)) (8 + k)
              (f ((pre ++ (to_le 8 t ++ p)) ++ (packed es ++ rest))) v)
          (simp append_assoc (round n t p pre (packed es ++ rest) s e ht hp))
      ∙ loop_behind round es (n + (8 + k)) (pre ++ (to_le 8 t ++ p)) rest (g (t, p) s)
          (omega (
            arith,
            length-append pre (to_le 8 t ++ p),
            length-append (to_le 8 t) p,
            length-to_le 8 t,
          ))
          hs

-- What one round of the ANT+ loop does for a record.
abbrev pub antp_entry : Layer → Entry → Work → Work
antp_entry l (t, p) w = record w {
  work_buffer = w.work_buffer ++ (encode (antp_header l t) ++ p);
  page_flags = bit_or w.page_flags (page_flag l);
  start_tmm = if w.start_tmm == 0 then t else w.start_tmm;
  last_tmm = t;
}

antp_round : (l : Layer) → Round 18 (antp_record l) (antp_entry l)
unfolding antp_record
antp_round l n t p pre zs w e ht hp =
    rw (stamp_behind n t pre (p ++ zs) e ht, payload_behind n t 18 pre p zs e hp)

-- The loops run once for each record.
rounds_all : (c size : ℕ) → rounds 0 (c * (8 + size)) (8 + size) ≡ c
rounds_all c size = grind arith

pub antp_loop-entries :
    (l : Layer) (es : List Entry) (len : ℕ) (rest : List ℕ) (w : Work)
    → len ≡ length es * 26
    → All (IsSized 18) es
    → antp_loop l (packed es ++ rest) len w ≡ fold_entries (antp_entry l) es w
unfolding antp_loop
antp_loop-entries l es len rest w e h =
    let r : rounds 0 len 26 ≡ length es = omega arith in
    rw r (loop_behind 18 (antp_record l) (antp_entry l) (antp_round l) es 0 [] rest w refl h)

pub last_stamp_from_zero :
    (k : ℕ) (es : List Entry) (len : ℕ) (rest : List ℕ) (last : ℕ)
    → rounds 0 len (8 + k) ≡ length es
    → All (IsSized k) es
    → last_stamp 0 (8 + k) (packed es ++ rest) len last ≡ last_time last es
unfolding last_stamp
last_stamp_from_zero k es len rest last e h =
    rw e (loop_behind k (λ b n t. stamp_at n b) (λ x t. x.0) round es 0 [] rest last refl h)
    ∙ fold_last es last
  where
    round : Round k (λ b n t. stamp_at n b) (λ x t. x.0)
    round n t p pre zs s q ht hp = stamp_behind n t pre (p ++ zs) q ht

    fold_last : (xs : List Entry) (t : ℕ) → fold_entries (λ x t. x.0) xs t ≡ last_time t xs
    fold_last [] t = refl
    fold_last ((u, p) ∷ xs) t = fold_last xs u

-- The temperature loop skips the first record: with one record it leaves `last` alone.
pub last_stamp_from_second :
    (t : ℕ) (p : List ℕ) (es : List Entry) (len : ℕ) (rest : List ℕ) (last : ℕ)
    → len ≡ suc (length es) * 10
    → length p ≡ 2
    → All (IsSized 2) es
    → last_stamp 10 10 (packed ((t, p) ∷ es) ++ rest) len last ≡ last_time last es
unfolding last_stamp
last_stamp_from_second t p es len rest last e hp h =
    let r : rounds 10 len 10 ≡ length es = omega arith in
    rw r (
      ap (λ b. for_step (length es) 10 10 (λ n u. stamp_at n b) last)
        (regroup [] t p (packed es) rest)
      ∙ loop_behind 2 (λ b n u. stamp_at n b) (λ x u. x.0) round es 10 (to_le 8 t ++ p) rest last
          (omega (arith, length-append (to_le 8 t) p, length-to_le 8 t)) h
      ∙ fold_last es last)
  where
    round : Round 2 (λ b n u. stamp_at n b) (λ x u. x.0)
    round n u q pre zs s i hu hq = stamp_behind n u pre (q ++ zs) i hu

    fold_last : (xs : List Entry) (u : ℕ) → fold_entries (λ x v. x.0) xs u ≡ last_time u xs
    fold_last [] u = refl
    fold_last ((v, q) ∷ xs) u = fold_last xs v

pub copy_payloads-entries :
    (k : ℕ) (es : List Entry) (len : ℕ) (rest work : List ℕ)
    → rounds 0 len (8 + k) ≡ length es
    → All (IsSized k) es
    → copy_payloads k (8 + k) (packed es ++ rest) len work ≡ work ++ payloads es
unfolding copy_payloads
copy_payloads-entries k es len rest work e h =
    rw e (
      loop_behind k (λ b n w. w ++ slice (n + 8) k b) (λ x w. w ++ x.1) round es 0 [] rest work refl
        h)
    ∙ fold_payloads es work
  where
    round : Round k (λ b n w. w ++ slice (n + 8) k b) (λ x w. w ++ x.1)
    round n t p pre zs s q ht hp = ap (λ x. s ++ x) (payload_behind n t k pre p zs q hp)

    fold_payloads :
        (xs : List Entry) (w : List ℕ) → fold_entries (λ x v. v ++ x.1) xs w ≡ w ++ payloads xs
    fold_payloads [] w = sym (append-nil w)
    fold_payloads ((u, p) ∷ xs) w = fold_payloads xs (w ++ p) ∙ append_assoc w p (payloads xs)
