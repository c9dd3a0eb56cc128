-- ===== src/Read/Loop.antt =====
-- The rounds of the loop of `mxfs_read`, and its end.
use mxfs.Base.{
  ℕ, zero, suc, ◌+◌, ◌*◌, ◌≤◌, ◌<◌, ◌≡◌, ◌≢◌, inl, inr, refl, sym, subst, ◌∙◌, Bool, true, false,
  List, [], ◌++◌, arith, ltb, leb, length, slice, Bool-cases, le→ltb, lt→ltb, ltb→lt, ltb→le, ◌==◌,
  ◌||◌, if◌then◌else◌, from_le,
}
use mxfs.Header.{Compress, magic_number, header_size, decode, type_of}
use mxfs.Instance.{page_size}
use mxfs.Outcome.{Outcome, returns, fault, aborted, stuck, ◌>>=◌, load}
use mxfs.Read.{
  Step, leave, next, copy_records, read_record, read_step, follow, read_loop, read_fuel,
}

copy_records-ne-stuck :
    (k size : ℕ) (rbf : List ℕ) (pos : ℕ) (out : List ℕ) → copy_records k size rbf pos out ≢ stuck
unfolding copy_records load
copy_records-ne-stuck zero size rbf pos out e = cc
copy_records-ne-stuck (suc k) size rbf pos out e =
    ground (arith, copy_records-ne-stuck k size rbf (pos + size) (out ++ slice pos size rbf))

-- Where a round leaves the loop, or how far it goes on.
abbrev pub GoesOn : ℕ → Outcome Step → Type 0
GoesOn offset (returns (leave out)) = Unit
GoesOn offset (returns (next o out)) = offset + header_size ≤ o
GoesOn offset fault = Unit
GoesOn offset aborted = Unit
GoesOn offset stuck = ⊥

module _ (layer bufferlen : ℕ) (rbf : List ℕ) where
  bind-GoesOn :
      (offset : ℕ) (m : Outcome (List ℕ)) (f : List ℕ → Outcome Step)
      → m ≢ stuck
      → ((out : List ℕ) → GoesOn offset (f out))
      → GoesOn offset (m >>= f)
  bind-GoesOn offset (returns a) f n g = g a
  bind-GoesOn offset fault f n g = tt
  bind-GoesOn offset aborted f n g = tt
  bind-GoesOn offset stuck f n g = n refl

  if-ne-stuck :
      (b : Bool) (m : Outcome (List ℕ)) (out : List ℕ)
      → m ≢ stuck
      → (if b then m else returns out) ≢ stuck
  if-ne-stuck true m out n = n
  if-ne-stuck false m out n = λ e. cc e

  if-GoesOn :
      (o : ℕ) (b : Bool) (m n : Outcome Step)
      → GoesOn o m
      → GoesOn o n
      → GoesOn o (if b then m else n)
  if-GoesOn o true m n p q = p
  if-GoesOn o false m n p q = q

  read_record-GoesOn :
      (cp : Compress) (offset : ℕ) (out : List ℕ)
      → GoesOn offset (read_record layer bufferlen rbf cp (offset + header_size) out)
  unfolding read_record
  read_record-GoesOn cp offset out =
      let type = type_of cp in
      if-GoesOn offset (type == 0 || (type == 1 || type == 2)) _ _
        (bind-GoesOn offset _ _
          (if-ne-stuck (type == layer) _ out (copy_records-ne-stuck _ _ rbf _ out))
          (λ w. omega arith))
        (if-GoesOn offset (type == 3 || type == 4) _ _
          (bind-GoesOn offset _ _
            (if-ne-stuck (type == layer) _ out (copy_records-ne-stuck _ _ rbf _ out))
            (λ w. omega arith))
          (if-GoesOn offset (type == 5) _ _
            (bind-GoesOn offset _ _
              (if-ne-stuck (type == layer) _ out (copy_records-ne-stuck _ _ rbf _ out))
              (λ w. omega arith))
            (if-GoesOn offset (type == 6) _ _
              (bind-GoesOn offset _ _
                (if-ne-stuck (type == layer) _ out (copy_records-ne-stuck _ _ rbf _ out)) (λ w. tt))
              (omega arith))))

  load-GoesOn :
      (o off n : ℕ) (f : List ℕ → Outcome Step)
      → ((m : List ℕ) → GoesOn o (f m))
      → GoesOn o (load off n rbf >>= f)
  unfolding load
  load-GoesOn o off n f g = elim (Bool-cases (leb (off + n) (length rbf))) [
    | inl e ↦ rw e (g (slice off n rbf))
    | inr e ↦ rw e tt
  ]

  pub read_step-GoesOn :
      (offset : ℕ) (out : List ℕ) → GoesOn offset (read_step layer bufferlen rbf offset out)
  unfolding read_step
  read_step-GoesOn offset out = load-GoesOn offset offset 4 _ (λ m.
      if-GoesOn offset (from_le m == magic_number) _ _
        (load-GoesOn offset offset header_size _
          (λ _. read_record-GoesOn (decode offset rbf) offset out))
        tt)

  -- The fuel that is left covers the rest of the page.
  abbrev pub IsEnough : ℕ → ℕ → Type 0
  IsEnough fuel offset = page_size ≤ offset + header_size * fuel

  -- One round.
  pub read_loop_end :
      (fuel offset : ℕ) (out : List ℕ)
      → page_size ≤ offset
      → read_loop layer bufferlen rbf (suc fuel) offset out ≡ returns out
  unfolding read_loop
  read_loop_end fuel offset out h = rw (le→ltb offset page_size h, read_loop)

  pub read_loop_round :
      (fuel offset : ℕ) (out : List ℕ)
      → offset < page_size
      → read_loop layer bufferlen rbf (suc fuel) offset out
        ≡ follow layer bufferlen rbf
            (read_step layer bufferlen rbf offset out)
            (λ o w. read_loop layer bufferlen rbf fuel o w)
  unfolding read_loop
  read_loop_round fuel offset out h = rw (lt→ltb offset page_size h, read_loop)

  -- Two continuations that agree where the loop can go on give the same outcome.
  follow_ext :
      (offset : ℕ) (m : Outcome Step) (f g : ℕ → List ℕ → Outcome (List ℕ))
      → GoesOn offset m
      → ((o : ℕ) (w : List ℕ) → offset + header_size ≤ o → f o w ≡ g o w)
      → follow layer bufferlen rbf m f ≡ follow layer bufferlen rbf m g
  unfolding follow
  follow_ext offset (returns (leave out)) f g h e = refl
  follow_ext offset (returns (next o w)) f g h e = e o w h
  follow_ext offset fault f g h e = refl
  follow_ext offset aborted f g h e = refl
  follow_ext offset stuck f g h e = refl

  -- Where two amounts of fuel are enough, they give the same result.
  pub read_loop_fuel :
      (f g offset : ℕ) (out : List ℕ)
      → IsEnough f offset
      → IsEnough g offset
      → read_loop layer bufferlen rbf (suc f) offset out
        ≡ read_loop layer bufferlen rbf (suc g) offset out
  read_loop_fuel zero g offset out hf hg =
      let h : page_size ≤ offset = omega arith in
      read_loop_end zero offset out h ∙ sym (read_loop_end g offset out h)
  read_loop_fuel (suc f) zero offset out hf hg =
      let h : page_size ≤ offset = omega arith in
      read_loop_end (suc f) offset out h ∙ sym (read_loop_end zero offset out h)
  read_loop_fuel (suc f) (suc g) offset out hf hg = elim (Bool-cases (ltb offset page_size)) [
    | inl e ↦
        let h = ltb→lt offset page_size e in
        read_loop_round (suc f) offset out h
        ∙ follow_ext offset (read_step layer bufferlen rbf offset out) _ _
            (read_step-GoesOn offset out)
            (λ o w q. read_loop_fuel f g o w (omega arith) (omega arith))
        ∙ sym (read_loop_round (suc g) offset out h)
    | inr e ↦
        let h = ltb→le offset page_size e in
        read_loop_end (suc f) offset out h ∙ sym (read_loop_end (suc g) offset out h)
  ]

  follow-ne-stuck :
      (offset : ℕ) (m : Outcome Step) (f : ℕ → List ℕ → Outcome (List ℕ))
      → GoesOn offset m
      → ((o : ℕ) (w : List ℕ) → offset + header_size ≤ o → f o w ≢ stuck)
      → follow layer bufferlen rbf m f ≢ stuck
  unfolding follow
  follow-ne-stuck offset (returns (leave out)) f h n = λ e. cc e
  follow-ne-stuck offset (returns (next o w)) f h n = n o w h
  follow-ne-stuck offset fault f h n = λ e. cc e
  follow-ne-stuck offset aborted f h n = λ e. cc e
  follow-ne-stuck offset stuck f h n = absurd h

  loop-ne-stuck :
      (f offset : ℕ) (out : List ℕ)
      → IsEnough f offset
      → read_loop layer bufferlen rbf (suc f) offset out ≢ stuck
  loop-ne-stuck zero offset out h = rw (read_loop_end zero offset out (omega arith)) (λ e. cc e)
  loop-ne-stuck (suc f) offset out h = elim (Bool-cases (ltb offset page_size)) [
    | inl e ↦ rw (read_loop_round (suc f) offset out (ltb→lt offset page_size e)) (
        follow-ne-stuck offset (read_step layer bufferlen rbf offset out) _
          (read_step-GoesOn offset out) (λ o w q. loop-ne-stuck f o w (omega arith)))
    | inr e ↦ rw (read_loop_end (suc f) offset out (ltb→le offset page_size e)) (λ q. cc q)
  ]

  -- The loop of `mxfs_read` ends on every content of the page, well formed or not, whatever the layer
  -- and the length of the caller's buffer.
  pub read_loop-ne-stuck : read_loop layer bufferlen rbf read_fuel 0 [] ≢ stuck
  read_loop-ne-stuck = loop-ne-stuck 128 0 [] (omega arith)

  -- A round that goes on: the loop continues there with its full fuel.
  pub read_loop_next :
      (offset o : ℕ) (out w : List ℕ)
      → offset < page_size
      → read_step layer bufferlen rbf offset out ≡ returns (next o w)
      → read_loop layer bufferlen rbf read_fuel offset out
        ≡ read_loop layer bufferlen rbf read_fuel o w
  unfolding follow
  read_loop_next offset o out w h e =
      let q : offset + header_size ≤ o = subst (GoesOn offset) e (read_step-GoesOn offset out) in
      read_loop_round 128 offset out h
      ∙ rw e (read_loop_fuel 127 128 o w (omega arith) (omega arith))

  -- A round that leaves the loop.
  pub read_loop_leave :
      (offset : ℕ) (out w : List ℕ)
      → offset < page_size
      → read_step layer bufferlen rbf offset out ≡ returns (leave w)
      → read_loop layer bufferlen rbf read_fuel offset out ≡ returns w
  unfolding follow
  read_loop_leave offset out w h e = read_loop_round 128 offset out h ∙ rw e
