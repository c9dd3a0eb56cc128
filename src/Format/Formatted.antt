-- ===== src/Format/Formatted.antt =====
-- The host tool's format and check commands (sw/parent/src/format.cc) on the chip.
use mxfs.Base.{
  false, ℕ, zero, suc, ◌+◌, ◌*◌, ◌/◌, ◌≤◌, ◌<◌, ◌≡◌, refl, sym, ap, subst, ◌∙◌, inl, inr, true,
  List, arith, length, length-take, take, take-take, take_all, take-replicate, replicate, ◌==◌, ltb,
  ltb→lt, ltb→le, ==→eq, ==→ne, Bool-cases,
}
use mxfs.Instance.{page_size, page_count, block_count}
use mxfs.Driver.{blank}
use mxfs.Outcome.{Outcome}
use mxfs.Bus.{device_reset}
use mxfs.Linux.{Linux}
use mxfs.Nand.{IsFlash, IsTimed}
use mxfs.Nand.Waits.{Ends, bind-Ends}
use mxfs.Parent.{parent_bus, Buffered, wait_read, wait_erase}
use mxfs.Parent.Reads.{HasRead, wait_read-Ends}
use mxfs.Parent.Erases.{HasErased, wait_erase-Ends}
use mxfs.Format.{
  for_each, is_erased, has_magic, format_page, format_block, format_command, check_page,
  check_block, check_command,
}

-- An invariant of the body is one of the loop.
pub for_each-Ends {ℓ κ} :
    {X : Type ℓ} (K : ℕ → X → Type κ) (body : ℕ → X → Outcome X) (last : ℕ)
    → ((n : ℕ) (x : X) → n < last → K n x → Ends (K (suc n)) (body n x))
    → (k from : ℕ) (x : X) → from + k ≡ last
    → K from x
    → Ends (K last) (for_each body k from x)
unfolding for_each
for_each-Ends K body last one zero from x e k =
    let z : from ≡ last = omega (arith, e) in (x, refl, subst (λ n. K n x) z k)
for_each-Ends K body last one (suc m) from x e k =
    bind-Ends (K (suc from)) (K last) (body from x) (λ y. for_each body m (suc from) y)
      (one from x (omega (arith, e)) k)
      (λ y h. for_each-Ends K body last one m (suc from) y (omega (arith, e)) h)

erased_bytes : (n : ℕ) → is_erased (replicate n 0xff) ≡ true
unfolding is_erased
erased_bytes zero = refl
erased_bytes (suc n) = erased_bytes n

-- A front of a blank page.
erased_front :
    (k : ℕ) (xs : List ℕ) → k ≤ page_size → take page_size xs ≡ blank → is_erased (take k xs) ≡ true
erased_front k xs h e =
    ap is_erased (
      sym (take-take k page_size xs h) ∙ ap (λ ys. take k ys) e ∙ take-replicate k page_size 0xff h)
    ∙ erased_bytes k

erased_read :
    (n : ℕ) (xs : List ℕ) → take page_size xs ≡ blank → is_erased (take 16 (take n xs)) ≡ true
erased_read n xs e = elim (Bool-cases (ltb n 16)) [
  | inl h ↦
      let small : n < 16 = ltb→lt n 16 h in
      ap is_erased (take_all 16 (take n xs) (omega (arith, length-take n xs, small)))
      ∙ erased_front n xs (omega (arith, small)) e
  | inr h ↦ ap is_erased (take-take 16 n xs (ltb→le n 16 h)) ∙ erased_front 16 xs (omega arith) e
]

module _ (pi : Linux) (limit : ℕ) (flash : IsFlash (parent_bus pi) limit)
    (timed : IsTimed (parent_bus pi) limit flash.timing) where
  -- Every page of the first `b` blocks is blank, the buffer is the caller's, and behind the first erase the
  -- chip's protection register is 0.
  abbrev pub BlankBelow : ℕ → Buffered pi → Type 0
  BlankBelow b (st, cmd, s) =
      (st ≡ device_reset)
      × (length cmd ≤ 2112)
      × ((m : ℕ) → m / page_count < b → take page_size ((flash.content s).cell m) ≡ blank)
      × (0 < b → (flash.content s).is_protected ≡ false)

  abbrev fuel : ℕ
  fuel = limit + (limit + limit)

  -- A read of a blank page keeps the invariant, and finds it blank.
  abbrev FindsBlank : ℕ → Buffered pi → Type 0
  FindsBlank b (st, cmd, s) = BlankBelow b (st, cmd, s) × (is_erased (take 16 cmd) ≡ true)

  blank_read :
      (b block page : ℕ) (x : Buffered pi)
      → block < b
      → block < block_count
      → page < page_count
      → BlankBelow b x
      → Ends (FindsBlank b) (wait_read pi fuel block page x)
  blank_read b block page (st, cmd, s) inside hb hp (e, l, k, open_up) =
      let c = flash.content s in
      let n = length cmd in
      let m = block * page_count + page in
      let H = HasRead pi limit flash timed block page n c in
      let (y, eq, h) =
        wait_read-Ends pi limit flash timed block page n cmd s hb hp l refl
          (open_up (omega (arith, inside))) in
      let (e', r, same, safe) = h in
      subst (λ t. Ends (FindsBlank b) (wait_read pi fuel block page (t, cmd, s))) (sym e)
        (
          y,
          eq,
          (
            (
              e',
              omega (arith, ap length r, length-take n (c.cell m), l),
              λ q hq. ap (λ (f : ℕ → List ℕ). take page_size (f q)) same ∙ k q hq,
              λ _. safe,
            ),
            ap (λ x. is_erased (take 16 x)) r
                ∙ erased_read n (c.cell m) (k m (omega (arith, hp, inside))),
          ),
        )

  format_page-Ends :
      (block page : ℕ) (x : Buffered pi)
      → block < block_count
      → page < page_count
      → BlankBelow (suc block) x
      → Ends (BlankBelow (suc block)) (format_page pi fuel block page x)
  unfolding format_page
  format_page-Ends block page x hb hp h =
      bind-Ends (FindsBlank (suc block)) (BlankBelow (suc block)) _ _
        (blank_read (suc block) block page x (omega arith) hb hp h)
        (λ (st, cmd, s) (k, blank_front). rw blank_front ((st, cmd, s), refl, k))

  check_page-Ends :
      (block page : ℕ) (x : Buffered pi)
      → block < block_count
      → page < page_count
      → BlankBelow block_count x
      → Ends (BlankBelow block_count) (check_page pi fuel block page x)
  unfolding check_page
  check_page-Ends block page x hb hp h =
      bind-Ends (FindsBlank block_count) (BlankBelow block_count) _ _
        (blank_read block_count block page x hb hb hp h)
        (λ (st, cmd, s) (k, blank_front). elim (Bool-cases (has_magic cmd)) [
          | inl q ↦ rw q ((st, cmd, s), refl, k)
          | inr q ↦ rw (q, blank_front) ((st, cmd, s), refl, k)
        ])

  -- A check of a blank chip.
  check_command-Ends :
      (cmd : List ℕ) (s : pi.State)
      → BlankBelow block_count (device_reset, cmd, s)
      → Ends (BlankBelow block_count) (check_command pi fuel cmd s)
  unfolding check_command check_block
  check_command-Ends cmd s h =
      let K = λ (b : ℕ) (x : Buffered pi). BlankBelow block_count x in
      for_each-Ends K (check_block pi fuel) block_count
        (λ b x hb k.
          for_each-Ends K (check_page pi fuel b) page_count
            (λ p y hp q. check_page-Ends b p y hb hp q) page_count 0 x refl k)
        block_count 0 (device_reset, cmd, s) refl h

  format_block-Ends :
      (block : ℕ) (x : Buffered pi)
      → block < block_count
      → BlankBelow block x
      → Ends (BlankBelow (suc block)) (format_block pi fuel block x)
  unfolding format_block
  format_block-Ends block (st, cmd, s) hb (e, l, k, _) =
      let c = flash.content s in
      let H = HasErased pi limit flash timed block c in
      bind-Ends H (BlankBelow (suc block)) _ _
        (subst (λ t. Ends H (wait_erase pi fuel block (t, s))) (sym e)
          (wait_erase-Ends pi limit flash timed block s hb))
        (λ (st', s') (e', gone, same, safe).
          for_each-Ends (λ p y. BlankBelow (suc block) y) (format_page pi fuel block) page_count
            (λ p y hp h. format_page-Ends block p y hb hp h) page_count 0 (st', cmd, s') refl
            (
              e',
              l,
              λ m hm. elim (Bool-cases (m / page_count == block)) [
                | inl h ↦ gone m (==→eq (m / page_count) block h)
                | inr h ↦
                    let other = ==→ne (m / page_count) block h in
                    ap (λ xs. take page_size xs) (same m other) ∙ k m (omega (arith, hm, other))
              ],
              λ _. safe,
            ))

  -- On a chip that keeps its data sheet and whose time goes by: the format command comes to an end
  -- without stopping the program, and every page of the chip is blank then. A check command after it comes
  -- to an end without stopping the program, too.
  pub format_command-Ends :
      (cmd : List ℕ) (s : pi.State)
      → length cmd ≤ 2112
      → Ends
          (λ (st, cmd', s').
            ((m : ℕ)
              → m < block_count * page_count
              → take page_size ((flash.content s').cell m) ≡ blank)
            × Ends (BlankBelow block_count) (check_command pi fuel cmd' s'))
          (format_command pi fuel cmd s)
  unfolding format_command
  format_command-Ends cmd s l =
      let (y, e, h) =
        for_each-Ends BlankBelow (format_block pi fuel) block_count
          (λ b x hb h. format_block-Ends b x hb h) block_count 0 (device_reset, cmd, s) refl
          (refl, l, λ m hm. absurd (omega (arith, hm)), λ z. absurd (omega (arith, z))) in
      let (st, cmd', s') = y in
      let (_, l', k, safe) = h in
      (y, e, (λ m hm. k m (omega (arith, hm)), check_command-Ends cmd' s' (refl, l', k, safe)))
