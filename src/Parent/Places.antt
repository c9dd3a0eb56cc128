-- ===== src/Parent/Places.antt =====
-- The steps that the host tool's writes and erases share: a call looks at the chip, and sends one command
-- if it is not busy.
use mxfs.Base.{
  ℕ, ◌≤◌, ◌≡◌, refl, sym, ap, subst, ◌∙◌, ◌⊎◌, inl, inr, Bool, true, false, List, [], ◌∷◌, arith,
  ltb, ltb→lt, ltb→le, Bool-cases,
}
use mxfs.Bus.{
  status_register, protection_register, write_status_register, write_enable, read_register,
}
use mxfs.Linux.{Linux, linux_command}
use mxfs.Nand.{Content, IsFlash, IsTimed}
use mxfs.Nand.Steps.{Is, EnabledWith}
use mxfs.Parent.{parent_bus, Place}
use mxfs.Parent.Polls.{Stays, Moves}

module _ (pi : Linux) (limit : ℕ) (flash : IsFlash (parent_bus pi) limit)
    (timed : IsTimed (parent_bus pi) limit flash.timing) where
  abbrev pub busy_of : Place pi → ℕ
  busy_of (status, s) = flash.timing.busy s

  -- The operation stands at this status, and the chip has this content.
  abbrev pub At : ℕ → Content → Place pi → Type 0
  At status c (st, s) = (st ≡ status) × (flash.content s ≡ c)

  -- And it takes a write.
  abbrev pub AtEnabled : ℕ → Content → Place pi → Type 0
  AtEnabled status c (st, s) =
      (st ≡ status)
      × (flash.timing.busy s ≡ 0)
      × (flash.timing.enabled s ≡ true)
      × (flash.content s ≡ c)

  -- Looks and pauses are quiet.
  abbrev pub IsQuiet : (pi.State → pi.State) → Type 0
  IsQuiet f =
      (s : pi.State)
      → (flash.timing.busy (f s) ≤ flash.timing.busy s)
        × (flash.timing.enabled (f s) ≡ flash.timing.enabled s)
        × (flash.content (f s) ≡ flash.content s)

  -- A step looks at the chip after `pre`; a round that goes on ends with `post`.
  module _ (step : Place pi → Bool × Place pi) (pre post : pi.State → pi.State)
      (pre_quiet : IsQuiet pre) (post_quiet : IsQuiet post) where
    abbrev pub looked : pi.State → pi.State
    looked s = (read_register (parent_bus pi) status_register (pre s)).1

    -- A busy chip: nothing is sent.
    abbrev pub Waits : Type 0
    Waits =
        (st : ℕ) (s : pi.State)
        → ltb 0 (flash.timing.busy (pre s)) ≡ true
        → step (st, s) ≡ (false, (st, post (looked s)))

    pub look_quiet : IsQuiet looked
    look_quiet s =
        let (a, b, c) = pre_quiet s in
        let (x, y) = flash.timing.asking status_register (pre s) in
        (omega (arith, a, x), y ∙ b, flash.asking_keeps status_register (pre s) ∙ c)

    -- One command, sent to a chip that is not busy.
    pub sends :
        (waits : Waits) (status status' : ℕ) (bytes : List ℕ) (c : Content) (K : Place pi → Type 0)
        → ((s : pi.State)
            → ltb 0 (flash.timing.busy (pre s)) ≡ false
            → step (status, s) ≡ (false, (status', post (linux_command pi bytes (looked s)))))
        → ((t : pi.State)
            → flash.timing.busy t ≡ 0
            → flash.content t ≡ c
            → K (status', post (linux_command pi bytes t)))
        → (x : Place pi) → At status c x
        → Stays step busy_of (At status c) x ⊎ Moves step busy_of K x
    sends waits status status' bytes c K eq next (st, s) (e, k) =
        let (a, b, d) = look_quiet s in
        let (p, q, r) = post_quiet (looked s) in
        elim (Bool-cases (ltb 0 (flash.timing.busy (pre s)))) [
          | inl h ↦
              let less = timed.looking (pre s) (ltb→lt 0 (flash.timing.busy (pre s)) h) in
              inl (
                (st, post (looked s)),
                waits st s h,
                omega (arith, less, p, (pre_quiet s).0),
                (e, r ∙ d ∙ k),
              )
          | inr h ↦
              let low = ltb→le 0 (flash.timing.busy (pre s)) h in
              let x = (flash.timing.asking status_register (pre s)).0 in
              inr (
                (status', post (linux_command pi bytes (looked s))),
                subst
                    (λ n.
                      step (n, s) ≡ (false, (status', post (linux_command pi bytes (looked s)))))
                    (sym e) (eq s h),
                next (looked s) (omega (arith, low, x)) (d ∙ k),
              )
        ]

    -- What the pages' lemmas need, behind the look of an operation that is enabled.
    pub enabled_look :
        (c : Content) (s : pi.State)
        → flash.timing.busy s ≡ 0
        → flash.timing.enabled s ≡ true
        → flash.content s ≡ c
        → EnabledWith (parent_bus pi) limit flash (Is (parent_bus pi) limit flash c) (looked s)
    enabled_look c s z e k = let (a, b, d) = look_quiet s in (omega (arith, a, z), b ∙ e, d ∙ k)

    -- The command that takes the protection off.
    pub unprotect_sends :
        (status : ℕ) (c : Content) (t : pi.State)
        → flash.timing.busy t ≡ 0
        → flash.content t ≡ c
        → At status
            (record c { is_protected = false })
            (
              status,
              post (linux_command pi (write_status_register ∷ (protection_register ∷ (0 ∷ []))) t),
            )
    unprotect_sends status c t z k =
        let (_, _, d) =
          post_quiet
            (linux_command pi (write_status_register ∷ (protection_register ∷ (0 ∷ []))) t) in
        (
          refl,
          d ∙ flash.unprotecting t z ∙ ap (λ (x : Content). record x { is_protected = false }) k,
        )

    -- The command that enables a write.
    pub enable_sends :
        (status : ℕ) (c : Content) (t : pi.State)
        → flash.timing.busy t ≡ 0
        → flash.content t ≡ c
        → AtEnabled status c (status, post (linux_command pi (write_enable ∷ []) t))
    enable_sends status c t z k =
        let (a, b, d) = post_quiet (linux_command pi (write_enable ∷ []) t) in
        let (x, y) = flash.timing.enabling t z in
        (refl, omega (arith, a, x), b ∙ y, d ∙ flash.enabling_keeps t z ∙ k)
