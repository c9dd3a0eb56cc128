-- ===== src/Nand/Steps.antt =====
-- What one command and the loop behind it make of the content of the chip: the steps that the operations
-- of the drivers are made of.
use mxfs.Base.{
  ℕ, ◌/◌, ◌%◌, ◌≤◌, ◌≡◌, ◌≢◌, refl, sym, ap, subst, ◌∙◌, true, false, List, [], ◌∷◌, ◌++◌, length,
  take, drop,
}
use mxfs.Instance.{Ret, ok, page_size, page_count}
use mxfs.Driver.{blank}
use mxfs.Bus.{
  Bus, protection_register, configuration_register, block_erase, random_pg_data_load, pg_execute,
  pg_data_read, read_mode, wait_ready, enable_write, write_register,
}
use mxfs.Nand.{Content, IsFlash, address}
use mxfs.Nand.Waits.{
  Ends, IsKept, Readied, Enabled, wait_ready-Ends, enable_write-Ends, write_register-Ends,
}

module _ (bus : Bus) (limit : ℕ) (flash : IsFlash bus limit) where
  -- The content of the chip is such that `P` holds of it.
  abbrev pub Holds {κ} : (Content → Type κ) → bus.State → Type κ
  Holds P s = P (flash.content s)

  pub Holds-IsKept {κ} : (P : Content → Type κ) → IsKept bus limit flash.timing (Holds P)
  Holds-IsKept P = record {
    ask = λ a s k. subst P (sym (flash.asking_keeps a s)) k;
    pause = λ s k. subst P (sym (flash.pausing_keeps s)) k;
  }

  -- A chip that is ready, and one that takes a write besides, with this content.
  abbrev pub ReadyWith {κ} : (Content → Type κ) → bus.State → Type κ
  ReadyWith P = Readied bus limit flash.timing (Holds P) (Holds-IsKept P)

  abbrev pub EnabledWith {κ} : (Content → Type κ) → bus.State → Type κ
  EnabledWith P = Enabled bus limit flash.timing (Holds P) (Holds-IsKept P)

  -- The content is `c`.
  abbrev pub Is : Content → Content → Type 0
  Is c d = d ≡ c

  -- The page that a program put there, and the other ones as they were; the chip is not protected.
  abbrev pub HasPage : ℕ → List ℕ → Content → Content → Type 0
  HasPage n bytes c d =
      (take page_size (d.cell n) ≡ bytes)
      × ((m : ℕ) → m ≢ n → d.cell m ≡ c.cell m)
      × (d.is_protected ≡ false)

  -- The block that was erased, and the other ones as they were; the chip is not protected.
  abbrev pub HasBlank : ℕ → Content → Content → Type 0
  HasBlank n c d =
      ((m : ℕ) → m / 64 ≡ n / 64 → take page_size (d.cell m) ≡ blank)
      × ((m : ℕ) → m / 64 ≢ n / 64 → d.cell m ≡ c.cell m)
      × (d.is_protected ≡ false)

  -- A read gives `bytes` and leaves the pages alone and unprotected.
  abbrev pub Gives : List ℕ → Content → Ret × List ℕ × bus.State → Type 0
  Gives bytes c (r, answer, s) =
      (r ≡ ok)
      × (answer ≡ bytes)
      × ((flash.content s).cell ≡ c.cell)
      × ((flash.content s).is_protected ≡ false)

  -- A write puts `bytes` on page `n` and leaves the others alone.
  abbrev pub Puts : ℕ → List ℕ → Content → Ret × bus.State → Type 0
  Puts n bytes c (r, s) = (r ≡ ok) × HasPage n bytes c (flash.content s)

  -- An erase blanks the pages of the block and leaves the others alone.
  abbrev pub Clears : ℕ → Content → Ret × bus.State → Type 0
  Clears block c (r, s) =
      (r ≡ ok)
      × ((m : ℕ) → m / page_count ≡ block → take page_size ((flash.content s).cell m) ≡ blank)
      × ((m : ℕ) → m / page_count ≢ block → (flash.content s).cell m ≡ c.cell m)
      × ((flash.content s).is_protected ≡ false)

  pub ready-Ends {κ} :
      (P : Content → Type κ) (s : bus.State)
      → P (flash.content s)
      → Ends (ReadyWith P) (wait_ready bus limit s)
  ready-Ends P s k = wait_ready-Ends bus limit flash.timing (Holds P) (Holds-IsKept P) s k

  pub enable-Ends {κ} :
      (P : Content → Type κ) (s : bus.State)
      → ReadyWith P s
      → Ends (EnabledWith P) (enable_write bus limit s)
  enable-Ends P s (z, k) =
      enable_write-Ends bus limit flash.timing (Holds P) (Holds-IsKept P) s z
        (subst P (sym (flash.enabling_keeps s z)) k)

  pub unprotect-Ends :
      (c : Content) (s : bus.State)
      → ReadyWith (Is c) s
      → Ends
          (ReadyWith (Is (record c { is_protected = false })))
          (write_register bus limit protection_register 0 s)
  unprotect-Ends c s (z, k) =
      let d = record c { is_protected = false } in
      write_register-Ends bus limit flash.timing (Holds (Is d)) (Holds-IsKept (Is d))
        protection_register 0 s
        (flash.unprotecting s z ∙ ap (λ (x : Content). record x { is_protected = false }) k)

  pub configure-Ends :
      (c : Content) (v : ℕ) (s : bus.State)
      → v ≡ 0
      → ReadyWith (Is c) s
      → Ends
          (ReadyWith (Is (record c { is_buffered = true })))
          (write_register bus limit configuration_register (read_mode v) s)
  configure-Ends c v s h (z, k) =
      let d = record c { is_buffered = true } in
      write_register-Ends bus limit flash.timing (Holds (Is d)) (Holds-IsKept (Is d))
        configuration_register (read_mode v) s
        (flash.configuring (read_mode v) s z (subst (λ a. read_mode a / 8 % 2 ≡ 1) (sym h) refl)
            (subst (λ a. read_mode a / 64 % 2 ≡ 0) (sym h) refl)
          ∙ ap (λ (x : Content). record x { is_buffered = true }) k)

  pub fetch-Ends :
      (c : Content) (hi lo : ℕ) (s : bus.State)
      → ReadyWith (Is c) s
      → Ends
          (ReadyWith (Is (record c { cache = c.cell (address hi lo) })))
          (wait_ready bus limit (bus.command (pg_data_read ∷ (0 ∷ (hi ∷ (lo ∷ [])))) s))
  fetch-Ends c hi lo s (z, k) = ready-Ends (Is (record c { cache = c.cell (address hi lo) })) _ (
      flash.fetching hi lo s z
      ∙ ap (λ (x : Content). record x { cache = x.cell (address hi lo) }) k)

  -- The state behind a load, with and without a loop that waits.
  pub loaded :
      (c : Content) (bytes : List ℕ) (s : bus.State)
      → EnabledWith (Is c) s
      → length bytes ≤ 2112
      → ReadyWith
          (Is (record c { cache = bytes ++ drop (length bytes) c.cache }))
          (bus.command (random_pg_data_load ∷ (0 ∷ (0 ∷ bytes))) s)
  loaded c bytes s (z, e, k) h =
      let (a, b) = flash.loading bytes s z e h in
      (b, a ∙ ap (λ (x : Content). record x { cache = bytes ++ drop (length bytes) x.cache }) k)

  pub programmed :
      (c : Content) (hi lo : ℕ) (s : bus.State)
      → EnabledWith (Is c) s
      → c.is_protected ≡ false
      → take page_size (c.cell (address hi lo)) ≡ blank
      → HasPage
          (address hi lo)
          (take page_size c.cache)
          c
          (flash.content (bus.command (pg_execute ∷ (0 ∷ (hi ∷ (lo ∷ [])))) s))
  programmed c hi lo s (z, e, k) p b =
      let f = flash.programming hi lo s z e in
      subst
        (λ x.
          x.is_protected ≡ false
          → take page_size (x.cell (address hi lo)) ≡ blank
          → HasPage (address hi lo) (take page_size x.cache) x
              (flash.content (bus.command (pg_execute ∷ (0 ∷ (hi ∷ (lo ∷ [])))) s)))
        k f p b

  pub erased :
      (c : Content) (hi lo : ℕ) (s : bus.State)
      → EnabledWith (Is c) s
      → c.is_protected ≡ false
      → HasBlank
          (address hi lo)
          c
          (flash.content (bus.command (block_erase ∷ (0 ∷ (hi ∷ (lo ∷ [])))) s))
  erased c hi lo s (z, e, k) p =
      subst
        (λ x.
          x.is_protected ≡ false
          → HasBlank (address hi lo) x
              (flash.content (bus.command (block_erase ∷ (0 ∷ (hi ∷ (lo ∷ [])))) s)))
        k (flash.erasing hi lo s z e) p
