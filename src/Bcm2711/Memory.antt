-- ===== src/Bcm2711/Memory.antt =====
-- The transfers of sw/child/src/drivers/bcm2711/bcm2711_spi.cc where malloc gives memory for their size: the
-- loops over them then end as the ones over the bus do.
use mxfs.Base.{
  subst, ℕ, zero, suc, ◌≤◌, ◌≡◌, refl, sym, ap, ◌∙◌, none, some, true, false, List, [], ◌∷◌, arith,
  length, Bool-cases, inl, inr, from_le, replicate,
}
use mxfs.Outcome.{Outcome, returns}
use mxfs.Bus.{
  read_status_register, read_instruction, status_register, write_enable, is_busy, is_write_enabled,
  read_register, wait_ready, wait_enabled, enable_write,
}
use mxfs.Linux.{
  Linux, gpset0, gpclr0, cs_bit, linux_bus, linux_command, linux_query, spi_read, spi_write,
}
use mxfs.Nand.Waits.{Ends}
use mxfs.Bcm2711.Spi.{
  Malloc, driver_spi_read, driver_spi_write, driver_command, driver_query, driver_register,
  driver_ready, driver_enabled,
}

-- There is memory for every buffer of up to `k` bytes.
abbrev pub HasMemory : (pi : Linux) → Malloc pi → ℕ → Type 0
HasMemory pi malloc k =
    (n : ℕ) (s : pi.State)
    → n ≤ k
    → (bytes : List ℕ) × (malloc n s ≡ some bytes) × (length bytes ≡ n)

-- While the chip answers, it takes no notice of the bytes that are sent to it.
pub record IsDeaf (pi : Linux) : Type 0 where
  pub telling :
      (a : ℕ) (tx : List ℕ) (s : pi.State)
      → let t = spi_write pi (read_status_register ∷ (a ∷ [])) (pi.write_gpio gpclr0 cs_bit s) in
        pi.message tx t ≡ pi.message (replicate (length tx) 0) t
  pub giving :
      (tx : List ℕ) (s : pi.State)
      → let t =
          spi_write pi (read_instruction ∷ (0 ∷ (0 ∷ (0 ∷ [])))) (pi.write_gpio gpclr0 cs_bit s) in
        pi.message tx t ≡ pi.message (replicate (length tx) 0) t

-- Without memory for its bytes, a command is a chip select alone.
pub command_lost :
    (pi : Linux) (malloc : Malloc pi) (bytes : List ℕ) (s : pi.State)
    → malloc (length bytes) (pi.write_gpio gpclr0 cs_bit s) ≡ none
    → driver_command pi malloc bytes s ≡ pi.write_gpio gpset0 cs_bit (pi.write_gpio gpclr0 cs_bit s)
unfolding driver_command driver_spi_write
command_lost pi malloc bytes s h =
    let u = pi.write_gpio gpclr0 cs_bit s in
    let e : driver_spi_write pi malloc bytes u ≡ u = rw (h, driver_spi_write) refl in
    ap (λ t. pi.write_gpio gpset0 cs_bit t) e

module _ (pi : Linux) (malloc : Malloc pi) (k : ℕ) (memory : HasMemory pi malloc k) where
  spi_write_same :
      (tx : List ℕ) (s : pi.State)
      → length tx ≤ k
      → driver_spi_write pi malloc tx s ≡ spi_write pi tx s
  unfolding driver_spi_write spi_write
  spi_write_same tx s h =
      let (bytes, e, n) = memory (length tx) s h in rw (e, driver_spi_write) refl

  pub command_same :
      (bytes : List ℕ) (s : pi.State)
      → length bytes ≤ k
      → driver_command pi malloc bytes s ≡ linux_command pi bytes s
  unfolding driver_command linux_command
  command_same bytes s h =
      ap (λ t. pi.write_gpio gpset0 cs_bit t)
        (spi_write_same bytes (pi.write_gpio gpclr0 cs_bit s) h)

  -- A state in which the chip takes no notice of what it is sent.
  abbrev Deaf : pi.State → Type 0
  Deaf t = (tx : List ℕ) → pi.message tx t ≡ pi.message (replicate (length tx) 0) t

  spi_read_same :
      (rx : List ℕ) (t : pi.State)
      → length rx ≤ k
      → Deaf t
      → driver_spi_read pi malloc rx t ≡ spi_read pi (length rx) t
  unfolding driver_spi_read spi_read
  spi_read_same rx t h deaf =
      let (tx, e, n) = memory (length rx) t h in
      rw (e, driver_spi_read) (deaf tx ∙ ap (λ (m : ℕ). pi.message (replicate m 0) t) n)

  pub query_same :
      (bytes rx : List ℕ) (s : pi.State)
      → length bytes ≤ k
      → length rx ≤ k
      → Deaf (spi_write pi bytes (pi.write_gpio gpclr0 cs_bit s))
      → driver_query pi malloc bytes rx s ≡ linux_query pi bytes (length rx) s
  unfolding driver_query linux_query
  query_same bytes rx s h q deaf =
      let t = pi.write_gpio gpclr0 cs_bit s in
      ap (λ (x : List ℕ × pi.State). (x.0, pi.write_gpio gpset0 cs_bit x.1))
        (ap (driver_spi_read pi malloc rx) (spi_write_same bytes t h)
          ∙ spi_read_same rx (spi_write pi bytes t) q deaf)

module _ (pi : Linux) (malloc : Malloc pi) (memory : HasMemory pi malloc 4) (deaf : IsDeaf pi) where
  pub register_same :
      (a flag : ℕ) (s : pi.State)
      → driver_register pi malloc a flag s ≡ read_register (linux_bus pi 10) a s
  unfolding driver_register read_register
  register_same a flag s =
      ap (λ (x : List ℕ × pi.State). (from_le x.0, x.1))
        (query_same pi malloc 4 memory (read_status_register ∷ (a ∷ [])) (flag ∷ []) s (omega arith)
          (omega arith) (λ tx. deaf.telling a tx s))

  -- Where the loop over the bus ends, so does the driver's, whatever its variable held.
  ready_follows :
      (fuel flag : ℕ) (s t : pi.State)
      → wait_ready (linux_bus pi 10) fuel s ≡ returns t
      → (f : ℕ) × (driver_ready pi malloc fuel flag s ≡ returns (f, t))
  unfolding wait_ready driver_ready
  ready_follows zero flag s t h = absurd (cc h)
  ready_follows (suc fuel) flag s t h =
      let r = driver_register pi malloc status_register flag s in
      let g =
        subst
          (λ (x : ℕ × pi.State).
            ◌≡◌ {A = Outcome pi.State}
              (elim (is_busy x.0) [
                | true ↦ wait_ready (linux_bus pi 10) fuel (pi.usleep 10 x.1)
                | false ↦ returns x.1
              ])
              (returns t))
          (sym (register_same status_register flag s)) h in
      elim (Bool-cases (is_busy r.0)) [
        | inl e ↦ rw (e, driver_ready) (ready_follows fuel r.0 (pi.usleep 10 r.1) t (rw e at g))
        | inr e ↦ rw (e, driver_ready) (r.0, ap (λ x. returns (r.0, x)) (cc (rw e at g)))
      ]

  enabled_follows :
      (fuel flag : ℕ) (s t : pi.State)
      → wait_enabled (linux_bus pi 10) fuel s ≡ returns t
      → (f : ℕ) × (driver_enabled pi malloc fuel flag s ≡ returns (f, t))
  unfolding wait_enabled driver_enabled
  enabled_follows zero flag s t h = absurd (cc h)
  enabled_follows (suc fuel) flag s t h =
      let r = driver_register pi malloc status_register flag s in
      let g =
        subst
          (λ (x : ℕ × pi.State).
            ◌≡◌ {A = Outcome pi.State}
              (elim (is_busy x.0) [
                | true ↦ wait_enabled (linux_bus pi 10) fuel (pi.usleep 10 x.1)
                | false ↦ elim (is_write_enabled x.0) [
                  | true ↦ returns x.1
                  | false ↦ wait_enabled (linux_bus pi 10) fuel (pi.usleep 10 x.1)
                ]
              ])
              (returns t))
          (sym (register_same status_register flag s)) h in
      elim (Bool-cases (is_busy r.0)) [
        | inl e ↦ rw (e, driver_enabled) (enabled_follows fuel r.0 (pi.usleep 10 r.1) t (rw e at g))
        | inr e ↦ elim (Bool-cases (is_write_enabled r.0)) [
          | inl w ↦
              rw (e, w, driver_enabled) (r.0, ap (λ x. returns (r.0, x)) (cc (rw (e, w) at g)))
          | inr w ↦
              rw (e, w, driver_enabled)
                (enabled_follows fuel r.0 (pi.usleep 10 r.1) t (rw (e, w) at g))
        ]
      ]

  -- A property of the chip behind the loop.
  abbrev pub Later {κ} : (pi.State → Type κ) → ℕ × pi.State → Type κ
  Later P (f, t) = P t

  pub ready-Later {κ} :
      (P : pi.State → Type κ) (fuel flag : ℕ) (s : pi.State)
      → Ends P (wait_ready (linux_bus pi 10) fuel s)
      → Ends (Later P) (driver_ready pi malloc fuel flag s)
  ready-Later P fuel flag s (t, e, p) = let (f, q) = ready_follows fuel flag s t e in ((f, t), q, p)

  pub enabled-Later {κ} :
      (P : pi.State → Type κ) (fuel flag : ℕ) (s : pi.State)
      → Ends P (enable_write (linux_bus pi 10) fuel s)
      → Ends
          (Later P)
          (driver_enabled pi malloc fuel flag (driver_command pi malloc (write_enable ∷ []) s))
  unfolding enable_write
  enabled-Later P fuel flag s (t, e, p) =
      let c = command_same pi malloc 4 memory (write_enable ∷ []) s (omega arith) in
      let (f, q) = enabled_follows fuel flag (linux_command pi (write_enable ∷ []) s) t e in
      rw c ((f, t), q, p)
