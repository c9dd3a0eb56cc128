-- ===== src/Parent.antt =====
-- sw/parent/src: the flash operations of the host tool. Each call looks at the chip once, and takes one step
-- of its operation if the chip is not busy; where the operation stands is the caller's `status`.
pub mod Polls
pub mod Reads
pub mod Places
pub mod Erases
pub mod Writes
use mxfs.Base.{
  ℕ, zero, suc, ◌-◌, Bool, true, false, List, [], ◌∷◌, length, ltb, ◌==◌, if◌then◌else◌,
}
use mxfs.Outcome.{Outcome, returns, stuck}
use mxfs.Bus.{
  Bus, device_reset, write_status_register, write_enable, block_erase, random_pg_data_load,
  pg_execute, pg_data_read, read_instruction, protection_register, configuration_register,
  status_register, is_busy, is_write_enabled, read_mode, high_address, low_address, page_address,
  read_register,
}
use mxfs.Linux.{Linux, linux_bus, linux_command, linux_query}

-- READ_*, ERASE_* and WRITE_*. No call returns READ_INVALID_BLOCK.
pub data ReadReply : Type 0 where
  read_no_data read_with_data read_invalid_block : ReadReply

pub data EraseReply : Type 0 where
  erase_no_done erase_done : EraseReply

pub data WriteReply : Type 0 where
  write_no_done write_done write_exception : WriteReply

-- The instruction WRITE_DISABLE is only used as a status.
abbrev pub write_disable : ℕ
write_disable = 0x04

-- `while (1)` around a call that tells whether the loop is left.
unfoldable pub repeat {ℓ} : {X : Type ℓ} → (X → Bool × X) → ℕ → X → Outcome X
repeat step zero x = stuck
repeat step (suc fuel) x =
    let (done, x') = step x in elim done [ true ↦ returns x' | false ↦ repeat step fuel x' ]

-- `if (ret == READ_WITH_DATA) { break; }`, and the same for an erase.
abbrev pub left_read {ℓ} : {X : Type ℓ} → ReadReply × X → Bool × X
left_read (read_with_data, y) = (true, y)
left_read (read_no_data, y) = (false, y)
left_read (read_invalid_block, y) = (false, y)

abbrev pub left_erase {ℓ} : {X : Type ℓ} → EraseReply × X → Bool × X
left_erase (erase_done, y) = (true, y)
left_erase (erase_no_done, y) = (false, y)

module _ (pi : Linux) where
  -- The only pause is the one of the loops around a write.
  abbrev pub parent_bus : Bus
  parent_bus = linux_bus pi 1000

  -- The caller's status and the chip; a read has the caller's buffer, too.
  abbrev pub Place : Type 0
  Place = ℕ × pi.State

  abbrev pub Buffered : Type 0
  Buffered = ℕ × List ℕ × pi.State

  -- `WRITE_STATUS_REGISTER_L` to register 2 with register 1's bits.
  unfoldable pub start_read : pi.State → pi.State
  start_read s =
      let (flg_protected, s') = read_register parent_bus protection_register s in
      linux_command pi
        (write_status_register ∷ (configuration_register ∷ (read_mode flg_protected ∷ []))) s'

  -- The 32 bytes that are read are only printed.
  unfoldable pub read_initialize : (block : ℕ) → Place → ReadReply × Place
  read_initialize block (status, s) =
      let (flg_status, s1) = read_register parent_bus status_register s in
      if is_busy flg_status
      then (read_no_data, (status, s1))
      else if status == device_reset
      then (read_no_data, (pg_data_read, start_read s1))
      else if status == pg_data_read
      then (
        read_no_data,
        (
          read_instruction,
          linux_command pi (pg_data_read ∷ (0 ∷ (high_address block ∷ (low_address block ∷ []))))
              s1,
        ),
      )
      else if status == read_instruction
      then (
        read_with_data,
        (device_reset, (linux_query pi (read_instruction ∷ (0 ∷ (0 ∷ (0 ∷ [])))) 32 s1).1),
      )
      else (read_no_data, (status, s1))

  -- The answer fills the caller's buffer.
  unfoldable pub read_by_block_page : (block page : ℕ) → Buffered → ReadReply × Buffered
  read_by_block_page block page (status, rbf, s) =
      let (flg_status, s1) = read_register parent_bus status_register s in
      if is_busy flg_status
      then (read_no_data, (status, rbf, s1))
      else if status == device_reset
      then (read_no_data, (pg_data_read, rbf, start_read s1))
      else if status == pg_data_read
      then (
        read_no_data,
        (
          read_instruction,
          rbf,
          linux_command pi
              (pg_data_read ∷ (0 ∷ (high_address block ∷ (page_address block page ∷ [])))) s1,
        ),
      )
      else if status == read_instruction
      then (let (answer, s2) =
            linux_query pi (read_instruction ∷ (0 ∷ (0 ∷ (0 ∷ [])))) (length rbf) s1 in
          (read_with_data, (device_reset, answer, s2)))
      else (read_no_data, (status, rbf, s1))

  unfoldable pub write_block_page : (block page : ℕ) → List ℕ → Place → WriteReply × Place
  write_block_page block page wbf (status, s) =
      let (flg_status, s1) = read_register parent_bus status_register s in
      if is_busy flg_status
      then (write_no_done, (status, s1))
      else if status == device_reset
      then (
        write_no_done,
        (
          write_enable,
          linux_command pi (write_status_register ∷ (protection_register ∷ (0 ∷ []))) s1,
        ),
      )
      else if status == write_enable
      then (write_no_done, (write_disable, linux_command pi (write_enable ∷ []) s1))
      else if status == write_disable
      then (if is_write_enabled flg_status
          then (if ltb (2112 - 3) (length wbf) then (write_exception, (status, s1)) else (
            write_no_done,
            (random_pg_data_load, linux_command pi (random_pg_data_load ∷ (0 ∷ (0 ∷ wbf))) s1),
          ))
          else (write_no_done, (status, s1)))
      else if status == random_pg_data_load
      then (write_no_done, (pg_execute, linux_command pi (write_enable ∷ []) s1))
      else if status == pg_execute
      then (if is_write_enabled flg_status
          then (
            write_done,
            (
              device_reset,
              linux_command pi
                  (pg_execute ∷ (0 ∷ (high_address block ∷ (page_address block page ∷ [])))) s1,
            ),
          )
          else (write_no_done, (status, s1)))
      else (write_no_done, (status, s1))

  -- All three registers are asked for; only the status is used.
  unfoldable pub erase_block : (block : ℕ) → Place → EraseReply × Place
  erase_block block (status, s) =
      let s1 = (read_register parent_bus protection_register s).1 in
      let s2 = (read_register parent_bus configuration_register s1).1 in
      let (flg_status, s3) = read_register parent_bus status_register s2 in
      if is_busy flg_status
      then (erase_no_done, (status, s3))
      else if status == device_reset
      then (
        erase_no_done,
        (
          write_enable,
          linux_command pi (write_status_register ∷ (protection_register ∷ (0 ∷ []))) s3,
        ),
      )
      else if status == write_enable
      then (erase_no_done, (block_erase, linux_command pi (write_enable ∷ []) s3))
      else if status == block_erase
      then (if is_write_enabled flg_status
          then (
            erase_done,
            (
              device_reset,
              linux_command pi (block_erase ∷ (0 ∷ (high_address block ∷ (low_address block ∷ []))))
                  s3,
            ),
          )
          else (erase_no_done, (status, s3)))
      else (erase_no_done, (status, s3))

  -- The loops of format.cc around the calls.
  abbrev pub wait_read : ℕ → (block page : ℕ) → Buffered → Outcome Buffered
  wait_read fuel block page x = repeat (λ y. left_read (read_by_block_page block page y)) fuel x

  abbrev pub wait_erase : ℕ → (block : ℕ) → Place → Outcome Place
  wait_erase fuel block x = repeat (λ y. left_erase (erase_block block y)) fuel x

  -- A round that does not end the loop sleeps for a millisecond, an exception included.
  abbrev pub left_write : WriteReply × Place → Bool × Place
  left_write (write_done, y) = (true, y)
  left_write (write_no_done, (status, s)) = (false, (status, pi.usleep 1000 s))
  left_write (write_exception, (status, s)) = (false, (status, pi.usleep 1000 s))

  abbrev pub wait_write : ℕ → (block page : ℕ) → List ℕ → Place → Outcome Place
  wait_write fuel block page wbf x =
      repeat (λ y. left_write (write_block_page block page wbf y)) fuel x
