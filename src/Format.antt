-- ===== src/Format.antt =====
-- sw/parent/src/format.cc: the commands of the host tool. `exit(1)` stops the program; what is printed is
-- left out. `cmd` is the buffer of 2112 bytes that all commands share.
pub mod Formatted
pub mod Config
pub mod Search
pub mod Csv
pub mod Main
use mxfs.Base.{
  ℕ, zero, suc, ◌+◌, ◌-◌, ◌*◌, ◌/◌, ◌%◌, Bool, true, false, ◌&&◌, ◌||◌, List, [], ◌∷◌, ◌++◌, length,
  ltb, ◌==◌, if◌then◌else◌, take, drop, replicate, splice, to_le, from_le,
}
use mxfs.Header.{Compress, magic_number, header_size, encode, set_type, set_ant_length}
use mxfs.Instance.{page_size, page_count, block_count, layer_max}
use mxfs.Outcome.{Outcome, returns, fault, aborted, stuck, ◌>>=◌}
use mxfs.Bus.{
  device_reset, jedec_id, write_status_register, write_enable, protection_register, is_known,
}
use mxfs.Linux.{Linux, linux_command, linux_query, set_pins, set_mode}
use mxfs.Parent.{
  Buffered, Place, read_initialize, left_read, repeat, wait_read, wait_erase, wait_write,
}

abbrev pub cmd_size : ℕ
cmd_size = 2112

-- `for (n = from; n < from + k; n++)` around a body that may stop the program.
unfoldable pub for_each {ℓ} : {X : Type ℓ} → (ℕ → X → Outcome X) → (k from : ℕ) → X → Outcome X
for_each body zero from x = returns x
for_each body (suc k) from x = body from x >>= λ y. for_each body k (suc from) y

-- `for (auto n = 0; n < 16; n++) { if (cmd[n] != 0xff) ... }`
unfoldable pub is_erased : List ℕ → Bool
is_erased [] = true
is_erased (x ∷ xs) = x == 0xff && is_erased xs

-- `memcmp(cmd, &magic, sizeof(magic)) == 0`
unfoldable pub has_magic : List ℕ → Bool
has_magic cmd = from_le (take 4 cmd) == magic_number

-- The page of a configuration: a header with the size in the 9 bits of `ant.length`, and the bytes.
unfoldable pub config_header : ℕ → Compress
config_header n =
    set_ant_length n
      (set_type layer_max (record { magic = magic_number; time = 0; bits = 0; union = 0 }))

unfoldable pub config_page : List ℕ → List ℕ
config_page config =
    splice header_size config
      (splice 0 (encode (config_header (length config))) (replicate cmd_size 0))

-- `n`, `n + 1`, ..., as bytes.
abbrev pub counting : (k n : ℕ) → List ℕ
counting zero n = []
counting (suc k) n = n % 256 ∷ counting k (suc n)

-- What the test command puts on a page: the block's number is overwritten by the magic number, and so is
-- half of the page's.
unfoldable pub test_page : (block page : ℕ) → List ℕ → List ℕ
test_page block page cmd =
    let numbered = splice 2 (to_le 4 page) (splice 0 (to_le 4 block) cmd) in
    splice 0 (to_le 4 magic_number) (take 8 numbered ++ counting (cmd_size - 8) 8)

module _ (pi : Linux) where
  -- From the opening of the devices to the first write enable. The number is `max_speed`.
  unfoldable pub setup : pi.State → Outcome pi.State
  setup s =
      let (has_gpio, s1) = pi.open_gpio s in
      if has_gpio
      then (let (mapped, s2) = pi.map_gpio s1 in
          if mapped
          then (let (has_spi, s3) = pi.open_spi (set_pins pi s2) in
              if has_spi
              then (let (good, s4) = set_mode pi 80000000 s3 in
                  if good
                  then (let s5 = pi.usleep 1000 (linux_command pi (device_reset ∷ []) s4) in
                      let (id, s6) = linux_query pi (jedec_id ∷ (0 ∷ [])) 3 s5 in
                      if is_known id
                      then (let s7 = pi.usleep 100 (
                            linux_command pi
                              (write_status_register ∷ (protection_register ∷ (0 ∷ []))) s6) in
                          returns (pi.usleep 100 (linux_command pi (write_enable ∷ []) s7)))
                      else aborted)
                  else aborted)
              else aborted)
          else aborted)
      else aborted

  -- The first read of every block, which every command but the erase begins with.
  unfoldable pub initialize_block : ℕ → (block : ℕ) → Place pi → Outcome (Place pi)
  initialize_block fuel block x = repeat (λ y. left_read (read_initialize pi block y)) fuel x

  unfoldable pub initialize : ℕ → pi.State → Outcome (Place pi)
  initialize fuel s = for_each (initialize_block fuel) block_count 0 (device_reset, s)

  -- "read": the blocks from `block_s` to `block_e`, of each the pages from `page_s` to `page_e`.
  unfoldable pub read_block : ℕ → (page_s page_e block : ℕ) → Buffered pi → Outcome (Buffered pi)
  read_block fuel page_s page_e block x =
      for_each (λ page y. wait_read pi fuel block page y) (page_e - page_s) page_s x

  unfoldable pub read_command :
      ℕ → (block_s block_e page_s page_e : ℕ) → Buffered pi → Outcome (Buffered pi)
  read_command fuel block_s block_e page_s page_e (status, cmd, s) =
      for_each (read_block fuel page_s page_e) (block_e - block_s) block_s (device_reset, cmd, s)

  -- "erase"
  unfoldable pub erase_command : ℕ → (block_s block_e : ℕ) → pi.State → Outcome (Place pi)
  erase_command fuel block_s block_e s =
      for_each (λ block y. wait_erase pi fuel block y) (block_e - block_s) block_s (device_reset, s)

  -- "format": every block is erased, and the first bytes of its pages are read back.
  unfoldable pub format_page : ℕ → (block page : ℕ) → Buffered pi → Outcome (Buffered pi)
  format_page fuel block page x = do
    (status, cmd, s) ← wait_read pi fuel block page x
    if is_erased (take 16 cmd) then returns (status, cmd, s) else aborted

  unfoldable pub format_block : ℕ → (block : ℕ) → Buffered pi → Outcome (Buffered pi)
  format_block fuel block (status, cmd, s) = do
    (status', s') ← wait_erase pi fuel block (status, s)
    for_each (format_page fuel block) page_count 0 (status', cmd, s')

  unfoldable pub format_command : ℕ → List ℕ → pi.State → Outcome (Buffered pi)
  format_command fuel cmd s = for_each (format_block fuel) block_count 0 (device_reset, cmd, s)

  -- "check": every page starts with a magic number or is blank there.
  unfoldable pub check_page : ℕ → (block page : ℕ) → Buffered pi → Outcome (Buffered pi)
  check_page fuel block page x = do
    (status, cmd, s) ← wait_read pi fuel block page x
    if has_magic cmd || is_erased (take 16 cmd) then returns (status, cmd, s) else aborted

  unfoldable pub check_block : ℕ → (block : ℕ) → Buffered pi → Outcome (Buffered pi)
  check_block fuel block x = for_each (check_page fuel block) page_count 0 x

  unfoldable pub check_command : ℕ → List ℕ → pi.State → Outcome (Buffered pi)
  check_command fuel cmd s = for_each (check_block fuel) block_count 0 (device_reset, cmd, s)

  -- "config": a configuration that is empty or longer than the test allows is not written. The test lets
  -- sizes pass with which the copy behind the header overruns `cmd`.
  unfoldable pub config_command : ℕ → List ℕ → pi.State → Outcome pi.State
  config_command fuel config s =
      if length config == 0
      then returns s
      else if ltb (length config) (cmd_size - 4)
      then (if ltb cmd_size (header_size + length config) then fault else (do
        (status, s') ←
            wait_write pi fuel 0 0 (take (cmd_size - 64) (config_page config)) (device_reset, s)
        returns s'))
      else returns s

  -- "write": test pages.
  unfoldable pub write_test : ℕ → (block page : ℕ) → List ℕ × pi.State → Outcome (List ℕ × pi.State)
  write_test fuel block page (cmd, s) =
      let filled = test_page block page cmd in
      (do
        (status, s') ← wait_write pi fuel block page (take (cmd_size - 64) filled) (device_reset, s)
        returns (filled, s'))

  unfoldable pub write_tests :
      ℕ → (page_s page_e block : ℕ) → List ℕ × pi.State → Outcome (List ℕ × pi.State)
  write_tests fuel page_s page_e block x =
      for_each (write_test fuel block) (page_e - page_s) page_s x

  unfoldable pub write_command :
      ℕ → (block_s block_e page_s page_e : ℕ) → List ℕ × pi.State → Outcome (List ℕ × pi.State)
  write_command fuel block_s block_e page_s page_e x =
      for_each (write_tests fuel page_s page_e) (block_e - block_s) block_s x
