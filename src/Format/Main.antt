-- ===== src/Format/Main.antt =====
-- sw/parent/src/format.cc: `main` behind its options.
use mxfs.Base.{ℕ, List, [], ◌∷◌, replicate, splice}
use mxfs.Outcome.{Outcome, returns, ◌>>=◌}
use mxfs.Bus.{device_reset, write_enable, protection_register}
use mxfs.Linux.{Linux}
use mxfs.Parent.{Place}
use mxfs.Format.{
  cmd_size, setup, initialize, read_command, erase_command, format_command, check_command,
  config_command, write_command,
}
use mxfs.Format.Search.{search_command}
use mxfs.Format.Csv.{csv_command}

-- The option -t; every other text is `not_supported`.
pub data Command : Type 0 where
  read erase format check config write csv search not_supported : Command

-- The other options.
pub record Options : Type 0 where
  pub block_s : ℕ
  pub block_e : ℕ
  pub page_s : ℕ
  pub page_e : ℕ
  pub epoch_s : ℕ
  pub epoch_e : ℕ
  pub config_text : List ℕ

-- `cmd` behind the setup: the last two commands stand in it.
abbrev pub start_cmd : List ℕ
start_cmd = splice 0 (write_enable ∷ (protection_register ∷ (0 ∷ []))) (replicate cmd_size 0)

module _ (pi : Linux) where
  -- Every block is read once, but for an erase.
  unfoldable pub before : ℕ → Command → pi.State → Outcome (Place pi)
  before fuel erase s = returns (device_reset, s)
  before fuel _ s = initialize pi fuel s

  unfoldable pub run : ℕ → Command → Options → pi.State → Outcome pi.State
  run fuel read o s = do
    (status, cmd, s') ←
        read_command pi fuel o.block_s o.block_e o.page_s o.page_e (device_reset, start_cmd, s)
    returns s'
  run fuel erase o s = do (status, s') ← erase_command pi fuel o.block_s o.block_e s; returns s'
  run fuel format o s = do (status, cmd, s') ← format_command pi fuel start_cmd s; returns s'
  run fuel check o s = do (status, cmd, s') ← check_command pi fuel start_cmd s; returns s'
  run fuel config o s = config_command pi fuel o.config_text s
  run fuel write o s = do
    (cmd, s') ← write_command pi fuel o.block_s o.block_e o.page_s o.page_e (start_cmd, s)
    returns s'
  run fuel csv o s = do
    (lines, s') ← csv_command pi fuel o.block_s o.block_e o.page_s o.page_e s
    returns s'
  run fuel search o s = do
    (found, cmd, s') ← search_command pi o.epoch_s o.epoch_e fuel start_cmd s
    returns s'
  run fuel not_supported o s = returns s

  unfoldable pub main : ℕ → Command → Options → pi.State → Outcome pi.State
  main fuel c o s = do
    s1 ← setup pi s
    (status, s2) ← before fuel c s1
    s3 ← run fuel c o s2
    returns (pi.close_spi (pi.close_gpio (pi.unmap_gpio s3)))
