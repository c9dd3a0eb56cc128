-- ===== src/Runs/Tool.antt =====
-- Runs of the host tool's commands on the small chip.
use mxfs.Base.{ℕ, ◌*◌, ◌<◌, ◌≡◌, [], ◌∷◌, arith, replicate, take, length-replicate}
use mxfs.Instance.{page_size, page_count, block_count}
use mxfs.Driver.{blank}
use mxfs.Outcome.{returns}
use mxfs.Nand.Waits.{Ends}
use mxfs.Read.{read_loop, read_fuel}
use mxfs.Format.{format_command, check_command, config_command}
use mxfs.Format.Formatted.{BlankBelow, format_command-Ends}
use mxfs.Format.Config.{config_command-read_loop}
use mxfs.Runs.Device.{blank_page}
use mxfs.Runs.Pi.{pi, pi-IsFlash, pi-IsTimed, idle}

format_command-Ends_example :
    Ends
      (λ (st, cmd, s).
        ((m : ℕ)
          → m < block_count * page_count
          → take page_size (((pi-IsFlash 1000).content s).cell m) ≡ blank)
        × Ends
            (BlankBelow pi 10 (pi-IsFlash 1000) pi-IsTimed block_count)
            (check_command pi 30 cmd s))
      (format_command pi 30 (replicate 2112 0) idle)
format_command-Ends_example =
    format_command-Ends pi 10 (pi-IsFlash 1000) pi-IsTimed (replicate 2112 0) idle
      (omega (arith, length-replicate {A = ℕ} 2112 0))

config_command-read_loop_example :
    Ends
      (λ s.
        read_loop 6 512 (take page_size (((pi-IsFlash 1000).content s).cell 0)) read_fuel 0 []
        ≡ returns (0x7b ∷ (0x7d ∷ [])))
      (config_command pi 50 (0x7b ∷ (0x7d ∷ [])) idle)
unfolding pi-IsFlash
config_command-read_loop_example =
    config_command-read_loop pi 10 (pi-IsFlash 1000) pi-IsTimed (0x7b ∷ (0x7d ∷ [])) 512 idle
      (omega arith) (omega arith) (omega arith) blank_page
