-- ===== src/Screen/Tests.antt =====
-- The theorems about screens, at two processes.
use serpae_os.Common.{ℕ, ◌<◌, ◌≡◌, ◌==◌, arith}
use serpae_os.Common.Int.{pos}
use serpae_os.Screen.{Display, cells, process_switch}
use serpae_os.Screen.Switch.{process_switch-process_switch}

-- Process 1 is shown.
abbrev display : Display
display = record {
  terminal = record { video = λ p. p; row = 3; col = 7 };
  screens = λ i. record { current_screen = i == 1; x = pos 0; y = i; video = λ p. 32 };
  current = 1;
}

process_switch-process_switch_example :
    ((p : ℕ) → p < cells → (process_switch (process_switch display 2) 1).terminal.video p ≡ p)
    × ((process_switch (process_switch display 2) 1).terminal.row ≡ 3)
    × ((process_switch (process_switch display 2) 1).terminal.col ≡ 7)
    × ((process_switch (process_switch display 2) 1).current ≡ 1)
process_switch-process_switch_example =
    process_switch-process_switch display 2 (λ e. absurd (omega (arith, e)))
      (omega arith, omega arith)
