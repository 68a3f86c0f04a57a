-- ===== src/Screen/Switch.antt =====
-- The switch of the shown process, process_switch of src/task/process.c.
use serpae_os.Common.{
  ℕ, ◌%◌, ◌^◌, ◌<◌, ◌≡◌, ◌≢◌, refl, true, false, ltb, leb, ◌==◌, arith, ℕ_discrete,
}
use serpae_os.Terminal.{set_cursor}
use serpae_os.Terminal.Cursor.{IsInside}
use serpae_os.Screen.{Display, cells, save_video, load_video, process_switch}

-- The current process is the one whose screen is marked as shown.
abbrev pub IsShown : Display → Type 0
IsShown d =
    ((d.screens d.current).current_screen ≡ true)
    × ((i : ℕ) → i ≢ d.current → (d.screens i).current_screen ≡ false)

-- A switch to any process, the current one too, marks its screen as shown, and no other.
pub process_switch-IsShown :
    (d : Display) (process : ℕ) → IsShown d → IsShown (process_switch d process)
unfolding process_switch save_video load_video
process_switch-IsShown d process (shown, others) =
    let own : (process == process) ≡ true = ground arith in
    (
      rw own,
      λ i ne.
          let other : (i == process) ≡ false = ground arith in
          elim (ℕ_discrete i d.current) [
            | yes e ↦ let old : (i == d.current) ≡ true = ground arith in rw (other, old)
            | no hidden ↦
                let new : (i == d.current) ≡ false = ground arith in
                rw (other, new) (others i hidden)
          ],
    )

-- If the cursor is on the screen, a switch to another process and back gives the terminal its cells
-- and its cursor back, and the display its process.
pub process_switch-process_switch :
    (d : Display) (process : ℕ)
    → process ≢ d.current
    → IsInside d.terminal
    → ((p : ℕ)
        → p < cells
        → (process_switch (process_switch d process) d.current).terminal.video p
          ≡ d.terminal.video p)
      × ((process_switch (process_switch d process) d.current).terminal.row ≡ d.terminal.row)
      × ((process_switch (process_switch d process) d.current).terminal.col ≡ d.terminal.col)
      × ((process_switch (process_switch d process) d.current).current ≡ d.current)
unfolding process_switch save_video load_video set_cursor
process_switch-process_switch d process ne inside =
    let a : (d.current == process) ≡ false = ground arith in
    let b : (process == d.current) ≡ false = ground arith in
    let own : (d.current == d.current) ≡ true = ground arith in
    let row : leb 25 (d.terminal.row % 2 ^ 16) ≡ false = ground arith in
    let col : leb 80 (d.terminal.col % 2 ^ 16) ≡ false = ground arith in
    (
      λ p h. let low : ltb p cells ≡ true = ground arith in rw (a, own, low),
      rw (a, own, row) (omega arith),
      rw (a, own, col) (omega arith),
      refl,
    )
