-- ===== src/Screen.antt =====
-- The screens of processes, src/task/process.c: the text of a process that is not shown, and the
-- switch of processes. A process is the number of its screen. `attr` is the attribute that
-- terminal_get_attr answers, and a screen's 2000 cells are the numbers below 2000 of a function.
pub mod Switch
pub mod Text
mod Tests
use serpae_os.Common.{
  ℕ, zero, suc, ◌+◌, ◌-◌, ◌*◌, ◌/◌, ◌%◌, ◌^◌, ◌≤◌, ◌<◌, ◌≡◌, ◌≢◌, ◌↔◌, ◌⊎◌, inl, inr, refl, Bool,
  true, false, not, ◌&&◌, ◌||◌, Option, none, some, List, [], ◌∷◌, ◌++◌, map, ltb, leb, ◌==◌,
  if◌then◌else◌, length, take, drop, set, get_or, get_elem?, replicate, arith, ap, ap₂, sym, ◌∙◌,
  length-append, length-set, get_or-set_self, get_or-set_ne, set-set, get_or-replicate, get_or_ext,
  length-replicate, length-take, length-drop, get_or-snoc_self, get_or-snoc_ne, get_or_out,
  List-cases, some_cancel, some_ne, Option-cases, Bool-cases, range_cases, tests, dec_lt, dec_le,
  ℕ_discrete, Status, ok, err, Status-cases,
}
use serpae_os.Common.Int.{ℤ, pos, negsuc}
use serpae_os.Terminal.{
  vga_width, vga_height, Terminal, cell_of, get_attr, make_char, put_cell, rows_loop, set_cursor,
  print,
}

pub record Screen : Type 0 where
  pub current_screen : Bool
  pub x : ℤ
  pub y : ℕ
  pub video : ℕ → ℕ

abbrev pub cells : ℕ
cells = vga_width * vga_height

abbrev is_pos : ℤ → ℕ → Bool
is_pos (pos n) k = n == k
is_pos (negsuc n) k = false

unfoldable pub increment : ℤ → ℤ
increment (pos n) = pos (n + 1)
increment (negsuc zero) = pos 0
increment (negsuc (suc n)) = negsuc n

unfoldable pub decrement : ℤ → ℤ
decrement (pos zero) = negsuc 0
decrement (pos (suc n)) = pos n
decrement (negsuc n) = negsuc (suc n)

-- The cell of a column and a row, if it is one of the screen's.
unfoldable pub index : ℤ → ℕ → Option ℕ
index (pos n) y = if ltb (cell_of n y) cells then some (cell_of n y) else none
index (negsuc n) y =
    if ltb n (y * vga_width) && ltb (y * vga_width - (n + 1)) cells
    then some (y * vga_width - (n + 1))
    else none

unfoldable pub blank_row : ℕ → ℕ → (ℕ → ℕ) → ℕ → ℕ
blank_row zero i video = video
blank_row (suc rounds) value video = blank_row rounds value (put_cell video (1920 + rounds) value)

abbrev pub moved : Screen → ℤ → ℕ → (ℕ → ℕ) → Screen
moved s x y video = record { current_screen = s.current_screen; x = x; y = y; video = video }

-- The attribute is the same in each round, so the order of the last row's cells does not matter.
unfoldable pub scroll_down : ℕ → Screen → Screen
scroll_down attr s =
    moved s s.x s.y
      (blank_row vga_width (make_char b' ' attr) (rows_loop (vga_height - 1) 1 s.video))

-- The end of `process_writechar`, behind the scrolling. `none` is a write outside the cells.
unfoldable pub put_plain : ℕ → ℕ → Screen → Option Screen
put_plain c colour s = elim (index s.x s.y) [
  | none ↦ none
  | some i ↦
      let video = put_cell s.video i (make_char c colour) in
      elim (increment s.x) [
        | pos n ↦
            if leb vga_width n
            then some (moved s (pos 0) (s.y + 1) video)
            else some (moved s (pos n) s.y video)
        | negsuc n ↦ some (moved s (negsuc n) s.y video)
      ]
]

-- The part of `process_writechar` behind the characters that move the cursor only.
unfoldable pub write_plain : ℕ → ℕ → ℕ → Screen → Option Screen
write_plain c colour attr s =
    put_plain c colour (if is_pos s.x 79 && s.y == 24 then scroll_down attr s else s)

-- The space is written by `process_writechar`, which passes its tests.
unfoldable pub backspace : ℕ → Screen → Option Screen
backspace attr s =
    let left : Screen =
      if is_pos s.x 0
      then moved s (pos vga_width) (s.y - 1) s.video
      else moved s (decrement s.x) s.y s.video in
    if is_pos s.x 0 && s.y == 0 then some s else elim (write_plain b' ' attr attr left) [
      | none ↦ none
      | some w ↦ some (moved w (decrement w.x) w.y w.video)
    ]

unfoldable pub writechar : ℕ → ℕ → ℕ → Screen → Option Screen
writechar c colour attr s =
    let down = if s.y == 24 then scroll_down attr s else moved s s.x (s.y + 1) s.video in
    if c == 10 || c == 13
    then some (moved down (pos 0) down.y down.video)
    else if c == 12
    then some down
    else if c == 8
    then backspace attr s
    else write_plain c colour attr s

-- The loop of `process_print` for a screen that is not shown.
unfoldable pub print_loop : List ℕ → ℕ → Screen → Option Screen
print_loop [] attr s = some s
print_loop (c ∷ message) attr s = elim (writechar c attr attr s) [
  | none ↦ none
  | some s' ↦ print_loop message attr s'
]

-- The text goes to the terminal, if the screen is shown.
unfoldable pub process_print : List ℕ → Terminal → Screen → Option (Terminal × Screen)
process_print message t s =
    if s.current_screen
    then some (print message t, s)
    else elim (print_loop message (get_attr t) s) [ none ↦ none | some s' ↦ some (t, s') ]

-- The cells of one function below 2000, of another from there on.
abbrev pub copied : (ℕ → ℕ) → (ℕ → ℕ) → ℕ → ℕ
copied from to p = if ltb p cells then from p else to p

unfoldable pub save_video : Terminal → Screen → Screen
save_video t s = record {
  current_screen = false;
  x = pos t.col;
  y = t.row;
  video = copied t.video s.video;
}

-- An `int` cut to an `unsigned short`.
abbrev pub word : ℤ → ℕ
word (pos n) = n % 2 ^ 16
word (negsuc n) = 2 ^ 16 - 1 - n % 2 ^ 16

unfoldable pub load_video : Screen → Terminal → Terminal × Screen
load_video s t = (
  set_cursor (word s.x) (s.y % 2 ^ 16)
      (record { video = copied s.video t.video; row = t.row; col = t.col }),
  record { current_screen = true; x = s.x; y = s.y; video = s.video },
)

-- The terminal, the screens of the processes, and the current process.
pub record Display : Type 0 where
  pub terminal : Terminal
  pub screens : ℕ → Screen
  pub current : ℕ

abbrev pub with_screen : (ℕ → Screen) → ℕ → Screen → ℕ → Screen
with_screen screens i s j = if j == i then s else screens j

unfoldable pub process_switch : Display → ℕ → Display
process_switch d process =
    let saved = with_screen d.screens d.current (save_video d.terminal (d.screens d.current)) in
    let loaded = load_video (saved process) d.terminal in
    record { terminal = loaded.0; screens = with_screen saved process loaded.1; current = process }
