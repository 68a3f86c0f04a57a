-- ===== src/Terminal.antt =====
-- The text screen, src/graphics/graphics.c. The video memory is a function from the numbers of its
-- cells, which reaches behind the 25 rows of the screen; the attribute of a cell is its high byte.
pub mod Cells
pub mod Cursor
mod Tests
use serpae_os.Common.{
  ℕ, zero, suc, ◌+◌, ◌-◌, ◌*◌, ◌/◌, ◌%◌, ◌^◌, ◌≤◌, ◌<◌, ◌≡◌, ◌≢◌, ◌↔◌, ◌⊎◌, inl, inr, refl, Bool,
  true, false, not, ◌&&◌, ◌||◌, Option, none, some, List, [], ◌∷◌, ◌++◌, map, ltb, leb, ◌==◌,
  if◌then◌else◌, length, take, drop, set, get_or, get_elem?, replicate, arith, ap, ap₂, sym, ◌∙◌,
  length-append, length-set, get_or-set_self, get_or-set_ne, set-set, get_or-replicate, get_or_ext,
  length-replicate, length-take, length-drop, get_or-snoc_self, get_or-snoc_ne, get_or_out,
  List-cases, some_cancel, some_ne, Option-cases, Bool-cases, range_cases, tests, dec_lt, dec_le,
  ℕ_discrete, Status, ok, err, Status-cases, bit_or,
}

abbrev pub vga_width : ℕ
vga_width = 80

abbrev pub vga_height : ℕ
vga_height = 25

pub record Terminal : Type 0 where
  pub video : ℕ → ℕ
  pub row : ℕ
  pub col : ℕ

-- The cell of a column and a row.
abbrev pub cell_of : ℕ → ℕ → ℕ
cell_of x y = y * vga_width + x

unfoldable pub get_attribute : (ℕ → ℕ) → ℕ → ℕ → ℕ
get_attribute video x y = video (cell_of x y) / 256

abbrev pub get_attr : Terminal → ℕ
get_attr t = get_attribute t.video t.col t.row

-- A `char` is signed: its sign fills the bits of the colour.
unfoldable pub make_char : ℕ → ℕ → ℕ
make_char c colour = bit_or (colour * 2 ^ 8) (if ltb c 128 then c else c + 0xFF00) % 2 ^ 16

abbrev pub put_cell : (ℕ → ℕ) → ℕ → ℕ → ℕ → ℕ
put_cell video i value p = if p == i then value else video p

abbrev pub putchar : (ℕ → ℕ) → ℕ → ℕ → ℕ → ℕ → ℕ → ℕ
putchar video x y c colour = put_cell video (cell_of x y) (make_char c colour)

-- `memcpy` of a row's cells; the rows do not overlap.
unfoldable pub copy_row : (ℕ → ℕ) → ℕ → ℕ → ℕ → ℕ
copy_row video to from p =
    if leb to p && ltb p (to + vga_width) then video (from + (p - to)) else video p

-- The loop that moves the rows up, with the rows that are left.
unfoldable pub rows_loop : ℕ → ℕ → (ℕ → ℕ) → ℕ → ℕ
rows_loop zero i video = video
rows_loop (suc rounds) i video =
    rows_loop rounds (i + 1) (copy_row video ((i - 1) * vga_width) (i * vga_width))

-- The loop that clears the last row. The attribute is that of the cursor's cell in each round.
unfoldable pub blank_loop : ℕ → ℕ → Terminal → Terminal
blank_loop zero i t = t
blank_loop (suc rounds) i t =
    blank_loop rounds (i + 1)
      (record { video = putchar t.video i 24 b' ' (get_attr t); row = t.row; col = t.col })

unfoldable pub scroll_down : Terminal → Terminal
scroll_down t =
    blank_loop vga_width 0
      (record { video = rows_loop (vga_height - 1) 1 t.video; row = t.row; col = t.col })

abbrev pub at : Terminal → ℕ → ℕ → Terminal
at t row col = record { video = t.video; row = row; col = col }

-- The end of `terminal_writechar`, behind the characters that move the cursor only.
unfoldable pub write_plain : ℕ → ℕ → Terminal → Terminal
write_plain c colour t =
    let tab = if t.col == 75 then 79 else t.col + 4 in
    let moved = if c == 9 then at t t.row tab else t in
    let ready = if moved.col == 79 && moved.row == 24 then scroll_down moved else moved in
    let video = putchar ready.video ready.col ready.row c colour in
    if leb vga_width (ready.col + 1)
    then record { video = video; row = ready.row + 1; col = 0 }
    else record { video = video; row = ready.row; col = ready.col + 1 }

-- The space is written by `terminal_writechar`, which passes its tests.
unfoldable pub backspace : Terminal → Terminal
backspace t =
    if t.row == 0 && t.col == 0
    then t
    else if t.col == 0
    then (let w = write_plain b' ' 15 (at t (t.row - 1) 79) in at w (w.row - 1) 79)
    else let w = write_plain b' ' 15 (at t t.row (t.col - 1)) in at w w.row (w.col - 1)

-- The sound of the character 7 is left aside.
unfoldable pub writechar : ℕ → ℕ → Terminal → Terminal
writechar c colour t =
    let down = if t.row == 24 then scroll_down t else at t (t.row + 1) t.col in
    if (c == 10 || c == 13) && ltb t.row vga_height
    then at down down.row 0
    else if c == 12 && ltb t.row vga_height
    then down
    else if c == 7
    then t
    else if c == 8
    then backspace t
    else write_plain c colour t

unfoldable pub print : List ℕ → Terminal → Terminal
print [] t = t
print (c ∷ str) t = print str (writechar c (get_attr t) t)

-- An `unsigned short` that is too large is cut to the last column and row.
unfoldable pub set_cursor : ℕ → ℕ → Terminal → Terminal
set_cursor x y t =
    at t (if leb vga_height y then vga_height - 1 else y)
      (if leb vga_width x then vga_width - 1 else x)
