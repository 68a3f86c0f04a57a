-- ===== src/Screen/Text.antt =====
-- Text on the screen of a process, process_writechar and process_backspace of src/task/process.c.
use serpae_os.Common.{
  ℕ, ◌+◌, ◌-◌, ◌<◌, ◌≡◌, inl, inr, refl, Bool, true, false, ◌&&◌, ◌||◌, none, some, ltb, leb, ◌==◌,
  if◌then◌else◌, arith, ◌∙◌, Bool-cases, dec_lt,
}
use serpae_os.Common.Int.{pos, negsuc}
use serpae_os.Terminal.{vga_width, cell_of, make_char, put_cell}
use serpae_os.Terminal.Cursor.{IsPlain}
use serpae_os.Screen.{
  Screen, cells, increment, decrement, index, scroll_down, put_plain, write_plain, backspace,
  writechar,
}

plain_only :
    (c colour attr : ℕ) (s : Screen)
    → IsPlain c
    → writechar c colour attr s ≡ write_plain c colour attr s
unfolding writechar
plain_only c colour attr s plain =
    let a : (c == 10 || c == 13) ≡ false = ground arith in
    let b : (c == 12) ≡ false = ground arith in
    let d : (c == 8) ≡ false = ground arith in rw (writechar, a, b, d)

-- A cursor in column `n` and row `y` of the screen.
abbrev pub at : Bool → ℕ → ℕ → (ℕ → ℕ) → Screen
at shown n y video = record { current_screen = shown; x = pos n; y = y; video = video }

put_plain_lem :
    (c colour : ℕ) (shown : Bool) (n y : ℕ) (video : ℕ → ℕ)
    → cell_of n y < cells
    → put_plain c colour (at shown n y video)
      ≡ some (
          if leb vga_width (n + 1)
          then at shown 0 (y + 1) (put_cell video (cell_of n y) (make_char c colour))
          else at shown (n + 1) y (put_cell video (cell_of n y) (make_char c colour)))
unfolding put_plain index increment
put_plain_lem c colour shown n y video h =
    let inside : ltb (cell_of n y) cells ≡ true = ground arith in
    elim (Bool-cases (leb vga_width (n + 1))) [
      | inl wraps ↦ rw (put_plain, index, inside, increment, wraps)
      | inr stays ↦ rw (put_plain, index, inside, increment, stays)
    ]

-- A plain character that is not written on the last cell is stored in the cell of the cursor, and the
-- cursor moves to the next cell.
pub writechar-next :
    (c colour attr : ℕ) (shown : Bool) (n y : ℕ) (video : ℕ → ℕ)
    → IsPlain c
    → n < 80
    → cell_of n y < 1999
    → (n' : ℕ) × (y' : ℕ) × (writechar c colour attr (at shown n y video)
        ≡ some (at shown n' y' (put_cell video (cell_of n y) (make_char c colour))))
      × (n' < 80)
      × (cell_of n' y' ≡ cell_of n y + 1)
unfolding write_plain
writechar-next c colour attr shown n y video plain col next =
    let last : (n == 79 && y == 24) ≡ false = ground arith in
    let put = put_plain_lem c colour shown n y video (omega arith) in
    let step : writechar c colour attr (at shown n y video)
        ≡ put_plain c colour (at shown n y video) =
      plain_only c colour attr (at shown n y video) plain ∙ rw (write_plain, last) in
    elim (dec_lt n 79) [
      | yes before ↦
          let stays : leb vga_width (n + 1) ≡ false = ground arith in
          (n + 1, y, step ∙ put ∙ rw stays, omega arith, omega arith)
      | no edge ↦
          let wraps : leb vga_width (n + 1) ≡ true = ground arith in
          (0, y + 1, step ∙ put ∙ rw wraps, omega arith, omega arith)
    ]

-- A plain character on the last cell scrolls the screen and takes the cursor to row 25; the next plain
-- character is written behind the cells of the screen.
pub writechar-none :
    (c d colour attr : ℕ) (shown : Bool) (video : ℕ → ℕ)
    → IsPlain c
    → IsPlain d
    → (after : ℕ → ℕ) × (writechar c colour attr (at shown 79 24 video)
        ≡ some (at shown 0 25 after))
      × (writechar d colour attr (at shown 0 25 after) ≡ none)
unfolding write_plain put_plain index increment scroll_down
writechar-none c d colour attr shown video plain_c plain_d = (
  _,
  plain_only c colour attr (at shown 79 24 video) plain_c ∙ refl,
  plain_only d colour attr (at shown 0 25 _) plain_d ∙ refl,
)

-- A backspace in column 0, below the first row, clears the cell of the cursor, not the one before it,
-- and takes the cursor to column -1.
pub backspace-start :
    (attr : ℕ) (shown : Bool) (y : ℕ) (video : ℕ → ℕ)
    → 0 < y
    → y < 25
    → backspace attr (at shown 0 y video)
      ≡ some (record {
        current_screen = shown;
        x = negsuc 0;
        y = y;
        video = put_cell video (cell_of 0 y) (make_char 32 attr);
      })
unfolding backspace write_plain put_plain index increment decrement
backspace-start attr shown y video some_row row =
    let first : (y == 0) ≡ false = ground arith in
    let place : cell_of 80 (y - 1) ≡ cell_of 0 y = omega arith in
    let inside : ltb (cell_of 80 (y - 1)) cells ≡ true = ground arith in
    let below : y - 1 + 1 ≡ y = omega arith in
    rw (backspace, first, write_plain, put_plain, index, inside, below, place)
