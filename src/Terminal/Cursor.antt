-- ===== src/Terminal/Cursor.antt =====
-- The cursor of the screen, terminal_writechar, terminal_backspace and print of
-- src/graphics/graphics.c.
use serpae_os.Common.{
  ℕ, zero, suc, ◌+◌, ◌-◌, ◌*◌, ◌%◌, ◌^◌, ◌≤◌, ◌<◌, ◌≡◌, ◌≢◌, inl, inr, refl, true, false, ◌&&◌,
  ◌||◌, List, [], ◌∷◌, leb, ◌==◌, if◌then◌else◌, length, get_or, arith, ap, sym, ◌∙◌, Bool-cases,
  ℕ_discrete,
}
use serpae_os.Terminal.{
  Terminal, cell_of, get_attr, get_attribute, make_char, put_cell, putchar, scroll_down, at,
  write_plain, backspace, writechar, print,
}
use serpae_os.Terminal.Cells.{make_char_plain, scroll_down_cursor}

-- The cursor is on the screen.
abbrev pub IsInside : Terminal → Type 0
IsInside t = (t.row < 25) × (t.col < 80)

-- The cursor is not on the last cell.
abbrev pub HasNext : Terminal → Type 0
HasNext t = cell_of t.col t.row < 1999

-- A character that is stored in a cell.
abbrev pub IsPlain : ℕ → Type 0
IsPlain c = (32 ≤ c) × (c < 128)

-- The cursor behind a cell.
abbrev pub advanced : (ℕ → ℕ) → ℕ → ℕ → Terminal
advanced video row col =
    if leb 80 (col + 1)
    then record { video = video; row = row + 1; col = 0 }
    else record { video = video; row = row; col = col + 1 }

write_plain_lem :
    (c colour : ℕ) (t : Terminal)
    → c ≢ 9
    → IsInside t
    → HasNext t
    → write_plain c colour t ≡ advanced (putchar t.video t.col t.row c colour) t.row t.col
unfolding write_plain
write_plain_lem c colour t ne inside next =
    let tab : (c == 9) ≡ false = ground arith in
    let last : (t.col == 79 && t.row == 24) ≡ false = ground arith in rw (write_plain, tab, last)

advanced_lem :
    (video : ℕ → ℕ) (row col : ℕ)
    → row < 25
    → col < 80
    → cell_of col row < 1999
    → IsInside (advanced video row col)
      × (cell_of (advanced video row col).col (advanced video row col).row ≡ cell_of col row + 1)
      × ((advanced video row col).video ≡ video)
advanced_lem video row col hr hc next = elim (Bool-cases (leb 80 (col + 1))) [
  | inl wraps ↦
      let edge : 79 ≤ col = ground arith in rw wraps ((omega arith, omega arith), omega arith, refl)
  | inr stays ↦
      let before : col < 79 = ground arith in rw stays ((hr, omega arith), omega arith, refl)
]

writechar_plain :
    (c colour : ℕ) (t : Terminal) → IsPlain c → writechar c colour t ≡ write_plain c colour t
unfolding writechar
writechar_plain c colour t plain =
    let a : (c == 10 || c == 13) ≡ false = ground arith in
    let b : (c == 12) ≡ false = ground arith in
    let d : (c == 7) ≡ false = ground arith in
    let e : (c == 8) ≡ false = ground arith in rw (writechar, a, b, d, e)

-- Each cell has 16 bits.
abbrev pub AreWords : (ℕ → ℕ) → Type 0
AreWords video = (p : ℕ) → video p < 2 ^ 16

plain_step :
    (c colour : ℕ) (t : Terminal)
    → IsPlain c
    → IsInside t
    → HasNext t
    → IsInside (writechar c colour t)
      × (cell_of (writechar c colour t).col (writechar c colour t).row ≡ cell_of t.col t.row + 1)
      × ((writechar c colour t).video ≡ putchar t.video t.col t.row c colour)
plain_step c colour t plain inside next =
    let video = putchar t.video t.col t.row c colour in
    let step : writechar c colour t ≡ advanced video t.row t.col =
      writechar_plain c colour t plain
      ∙ write_plain_lem c colour t (λ e. absurd (omega (arith, e, plain.0))) inside next in
    rw step (advanced_lem video t.row t.col inside.0 inside.1 next)

AreWords-putchar :
    (video : ℕ → ℕ) (i c colour : ℕ)
    → AreWords video
    → AreWords (put_cell video i (make_char c colour))
unfolding make_char
AreWords-putchar video i c colour words p = elim (ℕ_discrete p i) [
  | yes e ↦ let test : (p == i) ≡ true = ground arith in rw test (omega arith)
  | no ne ↦ let test : (p == i) ≡ false = ground arith in rw test (words p)
]

attribute_lem : (t : Terminal) → AreWords t.video → get_attr t < 256
unfolding get_attribute
attribute_lem t words = omega (arith, words (cell_of t.col t.row))

first_cell :
    (video : ℕ → ℕ) (i c colour : ℕ)
    → IsPlain c
    → colour < 256
    → put_cell video i (make_char c colour) i % 256 ≡ c
first_cell video i c colour plain h =
    let test : (i == i) ≡ true = ground arith in
    rw (test, make_char_plain c colour plain.1 h) (omega (arith, plain.1))

-- Text of plain characters.
abbrev pub ArePlain : List ℕ → Type 0
ArePlain [] = Unit {0}
ArePlain (c ∷ str) = IsPlain c × ArePlain str

-- If the cells have 16 bits and the cursor is on the screen, a text of plain characters that ends
-- before the last cell of the screen is stored from the cursor on, one character in a cell; the cells before it stay, and the cursor is behind it, on the screen.
pub print-cells :
    (str : List ℕ) (t : Terminal)
    → ArePlain str
    → AreWords t.video
    → IsInside t
    → cell_of t.col t.row + length str < 2000
    → IsInside (print str t)
      × (cell_of (print str t).col (print str t).row ≡ cell_of t.col t.row + length str)
      × ((i : ℕ)
          → i < length str
          → (print str t).video (cell_of t.col t.row + i) % 256 ≡ get_or str i 0)
      × ((p : ℕ) → p < cell_of t.col t.row → (print str t).video p ≡ t.video p)
unfolding print
print-cells [] t plain words inside room =
    (inside, omega arith, λ i h. absurd (omega arith), λ p h. refl)
print-cells (c ∷ str) t plain words inside room =
    let start = cell_of t.col t.row in
    let colour = get_attr t in
    let t' = writechar c colour t in
    let (inside', moved, video) = plain_step c colour t plain.0 inside (omega arith) in
    let words' : AreWords t'.video = rw video (AreWords-putchar t.video start c colour words) in
    let (inside'', end, text, before) =
      print-cells str t' plain.1 words' inside' (omega (arith, moved)) in
    (
      inside'',
      end ∙ omega (arith, moved),
      λ i h.
          elim i
              as (λ i.
                i < suc (length str)
                → (print str t').video (start + i) % 256 ≡ get_or (c ∷ str) i 0) [
                  | zero ↦ λ h.
                      let place : start + 0 ≡ start = omega arith in
                      rw place (
                        ap (λ w. w % 256)
                          (before start (omega (arith, moved)) ∙ ap (λ v. v start) video)
                        ∙ first_cell t.video start c colour plain.0 (attribute_lem t words))
                  | suc j ↦ λ h.
                      let place : start + suc j ≡ cell_of t'.col t'.row + j =
                        omega (arith, moved) in
                      rw place (text j (omega arith))
                ]
            h,
      λ p h. before p (omega (arith, moved)) ∙ ap (λ v. v p) video ∙ ground arith,
    )

-- A plain character in a column before the last.
short_step :
    (c colour : ℕ) (t : Terminal)
    → IsPlain c
    → t.col < 79
    → writechar c colour t
      ≡ record { video = putchar t.video t.col t.row c colour; row = t.row; col = t.col + 1 }
unfolding write_plain
short_step c colour t plain before =
    let tab : (c == 9) ≡ false = ground (arith, plain) in
    let last : (t.col == 79 && t.row == 24) ≡ false = ground arith in
    let stays : leb 80 (t.col + 1) ≡ false = ground arith in
    writechar_plain c colour t plain ∙ rw (write_plain, tab, last, stays)

-- A plain character on the last cell of the screen scrolls it, and takes the cursor to row 25, behind
-- the screen; the next plain character is stored in cell 2000, which no row shows, and the cursor
-- stays there.
pub writechar-last :
    (c d colour : ℕ) (t : Terminal)
    → IsPlain c
    → IsPlain d
    → t.row ≡ 24
    → t.col ≡ 79
    → ((writechar c colour t).row ≡ 25)
      × ((writechar c colour t).col ≡ 0)
      × ((writechar d colour (writechar c colour t)).video 2000 ≡ make_char d colour)
      × ((writechar d colour (writechar c colour t)).row ≡ 25)
      × ((p : ℕ)
          → p < 2000
          → (writechar d colour (writechar c colour t)).video p ≡ (writechar c colour t).video p)
unfolding write_plain
writechar-last c d colour t plain_c plain_d row col =
    let (same_row, same_col) = scroll_down_cursor t in
    let s = scroll_down t in
    let tab : (c == 9) ≡ false = ground (arith, plain_c) in
    let last : (t.col == 79 && t.row == 24) ≡ true = ground arith in
    let wraps : leb 80 (s.col + 1) ≡ true = ground (arith, same_col) in
    let first : writechar c colour t
        ≡ record { video = putchar s.video s.col s.row c colour; row = s.row + 1; col = 0 } =
      writechar_plain c colour t plain_c ∙ rw (write_plain, tab, last, wraps) in
    let t' = writechar c colour t in
    let row' : t'.row ≡ 25 = ap (λ t. t.row) first ∙ omega (arith, same_row) in
    let col' : t'.col ≡ 0 = ap (λ t. t.col) first in
    let second = short_step d colour t' plain_d (omega (arith, col')) in
    let cell : cell_of t'.col t'.row ≡ 2000 = omega (arith, row', col') in
    (
      row',
      col',
      ap (λ t. t.video 2000) second ∙ (rw cell refl),
      ap (λ t. t.row) second ∙ row',
      λ p h.
          ap (λ t. t.video p) second
          ∙ (let test : (p == 2000) ≡ false = ground arith in rw (cell, test)),
    )

-- A plain character before the last column, and a backspace behind it, leave the cursor where it was,
-- and a space in the cell, in colour 15.
pub backspace-writechar :
    (c colour : ℕ) (t : Terminal)
    → IsPlain c
    → IsInside t
    → t.col < 79
    → ((backspace (writechar c colour t)).row ≡ t.row)
      × ((backspace (writechar c colour t)).col ≡ t.col)
      × ((backspace (writechar c colour t)).video (cell_of t.col t.row) ≡ 15 * 256 + 32)
      × ((p : ℕ) → p ≢ cell_of t.col t.row → (backspace (writechar c colour t)).video p ≡ t.video p)
unfolding backspace
backspace-writechar c colour t plain inside col =
    let i = cell_of t.col t.row in
    let t' : Terminal = record {
      video = putchar t.video t.col t.row c colour;
      row = t.row;
      col = t.col + 1;
    } in
    let start : (t.row == 0 && t.col + 1 == 0) ≡ false = ground arith in
    let left : (t.col + 1 == 0) ≡ false = ground arith in
    let back : t.col + 1 - 1 ≡ t.col = omega arith in
    let space =
      sym (writechar_plain 32 15 (at t' t.row t.col) (omega arith, omega arith))
      ∙ short_step 32 15 (at t' t.row t.col) (omega arith, omega arith) col in
    let video = put_cell t'.video i (make_char 32 15) in
    let gone : backspace (writechar c colour t)
        ≡ at (record { video = video; row = t.row; col = t.col }) t.row t.col =
      ap backspace (short_step c colour t plain col)
      ∙ rw (backspace, start, left, back, space, back) in
    let own : (i == i) ≡ true = ground arith in
    (
      ap (λ t. t.row) gone,
      ap (λ t. t.col) gone,
      ap (λ t. t.video i) gone ∙ rw (own, make_char_plain 32 15 (omega arith) (omega arith)),
      λ p ne. ap (λ t. t.video p) gone ∙ (let test : (p == i) ≡ false = ground arith in rw test),
    )
