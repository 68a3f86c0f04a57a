-- ===== src/Terminal/Cells.antt =====
-- Cells of the screen that scrolls, scroll_down of src/graphics/graphics.c.
use serpae_os.Common.{
  ℕ, zero, suc, ◌+◌, ◌-◌, ◌*◌, ◌≤◌, ◌<◌, ◌≡◌, ◌⊎◌, inl, inr, refl, true, false, ltb, leb, ◌==◌,
  arith, ◌∙◌, dec_lt, ℕ_discrete,
}
use serpae_os.Common.Bits.{bit_or_flags}
use serpae_os.Terminal.{
  vga_width, Terminal, cell_of, get_attr, get_attribute, make_char, put_cell, copy_row, rows_loop,
  blank_loop, scroll_down,
}

-- The low byte of a character and the attribute stay apart.
pub make_char_plain : (c a : ℕ) → c < 128 → a < 256 → make_char c a ≡ a * 256 + c
unfolding make_char
make_char_plain c a hc ha =
    let plain : ltb c 128 ≡ true = ground arith in
    rw (make_char, plain, bit_or_flags 8 a c (omega arith)) (omega arith)

copy_row_lem :
    (video : ℕ → ℕ) (to p : ℕ)
    → (to ≤ p → p < to + 80 → copy_row video to (to + 80) p ≡ video (p + 80))
      × ((p < to) ⊎ (to + 80 ≤ p) → copy_row video to (to + 80) p ≡ video p)
unfolding copy_row
copy_row_lem video to p = (
  λ a b.
      let low : leb to p ≡ true = ground arith in
      let high : ltb p (to + vga_width) ≡ true = ground arith in
      let place : to + 80 + (p - to) ≡ p + 80 = omega arith in rw (copy_row, low, high, place),
  λ out. elim out [
    | inl below ↦ let low : leb to p ≡ false = ground arith in rw (copy_row, low)
    | inr above ↦
        let low : leb to p ≡ true = ground arith in
        let high : ltb p (to + vga_width) ≡ false = ground arith in rw (copy_row, low, high)
  ],
)

-- Rows move up from row `i`.
rows_loop_lem :
    (n i p : ℕ) (video : ℕ → ℕ)
    → (i * 80 ≤ p → p < (i + n) * 80 → rows_loop n (i + 1) video p ≡ video (p + 80))
      × ((p < i * 80) ⊎ ((i + n) * 80 ≤ p) → rows_loop n (i + 1) video p ≡ video p)
unfolding rows_loop
rows_loop_lem zero i p video = (λ a b. absurd (omega arith), λ out. refl)
rows_loop_lem (suc n) i p video =
    let from : (i + 1) * vga_width ≡ i * 80 + 80 = omega arith in
    let to : i + 1 - 1 ≡ i = omega arith in
    let (moved, kept) = rows_loop_lem n (i + 1) p (copy_row video (i * 80) (i * 80 + 80)) in
    let row = copy_row_lem video (i * 80) in
    (
      λ a b.
          rw (rows_loop, to, from)
            (elim (dec_lt p (i * 80 + 80)) [
              | yes here ↦ kept (inl (omega arith)) ∙ (row p).0 a here
              | no later ↦ moved (omega arith) (omega arith) ∙ (row (p + 80)).1 (inr (omega arith))
            ]),
      λ out.
          rw (rows_loop, to, from)
            (elim out [
              | inl below ↦ kept (inl (omega arith)) ∙ (row p).1 (inl below)
              | inr above ↦ kept (inr (omega arith)) ∙ (row p).1 (inr (omega arith))
            ]),
    )

blank_loop_lem :
    (n i a p : ℕ) (t : Terminal)
    → a < 256
    → get_attr t ≡ a
    → i + n ≤ 80
    → ((blank_loop n i t).row ≡ t.row)
      × ((blank_loop n i t).col ≡ t.col)
      × (1920 + i ≤ p → p < 1920 + i + n → (blank_loop n i t).video p ≡ a * 256 + 32)
      × ((p < 1920 + i) ⊎ (1920 + i + n ≤ p) → (blank_loop n i t).video p ≡ t.video p)
unfolding blank_loop get_attribute
blank_loop_lem zero i a p t ha e h = (refl, refl, λ l u. absurd (omega arith), λ out. refl)
blank_loop_lem (suc n) i a p t ha e h =
    let value = make_char_plain 32 a (omega arith) ha in
    let next : Terminal = record {
      video = put_cell t.video (1920 + i) (a * 256 + 32);
      row = t.row;
      col = t.col;
    } in
    let step : blank_loop (suc n) i t ≡ blank_loop n (i + 1) next = rw (blank_loop, e, value) in
    let same : get_attr next ≡ a = elim (ℕ_discrete (cell_of t.col t.row) (1920 + i)) [
      | yes own ↦
          let test : (cell_of t.col t.row == 1920 + i) ≡ true = ground arith in
          rw (get_attribute, test) (omega arith)
      | no other ↦
          let test : (cell_of t.col t.row == 1920 + i) ≡ false = ground arith in
          rw (get_attribute, test) e
    ] in
    let (row, col, blanks, kept) = blank_loop_lem n (i + 1) a p next ha same (omega arith) in
    rw step (
      row,
      col,
      λ l u. elim (ℕ_discrete p (1920 + i)) [
        | yes here ↦ kept (inl (omega arith)) ∙ ground arith
        | no later ↦ blanks (omega arith) (omega arith)
      ],
      λ out. elim out [
        | inl below ↦ kept (inl (omega arith)) ∙ ground arith
        | inr above ↦ kept (inr (omega arith)) ∙ ground arith
      ],
    )

blank_loop_cursor :
    (n i : ℕ) (t : Terminal) → ((blank_loop n i t).row ≡ t.row) × ((blank_loop n i t).col ≡ t.col)
unfolding blank_loop
blank_loop_cursor zero i t = (refl, refl)
blank_loop_cursor (suc n) i t = blank_loop_cursor n (i + 1) _

pub scroll_down_cursor :
    (t : Terminal) → ((scroll_down t).row ≡ t.row) × ((scroll_down t).col ≡ t.col)
unfolding scroll_down
scroll_down_cursor t = blank_loop_cursor 80 0 _

-- When the screen scrolls, the cursor stays, each row moves up by one, the last row is filled with
-- spaces in the colour, if it is below 256, that the cursor's cell has behind that move, and no cell
-- behind the screen changes.
pub scroll_down-rows :
    (t : Terminal) (a p : ℕ)
    → a < 256
    → get_attribute (rows_loop 24 1 t.video) t.col t.row ≡ a
    → ((scroll_down t).row ≡ t.row)
      × ((scroll_down t).col ≡ t.col)
      × (p < 1920 → (scroll_down t).video p ≡ t.video (p + 80))
      × (1920 ≤ p → p < 2000 → (scroll_down t).video p ≡ a * 256 + 32)
      × (2000 ≤ p → (scroll_down t).video p ≡ t.video p)
unfolding scroll_down
scroll_down-rows t a p ha e =
    let moved : Terminal = record { video = rows_loop 24 1 t.video; row = t.row; col = t.col } in
    let (up, kept) = rows_loop_lem 24 0 p t.video in
    let (row, col, blanks, others) = blank_loop_lem 80 0 a p moved ha e (omega arith) in
    (
      row,
      col,
      λ h. others (inl (omega arith)) ∙ up (omega arith) (omega arith),
      λ l u. blanks (omega arith) (omega arith),
      λ h. others (inr (omega arith)) ∙ kept (inr (omega arith)),
    )
