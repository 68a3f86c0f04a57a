-- ===== src/Fat16/Names/Long.antt =====
-- Names that fill the 8 bytes of their field.
use serpae_os.Common.{
  ℕ, zero, suc, ◌+◌, ◌<◌, ◌≡◌, ◌≢◌, refl, true, false, none, List, [], ◌∷◌, ◌++◌, map, ltb, ◌==◌,
  length, arith, ap, ap₂, sym, ◌∙◌, length-append, some_ne,
}
use serpae_os.Str.{toupper}
use serpae_os.Fat16.Names.{
  to_proper_string, full_name, get_full_relative_filename, name_loop, string_to_fat_filename,
}
use serpae_os.Fat16.Names.RoundTrip.{
  Letters, spaces, set-length, name-Letters, spaces_add, length-map,
}

last_step :
    (c rounds : ℕ) (rest pre tail : List ℕ)
    → (c ≢ 0) × (c ≢ b' ') × (c ≢ b'.')
    → length pre ≡ 7
    → name_loop (suc rounds) (c ∷ rest) false (length pre) 0 (pre ++ b' ' ∷ tail)
      ≡ pre ++ toupper c ∷ tail
unfolding name_loop
last_step c rounds rest pre tail letter size =
    let zero_byte : (c == 0) ≡ false = ground (arith, letter) in
    let dot : (c == b'.') ≡ false = ground (arith, letter) in
    let full : (length pre + 1 == 8) ≡ true = ground (arith, size) in
    rw (name_loop, zero_byte, dot, full, set-length pre b' ' (toupper c) tail)

-- Behind 8 letters of a name nothing is read: the extension of such a name is lost.
pub string_to_fat_filename-long :
    (b : List ℕ) (c : ℕ) (rest : List ℕ)
    → Letters b
    → length b ≡ 7
    → (c ≢ 0) × (c ≢ b' ') × (c ≢ b'.')
    → string_to_fat_filename (b ++ c ∷ rest) ≡ map toupper b ++ toupper c ∷ spaces 3
unfolding string_to_fat_filename
string_to_fat_filename-long b c rest letters size letter =
    let rounds : ◌≡◌ {A = ℕ} 13 (length b + suc 5) = omega (arith, size) in
    let blank : spaces 11 ≡ spaces (length b) ++ spaces 4 =
      ap spaces {x = 11} {y = length b + 4} (omega (arith, size)) ∙ sym (spaces_add (length b) 4) in
    let at : 0 + length b ≡ length (map toupper b) = omega (arith, length-map b) in
    let capitals : length (map toupper b) ≡ length b = length-map b in
    ap₂ (λ r out. name_loop r (b ++ c ∷ rest) false 0 0 out) rounds blank
    ∙ name-Letters b (suc 5) (c ∷ rest) [] (spaces 4) letters (omega (arith, size))
    ∙ ap (λ f. name_loop (suc 5) (c ∷ rest) false f 0 (map toupper b ++ spaces 4)) at
    ∙ last_step c 5 rest (map toupper b) (spaces 3) letter (omega (arith, capitals, size))

proper-Letters : (b : List ℕ) (n : ℕ) → Letters b → length b ≡ n → to_proper_string n b ≡ b
unfolding to_proper_string
proper-Letters [] zero letters size = refl
proper-Letters [] (suc n) letters size = absurd (omega arith)
proper-Letters (c ∷ b) zero letters size = absurd (omega arith)
proper-Letters (c ∷ b) (suc n) letters size =
    let zero_byte : (c == 0) ≡ false = ground (arith, letters.0) in
    let space : (c == b' ') ≡ false = ground (arith, letters.0) in
    rw (to_proper_string, zero_byte, space)
      (ap (λ r. c ∷ r) (proper-Letters b n letters.1 (omega (arith, size))))

-- The text of an entry with 8 letters of name and 3 of extension has 12 bytes: with its 0 it does not
-- fit the buffer of 12 bytes that fat16_write_directory_entry gives, but it fits every longer one.
pub get_full_relative_filename-none :
    (b : List ℕ) (c : ℕ) (x : List ℕ)
    → Letters b
    → Letters (c ∷ x)
    → length b ≡ 8
    → length x ≡ 2
    → (get_full_relative_filename b (c ∷ x) 12 ≡ none)
      × ((n : ℕ) → 12 < n → get_full_relative_filename b (c ∷ x) n ≢ none)
unfolding get_full_relative_filename full_name
get_full_relative_filename-none b c x letters_b letters_x size_b size_x =
    let zero_byte : (c == 0) ≡ false = ground (arith, letters_x.0) in
    let space : (c == b' ') ≡ false = ground (arith, letters_x.0) in
    let text = b ++ b'.' ∷ c ∷ x in
    let size : length text ≡ 12 = omega (arith, length-append b (b'.' ∷ c ∷ x)) in
    let full : full_name b (c ∷ x) ≡ text = rw (
      full_name,
      zero_byte,
      space,
      proper-Letters b 8 letters_b size_b,
      proper-Letters (c ∷ x) 3 letters_x (omega arith),
    ) in
    (
      (let small : ltb (length text) 12 ≡ false = ground (arith, size) in
          rw (get_full_relative_filename, full, small)),
      λ n h.
          let big : ltb (length text) n ≡ true = ground (arith, size) in
          rw (get_full_relative_filename, full, big) (some_ne _),
    )
