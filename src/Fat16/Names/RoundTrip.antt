-- ===== src/Fat16/Names/RoundTrip.antt =====
-- A name that is written to a directory entry and read back.
use serpae_os.Common.{
  ℕ, zero, suc, ◌+◌, ◌-◌, ◌≤◌, ◌<◌, ◌≡◌, ◌≢◌, refl, true, false, not, ◌&&◌, List, [], ◌∷◌, ◌++◌,
  map, ◌==◌, if◌then◌else◌, length, take, drop, set, replicate, arith, ap, ap₂, sym, ◌∙◌,
  length-append, length-replicate, ℕ_discrete,
}
use mathlib.Core.List.{append_assoc, append-nil}
use serpae_os.Str.{peek, toupper}
use serpae_os.Fat16.Names.{to_proper_string, full_name, name_loop, string_to_fat_filename}

-- Letters of a name: no 0, no space and no '.'.
abbrev pub Letters : List ℕ → Type 0
Letters [] = Unit {0}
Letters (c ∷ s) = ((c ≢ 0) × (c ≢ b' ') × (c ≢ b'.')) × Letters s

abbrev pub spaces : ℕ → List ℕ
spaces n = replicate n b' '

pub set-length :
    (pre : List ℕ) (x c : ℕ) (rest : List ℕ)
    → set (pre ++ x ∷ rest) (length pre) c ≡ pre ++ c ∷ rest
set-length [] x c rest = refl
set-length (p ∷ pre) x c rest = ap (λ r. p ∷ r) (set-length pre x c rest)

snoc_append : (pre : List ℕ) (c : ℕ) (rest : List ℕ) → (pre ++ c ∷ []) ++ rest ≡ pre ++ c ∷ rest
snoc_append [] c rest = refl
snoc_append (p ∷ pre) c rest = ap (λ r. p ∷ r) (snoc_append pre c rest)

name_step :
    (c rounds : ℕ) (rest pre tail : List ℕ)
    → (c ≢ 0) × (c ≢ b' ') × (c ≢ b'.')
    → length pre + 1 < 8
    → name_loop (suc rounds) (c ∷ rest) false (length pre) 0 (pre ++ b' ' ∷ tail)
      ≡ name_loop rounds rest false
          (length (pre ++ toupper c ∷ []))
          0
          ((pre ++ toupper c ∷ []) ++ tail)
unfolding name_loop
name_step c rounds rest pre tail letter short =
    let zero_byte : (c == 0) ≡ false = ground (arith, letter) in
    let dot : (c == b'.') ≡ false = ground (arith, letter) in
    let more : (length pre + 1 == 8) ≡ false = ground arith in
    let size : length (pre ++ toupper c ∷ []) ≡ length pre + 1 =
      length-append pre (toupper c ∷ []) in
    rw (
      name_loop,
      zero_byte,
      dot,
      more,
      set-length pre b' ' (toupper c) tail,
      size,
      snoc_append pre (toupper c) tail,
    )

-- The rounds over the letters of the name write them in capitals, in place of the spaces behind `pre`.
pub name-Letters :
    (b : List ℕ) (rounds : ℕ) (rest pre tail : List ℕ)
    → Letters b
    → length pre + length b < 8
    → name_loop
        (length b + rounds)
        (b ++ rest)
        false
        (length pre)
        0
        (pre ++ (spaces (length b) ++ tail))
      ≡ name_loop rounds rest false (length pre + length b) 0 (pre ++ (map toupper b ++ tail))
name-Letters [] rounds rest pre tail letters short =
    let a : 0 + rounds ≡ rounds = omega arith in
    let f : length pre + 0 ≡ length pre = omega arith in rw (a, f)
name-Letters (c ∷ b) rounds rest pre tail letters short =
    let one = toupper c ∷ [] in
    let a : suc (length b) + rounds ≡ suc (length b + rounds) = omega arith in
    let f : length pre + suc (length b) ≡ length (pre ++ one) + length b =
      omega (arith, length-append pre one) in
    rw
      (
        a,
        f,
        name_step c (length b + rounds) (b ++ rest) pre (spaces (length b) ++ tail) letters.0
            (omega arith),
      )
      (name-Letters b rounds rest (pre ++ one) tail letters.1 (omega (arith, length-append pre one))
        ∙ ap (name_loop rounds rest false (length (pre ++ one) + length b) 0)
            (snoc_append pre (toupper c) (map toupper b ++ tail)))

empty : (x : List ℕ) → length x ≡ 0 → x ≡ []
empty [] h = refl
empty (c ∷ x) h = absurd (omega arith)

set-behind :
    (name pre : List ℕ) (x c : ℕ) (rest : List ℕ)
    → set (name ++ (pre ++ x ∷ rest)) (length name + length pre) c ≡ name ++ (pre ++ c ∷ rest)
set-behind [] pre x c rest =
    let at : 0 + length pre ≡ length pre = omega arith in rw at (set-length pre x c rest)
set-behind (n ∷ name) pre x c rest =
    let at : suc (length name) + length pre ≡ suc (length name + length pre) = omega arith in
    rw at (ap (λ r. n ∷ r) (set-behind name pre x c rest))

-- The same of the extension, behind 8 bytes of name.
ext-Letters :
    (x : List ℕ) (rounds f : ℕ) (name pre tail : List ℕ)
    → Letters x
    → length name ≡ 8
    → length pre + length x ≤ 3
    → name_loop
        (length x + suc rounds)
        x
        true
        f
        (length pre)
        (name ++ (pre ++ (spaces (length x) ++ tail)))
      ≡ name ++ (pre ++ (map toupper x ++ tail))
unfolding name_loop
ext-Letters [] rounds f name pre tail letters size short =
    let a : 0 + suc rounds ≡ suc rounds = omega arith in rw (a, name_loop)
ext-Letters (c ∷ x) rounds f name pre tail letters size short =
    let a : suc (length x) + suc rounds ≡ suc (length x + suc rounds) = omega arith in
    let zero_byte : (c == 0) ≡ false = ground (arith, letters.0) in
    let dot : (c == b'.') ≡ false = ground (arith, letters.0) in
    let at : 8 + length pre ≡ length name + length pre = omega (arith, size) in
    let one = toupper c ∷ [] in
    let more : length (pre ++ one) ≡ length pre + 1 = length-append pre one in
    let later : name_loop (length x + suc rounds) x true f (length pre + 1)
          (name ++ (pre ++ toupper c ∷ (spaces (length x) ++ tail)))
        ≡ name ++ (pre ++ toupper c ∷ (map toupper x ++ tail)) =
      rw
        (
          ← more,
          ← snoc_append pre (toupper c) (spaces (length x) ++ tail),
          ← snoc_append pre (toupper c) (map toupper x ++ tail),
        )
        (ext-Letters x rounds f name (pre ++ one) tail letters.1 size (omega arith)) in
    elim (ℕ_discrete (length pre + 1) 3) [
      | yes full ↦
          let stop : (length pre + 1 == 3) ≡ true = ground (arith, full) in
          let last : length x ≡ 0 = omega arith in
          let none_left : x ≡ [] = empty x last in
          rw (
            a,
            name_loop,
            zero_byte,
            dot,
            stop,
            at,
            set-behind name pre b' ' (toupper c) (spaces (length x) ++ tail),
            none_left,
          )
      | no room ↦
          let go : (length pre + 1 == 3) ≡ false = ground (arith, room) in
          rw
            (
              a,
              name_loop,
              zero_byte,
              dot,
              go,
              at,
              set-behind name pre b' ' (toupper c) (spaces (length x) ++ tail),
            )
            later
    ]

letter_capital :
    (c : ℕ)
    → (c ≢ 0) × (c ≢ b' ') × (c ≢ b'.')
    → ((toupper c == 0) ≡ false) × ((toupper c == b' ') ≡ false)
unfolding toupper
letter_capital c letter = (ground (arith, letter), ground (arith, letter))

proper-padded :
    (b : List ℕ) (n k : ℕ)
    → Letters b
    → length b + k ≡ n
    → to_proper_string n (map toupper b ++ spaces k) ≡ map toupper b
unfolding to_proper_string
proper-padded [] zero k letters size = refl
proper-padded [] (suc n) zero letters size = absurd (omega arith)
proper-padded [] (suc n) (suc k) letters size = refl
proper-padded (c ∷ b) zero k letters size = absurd (omega arith)
proper-padded (c ∷ b) (suc n) k letters size =
    let (zero_byte, space) = letter_capital c letters.0 in
    rw (to_proper_string, zero_byte, space)
      (ap (λ r. toupper c ∷ r) (proper-padded b n k letters.1 (omega (arith, size))))

-- The extension as it is appended to the name.
ext_text :
    (x name : List ℕ)
    → Letters x
    → length x ≤ 3
    → (if not (peek (map toupper x ++ spaces (3 - length x)) == 0)
          && not (peek (map toupper x ++ spaces (3 - length x)) == b' ')
        then name ++ b'.' ∷ to_proper_string 3 (map toupper x ++ spaces (3 - length x))
        else name)
      ≡ name ++ (if length x == 0 then [] else b'.' ∷ map toupper x)
ext_text [] name letters short = sym (append-nil name)
ext_text (c ∷ x) name letters short =
    let (zero_byte, space) = letter_capital c letters.0 in
    let some_ext : (suc (length x) == 0) ≡ false = ground arith in
    rw (
      zero_byte,
      space,
      some_ext,
      proper-padded (c ∷ x) 3 (3 - suc (length x)) letters (omega arith),
    )

pub spaces_add : (n m : ℕ) → spaces n ++ spaces m ≡ spaces (n + m)
spaces_add zero m = let a : 0 + m ≡ m = omega arith in rw a
spaces_add (suc n) m =
    let a : suc n + m ≡ suc (n + m) = omega arith in rw a (ap (λ r. b' ' ∷ r) (spaces_add n m))

take-append : (xs ys : List ℕ) → take (length xs) (xs ++ ys) ≡ xs
take-append [] ys = refl
take-append (x ∷ xs) ys = ap (λ r. x ∷ r) (take-append xs ys)

drop-append : (xs ys : List ℕ) → drop (length xs) (xs ++ ys) ≡ ys
drop-append [] ys = refl
drop-append (x ∷ xs) ys = drop-append xs ys

pub length-map : (s : List ℕ) → length (map toupper s) ≡ length s
length-map [] = refl
length-map (c ∷ s) = ap suc (length-map s)

module _ (b x : List ℕ) (letters_b : Letters b) (letters_x : Letters x) (some_b : 0 < length b)
    (short_b : length b < 8) (short_x : length x ≤ 3) where
  abbrev name_field : List ℕ
  name_field = map toupper b ++ spaces (8 - length b)

  abbrev ext_field : List ℕ
  ext_field = map toupper x ++ spaces (3 - length x)

  name_size : length name_field ≡ 8
  name_size = omega (
    arith,
    length-append (map toupper b) (spaces (8 - length b)),
    length-map b,
    length-replicate {A = ℕ} (8 - length b) b' ',
  )

  dot_step :
      (rounds f : ℕ) (out : List ℕ)
      → name_loop (suc rounds) (b'.' ∷ x) false f 0 out ≡ name_loop rounds x true f 0 out
  unfolding name_loop
  dot_step rounds f out = refl

  fat_name : string_to_fat_filename (b ++ b'.' ∷ x) ≡ name_field ++ ext_field
  unfolding string_to_fat_filename
  fat_name =
      let n = length b in
      let m = length x in
      let rounds : ◌≡◌ {A = ℕ} 13 (n + suc (m + suc (11 - n - m))) = omega arith in
      let blank : spaces 11 ≡ spaces n ++ (spaces (8 - n) ++ (spaces m ++ spaces (3 - m))) =
        let a : ◌≡◌ {A = ℕ} 11 (n + (8 - n + (m + (3 - m)))) = omega arith in
        ap spaces a
        ∙ sym (
            rw (
              spaces_add m (3 - m),
              spaces_add (8 - n) (m + (3 - m)),
              spaces_add n (8 - n + (m + (3 - m))),
            )) in
      let behind = spaces m ++ spaces (3 - m) in
      let grouped : map toupper b ++ (spaces (8 - n) ++ behind) ≡ name_field ++ behind =
        sym (append_assoc (map toupper b) (spaces (8 - n)) behind) in
      ap₂ (λ r out. name_loop r (b ++ b'.' ∷ x) false 0 0 out) rounds blank
      ∙ name-Letters b (suc (m + suc (11 - n - m))) (b'.' ∷ x) [] (spaces (8 - n) ++ behind)
          letters_b (omega arith)
      ∙ dot_step (m + suc (11 - n - m)) (0 + n) (map toupper b ++ (spaces (8 - n) ++ behind))
      ∙ ap (name_loop (m + suc (11 - n - m)) x true (0 + n) 0) grouped
      ∙ ext-Letters x (11 - n - m) (0 + n) name_field [] (spaces (3 - m)) letters_x name_size
          (omega arith)

  full_name-fields :
      full_name name_field ext_field
      ≡ map toupper b ++ (if length x == 0 then [] else b'.' ∷ map toupper x)
  unfolding full_name
  full_name-fields =
      rw (full_name, proper-padded b 8 (8 - length b) letters_b (omega arith))
        (ext_text x (map toupper b) letters_x short_x)

  -- A name of 1 to 7 letters and an extension of at most 3, with a '.' between them, are stored in the
  -- 11 bytes of a directory entry in capitals, filled up with spaces; and read back as they were, in
  -- capitals, without the '.' if the extension is empty.
  pub string_to_fat_filename-full_name :
      (string_to_fat_filename (b ++ b'.' ∷ x) ≡ name_field ++ ext_field)
      × (full_name
            (take 8 (string_to_fat_filename (b ++ b'.' ∷ x)))
            (drop 8 (string_to_fat_filename (b ++ b'.' ∷ x)))
          ≡ map toupper b ++ (if length x == 0 then [] else b'.' ∷ map toupper x))
  string_to_fat_filename-full_name =
      let name : take 8 (name_field ++ ext_field) ≡ name_field =
        ap (λ n. take n (name_field ++ ext_field)) (sym name_size)
        ∙ take-append name_field ext_field in
      let ext : drop 8 (name_field ++ ext_field) ≡ ext_field =
        ap (λ n. drop n (name_field ++ ext_field)) (sym name_size)
        ∙ drop-append name_field ext_field in
      (fat_name, rw (fat_name, name, ext) full_name-fields)
