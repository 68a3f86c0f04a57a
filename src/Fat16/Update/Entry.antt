-- ===== src/Fat16/Update/Entry.antt =====
-- The entry of a file, as fat16_write_directory_entry of src/fs/fat/fat16_write.c stores it.
use serpae_os.Common.{
  ℕ, zero, suc, ◌+◌, ◌*◌, ◌≤◌, ◌<◌, ◌≡◌, inl, inr, refl, Bool, true, false, some, List, [], ◌∷◌,
  map, ◌==◌, length, arith, ap, ap₂, ◌∙◌, Bool-cases,
}
use serpae_os.Common.Int.{ℤ, pos, negsuc}
use serpae_os.Str.{text, istrncmp, tolower}
use serpae_os.Str.Compare.{istrncmp_iff}
use serpae_os.Streamer.{sector_size}
use serpae_os.Streamer.Read.{bytes_of}
use serpae_os.Streamer.Write.{put, put_all}
use serpae_os.Fat16.Names.{get_full_relative_filename}
use serpae_os.Fat16.Directory.{item_size, DirectoryItem, Directory, item_of}
use serpae_os.Fat16.Update.{match_loop}

-- The items that stand one behind the other from a position on.
abbrev pub items_at : (ℕ → ℕ) → ℕ → ℕ → List DirectoryItem
items_at contents start zero = []
items_at contents start (suc total) =
    item_of (bytes_of contents start item_size) ∷ items_at contents (start + item_size) total

-- Where the first item of a directory stands.
abbrev pub start_of : Directory → ℕ
start_of dir = dir.sector_pos * sector_size

bytes_of_ext :
    (contents contents' : ℕ → ℕ) (start n : ℕ)
    → ((p : ℕ) → start ≤ p → p < start + n → contents p ≡ contents' p)
    → bytes_of contents start n ≡ bytes_of contents' start n
bytes_of_ext contents contents' start zero same = refl
bytes_of_ext contents contents' start (suc n) same =
    ap₂ ◌∷◌ (same start (omega arith) (omega arith)) (
      bytes_of_ext contents contents' (start + 1) n
        (λ p from below. same p (omega arith) (omega (arith, below))))

-- Items whose bytes do not change are the same.
pub items_at_ext :
    (total : ℕ) (contents contents' : ℕ → ℕ) (start : ℕ)
    → ((p : ℕ) → start ≤ p → p < start + total * item_size → contents p ≡ contents' p)
    → items_at contents start total ≡ items_at contents' start total
items_at_ext zero contents contents' start same = refl
items_at_ext (suc total) contents contents' start same =
    ap₂ ◌∷◌
      (ap item_of (
        bytes_of_ext contents contents' start item_size
          (λ p from below. same p from (omega (arith, below)))))
      (items_at_ext total contents contents' (start + item_size)
        (λ p from below. same p (omega arith) (omega (arith, below))))

pub put_all-behind :
    (buffer : List ℕ) (contents : ℕ → ℕ) (start p : ℕ)
    → start + length buffer ≤ p
    → put_all contents start buffer p ≡ contents p
put_all-behind [] contents start p h = refl
put_all-behind (c ∷ buffer) contents start p h =
    let other : (p == start) ≡ false = ground (arith, h) in
    put_all-behind buffer (put contents start c) (start + 1) p (omega (arith, h)) ∙ rw other

-- The name of an item, as the code prints it into 12 bytes, and whether it is a name up to case.
abbrev pub Printed : DirectoryItem → List ℕ → Type 0
Printed item printed = get_full_relative_filename item.filename item.ext 12 ≡ some printed

abbrev pub SameText : List ℕ → List ℕ → Type 0
SameText name printed = map tolower (text 12 name) ≡ map tolower (text 12 printed)

-- Item `i` is the first of the first `total` that has the name.
abbrev pub IsMatch : List DirectoryItem → ℕ → List ℕ → ℕ → Type 0
IsMatch items zero name i = ⊥
IsMatch [] (suc total) name i = ⊥
IsMatch (item ∷ items) (suc total) name zero =
    (printed : List ℕ) × Printed item printed × SameText name printed
IsMatch (item ∷ items) (suc total) name (suc i) =
    ((printed : List ℕ) × Printed item printed × (¬ SameText name printed))
    × IsMatch items total name i

abbrev is_pos_zero : ℤ → Bool
is_pos_zero (pos n) = n == 0
is_pos_zero (negsuc n) = false

pos_zero : (z : ℤ) → is_pos_zero z ≡ true → z ≡ pos 0
pos_zero (pos n) e = ap pos (ground (arith, e))
pos_zero (negsuc n) e = absurd (ground (arith, e))

other_text :
    (name printed : List ℕ)
    → ¬ SameText name printed
    → is_pos_zero (istrncmp name printed 12) ≡ false
other_text name printed other = elim (Bool-cases (is_pos_zero (istrncmp name printed 12))) [
  | inl e ↦
      absurd (other ((istrncmp_iff 12 name printed).0 (pos_zero (istrncmp name printed 12) e)))
  | inr e ↦ e
]

pub match_loop-IsMatch :
    (items : List DirectoryItem) (total : ℕ) (name : List ℕ) (i : ℕ)
    → IsMatch items total name i
    → (match_loop items total name ≡ some (some i)) × (i < total)
unfolding match_loop
match_loop-IsMatch items zero name i m = absurd m
match_loop-IsMatch [] (suc total) name i m = absurd m
match_loop-IsMatch (item ∷ items) (suc total) name zero (printed, at, same) =
    (rw (match_loop, at, (istrncmp_iff 12 name printed).1 same) refl, omega arith)
match_loop-IsMatch (item ∷ items) (suc total) name (suc i) ((printed, at, other), m) =
    let (rest, low) = match_loop-IsMatch items total name i m in
    (rw (match_loop, at, other_text name printed other, rest) refl, omega (arith, low))
