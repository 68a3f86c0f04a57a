-- ===== src/Fat16/Directory/Find.antt =====
-- The first item of a directory that has a name.
use serpae_os.Common.{
  ℕ, zero, suc, ◌<◌, ◌≡◌, ◌⊎◌, inl, inr, refl, true, false, none, some, List, [], ◌∷◌, get_elem?,
  arith, sym, some_cancel, some_ne, Bool-cases, ap, ◌∙◌, map, ◌↔◌, ◌==◌, Option-cases,
}
use serpae_os.Common.Int.{ℤ, pos, negsuc}
use serpae_os.Str.{text, istrncmp, tolower}
use serpae_os.Str.Compare.{istrncmp_iff}
use serpae_os.Fat16.Names.{get_full_relative_filename}
use serpae_os.Fat16.Directory.{DirectoryItem, has_name, find_entry_in_directory}

-- The name of an item, as the code prints it, is the name that is looked for, up to case: within the 108
-- bytes of the buffer, and up to the first 0.
abbrev pub HasName : List ℕ → DirectoryItem → Type 0
HasName name item =
    (printed : List ℕ) × (get_full_relative_filename item.filename item.ext 108 ≡ some printed)
    × (map tolower (text 108 printed) ≡ map tolower (text 108 name))

has_name-HasName :
    (name : List ℕ) (item : DirectoryItem) → (has_name name item ≡ true) ↔ HasName name item
unfolding has_name
has_name-HasName name item =
    elim (Option-cases (get_full_relative_filename item.filename item.ext 108)) [
      | inl none_printed ↦ (
        λ e.
            let test : has_name name item ≡ false = rw (has_name, none_printed) in
            absurd (ground (arith, e, test)),
        λ (printed, at, same). absurd (some_ne printed (sym at ∙ none_printed)),
      )
      | inr (printed, at) ↦ (
        λ e. (printed, at, (istrncmp_iff 108 printed name).0 (equal printed at e)),
        λ (other, printed_at, same).
            let own : other ≡ printed = some_cancel (sym printed_at ∙ at) in
            let zero_if : istrncmp printed name 108 ≡ pos 0 =
              (istrncmp_iff 108 printed name).1
                (ap (λ p. map tolower (text 108 p)) (sym own) ∙ same) in
            rw (has_name, at, zero_if) refl,
      )
    ]
  where
    is_zero : (z : ℤ) → elim z [ pos n ↦ n == 0 | negsuc n ↦ false ] ≡ true → z ≡ pos 0
    is_zero (pos zero) e = refl
    is_zero (pos (suc n)) e = absurd (ground (arith, e))
    is_zero (negsuc n) e = absurd (ground (arith, e))

    equal :
        (printed : List ℕ)
        → get_full_relative_filename item.filename item.ext 108 ≡ some printed
        → has_name name item ≡ true
        → istrncmp printed name 108 ≡ pos 0
    equal printed at e =
        let answer : has_name name item
            ≡ elim (istrncmp printed name 108) [ pos n ↦ n == 0 | negsuc n ↦ false ] =
          rw (has_name, at) refl in
        is_zero (istrncmp printed name 108) (sym answer ∙ e)

-- Item `i` is among the first `total`, has the name, and none before it has.
abbrev Found : List DirectoryItem → ℕ → List ℕ → ℕ → Type 0
Found items total name i =
    (i < total)
    × ((item : DirectoryItem) × (get_elem? items i ≡ some item) × (has_name name item ≡ true))
    × ((j : ℕ) (item : DirectoryItem)
        → j < i
        → get_elem? items j ≡ some item
        → has_name name item ≡ false)

not_before :
    (items : List DirectoryItem) (name : List ℕ) (first : DirectoryItem) (i : ℕ)
    → has_name name first ≡ false
    → ((j : ℕ) (item : DirectoryItem)
        → j < i
        → get_elem? items j ≡ some item
        → has_name name item ≡ false)
    → (j : ℕ) (item : DirectoryItem) → j < suc i
    → get_elem? (first ∷ items) j ≡ some item
    → has_name name item ≡ false
not_before items name first i other before zero item lt e = rw (← some_cancel e) other
not_before items name first i other before (suc j) item lt e = before j item (omega arith) e

-- The search finds the first item that passes the test.
find_first :
    (items : List DirectoryItem) (total : ℕ) (name : List ℕ)
    → ((i : ℕ) × (find_entry_in_directory items total name ≡ some i) × Found items total name i)
      ⊎ ((find_entry_in_directory items total name ≡ none)
          × ((j : ℕ) (item : DirectoryItem)
              → j < total
              → get_elem? items j ≡ some item
              → has_name name item ≡ false))
unfolding find_entry_in_directory
find_first items zero name = inr (refl, λ j item lt e. absurd (omega arith))
find_first [] (suc total) name = inr (refl, λ j item lt e. absurd (some_ne item (sym e)))
find_first (first ∷ items) (suc total) name = elim (Bool-cases (has_name name first)) [
  | inl has ↦ inl (
    0,
    rw (find_entry_in_directory, has),
    (omega arith, (first, refl, has), λ j item lt e. absurd (omega arith)),
  )
  | inr other ↦ elim (find_first items total name) [
    | inl (i, e, (lt, item, before)) ↦ inl (
      suc i,
      rw (find_entry_in_directory, other, e),
      (omega arith, item, not_before items name first i other before),
    )
    | inr (e, all) ↦ inr (
      rw (find_entry_in_directory, other, e),
      λ j item lt at. not_before items name first total other all j item (omega arith) at,
    )
  ]
]

-- Item `i` is among the first `total`, has the name, and none before it has.
abbrev pub IsFirst : List DirectoryItem → ℕ → List ℕ → ℕ → Type 0
IsFirst items total name i =
    (i < total)
    × ((item : DirectoryItem) × (get_elem? items i ≡ some item) × HasName name item)
    × ((j : ℕ) (item : DirectoryItem) → j < i → get_elem? items j ≡ some item → ¬ HasName name item)

has_no_name :
    (name : List ℕ) (item : DirectoryItem) → has_name name item ≡ false → ¬ HasName name item
has_no_name name item e h = ground (arith, e, (has_name-HasName name item).1 h)

-- The search of a directory finds the first item among the first `total` whose printed name is the name
-- up to case; or it finds none, and none of these has it.
pub find_entry_in_directory-IsFirst :
    (items : List DirectoryItem) (total : ℕ) (name : List ℕ)
    → ((i : ℕ) × (find_entry_in_directory items total name ≡ some i) × IsFirst items total name i)
      ⊎ ((find_entry_in_directory items total name ≡ none)
          × ((j : ℕ) (item : DirectoryItem)
              → j < total
              → get_elem? items j ≡ some item
              → ¬ HasName name item))
find_entry_in_directory-IsFirst items total name = elim (find_first items total name) [
  | inl (i, e, (lt, (item, at, has), before)) ↦ inl (
    i,
    e,
    (
      lt,
      (item, at, (has_name-HasName name item).0 has),
      λ j other low at_j. has_no_name name other (before j other low at_j),
    ),
  )
  | inr (e, all) ↦ inr (e, λ j item lt at. has_no_name name item (all j item lt at))
]
