-- ===== src/PathParser.antt =====
-- Paths such as 0:/sys/bin/shell, src/fs/pparser.c. The functions take it for granted that
-- `kzalloc` succeeds (they write through what it returns), and so does the model.
pub mod Parts
mod Tests
pub mod RoundTrip
use serpae_os.Common.{
  ℕ, zero, suc, ◌+◌, ◌-◌, Bool, true, false, not, ◌&&◌, ◌||◌, Option, none, some, List, [], ◌∷◌,
  leb, ltb, ◌==◌, if◌then◌else◌, length, drop, Status, ok, err, ebadpath,
}
use serpae_os.Str.{peek, next, strlen, strnlen, isdigit}

abbrev pub max_path : ℕ
max_path = 108

-- `struct path_root`, with the list of `struct path_part` as a list of their texts.
pub record PathRoot : Type 0 where
  pub drive_no : ℕ
  pub parts : List (List ℕ)

-- `memcmp(&filename[1], ":/", 2) == 0`
path_valid_format : List ℕ → Bool
path_valid_format filename =
    leb 3 (strnlen filename max_path)
    && isdigit (peek filename)
    && (peek (next filename) == b':' && peek (next (next filename)) == b'/')

-- The drive, and the path behind its three bytes.
get_drive_by_path : List ℕ → Status (ℕ × List ℕ)
unfolding path_valid_format
get_drive_by_path path =
    if not (path_valid_format path) then err ebadpath else ok (peek path - 48, drop 3 path)

-- The bytes up to a '/' or the end, and the path behind them and the '/'.
pub get_path_part : List ℕ → List ℕ × List ℕ
get_path_part [] = ([], [])
get_path_part (c ∷ path) =
    let (part, rest) = get_path_part path in
    if c == b'/' then ([], path) else if c == 0 then ([], c ∷ path) else (c ∷ part, rest)

-- `pathparser_parse_path_part` makes no part of an empty text.
parse_path_part : List ℕ → Option (List ℕ × List ℕ)
parse_path_part path = elim ((get_path_part path).0) [
  | [] ↦ none
  | c ∷ part ↦ some (c ∷ part, (get_path_part path).1)
]

-- The loop of `pathparser_parse`. Each part takes at least one byte, so the length of the path is
-- fuel enough.
parse_parts : ℕ → List ℕ → List (List ℕ)
parse_parts zero path = []
parse_parts (suc fuel) path = elim (parse_path_part path) [
  | none ↦ []
  | some (part, rest) ↦ part ∷ parse_parts fuel rest
]

-- `none` is the null pointer.
pub parse : List ℕ → Option PathRoot
unfolding parse_parts
parse path = if ltb max_path (strlen path) then none else elim (get_drive_by_path path) [
  | err e ↦ none
  | ok (drive, rest) ↦
      some (record { drive_no = drive; parts = parse_parts (length rest + 1) rest })
]

-- `pathparser_get_last_part` of a list that is not empty: its first part and the others.
pub get_last_part : List ℕ → List (List ℕ) → List ℕ
get_last_part part [] = part
get_last_part part (p ∷ parts) = get_last_part p parts
