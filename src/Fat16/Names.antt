-- ===== src/Fat16/Names.antt =====
-- Names of FAT16 directory entries, fat16_to_proper_string and fat16_get_full_relative_filename of
-- src/fs/fat/fat16.c and string_to_fat_filename of src/fs/fat/fat16_write.c. A name is 8 bytes, and
-- its extension the 3 bytes behind them, both filled up with spaces.
pub mod RoundTrip
pub mod Long
use serpae_os.Common.{
  ℕ, zero, suc, ◌+◌, ◌-◌, ◌*◌, ◌/◌, ◌%◌, ◌^◌, ◌≤◌, ◌<◌, ◌≡◌, ◌≢◌, ◌↔◌, ◌⊎◌, inl, inr, refl, Bool,
  true, false, not, ◌&&◌, ◌||◌, Option, none, some, List, [], ◌∷◌, ◌++◌, map, ltb, leb, ◌==◌,
  if◌then◌else◌, length, take, drop, set, get_or, get_elem?, replicate, arith, ap, ap₂, sym, ◌∙◌,
  length-append, length-set, get_or-set_self, get_or-set_ne, set-set, get_or-replicate, get_or_ext,
  length-replicate, length-take, length-drop, get_or-snoc_self, get_or-snoc_ne, get_or_out,
  List-cases, some_cancel, some_ne, Option-cases, Bool-cases, range_cases, tests, dec_lt, dec_le,
  ℕ_discrete, Status, ok, err, Status-cases,
}
use serpae_os.Str.{peek, next, toupper}

-- At most `size` bytes, up to a 0 or a space.
unfoldable pub to_proper_string : ℕ → List ℕ → List ℕ
to_proper_string zero s = []
to_proper_string (suc size) s =
    let rest = to_proper_string size (next s) in
    if peek s == 0 || peek s == b' ' then [] else peek s ∷ rest

-- The text that `fat16_get_full_relative_filename` writes, without its 0.
unfoldable pub full_name : List ℕ → List ℕ → List ℕ
full_name filename ext =
    let name = to_proper_string 8 filename in
    if not (peek ext == 0) && not (peek ext == b' ')
    then name ++ b'.' ∷ to_proper_string 3 ext
    else name

-- The buffer of `max_len` bytes, which is cleared first. `none` is a write behind it.
unfoldable pub get_full_relative_filename : List ℕ → List ℕ → ℕ → Option (List ℕ)
get_full_relative_filename filename ext max_len =
    let text = full_name filename ext in
    if ltb (length text) max_len then some (text ++ replicate (max_len - length text) 0) else none

-- The loop of `string_to_fat_filename`, with the rounds that are left.
unfoldable pub name_loop : ℕ → List ℕ → Bool → ℕ → ℕ → List ℕ → List ℕ
name_loop zero filename ext f e out = out
name_loop (suc rounds) filename ext f e out =
    let c = peek filename in
    let dot = name_loop rounds (next filename) true f e out in
    let in_ext = set out (8 + e) (toupper c) in
    let more_ext = name_loop rounds (next filename) ext f (e + 1) in_ext in
    let in_name = set out f (toupper c) in
    let more_name = name_loop rounds (next filename) ext (f + 1) e in_name in
    if c == 0
    then out
    else if c == b'.'
    then dot
    else if ext
    then (if e + 1 == 3 then in_ext else more_ext)
    else if f + 1 == 8
    then in_name
    else more_name

unfoldable pub string_to_fat_filename : List ℕ → List ℕ
string_to_fat_filename filename = name_loop 13 filename false 0 0 (replicate 11 b' ')
