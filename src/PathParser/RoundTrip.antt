-- ===== src/PathParser/RoundTrip.antt =====
-- A path that is written out is parsed to its drive and parts.
use serpae_os.Common.{
  ℕ, zero, suc, ◌+◌, ◌-◌, ◌≤◌, ◌<◌, ◌≡◌, ◌≢◌, refl, true, false, some, List, [], ◌∷◌, ◌++◌, ltb,
  length, arith, length-append, ok,
}
use serpae_os.Str.{strlen, strnlen, isdigit}
use serpae_os.Str.Compare.{strnlen-min}
use Prim.Native.Nat.{min}
use serpae_os.PathParser.{
  PathRoot, max_path, path_valid_format, get_drive_by_path, get_path_part, parse_path_part,
  parse_parts, parse,
}

-- A text with no '/' and no 0.
abbrev pub Clean : List ℕ → Type 0
Clean [] = Unit {0}
Clean (c ∷ s) = (c ≢ b'/') × (c ≢ 0) × Clean s

-- Texts that are clean and not empty.
abbrev pub Parts : List (List ℕ) → Type 0
Parts [] = Unit {0}
Parts (p ∷ ps) = (p ≢ []) × Clean p × Parts ps

abbrev pub join : List (List ℕ) → List ℕ
join [] = []
join (p ∷ []) = p
join (p ∷ q ∷ ps) = p ++ b'/' ∷ join (q ∷ ps)

-- A path as it is written: the drive, ":/", and the parts with a '/' between them.
abbrev pub print : PathRoot → List ℕ
print r = (b'0' + r.drive_no) ∷ b':' ∷ b'/' ∷ join r.parts

get_path_part-slash : (p r : List ℕ) → Clean p → get_path_part (p ++ b'/' ∷ r) ≡ (p, r)
unfolding get_path_part
get_path_part-slash [] r c = refl
get_path_part-slash (x ∷ p) r c = ground (arith, get_path_part-slash p r c.2)

get_path_part-end : (p : List ℕ) → Clean p → get_path_part p ≡ (p, [])
unfolding get_path_part
get_path_part-end [] c = refl
get_path_part-end (x ∷ p) c = ground (arith, get_path_part-end p c.2)

parse_parts-nil : (fuel : ℕ) → parse_parts fuel [] ≡ []
unfolding parse_parts parse_path_part get_path_part
parse_parts-nil zero = refl
parse_parts-nil (suc fuel) = refl

parse_parts-join :
    (fuel : ℕ) (ps : List (List ℕ))
    → Parts ps
    → length (join ps) < fuel
    → parse_parts fuel (join ps) ≡ ps
unfolding parse_parts parse_path_part
parse_parts-join zero ps c h = absurd (omega arith)
parse_parts-join (suc fuel) [] c h = parse_parts-nil (suc fuel)
parse_parts-join (suc fuel) ([] ∷ ps) c h = absurd (c.0 refl)
parse_parts-join (suc fuel) ((x ∷ p) ∷ []) c h = rw (
  parse_parts,
  parse_path_part,
  get_path_part-end (x ∷ p) c.1,
  get_path_part-end (x ∷ p) c.1,
  parse_parts-nil fuel,
)
parse_parts-join (suc fuel) ((x ∷ p) ∷ q ∷ ps) c h = rw (
  parse_parts,
  parse_path_part,
  get_path_part-slash (x ∷ p) (join (q ∷ ps)) c.1,
  get_path_part-slash (x ∷ p) (join (q ∷ ps)) c.1,
  parse_parts-join fuel (q ∷ ps) c.2 (omega (arith, h, length-append p (b'/' ∷ join (q ∷ ps)))),
)

strlen_le : (s : List ℕ) → strlen s ≤ length s
unfolding strlen
strlen_le [] = omega arith
strlen_le (c ∷ s) = ground (arith, strlen_le s)

strlen_prefix : (d : ℕ) (s : List ℕ) → 3 ≤ strlen ((b'0' + d) ∷ b':' ∷ b'/' ∷ s)
unfolding strlen
strlen_prefix d s = ground arith

path_valid_format-print :
    (d : ℕ) (s : List ℕ) → d < 10 → path_valid_format ((b'0' + d) ∷ b':' ∷ b'/' ∷ s) ≡ true
unfolding path_valid_format isdigit
path_valid_format-print d s h =
    let path = (b'0' + d) ∷ b':' ∷ b'/' ∷ s in
    let size : 3 ≤ strlen path = strlen_prefix d s in
    let len : strnlen path max_path ≡ min max_path (strlen path) = strnlen-min path max_path in
    ground (arith, size, len)

get_drive_by_path-print :
    (d : ℕ) (s : List ℕ) → d < 10 → get_drive_by_path ((b'0' + d) ∷ b':' ∷ b'/' ∷ s) ≡ ok (d, s)
unfolding get_drive_by_path
get_drive_by_path-print d s h =
    let drive : b'0' + d - 48 ≡ d = omega arith in rw (path_valid_format-print d s h, drive)

-- A path of at most 108 bytes, with a drive of one digit and parts that are not empty and hold
-- no '/' and no 0, is parsed to the drive and the parts that it was written from.
pub parse-print :
    (r : PathRoot)
    → r.drive_no < 10
    → Parts r.parts
    → length (print r) ≤ max_path
    → parse (print r) ≡ some r
unfolding parse
parse-print r d c h =
    let short : ltb max_path (strlen (print r)) ≡ false = ground (arith, strlen_le (print r), h) in
    rw (
      short,
      get_drive_by_path-print r.drive_no (join r.parts) d,
      parse_parts-join (length (join r.parts) + 1) r.parts c (omega arith),
    )
