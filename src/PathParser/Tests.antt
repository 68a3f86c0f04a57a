-- ===== src/PathParser/Tests.antt =====
-- Tests of the path parser, and its theorems at concrete paths.
use serpae_os.Common.{ℕ, ◌≡◌, refl, none, some, List, [], ◌∷◌, arith}
use serpae_os.PathParser.{
  PathRoot, parse, get_drive_by_path, parse_path_part, get_path_part, get_last_part,
}
use serpae_os.Str.{strlen, strnlen, isdigit}
use serpae_os.PathParser.RoundTrip.{Parts, print, parse-print}

-- "0:/a/bc"
abbrev path : List ℕ
path = 48 ∷ 58 ∷ 47 ∷ 97 ∷ 47 ∷ 98 ∷ 99 ∷ []

abbrev root : PathRoot
root = record { drive_no = 0; parts = (97 ∷ []) ∷ (98 ∷ 99 ∷ []) ∷ [] }

parse-path : parse path ≡ some root
unfolding parse strlen get_drive_by_path strnlen isdigit parse_path_part get_path_part
parse-path = refl

-- No drive.
parse-no_drive : parse (47 ∷ 97 ∷ []) ≡ none
unfolding parse strlen get_drive_by_path strnlen
parse-no_drive = refl

last_part : get_last_part (97 ∷ []) ((98 ∷ 99 ∷ []) ∷ []) ≡ 98 ∷ 99 ∷ []
unfolding get_last_part
last_part = refl

root-Parts : Parts root.parts
root-Parts = (ground arith, ground arith, ground arith)

parse-print_example : parse (print root) ≡ some root
parse-print_example = parse-print root (omega arith) root-Parts (omega arith)
