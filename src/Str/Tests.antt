-- ===== src/Str/Tests.antt =====
-- Tests of the string functions, and their theorems at concrete strings.
use serpae_os.Common.{ℕ, suc, ◌≤◌, ◌≡◌, refl, some, List, [], ◌∷◌, length, arith}
use serpae_os.Common.Int.{pos, negsuc}
use Prim.Native.Nat.{min}
use serpae_os.Str.{strlen, strnlen, strnlen_terminator, strncmp, strcpy, itoa, atoi}
use serpae_os.Str.Compare.{strnlen-min}
use serpae_os.Str.Decimal.{atoi-itoa, itoa_negative}

-- "Ab" and "aB", with more behind the 0.
abbrev ab : List ℕ
ab = 65 ∷ 98 ∷ 0 ∷ 7 ∷ []

abbrev ba : List ℕ
ba = 97 ∷ 66 ∷ []

strncmp-ab : strncmp ab ba 5 ≡ negsuc 31
unfolding strncmp
strncmp-ab = refl

strnlen_terminator-ab : strnlen_terminator ab 9 98 ≡ 1
unfolding strnlen_terminator
strnlen_terminator-ab = refl

strcpy-ab : strcpy (9 ∷ 9 ∷ 9 ∷ 9 ∷ []) ab ≡ some (65 ∷ 98 ∷ 0 ∷ 9 ∷ [])
unfolding strcpy
strcpy-ab = refl

itoa-205 : itoa (pos 205) ≡ some (50 ∷ 48 ∷ 53 ∷ [])
unfolding itoa
itoa-205 = refl

itoa-zero : itoa (pos 0) ≡ some (48 ∷ [])
unfolding itoa
itoa-zero = refl

strnlen-min_example : strnlen ab 1 ≡ min 1 (strlen ab)
strnlen-min_example = strnlen-min ab 1

atoi-itoa_example :
    (out : List ℕ) × (itoa (pos 205) ≡ some out) × (length out ≤ 11) × (atoi out ≡ 205)
atoi-itoa_example = atoi-itoa 205 (omega arith)

itoa_negative_example :
    (ds : List ℕ) × (itoa (negsuc 6) ≡ some (b'-' ∷ ds)) × (length ds ≤ 10) × (atoi ds ≡ suc 6)
itoa_negative_example = itoa_negative 6 (omega arith)
