-- ===== src/Str.antt =====
-- C strings, src/string/string.c, and the functions of programs/stdlib/src/string.c that undo them.
-- A string is the list of its bytes; behind the list a read finds the 0 that ends it. A 0 in the
-- list ends the string too.
pub mod Compare
pub mod Decimal
mod Tests
use serpae_os.Common.{
  ℕ, zero, suc, ◌+◌, ◌-◌, ◌*◌, ◌/◌, ◌%◌, ◌^◌, Bool, true, false, not, ◌&&◌, ◌||◌, Option, none,
  some, List, [], ◌∷◌, ◌++◌, leb, ltb, ◌==◌, if◌then◌else◌, length, drop,
}
use serpae_os.Common.Int.{ℤ, pos, negsuc, sub_ℕ}

-- `*s` and `s + 1`.
abbrev pub peek : List ℕ → ℕ
peek [] = 0
peek (c ∷ s) = c

abbrev pub next : List ℕ → List ℕ
next [] = []
next (c ∷ s) = s

unfoldable pub strlen : List ℕ → ℕ
strlen [] = 0
strlen (c ∷ s) = if c == 0 then 0 else strlen s + 1

-- The loop counts down the rounds to `max`.
unfoldable pub strnlen : List ℕ → ℕ → ℕ
strnlen s zero = 0
strnlen s (suc max) = if peek s == 0 then 0 else strnlen (next s) max + 1

pub strnlen_terminator : List ℕ → ℕ → ℕ → ℕ
strnlen_terminator s zero terminator = 0
strnlen_terminator s (suc max) terminator =
    if peek s == 0 || peek s == terminator
    then 0
    else strnlen_terminator (next s) max terminator + 1

unfoldable pub tolower : ℕ → ℕ
tolower x = if leb b'A' x && leb x b'Z' then x + 0x20 else x

unfoldable pub toupper : ℕ → ℕ
toupper x = if leb b'a' x && leb x b'z' then x - 0x20 else x

pub strncmp : List ℕ → List ℕ → ℕ → ℤ
strncmp s1 s2 zero = pos 0
strncmp s1 s2 (suc n) =
    let rest = strncmp (next s1) (next s2) n in
    if not (peek s1 == peek s2)
    then sub_ℕ (peek s1) (peek s2)
    else if peek s1 == 0
    then pos 0
    else rest

unfoldable pub istrncmp : List ℕ → List ℕ → ℕ → ℤ
istrncmp s1 s2 zero = pos 0
istrncmp s1 s2 (suc n) =
    let rest = istrncmp (next s1) (next s2) n in
    if not (peek s1 == peek s2) && not (tolower (peek s1) == tolower (peek s2))
    then sub_ℕ (peek s1) (peek s2)
    else if peek s1 == 0
    then pos 0
    else rest

-- Writes the bytes, and the 0 behind them, to the start of a buffer; `none` is a write behind it.
put_string : List ℕ → List ℕ → Option (List ℕ)
put_string text dest =
    if ltb (length text) (length dest)
    then some (text ++ 0 ∷ drop (suc (length text)) dest)
    else none

-- The bytes that a copy of at most `n` bytes takes.
unfoldable pub text : ℕ → List ℕ → List ℕ
text zero s = []
text (suc n) s = if peek s == 0 then [] else peek s ∷ text n (next s)

-- The buffer `dest` after the copy. The loop runs while `i < count - 1`, and ends early at a 0.
pub strncpy : List ℕ → List ℕ → ℕ → Option (List ℕ)
unfolding put_string text
strncpy dest src count = put_string (text (count - 1) src) dest

pub strcpy : List ℕ → List ℕ → Option (List ℕ)
unfolding put_string text strlen
strcpy dest src = put_string (text (strlen src) src) dest

unfoldable pub isdigit : ℕ → Bool
isdigit c = leb 48 c && leb c 57

unfoldable pub tonumericdigit : ℕ → ℤ
tonumericdigit c = sub_ℕ c 48

-- The loop of `itoa` on the magnitude of its number: it writes digits downwards from the end of the
-- buffer, so each one is put in front. `none` is a round more than `fuel`.
itoa_loop : ℕ → ℕ → List ℕ → Option (List ℕ)
itoa_loop zero m out = if m == 0 then some out else none
itoa_loop (suc fuel) m out =
    let rest = itoa_loop fuel (m / 10) ((b'0' + m % 10) ∷ out) in if m == 0 then some out else rest

-- A number is made negative, if it is not, and its digits are taken with the sign of `%`.
magnitude : ℤ → ℕ
magnitude (pos n) = n
magnitude (negsuc n) = suc n

finish : ℤ → List ℕ → List ℕ
finish (pos n) [] = b'0' ∷ []
finish (pos n) (d ∷ ds) = d ∷ ds
finish (negsuc n) ds = b'-' ∷ ds

-- `text[12]` has room for 11 bytes before its last, the 0: at most 10 digits and the sign.
pub itoa : ℤ → Option (List ℕ)
unfolding itoa_loop magnitude finish
itoa i = elim (itoa_loop 10 (magnitude i) []) [ none ↦ none | some ds ↦ some (finish i ds) ]

-- `res` is an `int` that wraps.
atoi_loop : ℕ → List ℕ → ℕ
atoi_loop res [] = res
atoi_loop res (c ∷ s) =
    let rest = atoi_loop ((res * 10 + (c - 48)) % 2 ^ 32) s in
    if not (c == 0) && isdigit c then rest else res

pub atoi : List ℕ → ℕ
unfolding atoi_loop isdigit
atoi s = atoi_loop 0 s

-- `while(*str) *str = toupper(*str);` never moves `str`. `none` is a loop that has not ended.
pub strupper : ℕ → List ℕ → Option (List ℕ)
strupper zero s = none
strupper (suc fuel) s =
    let rest = strupper fuel (toupper (peek s) ∷ next s) in if peek s == 0 then some s else rest
