-- ===== src/Str/Compare.antt =====
-- Lengths, comparisons and copies of strings, against the text that a string holds.
use serpae_os.Common.{
  ℕ, zero, suc, ◌-◌, ◌≤◌, ◌<◌, ◌≡◌, ◌↔◌, refl, true, some, List, [], ◌∷◌, ◌++◌, map, ltb, length,
  drop, arith, ◌∙◌, length-append, length-drop,
}
use Prim.Native.Nat.{min}
use serpae_os.Common.Int.{pos}
use serpae_os.Str.{next, strlen, strnlen, tolower, strncmp, istrncmp, text, strncpy, put_string}

-- `strnlen` is the length of the text, cut off at `max`.
pub strnlen-min : (s : List ℕ) (max : ℕ) → strnlen s max ≡ min max (strlen s)
unfolding strnlen strlen
strnlen-min s zero = omega arith
strnlen-min [] (suc max) = ground arith
strnlen-min (c ∷ s) (suc max) = ground (arith, strnlen-min s max)

length-text : (n : ℕ) (s : List ℕ) → length (text n s) ≡ min n (strlen s)
unfolding text strlen
length-text zero s = omega arith
length-text (suc n) [] = ground arith
length-text (suc n) (c ∷ s) = ground (arith, length-text n s)

-- `strncmp` answers 0 for equal texts of at most `n` bytes, and for no others.
pub strncmp_iff : (n : ℕ) (s t : List ℕ) → (strncmp s t n ≡ pos 0) ↔ (text n s ≡ text n t)
unfolding strncmp text
strncmp_iff zero s t = (λ e. refl, λ e. refl)
strncmp_iff (suc n) s t = (
  λ e. ground (arith, strncmp_iff n (next s) (next t)),
  λ e. ground (arith, strncmp_iff n (next s) (next t)),
)

-- `istrncmp` answers 0 for texts of at most `n` bytes that are equal up to case, and for no others.
pub istrncmp_iff :
    (n : ℕ) (s t : List ℕ)
    → (istrncmp s t n ≡ pos 0) ↔ (map tolower (text n s) ≡ map tolower (text n t))
unfolding istrncmp text tolower
istrncmp_iff zero s t = (λ e. refl, λ e. refl)
istrncmp_iff (suc n) s t = (
  λ e. ground (arith, istrncmp_iff n (next s) (next t)),
  λ e. ground (arith, istrncmp_iff n (next s) (next t)),
)

text-append : (n : ℕ) (s r : List ℕ) → text n (text n s ++ 0 ∷ r) ≡ text n s
unfolding text
text-append zero s r = refl
text-append (suc n) s r = ground (arith, text-append n (next s) r)

drop-nil : (n : ℕ) → drop {A = ℕ} n [] ≡ []
drop-nil zero = refl
drop-nil (suc n) = refl

-- Behind what is written, a buffer is as it was.
drop-written :
    (k : ℕ) (t dest : List ℕ)
    → length t < k
    → drop k (t ++ 0 ∷ drop (suc (length t)) dest) ≡ drop k dest
drop-written zero t dest h = absurd (omega arith)
drop-written (suc k) [] [] h = drop-nil k
drop-written (suc k) [] (d ∷ dest) h = refl
drop-written (suc k) (c ∷ t) [] h = drop-written k t [] (omega arith) ∙ drop-nil k
drop-written (suc k) (c ∷ t) (d ∷ dest) h = drop-written k t dest (omega arith)

-- `strncpy` into a buffer of `count` bytes or more writes at most `count` of them: the text cut off
-- at `count - 1`, and its 0. The rest of the buffer stays.
pub strncpy-text :
    (dest src : List ℕ) (count : ℕ)
    → 0 < count
    → count ≤ length dest
    → (out : List ℕ) × (strncpy dest src count ≡ some out)
      × (text (count - 1) out ≡ text (count - 1) src)
      × (length out ≡ length dest)
      × (drop count out ≡ drop count dest)
unfolding strncpy put_string
strncpy-text dest src count positive room =
    let t = text (count - 1) src in
    let size : length t ≤ count - 1 = omega (arith, length-text (count - 1) src) in
    let fits : ltb (length t) (length dest) ≡ true = ground arith in
    (
      t ++ 0 ∷ drop (suc (length t)) dest,
      rw (fits, strncpy, put_string),
      text-append (count - 1) src _,
      omega (
        arith,
        length-append t (0 ∷ drop (suc (length t)) dest),
        length-drop (suc (length t)) dest,
      ),
      drop-written count t dest (omega arith),
    )
