-- ===== src/Str/Decimal.antt =====
-- `itoa`: its digits fit the buffer, and `atoi` reads them back. `strupper`: it does not end.
use serpae_os.Common.{
  ℕ, zero, suc, ◌+◌, ◌-◌, ◌*◌, ◌/◌, ◌%◌, ◌^◌, ◌≤◌, ◌<◌, ◌≡◌, ◌≢◌, refl, none, some, List, [], ◌∷◌,
  ◌==◌, length, arith, Bool-cases, inl, inr, ◌∙◌,
}
use native.Mathlib.Nat.{pow-suc}
use serpae_os.Common.Int.{pos, negsuc}
use serpae_os.Str.{peek, next, toupper, isdigit, itoa_loop, finish, itoa, atoi_loop, atoi, strupper}

-- `atoi` takes one digit of a number.
one_digit :
    (m : ℕ) (out : List ℕ)
    → m < 2 ^ 32
    → atoi_loop (m / 10) ((b'0' + m % 10) ∷ out) ≡ atoi_loop m out
unfolding atoi_loop isdigit
one_digit m out h =
    let value : (m / 10 * 10 + (b'0' + m % 10 - 48)) % 2 ^ 32 ≡ m = omega arith in
    ground (arith, value)

-- What the loop of `itoa` makes of `m`, with `fuel` digits for it: at most so many bytes in front
-- of `out`, which take `atoi` from 0 to `m` before it reads `out`.
itoa_loop-atoi_loop :
    (fuel m : ℕ) (out : List ℕ)
    → m < 10 ^ fuel
    → m < 2 ^ 32
    → (ds : List ℕ) × (itoa_loop fuel m out ≡ some ds)
      × (length ds ≤ fuel + length out)
      × (atoi_loop 0 ds ≡ atoi_loop m out)
unfolding itoa_loop
itoa_loop-atoi_loop zero m out h k = let e : m ≡ 0 = omega arith in (out, rw e, omega arith, rw e)
itoa_loop-atoi_loop (suc fuel) m out h k = elim (Bool-cases (m == 0)) [
  | inl stop ↦ (out, rw stop, omega arith, ground arith)
  | inr more ↦
      let d = b'0' + m % 10 in
      let (ds, e, size, value) =
        itoa_loop-atoi_loop fuel (m / 10) (d ∷ out) (omega (arith, h, pow-suc 10 fuel))
          (omega arith) in
      (ds, rw more e, omega (arith, size), value ∙ one_digit m out k)
]

module _ (n : ℕ) (small : n < 2 ^ 32) where
  digits : (ds : List ℕ) × (itoa_loop 10 n [] ≡ some ds) × (length ds ≤ 10) × (atoi_loop 0 ds ≡ n)
  unfolding atoi_loop
  digits =
      let (ds, e, size, value) = itoa_loop-atoi_loop 10 n [] (omega arith) small in
      (ds, e, omega (arith, size), value)

  finish-digits :
      (ds : List ℕ)
      → length ds ≤ 10
      → atoi_loop 0 ds ≡ n
      → (length (finish (pos n) ds) ≤ 11) × (atoi_loop 0 (finish (pos n) ds) ≡ n)
  unfolding finish atoi_loop isdigit
  finish-digits [] size value = (omega arith, value)
  finish-digits (d ∷ ds) size value = (omega arith, value)

-- `itoa` of an `int` that is not negative fits its buffer, and `atoi` reads it back.
pub atoi-itoa :
    (n : ℕ)
    → n < 2 ^ 31
    → (out : List ℕ) × (itoa (pos n) ≡ some out) × (length out ≤ 11) × (atoi out ≡ n)
unfolding itoa atoi
atoi-itoa n h =
    let (ds, e, size, value) = digits n (omega arith) in
    let (short, read) = finish-digits n (omega arith) ds size value in
    (finish (pos n) ds, rw (e, itoa), short, read)

-- `itoa` of a negative `int`, the least one included, fits its buffer: a sign, and digits that
-- `atoi` reads as the magnitude.
pub itoa_negative :
    (n : ℕ)
    → n < 2 ^ 31
    → (ds : List ℕ) × (itoa (negsuc n) ≡ some (b'-' ∷ ds)) × (length ds ≤ 10) × (atoi ds ≡ suc n)
unfolding itoa atoi
itoa_negative n h =
    let (ds, e, size, value) = digits (suc n) (omega arith) in (ds, rw (e, itoa), size, value)

-- `strupper` of a string that is not empty is still in its loop after any number of rounds.
pub strupper-none : (fuel : ℕ) (s : List ℕ) → peek s ≢ 0 → strupper fuel s ≡ none
unfolding strupper toupper
strupper-none zero s h = refl
strupper-none (suc fuel) s h = ground (arith, strupper-none fuel (toupper (peek s) ∷ next s))
