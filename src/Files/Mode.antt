-- ===== src/Files/Mode.antt =====
-- The mode of a file, against the letters of its mode string.
use serpae_os.Common.{
  ℕ, ◌+◌, ◌≡◌, inl, inr, refl, Bool, true, false, ◌||◌, List, [], ◌∷◌, ◌==◌, if◌then◌else◌, arith,
  Bool-cases, bit_or,
}
use serpae_os.Files.{mode_loop, get_mode_by_string}

-- The set of the three modes, as a number.
pub value : Bool → Bool → Bool → ℕ
value r w a = (if r then 1 else 0) + (if w then 2 else 0) + (if a then 4 else 0)

abbrev pub is_read : ℕ → Bool
is_read c = c == b'r' || c == b'R'

abbrev pub is_write : ℕ → Bool
is_write c = c == b'w' || c == b'W'

abbrev pub is_append : ℕ → Bool
is_append c = c == b'a' || c == b'A'

-- Some byte of the string, before its 0, passes the test.
abbrev pub any : (ℕ → Bool) → List ℕ → Bool
any p [] = false
any p (c ∷ str) = if c == 0 then false else p c || any p str

or_read : (r w a : Bool) → bit_or (value r w a) 1 ≡ value true w a
unfolding value
or_read true true true = refl
or_read true true false = refl
or_read true false true = refl
or_read true false false = refl
or_read false true true = refl
or_read false true false = refl
or_read false false true = refl
or_read false false false = refl

or_write : (r w a : Bool) → bit_or (value r w a) 2 ≡ value r true a
unfolding value
or_write true true true = refl
or_write true true false = refl
or_write true false true = refl
or_write true false false = refl
or_write false true true = refl
or_write false true false = refl
or_write false false true = refl
or_write false false false = refl

or_append : (r w a : Bool) → bit_or (value r w a) 4 ≡ value r w true
unfolding value
or_append true true true = refl
or_append true true false = refl
or_append true false true = refl
or_append true false false = refl
or_append false true true = refl
or_append false true false = refl
or_append false false true = refl
or_append false false false = refl

or_true : (b : Bool) → (b || true) ≡ true
or_true true = refl
or_true false = refl

or_false : (b : Bool) → (b || false) ≡ b
or_false true = refl
or_false false = refl

mode_loop-value :
    (str : List ℕ) (r w a : Bool)
    → mode_loop (value r w a) str
      ≡ value (r || any is_read str) (w || any is_write str) (a || any is_append str)
unfolding mode_loop
mode_loop-value [] r w a = rw (or_false r, or_false w, or_false a)
mode_loop-value (c ∷ str) r w a = elim (Bool-cases (c == 0)) [
  | inl stop ↦ rw (mode_loop, stop, or_false r, or_false w, or_false a)
  | inr more ↦ elim (Bool-cases (is_read c)) [
    | inl read ↦
        let no_write : is_write c ≡ false = ground (arith, read) in
        let no_append : is_append c ≡ false = ground (arith, read) in
        rw (mode_loop, more, read, no_write, no_append, or_read r w a, or_true r)
          (mode_loop-value str true w a)
    | inr no_read ↦ elim (Bool-cases (is_write c)) [
      | inl write ↦
          let no_append : is_append c ≡ false = ground (arith, write) in
          rw (mode_loop, more, no_read, write, no_append, or_write r w a, or_true w)
            (mode_loop-value str r true a)
      | inr no_write ↦ elim (Bool-cases (is_append c)) [
        | inl append ↦
            rw (mode_loop, more, no_read, no_write, append, or_append r w a, or_true a)
              (mode_loop-value str r w true)
        | inr no_append ↦
            rw (mode_loop, more, no_read, no_write, no_append) (mode_loop-value str r w a)
      ]
    ]
  ]
]

-- The mode of a string is the set of the modes whose letter, small or capital, stands in the string;
-- so it is invalid if no such letter does.
pub get_mode_by_string-value :
    (str : List ℕ)
    → get_mode_by_string str ≡ value (any is_read str) (any is_write str) (any is_append str)
unfolding get_mode_by_string value
get_mode_by_string-value str = mode_loop-value str false false false
