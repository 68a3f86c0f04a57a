-- ===== src/PathParser/Parts.antt =====
-- What every parse guarantees: a drive of one digit, and parts that fit the 108 bytes that
-- `pathparser_get_path_part` allocates for each.
use serpae_os.Common.{
  ℕ, zero, suc, ◌+◌, ◌-◌, ◌≤◌, ◌<◌, ◌≡◌, ◌≢◌, inl, inr, true, false, some, List, [], ◌∷◌, ltb, ◌==◌,
  length, drop, arith, ap, sym, ◌∙◌, List-cases, some_cancel, Bool-cases, ℕ_discrete, ok,
  ok-injective, Status-cases,
}
use serpae_os.Str.{peek, next, strlen, isdigit}
use mathlib.Core.Path.{subst}
use serpae_os.PathParser.{
  PathRoot, max_path, path_valid_format, get_drive_by_path, get_path_part, parse_path_part,
  parse_parts, parse,
}
use serpae_os.PathParser.RoundTrip.{Clean, Parts}

-- The part has no '/' and no 0, and it and what is behind it are no longer than the path.
get_path_part-Clean :
    (path : List ℕ)
    → Clean (get_path_part path).0
      × (strlen (get_path_part path).1 + length (get_path_part path).0 ≤ strlen path)
unfolding get_path_part strlen
get_path_part-Clean [] = (tt, omega arith)
get_path_part-Clean (c ∷ path) =
    let (clean, size) = get_path_part-Clean path in
    elim (ℕ_discrete c b'/') [
      | yes e ↦
          let slash : (c == b'/') ≡ true = ground (arith, e) in rw slash (tt, ground (arith, e))
      | no n ↦ elim (ℕ_discrete c 0) [
        | yes e ↦
            let end : (c == 0) ≡ true = ground (arith, e) in
            let byte : (c == b'/') ≡ false = ground arith in
            rw (byte, end) (tt, ground (arith, end))
        | no m ↦
            let byte : (c == b'/') ≡ false = ground arith in
            let more : (c == 0) ≡ false = ground arith in
            rw (byte, more) ((n, m, clean), omega (arith, size))
      ]
    ]

-- Each part has room for its 0.
abbrev pub Short : List (List ℕ) → Type 0
Short [] = Unit {0}
Short (p ∷ ps) = (length p < max_path) × Short ps

cons_ne : (c : ℕ) (s : List ℕ) → (c ∷ s) ≢ []
cons_ne c s e = omega (arith, ap length e)

parse_parts-Parts :
    (fuel : ℕ) (path : List ℕ)
    → strlen path < max_path
    → Parts (parse_parts fuel path) × Short (parse_parts fuel path)
unfolding parse_parts parse_path_part
parse_parts-Parts zero path h = (tt, tt)
parse_parts-Parts (suc fuel) path h =
    let (clean, size) = get_path_part-Clean path in
    elim (List-cases (get_path_part path).0) [
      | inl e ↦ rw (parse_parts, parse_path_part, e) (tt, tt)
      | inr (c, part, e) ↦
          let (parts, short) = parse_parts-Parts fuel (get_path_part path).1 (omega arith) in
          let clean : Clean (c ∷ part) = subst (λ p. Clean p) e clean in
          rw (parse_parts, parse_path_part, e)
            ((cons_ne c part, clean, parts), (ground (arith, ap length e), short))
    ]

format_bytes :
    (path : List ℕ)
    → path_valid_format path ≡ true
    → (48 ≤ peek path)
      × (peek path ≤ 57)
      × (peek (next path) ≡ b':')
      × (peek (next (next path)) ≡ b'/')
unfolding path_valid_format isdigit
format_bytes path h = ground (arith, h)

strlen-drop :
    (path : List ℕ)
    → 48 ≤ peek path
    → peek (next path) ≡ b':'
    → peek (next (next path)) ≡ b'/'
    → strlen (drop 3 path) + 3 ≤ strlen path
unfolding strlen
strlen-drop [] a b c = absurd (omega arith)
strlen-drop (x ∷ []) a b c = absurd (omega arith)
strlen-drop (x ∷ y ∷ []) a b c = absurd (omega arith)
strlen-drop (x ∷ y ∷ z ∷ s) a b c = ground arith

-- What a drive and a path behind it can be.
get_drive_by_path-ok :
    (path : List ℕ) (d : ℕ) (rest : List ℕ)
    → get_drive_by_path path ≡ ok (d, rest)
    → (d < 10) × (strlen rest + 3 ≤ strlen path)
unfolding get_drive_by_path
get_drive_by_path-ok path d rest e = elim (Bool-cases (path_valid_format path)) [
  | inl valid ↦
      let (lo, hi, colon, slash) = format_bytes path valid in
      let computed : get_drive_by_path path ≡ ok (peek path - 48, drop 3 path) = rw valid in
      let same = ok-injective (sym computed ∙ e) in
      let drive : peek path - 48 ≡ d = ap (λ p. p.0) same in
      let behind : strlen (drop 3 path) ≡ strlen rest = ap (λ p. strlen p.1) same in
      (omega arith, omega (arith, strlen-drop path lo colon slash))
  | inr invalid ↦ absurd (ground (arith, e, invalid))
]

-- A path that is parsed gives a drive of one digit, and parts that are not empty, hold no '/' and
-- no 0, and fit their buffer with a 0 behind them.
pub parse-Parts :
    (path : List ℕ) (r : PathRoot)
    → parse path ≡ some r
    → (r.drive_no < 10) × Parts r.parts × Short r.parts
unfolding parse
parse-Parts path r e = elim (Status-cases (get_drive_by_path path)) [
  | inl ((drive, rest), found) ↦
      let short : strlen path ≤ max_path = ground (arith, e) in
      let (d, size) = get_drive_by_path-ok path drive rest found in
      let parts = parse_parts-Parts (length rest + 1) rest (omega arith) in
      let allowed : ltb max_path (strlen path) ≡ false = ground arith in
      let computed : parse path
          ≡ some (record { drive_no = drive; parts = parse_parts (length rest + 1) rest }) =
        rw (allowed, found) in
      let same = some_cancel (sym computed ∙ e) in
      subst (λ r. (r.drive_no < 10) × Parts r.parts × Short r.parts) same (d, parts.0, parts.1)
  | inr (err_no, refused) ↦ absurd (ground (arith, e, refused))
]
