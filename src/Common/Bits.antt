-- ===== src/Common/Bits.antt =====
-- `&` and `|` on machine words, as arithmetic: fields of a word, low masks and page masks.
use Prim.Native.Nat.{
  ℕ, zero, suc, ◌+◌, ◌-◌, ◌*◌, ◌/◌, ◌%◌, ◌^◌, ◌≤◌, ◌<◌, min, max, bit_and, bit_or, digits,
  bit_and-bitwise, bit_or-bitwise,
}
use mathlib.Core.Path.{◌≡◌, refl, sym, ◌∙◌, ap, ap₂}
use native.Mathlib.Nat.{pow-suc, one-le-pow}
use native.Mathlib.Omega.{arith}

-- A native operation stands for `digits` with its first argument as the number of digits. More
-- digits than that change nothing; `k` bounds both counts.
module _ (rest : ℕ → ℕ) (op : ℕ → ℕ → ℕ) where
  surplus_digits :
      (k count x y : ℕ) → count ≤ k → x ≤ count → digits rest op count x y ≡ digits rest op x x y
  surplus_digits k zero zero y hk hx = refl
  surplus_digits k (suc count) zero y hk hx = refl
  surplus_digits k zero (suc x) y hk hx = elim hx [ ]
  surplus_digits zero (suc count) (suc x) y hk hx = absurd (omega arith)
  surplus_digits (suc k) (suc count) (suc x) y hk hx =
      let half : suc x / 2 ≤ x = omega arith in
      ap (λ (high : ℕ). high * 2 + op (suc x % 2) (y % 2))
        (surplus_digits k count (suc x / 2) (y / 2) (omega arith) (omega arith)
          ∙ sym (surplus_digits k x (suc x / 2) (y / 2) (omega arith) half))

or_lowest : (x y : ℕ) → bit_or x y ≡ bit_or (x / 2) (y / 2) * 2 + max (x % 2) (y % 2)
or_lowest zero y = omega (arith, bit_or-bitwise 0 y, bit_or-bitwise 0 (y / 2))
or_lowest (suc x) y = omega (
  arith,
  bit_or-bitwise (suc x) y,
  bit_or-bitwise (suc x / 2) (y / 2),
  surplus_digits (λ t. t) max x x (suc x / 2) (y / 2) (omega arith) (omega arith),
)

and_lowest : (x y : ℕ) → bit_and x y ≡ bit_and (x / 2) (y / 2) * 2 + min (x % 2) (y % 2)
and_lowest zero y = omega (arith, bit_and-bitwise 0 y, bit_and-bitwise 0 (y / 2))
and_lowest (suc x) y = omega (
  arith,
  bit_and-bitwise (suc x) y,
  bit_and-bitwise (suc x / 2) (y / 2),
  surplus_digits (λ t. 0) min x x (suc x / 2) (y / 2) (omega arith) (omega arith),
)

double_field : (q k : ℕ) → q * 2 ^ suc k ≡ q * 2 ^ k + q * 2 ^ k
double_field q k = omega (arith, ap (λ (t : ℕ). q * t) (pow-suc 2 k))

-- `|` and `&` work on the bits from `k` on and on those below `k` apart.
pub bit_or-split :
    (k q m r s : ℕ)
    → r < 2 ^ k
    → s < 2 ^ k
    → (bit_or (q * 2 ^ k + r) (m * 2 ^ k + s) ≡ bit_or q m * 2 ^ k + bit_or r s)
      × (bit_or r s < 2 ^ k)
bit_or-split zero q m r s hr hs =
    let er : r ≡ 0 = omega arith in
    let es : s ≡ 0 = omega arith in rw (er, es) ground (arith, bit_or q m)
bit_or-split (suc k) q m r s hr hs = ground (
  arith,
  bit_or-split k q m (r / 2) (s / 2) (omega (arith, pow-suc 2 k)) (omega (arith, pow-suc 2 k)),
  or_lowest (q * 2 ^ suc k + r) (m * 2 ^ suc k + s),
  or_lowest r s,
  double_field q k,
  double_field m k,
  double_field (bit_or q m) k,
  pow-suc 2 k,
)

pub bit_and-split :
    (k q m r s : ℕ)
    → r < 2 ^ k
    → s < 2 ^ k
    → (bit_and (q * 2 ^ k + r) (m * 2 ^ k + s) ≡ bit_and q m * 2 ^ k + bit_and r s)
      × (bit_and r s < 2 ^ k)
bit_and-split zero q m r s hr hs =
    let er : r ≡ 0 = omega arith in
    let es : s ≡ 0 = omega arith in rw (er, es) ground (arith, bit_and q m)
bit_and-split (suc k) q m r s hr hs = ground (
  arith,
  bit_and-split k q m (r / 2) (s / 2) (omega (arith, pow-suc 2 k)) (omega (arith, pow-suc 2 k)),
  and_lowest (q * 2 ^ suc k + r) (m * 2 ^ suc k + s),
  and_lowest r s,
  double_field q k,
  double_field m k,
  double_field (bit_and q m) k,
  pow-suc 2 k,
)

-- Below a bound on `x`, `x | 0` is `x` and `x & 0` is 0.
with_zero : (k x : ℕ) → x ≤ k → (bit_or x 0 ≡ x) × (bit_and x 0 ≡ 0)
with_zero k zero h = (refl, refl)
with_zero zero (suc x) h = elim h [ ]
with_zero (suc k) (suc x) h =
    omega (arith, or_lowest (suc x) 0, and_lowest (suc x) 0, with_zero k (suc x / 2) (omega arith))

pub bit_or-zero : (x : ℕ) → bit_or x 0 ≡ x
bit_or-zero x = (with_zero x x (omega arith)).0

pub bit_and-zero : (x : ℕ) → bit_and x 0 ≡ 0
bit_and-zero x = (with_zero x x (omega arith)).1

-- The mask of `k` ones keeps a number of `k` bits.
all_ones : (k r : ℕ) → r < 2 ^ k → bit_and r (2 ^ k - 1) ≡ r
all_ones zero r h = let e : r ≡ 0 = omega arith in rw (e, bit_and-zero)
all_ones (suc k) r h =
    let halves : (2 ^ suc k - 1) / 2 ≡ 2 ^ k - 1 = omega (arith, pow-suc 2 k) in
    ground (
      arith,
      halves,
      pow-suc 2 k,
      one-le-pow k 2,
      and_lowest r (2 ^ suc k - 1),
      all_ones k (r / 2) (omega (arith, pow-suc 2 k)),
    )

-- Flags below `2 ^ k` are added to a number whose low `k` bits are 0.
pub bit_or_flags : (k q s : ℕ) → s < 2 ^ k → bit_or (q * 2 ^ k) s ≡ q * 2 ^ k + s
bit_or_flags k q s hs =
    let parts = bit_or-split k q 0 0 s (omega (arith, one-le-pow k 2)) hs in
    let left : q * 2 ^ k + 0 ≡ q * 2 ^ k = omega arith in
    let right : 0 * 2 ^ k + s ≡ s = omega arith in
    let whole : bit_or (q * 2 ^ k) s ≡ bit_or q 0 * 2 ^ k + bit_or 0 s =
      ap₂ bit_or (sym left) (sym right) ∙ parts.0 in
    whole ∙ rw (bit_or-zero, bit_or-bitwise 0 s)

-- `x & ((1 << k) - 1)` keeps the low `k` bits.
pub bit_and_mask : (k x : ℕ) → bit_and x (2 ^ k - 1) ≡ x % 2 ^ k
bit_and_mask k x =
    let pos : 0 < 2 ^ k = one-le-pow k 2 (omega arith) in
    let low : x % 2 ^ k < 2 ^ k = omega arith in
    let parts = bit_and-split k (x / 2 ^ k) 0 (x % 2 ^ k) (2 ^ k - 1) low (omega arith) in
    let left : x ≡ x / 2 ^ k * 2 ^ k + x % 2 ^ k = grind arith in
    let right : 2 ^ k - 1 ≡ 0 * 2 ^ k + (2 ^ k - 1) = omega arith in
    ap₂ bit_and left right
    ∙ parts.0
    ∙ omega
        (arith, ap (λ (t : ℕ). t * 2 ^ k) (bit_and-zero (x / 2 ^ k)), all_ones k (x % 2 ^ k) low)

-- `x & 0xfffff000` is the address of the page that holds `x`.
pub page_mask : (x : ℕ) → x < 2 ^ 32 → bit_and x 0xffff_f000 ≡ x - x % 4096
page_mask x h =
    let parts = bit_and-split 12 (x / 4096) 0xf_ffff (x % 4096) 0 (omega arith) (omega arith) in
    let left : x ≡ x / 4096 * 4096 + x % 4096 = omega arith in
    ap (λ (t : ℕ). bit_and t 0xffff_f000) left
    ∙ parts.0
    ∙ omega (arith, bit_and_mask 20 (x / 4096), bit_and-zero (x % 4096))

-- `|` with a number below `2 ^ k` leaves the bits from `k` on.
pub bit_or_low :
    (k q r s : ℕ)
    → r < 2 ^ k
    → s < 2 ^ k
    → (bit_or (q * 2 ^ k + r) s ≡ q * 2 ^ k + bit_or r s) × (bit_or r s < 2 ^ k)
bit_or_low k q r s hr hs =
    let parts = bit_or-split k q 0 r s hr hs in
    let right : s ≡ 0 * 2 ^ k + s = omega arith in
    (ap (bit_or (q * 2 ^ k + r)) right ∙ parts.0 ∙ rw bit_or-zero, parts.1)

-- A number below `2 ^ k` is added to one whose low `k` bits are 0.
pub bit_or_high : (k q s : ℕ) → s < 2 ^ k → bit_or s (q * 2 ^ k) ≡ q * 2 ^ k + s
bit_or_high k q s hs =
    let parts = bit_or-split k 0 q s 0 hs (omega (arith, one-le-pow k 2)) in
    let left : s ≡ 0 * 2 ^ k + s = omega arith in
    let right : q * 2 ^ k ≡ q * 2 ^ k + 0 = omega arith in
    ap₂ bit_or left right
    ∙ parts.0
    ∙ omega (arith, ap (λ (t : ℕ). t * 2 ^ k) (bit_or-bitwise 0 q), bit_or-zero s)
