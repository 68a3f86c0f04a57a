-- ===== src/Bytes.antt =====
-- Copies and comparisons of memory, src/memory/memory.c. The memory is a function from addresses to
-- bytes. `char` is signed.
pub mod Copy
use serpae_os.Common.{
  ℕ, zero, suc, ◌+◌, ◌-◌, ◌*◌, ◌/◌, ◌%◌, ◌^◌, ◌≤◌, ◌<◌, ◌≡◌, ◌≢◌, ◌↔◌, ◌⊎◌, inl, inr, refl, Bool,
  true, false, not, ◌&&◌, ◌||◌, Option, none, some, List, [], ◌∷◌, ◌++◌, map, ltb, leb, ◌==◌,
  if◌then◌else◌, length, take, drop, set, get_or, get_elem?, replicate, arith, ap, ap₂, sym, ◌∙◌,
  length-append, length-set, get_or-set_self, get_or-set_ne, set-set, get_or-replicate, get_or_ext,
  length-replicate, length-take, length-drop, get_or-snoc_self, get_or-snoc_ne, get_or_out,
  List-cases, some_cancel, some_ne, Option-cases, Bool-cases, range_cases, tests, dec_lt, dec_le,
  ℕ_discrete, Status, ok, err, Status-cases,
}
use serpae_os.Common.Int.{ℤ, pos, negsuc}

abbrev pub Memory : Type 0
Memory = ℕ → ℕ

abbrev pub store : Memory → ℕ → ℕ → Memory
store m a v p = if p == a then v else m p

-- The loop with `rounds` bytes left, from `ptr` on. A byte is what `c` is modulo 256.
unfoldable pub memset : Memory → ℕ → ℕ → ℕ → Memory
memset m ptr c zero = m
memset m ptr c (suc rounds) = memset (store m ptr (c % 256)) (ptr + 1) c rounds

-- `c1 < c2` of bytes that are signed: 128 and more are negative.
unfoldable pub char_lt : ℕ → ℕ → Bool
char_lt c1 c2 = ltb ((c1 + 128) % 256) ((c2 + 128) % 256)

unfoldable pub memcmp : Memory → ℕ → ℕ → ℕ → ℤ
unfolding char_lt
memcmp m s1 s2 zero = pos 0
memcmp m s1 s2 (suc count) =
    let rest = memcmp m (s1 + 1) (s2 + 1) count in
    if not (m s1 == m s2) then (if char_lt (m s1) (m s2) then negsuc 0 else pos 1) else rest

pub memcpy : Memory → ℕ → ℕ → ℕ → Memory
memcpy m dest src zero = m
memcpy m dest src (suc len) = memcpy (store m dest (m src)) (dest + 1) (src + 1) len
