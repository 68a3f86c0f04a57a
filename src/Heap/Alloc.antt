-- ===== src/Heap/Alloc.antt =====
-- `heap_malloc_blocks` and `heap_free` together: well-formed tables, disjoint allocations, and the
-- round trip.
use serpae_os.Common.{
  ℕ, ◌+◌, ◌*◌, ◌^◌, ◌≤◌, ◌<◌, ◌≡◌, ◌≢◌, inl, inr, refl, some, List, length, get_or, Status, ok, err,
  arith, range_cases, sym, ◌∙◌, ap,
}
use mathlib.Core.Path.{subst₂}
use serpae_os.Heap.{
  Heap, block_size, entry_free, get_entry_type, get_start_block, block_to_address, done, outside,
  malloc_blocks, block, address_to_block, free,
}
use serpae_os.Heap.Search.{FullRun, get_start_block_sound, get_start_block_first}
use serpae_os.Heap.Mark.{Marked, mark_blocks_taken-Marked, mark_blocks_taken-outside}
use serpae_os.Heap.Unmark.{mark_blocks_free-Freed, mark_blocks_free-mark_blocks_taken}

-- The pool lies in the address space, not at address 0, its size fits an `int`, and the entry of a
-- free block is 0.
pub record IsValid (h : Heap) : Type 0 where
  pub pool : h.saddr + length h.entries * block_size ≤ 2 ^ 32
  pub sized : length h.entries * block_size < 2 ^ 31
  pub based : 0 < h.saddr
  pub clean :
      (j : ℕ)
      → j < length h.entries
      → get_entry_type (get_or h.entries j 0) ≡ entry_free
      → get_or h.entries j 0 ≡ entry_free

-- What a successful allocation of `n` blocks has done: the run from block `s` was free, it is
-- marked, and the address is that of block `s`.
pub record Allocated (h : Heap) (n s : ℕ) (h' : Heap) (address : ℕ) : Type 0 where
  pub base : h'.saddr ≡ h.saddr
  pub run : FullRun h.entries n s
  pub marked : Marked h.entries s n h'.entries
  pub located : address ≡ h.saddr + s * block_size

address_of_block :
    (saddr size s : ℕ)
    → saddr + size * block_size ≤ 2 ^ 32
    → s < size
    → block_to_address saddr s ≡ saddr + s * block_size
unfolding block_to_address
address_of_block saddr size s p q = omega arith

pub block_of_address :
    (saddr size s : ℕ)
    → saddr + size * block_size ≤ 2 ^ 32
    → size * block_size < 2 ^ 31
    → s < size
    → address_to_block saddr (saddr + s * block_size) ≡ block s
unfolding address_to_block
block_of_address saddr size s p q r = ground arith

-- The clean-table law of a table with a run marked.
Marked-clean :
    (es : List ℕ) {es' : List ℕ} (s n : ℕ)
    → Marked es s n es'
    → ((j : ℕ) → j < length es → get_entry_type (get_or es j 0) ≡ 0 → get_or es j 0 ≡ 0)
    → (j : ℕ) → j < length es'
    → get_entry_type (get_or es' j 0) ≡ 0
    → get_or es' j 0 ≡ 0
unfolding get_entry_type
Marked-clean es s n m clean j lt e = elim (range_cases s (s + n) j) [
  | inl i ↦ absurd (ground (arith, m.inside j i.0 i.1))
  | inr o ↦
      m.apart j o ∙ clean j (omega (arith, m.size)) (sym (ap get_entry_type (m.apart j o)) ∙ e)
]

module _ (h : Heap) (v : IsValid h) (n : ℕ) (pos : 0 < n) where
  allocate :
      (s : ℕ)
      → get_start_block h.entries n ≡ ok s
      → FullRun h.entries n s
      → (h' : Heap) × (address : ℕ) × (malloc_blocks h n ≡ done h' address)
        × Allocated h n s h' address
  unfolding malloc_blocks
  allocate s found full =
      let (es', eq, m) = mark_blocks_taken-Marked s n h.entries full.0 in
      (
        record h { entries = es' },
        h.saddr + s * block_size,
        rw (
          found,
          eq,
          malloc_blocks,
          address_of_block h.saddr (length h.entries) s v.pool (omega arith),
        ),
        record { base = refl; run = full; marked = m; located = refl },
      )

  -- Where `n` free blocks in a row exist, an allocation succeeds, at the first such run or before.
  pub malloc_blocks-Allocated :
      (t : ℕ)
      → FullRun h.entries n t
      → (s : ℕ) × (h' : Heap) × (address : ℕ) × (s ≤ t)
        × (malloc_blocks h n ≡ done h' address)
        × Allocated h n s h' address
  malloc_blocks-Allocated t full =
      let (s, found, le, full') = get_start_block_first h.entries n t pos full in
      let (h', address, eq, a) = allocate s found full' in (s, h', address, le, eq, a)

  inversion :
      (r : Status ℕ) {h' : Heap} {address : ℕ}
      → get_start_block h.entries n ≡ r
      → malloc_blocks h n ≡ done h' address
      → address ≢ 0
      → (s : ℕ) × Allocated h n s h' address
  unfolding malloc_blocks
  inversion (err e) found eq ne = absurd (ne (ground arith))
  inversion (ok s) {h'} {address} found eq ne = elim (get_start_block_sound h.entries n pos found) [
    | inl full ↦
        let (h₂, a₂, eq₂, a) = allocate s found full in
        let same : done h₂ a₂ ≡ done h' address = sym eq₂ ∙ eq in
        (s, subst₂ (Allocated h n s) (cc) (cc) a)
    | inr tail ↦
        let gone : malloc_blocks h n ≡ outside =
          rw (found, mark_blocks_taken-outside s n h.entries tail.0 tail.1, malloc_blocks) in
        absurd (ground arith)
  ]

  -- An allocation that returns an address has taken a run of `n` free blocks.
  pub malloc_blocks_inversion :
      {h' : Heap} {address : ℕ}
      → malloc_blocks h n ≡ done h' address
      → address ≢ 0
      → (s : ℕ) × Allocated h n s h' address
  malloc_blocks_inversion eq ne = inversion (get_start_block h.entries n) refl eq ne

module _ {h h' : Heap} {n s address : ℕ} (v : IsValid h) (a : Allocated h n s h' address) where
  pub Allocated-IsValid : IsValid h'
  Allocated-IsValid = record {
    pool = omega (arith, a.base, a.marked.size, v.pool);
    sized = omega (arith, a.marked.size, v.sized);
    based = omega (arith, a.base, v.based);
    clean = Marked-clean h.entries s n a.marked v.clean;
  }

  free-Allocated : 0 < n → free h' address ≡ some h
  unfolding free
  free-Allocated pos =
      let (out, eq, f) =
        mark_blocks_free-Freed s n h'.entries pos (omega (arith, a.run.0, a.marked.size))
          a.marked.inside in
      let back : out ≡ h.entries =
        mark_blocks_free-mark_blocks_taken s n h.entries h'.entries out
          (λ j p q. v.clean j (omega (arith, a.run.0)) (a.run.1 j p q)) a.marked f in
      let at : address_to_block h'.saddr address ≡ block s =
        rw (a.base, a.located)
          (block_of_address h.saddr (length h.entries) s v.pool v.sized (omega (arith, a.run.0))) in
      rw (at, eq, free, back, a.base)

-- Freeing what an allocation returned gives back the heap as it was, byte for byte.
pub free-malloc_blocks :
    (h h' : Heap) (n address : ℕ)
    → IsValid h
    → 0 < n
    → malloc_blocks h n ≡ done h' address
    → address ≢ 0
    → free h' address ≡ some h
free-malloc_blocks h h' n address v pos eq ne =
    let (s, a) = malloc_blocks_inversion h v n pos eq ne in free-Allocated v a pos
