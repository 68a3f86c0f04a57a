-- ===== src/Heap/Ownership.antt =====
-- What the clients of the allocator rely on: an address that it returned owns its blocks until it
-- is freed, and no other call touches them.
use serpae_os.Common.{
  ℕ, ◌+◌, ◌-◌, ◌*◌, ◌/◌, ◌≤◌, ◌<◌, ◌≡◌, ◌≢◌, ◌⊎◌, inl, inr, refl, some, List, length, get_or, arith,
  dec_lt, range_cases, sym, ◌∙◌, ap,
}
use serpae_os.Heap.{
  Heap, block_size, entry_free, get_entry_type, done, malloc_blocks, block, address_to_block, free,
}
use serpae_os.Heap.Mark.{run_entry}
use serpae_os.Heap.Unmark.{Freed, mark_blocks_free-Freed}
use serpae_os.Heap.Alloc.{
  IsValid, Allocated, Allocated-IsValid, malloc_blocks_inversion, block_of_address,
}

-- `address` is that of block `s`, the first of a marked run of `n` blocks.
pub record OwnedAt (h : Heap) (address n s : ℕ) : Type 0 where
  pub located : address ≡ h.saddr + s * block_size
  pub within : s + n ≤ length h.entries
  pub marked : (j : ℕ) → s ≤ j → j < s + n → get_or h.entries j 0 ≡ run_entry s n j

abbrev pub Owned : Heap → ℕ → ℕ → Type 0
Owned h address n = (s : ℕ) × OwnedAt h address n s

-- Two pieces of memory, of `n` and of `m` blocks, do not overlap.
abbrev pub Apart : ℕ → ℕ → ℕ → ℕ → Type 0
Apart a n b m = (a + n * block_size ≤ b) ⊎ (b + m * block_size ≤ a)

entry-taken : (s n j : ℕ) → get_entry_type (run_entry s n j) ≡ 1
unfolding get_entry_type
entry-taken s n j = ground arith

Allocated-Owned :
    {h h' : Heap} {n s address : ℕ} → Allocated h n s h' address → OwnedAt h' address n s
Allocated-Owned a = record {
  located = omega (arith, a.located, a.base);
  within = omega (arith, a.run.0, a.marked.size);
  marked = a.marked.inside;
}

-- A run of free blocks and an owned run share no block.
runs_apart :
    {h : Heap} {address n m s t : ℕ}
    → 0 < n
    → 0 < m
    → OwnedAt h address n s
    → ((j : ℕ) → t ≤ j → j < t + m → get_entry_type (get_or h.entries j 0) ≡ entry_free)
    → (s + n ≤ t) ⊎ (t + m ≤ s)
runs_apart {n} {m} {s} {t} pn pm o run = elim (range_cases s (s + n) t) [
  | inl i ↦ absurd (ground (arith, o.marked t i.0 i.1, run t, entry-taken s n t))
  | inr (inr p) ↦ inl p
  | inr (inl p) ↦ elim (dec_lt s (t + m)) [
    | yes q ↦ absurd (ground (arith, o.marked s, run s, entry-taken s n s))
    | no q ↦ inr (omega arith)
  ]
]

Owned-Marked :
    {h h' : Heap} {address n m s t b : ℕ}
    → OwnedAt h address n s
    → Allocated h m t h' b
    → (s + n ≤ t) ⊎ (t + m ≤ s)
    → OwnedAt h' address n s
Owned-Marked o a apart = record {
  located = omega (arith, o.located, a.base);
  within = omega (arith, o.within, a.marked.size);
  marked = λ j p q. a.marked.apart j (ground arith) ∙ o.marked j p q;
}

-- An allocation keeps the heap valid, owns its blocks, leaves what was owned, and shares no byte
-- with it.
pub malloc_blocks-Owned :
    (h h' : Heap) (a n b m : ℕ)
    → IsValid h
    → 0 < n
    → 0 < m
    → Owned h a n
    → malloc_blocks h m ≡ done h' b
    → b ≢ 0
    → IsValid h' × Owned h' b m × Owned h' a n × Apart a n b m
malloc_blocks-Owned h h' a n b m v pn pm (s, o) eq ne =
    let (t, new) = malloc_blocks_inversion h v m pm eq ne in
    let apart = runs_apart pn pm o new.run.1 in
    (
      Allocated-IsValid v new,
      (t, Allocated-Owned new),
      (s, Owned-Marked o new apart),
      ground (arith, o.located, new.located),
    )

-- The clean-table law of a table with a run freed.
Freed-clean :
    {h : Heap} {s e : ℕ} (out : List ℕ)
    → IsValid h
    → Freed s e h.entries out
    → (j : ℕ) → j < length out
    → get_entry_type (get_or out j 0) ≡ 0
    → get_or out j 0 ≡ 0
Freed-clean {h} {s} {e} out v f j lt free = elim (range_cases s e j) [
  | inl i ↦ f.inside j i.0 i.1
  | inr o ↦
      f.apart j o ∙ v.clean j (omega (arith, f.size)) (sym (ap get_entry_type (f.apart j o)) ∙ free)
]

-- What `heap_free` leaves of an owned piece of memory, and of another one.
record Released (h : Heap) (s n : ℕ) (h' : Heap) : Type 0 where
  base : h'.saddr ≡ h.saddr
  freed : Freed s (s + n) h.entries h'.entries

release :
    {h : Heap} {a n s : ℕ}
    → IsValid h
    → 0 < n
    → OwnedAt h a n s
    → (h' : Heap) × (free h a ≡ some h') × Released h s n h'
unfolding free
release {h} {a} {n} {s} v pos o =
    let (out, eq, f) = mark_blocks_free-Freed s n h.entries pos o.within o.marked in
    let at : address_to_block h.saddr a ≡ block s =
      rw o.located
        (block_of_address h.saddr (length h.entries) s v.pool v.sized (omega (arith, o.within))) in
    (record h { entries = out }, rw (at, eq, free), record { base = refl; freed = f })

-- Marked runs with different first blocks do not overlap.
owned_apart :
    {h : Heap} {a b n m s t : ℕ}
    → 0 < n
    → 0 < m
    → s ≢ t
    → OwnedAt h a n s
    → OwnedAt h b m t
    → (s + n ≤ t) ⊎ (t + m ≤ s)
owned_apart {n} {m} {s} {t} pn pm ne o q = elim (range_cases s (s + n) t) [
  | inl i ↦ absurd (ground (arith, o.marked t i.0 i.1, q.marked t))
  | inr (inr p) ↦ inl p
  | inr (inl p) ↦ elim (dec_lt s (t + m)) [
    | yes r ↦ absurd (ground (arith, o.marked s, q.marked s))
    | no r ↦ inr (omega arith)
  ]
]

-- Every address that is owned, but for one, is owned as before.
abbrev pub OthersOwned : Heap → ℕ → Heap → Type 0
OthersOwned h a h' = (b m : ℕ) → 0 < m → a ≢ b → Owned h b m → Owned h' b m

-- Freeing an owned address succeeds, keeps the heap valid, makes all its blocks free again, and
-- leaves every other owned address owned.
pub free-Owned :
    (h : Heap) (a n : ℕ)
    → IsValid h
    → 0 < n
    → Owned h a n
    → (h' : Heap) × (free h a ≡ some h')
      × IsValid h'
      × OthersOwned h a h'
      × ((j : ℕ)
          → j < n
          → ((a - h.saddr) / block_size + j < length h'.entries)
            × (get_or h'.entries ((a - h.saddr) / block_size + j) 0 ≡ entry_free))
free-Owned h a n v pn (s, o) =
    let (h', eq, r) = release v pn o in
    let first : (a - h.saddr) / block_size ≡ s = omega (arith, o.located) in
    (
      h',
      eq,
      record {
        pool = omega (arith, r.base, r.freed.size, v.pool);
        sized = omega (arith, r.freed.size, v.sized);
        based = omega (arith, r.base, v.based);
        clean = Freed-clean h'.entries v r.freed;
      },
      λ b m pm ne (t, q).
          let apart = owned_apart pn pm (λ e. ne (ground (arith, o.located, q.located, e))) o q in
          (
            t,
            record {
              located = omega (arith, q.located, r.base);
              within = omega (arith, q.within, r.freed.size);
              marked = λ j x y. r.freed.apart j (ground arith) ∙ q.marked j x y;
            },
          ),
      λ j lt.
          let inside : s + j < length h'.entries = omega (arith, o.within, r.freed.size, lt) in
          let free_entry = r.freed.inside (s + j) (omega arith) (omega (arith, lt)) in
          rw first (inside, free_entry),
    )
