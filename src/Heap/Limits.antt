-- ===== src/Heap/Limits.antt =====
-- The edges of the allocator: rounding of sizes, a fresh heap, a request that only the end of the
-- table could begin, and addresses that the allocator did not return.
use serpae_os.Common.{
  ℕ, zero, suc, ◌+◌, ◌*◌, ◌%◌, ◌^◌, ◌≤◌, ◌<◌, ◌≡◌, inl, inr, true, Option, none, some, List, ◌==◌,
  length, get_or, ok, arith, Bool-cases, get_or-replicate, length-replicate, replicate,
}
use serpae_os.Heap.{
  Heap, block_size, entry_free, get_entry_type, run_start, start_block_loop, get_start_block,
  create, align_value_to_upper, outside, malloc_blocks, free, address_to_block, mark_blocks_free,
}
use serpae_os.Heap.Search.{FullRun, get_start_block_sound}
use serpae_os.Heap.Mark.{mark_blocks_taken-outside}
use serpae_os.Heap.Alloc.{IsValid}

-- Up to the last 4095 sizes of the 32-bit range, a size is rounded up to the next multiple of the
-- block size.
pub align_value_to_upper_bounds :
    (size : ℕ)
    → size + block_size ≤ 2 ^ 32
    → (align_value_to_upper size % block_size ≡ 0)
      × (size ≤ align_value_to_upper size)
      × (align_value_to_upper size < size + block_size)
unfolding align_value_to_upper
align_value_to_upper_bounds size h = ground arith

-- The last 4095 sizes wrap to 0 blocks.
pub align_value_to_upper_wraps :
    (size : ℕ) → 2 ^ 32 < size + block_size → size < 2 ^ 32 → align_value_to_upper size ≡ 0
unfolding align_value_to_upper
align_value_to_upper_wraps size h k = ground arith

-- What `heap_create` accepts.
pub record Created (ptr end total : ℕ) (h : Heap) : Type 0 where
  pub base : h.saddr ≡ ptr
  pub clear : h.entries ≡ replicate total entry_free
  pub span : ptr + total * block_size ≡ end

pub create-Created :
    (ptr end total : ℕ) {h : Heap}
    → ptr ≤ end
    → end < ptr + 2 ^ 32
    → create ptr end total ≡ ok h
    → Created ptr end total h
unfolding create
create-Created ptr end total {h} le small e = ground arith

-- A heap that `heap_create` accepts has the table for its pool, and is valid if the pool is less
-- than 2 GiB, at an address above 0, below the end of the address space. Every block is free.
pub create-IsValid :
    (ptr end total : ℕ) {h : Heap}
    → 0 < ptr
    → ptr ≤ end
    → end ≤ 2 ^ 32
    → end < ptr + 2 ^ 31
    → create ptr end total ≡ ok h
    → IsValid h
      × (h.saddr + length h.entries * block_size ≡ end)
      × FullRun h.entries (length h.entries) 0
unfolding get_entry_type
create-IsValid ptr end total {h} pos le fits small e =
    let c = create-Created ptr end total le (omega arith) e in
    let size : length h.entries ≡ total = rw c.clear (length-replicate total 0) in
    let zeros = λ (j : ℕ) (lt : j < length h.entries).
      let r : get_or h.entries j 0 ≡ 0 = rw c.clear (get_or-replicate total j 0 0 (omega arith)) in
      r in
    (
      record {
        pool = omega (arith, c.base, c.span);
        sized = omega (arith, c.base, c.span);
        based = omega (arith, c.base);
        clean = λ j lt free. zeros j lt;
      },
      omega (arith, c.base, c.span),
      (omega arith, λ j p q. rw (zeros j (omega arith))),
    )

module _ (es : List ℕ) (n last : ℕ)
    (free_last : get_entry_type (get_or es last 0) ≡ entry_free) where
  -- When the loop has passed a free block last, it has a run.
  loop_last_free :
      (rounds i bc : ℕ) (bs : Option ℕ)
      → i + rounds ≡ last
      → (s : ℕ) × (start_block_loop es n (suc rounds) i bc bs ≡ some s)
  unfolding start_block_loop
  loop_last_free zero i bc bs at =
      let e : i ≡ last = omega arith in
      let here : (get_entry_type (get_or es i 0) == entry_free) ≡ true = rw e (ground arith) in
      (
        run_start bs i,
        elim (Bool-cases (bc + 1 == n)) [
          | inl full ↦ rw (here, full, start_block_loop)
          | inr more ↦ rw (here, more, start_block_loop)
        ],
      )
  loop_last_free (suc rounds) i bc bs at =
      elim (Bool-cases (get_entry_type (get_or es i 0) == entry_free)) [
        | inl here ↦ elim (Bool-cases (bc + 1 == n)) [
          | inl full ↦ (run_start bs i, rw (here, full, start_block_loop))
          | inr more ↦
              rw (here, more, start_block_loop)
                (loop_last_free rounds (i + 1) (bc + 1) (some (run_start bs i)) (omega arith))
        ]
        | inr taken ↦
            rw (taken, start_block_loop) (loop_last_free rounds (i + 1) 0 none (omega arith))
      ]

  start_block_last_free : suc last ≡ length es → (s : ℕ) × (get_start_block es n ≡ ok s)
  unfolding get_start_block
  start_block_last_free e =
      let (s, found) = loop_last_free last 0 0 none (omega arith) in (s, ground (arith, found))

-- If the last block of the table is free and no run of `n` free blocks exists, the allocator does
-- not report the lack of memory: it marks blocks outside the table.
pub malloc_blocks-outside :
    (h : Heap) (n last : ℕ)
    → 0 < n
    → suc last ≡ length h.entries
    → get_entry_type (get_or h.entries last 0) ≡ entry_free
    → ((t : ℕ) → ¬ FullRun h.entries n t)
    → malloc_blocks h n ≡ outside
unfolding malloc_blocks
malloc_blocks-outside h n last pos size free_last none_fits =
    let (s, found) = start_block_last_free h.entries n last free_last size in
    elim (get_start_block_sound h.entries n pos found) [
      | inl full ↦ absurd (none_fits s full)
      | inr tail ↦ rw (found, mark_blocks_taken-outside s n h.entries tail.0 tail.1, malloc_blocks)
    ]

-- Freeing an address that lies a block or more below the pool writes outside the table. So does
-- `kfree(0)`.
pub free_below :
    (h : Heap) (address : ℕ)
    → address + block_size ≤ h.saddr
    → h.saddr < address + 2 ^ 31
    → h.saddr < 2 ^ 32
    → free h address ≡ none
unfolding free address_to_block mark_blocks_free
free_below h address p q r = ground arith
