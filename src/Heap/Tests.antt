-- ===== src/Heap/Tests.antt =====
-- The allocator at concrete tables, and its theorems at inputs that meet their hypotheses.
use serpae_os.Common.{
  ℕ, zero, suc, ◌+◌, ◌*◌, ◌≤◌, ◌<◌, ◌≡◌, refl, some, List, [], ◌∷◌, length, get_or, ok, err, arith,
  einvarg,
}
use serpae_os.Heap.{
  Heap, entry_free, get_entry_type, get_start_block, create, align_value_to_upper, done, outside,
  malloc_blocks, malloc, free, mark_blocks_taken, block_to_address,
}
use serpae_os.Heap.Mark.{run_entry}
use serpae_os.Heap.Search.{FullRun, get_start_block_first}
use serpae_os.Heap.Alloc.{IsValid, Allocated, malloc_blocks-Allocated, free-malloc_blocks}
use serpae_os.Heap.Ownership.{Owned, OthersOwned, Apart, malloc_blocks-Owned, free-Owned}

abbrev pool : ℕ
pool = 0x0100_0000

-- Four blocks: the second is taken.
abbrev table : List ℕ
table = 0 ∷ 0x41 ∷ 0 ∷ 0 ∷ []

abbrev heap : Heap
heap = record { entries = table; saddr = pool }

abbrev heap' : Heap
heap' = record { entries = 0 ∷ 0x41 ∷ 0xc1 ∷ 0x01 ∷ []; saddr = pool }

malloc_two : malloc_blocks heap 2 ≡ done heap' (pool + 2 * 4096)
unfolding malloc_blocks mark_blocks_taken get_start_block get_entry_type block_to_address
malloc_two = refl

malloc_bytes : malloc heap 5000 ≡ done heap' (pool + 2 * 4096)
unfolding malloc align_value_to_upper malloc_blocks mark_blocks_taken get_start_block get_entry_type
    block_to_address
malloc_bytes = refl

-- Three blocks do not fit, but the last two blocks are free.
malloc_three : malloc_blocks heap 3 ≡ outside
unfolding malloc_blocks mark_blocks_taken get_start_block get_entry_type
malloc_three = refl

create_misaligned : create 5 4096 1 ≡ err einvarg
unfolding create
create_misaligned = refl

heap-IsValid : IsValid heap
unfolding get_entry_type
heap-IsValid = record {
  pool = omega arith;
  sized = omega arith;
  based = omega arith;
  clean = clean;
}
  where
    clean : (j : ℕ) → j < 4 → get_entry_type (get_or table j 0) ≡ 0 → get_or table j 0 ≡ 0
    clean zero p e = refl
    clean (suc zero) p e = absurd (omega arith)
    clean (suc (suc zero)) p e = refl
    clean (suc (suc (suc zero))) p e = refl
    clean (suc (suc (suc (suc j)))) p e = absurd (omega arith)

run_at_two : FullRun table 2 2
unfolding get_entry_type
run_at_two = (omega arith, run)
  where
    run : (j : ℕ) → 2 ≤ j → j < 4 → get_entry_type (get_or table j 0) ≡ 0
    run zero p q = absurd (omega arith)
    run (suc zero) p q = absurd (omega arith)
    run (suc (suc zero)) p q = refl
    run (suc (suc (suc zero))) p q = refl
    run (suc (suc (suc (suc j)))) p q = absurd (omega arith)

get_start_block_first_example :
    (s : ℕ) × (get_start_block table 2 ≡ ok s) × (s ≤ 2) × FullRun table 2 s
get_start_block_first_example = get_start_block_first table 2 2 (omega arith) run_at_two

malloc_blocks-Allocated_example :
    (s : ℕ) × (h' : Heap) × (address : ℕ) × (s ≤ 2)
    × (malloc_blocks heap 2 ≡ done h' address)
    × Allocated heap 2 s h' address
malloc_blocks-Allocated_example =
    malloc_blocks-Allocated heap heap-IsValid 2 (omega arith) 2 run_at_two

free-malloc_blocks_example : free heap' (pool + 2 * 4096) ≡ some heap
free-malloc_blocks_example =
    free-malloc_blocks heap heap' 2 (pool + 2 * 4096) heap-IsValid (omega arith) malloc_two
      (omega arith)

second-Owned : Owned heap (pool + 4096) 1
second-Owned = (1, record { located = refl; within = omega arith; marked = marked })
  where
    marked : (j : ℕ) → 1 ≤ j → j < 2 → get_or table j 0 ≡ run_entry 1 1 j
    marked zero p q = absurd (omega arith)
    marked (suc zero) p q = refl
    marked (suc (suc j)) p q = absurd (omega arith)

malloc_blocks-Owned_example :
    IsValid heap'
    × Owned heap' (pool + 2 * 4096) 2
    × Owned heap' (pool + 4096) 1
    × Apart (pool + 4096) 1 (pool + 2 * 4096) 2
malloc_blocks-Owned_example =
    malloc_blocks-Owned heap heap' (pool + 4096) 1 (pool + 2 * 4096) 2 heap-IsValid (omega arith)
      (omega arith) second-Owned malloc_two (omega arith)

free-Owned_example :
    (h : Heap) × (free heap' (pool + 2 * 4096) ≡ some h)
    × IsValid h
    × OthersOwned heap' (pool + 2 * 4096) h
    × ((j : ℕ) → j < 2 → (2 + j < length h.entries) × (get_or h.entries (2 + j) 0 ≡ entry_free))
free-Owned_example =
    free-Owned heap' (pool + 2 * 4096) 2 (malloc_blocks-Owned_example.0) (omega arith)
      (malloc_blocks-Owned_example.1)

no_three : (t : ℕ) → ¬ FullRun table 3 t
unfolding get_entry_type
no_three zero full = cc (full.1 1 (omega arith) (omega arith))
no_three (suc zero) full = cc (full.1 1 (omega arith) (omega arith))
no_three (suc (suc t)) full = absurd (omega arith)

abbrev fresh : Heap
fresh = record { entries = 0 ∷ 0 ∷ 0 ∷ []; saddr = pool }
