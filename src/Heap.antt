-- ===== src/Heap.antt =====
-- The block allocator, src/memory/heap/heap.c and heap.h, and the kernel's use of it,
-- src/memory/heap/kheap.c. One byte of the table describes one 4096-byte block of the pool.
pub mod Alloc
pub mod Mark
pub mod Limits
pub mod Ownership
pub mod Search
mod Tests
pub mod Unmark
use serpae_os.Common.{
  ℕ, zero, suc, ◌+◌, ◌-◌, ◌*◌, ◌/◌, ◌%◌, ◌^◌, bit_and, bit_or, Bool, true, false, not, ◌&&◌, ◌||◌,
  Option, none, some, List, [], ◌∷◌, ltb, leb, ◌==◌, if◌then◌else◌, length, get_elem?, get_or, set,
  replicate, Status, ok, err, einvarg, enomem,
}

abbrev pub block_size : ℕ
block_size = 4096

abbrev pub entry_free : ℕ
entry_free = 0x00

abbrev pub entry_taken : ℕ
entry_taken = 0x01

abbrev pub has_next : ℕ
has_next = 0b1000_0000

abbrev pub is_first : ℕ
is_first = 0b0100_0000

-- `struct heap` with its `struct heap_table`: `table->total` is the length of `entries`.
pub record Heap : Type 0 where
  pub entries : List ℕ
  pub saddr : ℕ

-- `(unsigned int)ptr % SERPAEOS_HEAP_BLOCK_SIZE == 0`
validate_alignment : ℕ → Bool
validate_alignment ptr = ptr % block_size == 0

-- `end - ptr` is taken in a `size_t`, which wraps.
validate_table : ℕ → ℕ → ℕ → Bool
validate_table ptr end total = ((end + 2 ^ 32 - ptr) % 2 ^ 32) / block_size == total

-- `heap_create` over a table of `total` entries, whose bytes it overwrites.
pub create : ℕ → ℕ → ℕ → Status Heap
unfolding validate_alignment validate_table
create ptr end total =
    if not (validate_alignment ptr) || not (validate_alignment end)
    then err einvarg
    else if not (validate_table ptr end total)
    then err einvarg
    else ok (record { entries = replicate total entry_free; saddr = ptr })

-- Arithmetic in `uint32_t`.
unfoldable pub align_value_to_upper : ℕ → ℕ
align_value_to_upper val =
    if val % block_size == 0 then val else (val - val % block_size + block_size) % 2 ^ 32

unfoldable pub get_entry_type : ℕ → ℕ
get_entry_type entry = bit_and entry 0x0f

-- The index at which a run begins: `if (bs == -1) bs = i`, with -1 as `none`.
abbrev run_start : Option ℕ → ℕ → ℕ
run_start none i = i
run_start (some s) i = s

-- The loop of `heap_get_start_block` with `rounds` entries left, from `i` on.
start_block_loop : List ℕ → ℕ → ℕ → ℕ → ℕ → Option ℕ → Option ℕ
start_block_loop es total_blocks zero i bc bs = bs
start_block_loop es total_blocks (suc rounds) i bc bs =
    elim (get_entry_type (get_or es i 0) == entry_free) [
      | false ↦ start_block_loop es total_blocks rounds (i + 1) 0 none
      | true ↦ elim (bc + 1 == total_blocks) [
        | true ↦ some (run_start bs i)
        | false ↦ start_block_loop es total_blocks rounds (i + 1) (bc + 1) (some (run_start bs i))
      ]
    ]

unfoldable pub get_start_block : List ℕ → ℕ → Status ℕ
unfolding start_block_loop
get_start_block es total_blocks = elim (start_block_loop es total_blocks (length es) 0 0 none) [
  | none ↦ err enomem
  | some bs ↦ ok bs
]

unfoldable pub block_to_address : ℕ → ℕ → ℕ
block_to_address saddr block = (saddr + block * block_size) % 2 ^ 32

-- A write to the table; `none` is a write to memory outside it.
write_entry : List ℕ → ℕ → ℕ → Option (List ℕ)
write_entry es i entry = if ltb i (length es) then some (set es i entry) else none

-- The entry that the loop of `heap_mark_blocks_taken` prepares for block `i + 1`.
next_entry : ℕ → ℕ → ℕ
next_entry i end_block = if i + 1 == end_block then entry_taken else bit_or entry_taken has_next

mark_taken_loop : ℕ → ℕ → ℕ → ℕ → List ℕ → Option (List ℕ)
mark_taken_loop zero i end_block entry es = some es
mark_taken_loop (suc rounds) i end_block entry es = elim (write_entry es i entry) [
  | none ↦ none
  | some es' ↦ mark_taken_loop rounds (i + 1) end_block (next_entry i end_block) es'
]

first_entry : ℕ → ℕ
first_entry total_blocks =
    if ltb 1 total_blocks
    then bit_or (bit_or entry_taken is_first) has_next
    else bit_or entry_taken is_first

-- The loop runs for `start_block <= i <= start_block + total_blocks - 1`, which is `total_blocks`
-- rounds; `end_block` is read only in those.
unfoldable pub mark_blocks_taken : List ℕ → ℕ → ℕ → Option (List ℕ)
unfolding mark_taken_loop write_entry next_entry first_entry
mark_blocks_taken es start_block total_blocks =
    mark_taken_loop total_blocks start_block (start_block + total_blocks - 1)
      (first_entry total_blocks) es

-- What an allocation does: it leaves the table and returns an address (0 on failure), or it
-- writes outside the table.
pub data Outcome : Type 0 where
  done : Heap → ℕ → Outcome
  outside : Outcome

unfoldable pub malloc_blocks : Heap → ℕ → Outcome
malloc_blocks h total_blocks = elim (get_start_block h.entries total_blocks) [
  | err e ↦ done h 0
  | ok start_block ↦ elim (mark_blocks_taken h.entries start_block total_blocks) [
    | none ↦ outside
    | some es ↦ done (record h { entries = es }) (block_to_address h.saddr start_block)
  ]
]

-- The loop of `heap_mark_blocks_free` with `rounds` entries left, from `i` on.
mark_free_loop : ℕ → ℕ → List ℕ → List ℕ
mark_free_loop zero i es = es
mark_free_loop (suc rounds) i es = elim (bit_and (get_or es i 0) has_next == 0) [
  | true ↦ set es i entry_free
  | false ↦ mark_free_loop rounds (i + 1) (set es i entry_free)
]

-- An `int` block index.
pub data Block : Type 0 where
  block : ℕ → Block
  before : ℕ → Block

-- `((int)(address - heap->saddr)) / SERPAEOS_HEAP_BLOCK_SIZE`: the difference of two 32-bit
-- addresses read as an `int`, divided towards 0. `before n` is the negative index `-n`, `0 < n`.
pub address_to_block : ℕ → ℕ → Block
address_to_block saddr address =
    let d = (address + 2 ^ 32 - saddr) % 2 ^ 32 in
    if ltb d (2 ^ 31)
    then block (d / block_size)
    else if (2 ^ 32 - d) / block_size == 0
    then block 0
    else before ((2 ^ 32 - d) / block_size)

-- From a negative index the first write is before the table.
pub mark_blocks_free : List ℕ → Block → Option (List ℕ)
unfolding mark_free_loop
mark_blocks_free es (block start) = some (mark_free_loop (length es - start) start es)
mark_blocks_free es (before n) = none

unfoldable pub malloc : Heap → ℕ → Outcome
malloc h size = malloc_blocks h (align_value_to_upper size / block_size)

-- `none` is a write outside the table.
pub free : Heap → ℕ → Option Heap
free h ptr = elim (mark_blocks_free h.entries (address_to_block h.saddr ptr)) [
  | none ↦ none
  | some es ↦ some (record h { entries = es })
]
