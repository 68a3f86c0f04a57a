-- ===== src/Paging.antt =====
-- The page tables, src/memory/paging/paging.c. Memory is a function from the address of a 32-bit
-- word to the word; addresses and words are numbers below 2 ^ 32.
pub mod Fill
pub mod Identity
pub mod Layout
pub mod Map
mod Tests
use serpae_os.Common.{
  ℕ, zero, suc, ◌+◌, ◌-◌, ◌*◌, ◌/◌, ◌%◌, ◌^◌, bit_and, bit_or, Bool, true, false, not, ◌||◌, ltb,
  ◌==◌, if◌then◌else◌, Status, ok, err, ◌>>=◌, einvarg,
}

abbrev pub page_size : ℕ
page_size = 4096

abbrev pub entries_per_table : ℕ
entries_per_table = 1024

abbrev pub is_writeable : ℕ
is_writeable = 0b0000_0010

abbrev pub Memory : Type 0
Memory = ℕ → ℕ

unfoldable pub store : Memory → ℕ → ℕ → Memory
store m p v q = if q == p then v else m q

pub is_aligned : ℕ → Bool
is_aligned addr = addr % page_size == 0

-- The two indexes that `paging_get_indexes` puts out.
pub get_indexes : ℕ → Status (ℕ × ℕ)
unfolding is_aligned
get_indexes virtual =
    if not (is_aligned virtual)
    then err einvarg
    else ok (
      virtual / (entries_per_table * page_size),
      virtual % (entries_per_table * page_size) / page_size,
    )

unfoldable pub align_address : ℕ → ℕ
align_address ptr =
    if ptr % page_size == 0 then ptr else (ptr + page_size - ptr % page_size) % 2 ^ 32

unfoldable pub align_to_lower_page : ℕ → ℕ
align_to_lower_page addr = addr - addr % page_size

-- `(uint32_t *)(entry & 0xfffff000)`
unfoldable pub table_of : ℕ → ℕ
table_of entry = bit_and entry 0xffff_f000

-- The address of word `i` of an array of words.
abbrev pub word : ℕ → ℕ → ℕ
word base i = base + 4 * i

pub set : Memory → ℕ → ℕ → ℕ → Status Memory
set m directory virt val = do
  (directory_index, table_index) ← get_indexes virt
  ok (store m (word (table_of (m (word directory directory_index))) table_index) val)

-- `paging_get` reads at indexes 0 and 0 if the address is not aligned.
indexes_or_zero : Status (ℕ × ℕ) → ℕ × ℕ
indexes_or_zero (ok i) = i
indexes_or_zero (err e) = (0, 0)

pub get : Memory → ℕ → ℕ → ℕ
unfolding indexes_or_zero
get m directory virt =
    let (directory_index, table_index) = indexes_or_zero (get_indexes virt) in
    m (word (table_of (m (word directory directory_index))) table_index)

pub get_physical_address : Memory → ℕ → ℕ → ℕ
get_physical_address m directory virt =
    (table_of (get m directory (align_to_lower_page virt)) + (virt - align_to_lower_page virt))
    % 2 ^ 32

pub map : Memory → ℕ → ℕ → ℕ → ℕ → Status Memory
map m directory virt phys flags =
    if not (virt % page_size == 0) || not (phys % page_size == 0)
    then err einvarg
    else set m directory virt (bit_or phys flags)

-- What a function that writes to memory leaves there, with what it returns.
pub record Run : Type 0 where
  pub memory : Memory
  pub res : Status (Unit {0})

-- The loop stops at the first page that is refused; the pages before it stay mapped.
pub map_range : Memory → ℕ → ℕ → ℕ → ℕ → ℕ → Run
map_range m directory virt phys zero flags = record { memory = m; res = ok tt }
map_range m directory virt phys (suc count) flags = elim (map m directory virt phys flags) [
  | err e ↦ record { memory = m; res = err e }
  | ok m' ↦
      map_range m' directory ((virt + page_size) % 2 ^ 32) ((phys + page_size) % 2 ^ 32) count flags
]

pub map_to : Memory → ℕ → ℕ → ℕ → ℕ → ℕ → Run
map_to m directory virt phys phys_end flags =
    if not (virt % page_size == 0)
    then refused
    else if not (phys % page_size == 0)
    then refused
    else if not (phys_end % page_size == 0)
    then refused
    else if ltb phys_end phys
    then refused
    else map_range m directory virt phys ((phys_end - phys) / page_size) flags
  where
    refused : Run
    refused = record { memory = m; res = err einvarg }

-- The inner loop of `paging_new_4gb`, `rounds` entries from `b` on.
pub fill_table : Memory → ℕ → ℕ → ℕ → ℕ → ℕ → Memory
fill_table m entry offset flags zero b = m
fill_table m entry offset flags (suc rounds) b =
    fill_table (store m (word entry b) (bit_or ((offset + b * page_size) % 2 ^ 32) flags)) entry
      offset flags rounds (b + 1)

-- The outer loop, `rounds` tables from `i` on. `table i` is the address that `kzalloc` returns for
-- table `i`; the zeros that `kzalloc` writes are all overwritten. The offset is an `int` that wraps.
fill_directory : Memory → ℕ → (ℕ → ℕ) → ℕ → ℕ → ℕ → ℕ → Memory
fill_directory m directory table flags zero i offset = m
fill_directory m directory table flags (suc rounds) i offset =
    let filled = fill_table m (table i) offset flags entries_per_table 0 in
    fill_directory (store filled (word directory i) (bit_or (bit_or (table i) flags) is_writeable))
      directory table flags rounds (i + 1) ((offset + entries_per_table * page_size) % 2 ^ 32)

pub new_4gb : Memory → ℕ → (ℕ → ℕ) → ℕ → Memory
unfolding fill_directory fill_table
new_4gb m directory table flags = fill_directory m directory table flags entries_per_table 0 0
