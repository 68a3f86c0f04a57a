-- ===== src/Process.antt =====
-- The memory of a process, process_malloc and process_free of src/task/process.c. The kernel heap and
-- the page directory are any states, and kzalloc, kfree and paging_map_to functions on them.
pub mod Allocations
pub mod Iob
pub mod Slots
pub mod Mapping
mod Tests
use serpae_os.Paging.{align_address}
use serpae_os.Common.{
  ℕ, zero, suc, ◌+◌, ◌-◌, ◌*◌, ◌/◌, ◌%◌, ◌^◌, ◌≤◌, ◌<◌, ◌≡◌, ◌≢◌, ◌↔◌, ◌⊎◌, inl, inr, refl, Bool,
  true, false, not, ◌&&◌, ◌||◌, Option, none, some, List, [], ◌∷◌, ◌++◌, map, ltb, leb, ◌==◌,
  if◌then◌else◌, length, take, drop, set, get_or, get_elem?, replicate, arith, ap, ap₂, sym, ◌∙◌,
  length-append, length-set, get_or-set_self, get_or-set_ne, set-set, get_or-replicate, get_or_ext,
  length-replicate, length-take, length-drop, get_or-snoc_self, get_or-snoc_ne, get_or_out,
  List-cases, some_cancel, some_ne, Option-cases, Bool-cases, range_cases, tests, dec_lt, dec_le,
  ℕ_discrete, Status, ok, err, Status-cases, enomem,
}

-- An entry of the table of allocations; a free one has the null pointer.
pub record Allocation : Type 0 where
  pub ptr : ℕ
  pub size : ℕ

abbrev pub empty : Allocation
empty = record { ptr = 0; size = 0 }

-- `paging_map_to` of a directory takes the address, which is virtual and physical, the end of the
-- range, and the flags.
pub record Kernel (H D : Type 0) : Type 0 where
  pub kzalloc : ℕ → H → ℕ × H
  pub kfree : ℕ → H → H
  pub map_to : ℕ → ℕ → ℕ → D → Status (Unit {0}) × D

pub record Process (H D : Type 0) : Type 0 where
  pub allocations : List Allocation
  pub heap : H
  pub page_directory : D

-- The end of the pages that hold an allocation.
abbrev pub mapping_end : ℕ → ℕ → ℕ
mapping_end ptr size = align_address ((ptr + size) % 2 ^ 32)

-- PAGING_IS_WRITEABLE | PAGING_IS_PRESENT | PAGING_ACCESS_FROM_ALL.
abbrev pub user_flags : ℕ
user_flags = 7

unfoldable pub find_free_alloc_index : List Allocation → Status ℕ
find_free_alloc_index [] = err enomem
find_free_alloc_index (a ∷ allocations) =
    let rest = find_free_alloc_index allocations in
    if a.ptr == 0 then ok 0 else elim rest [ err e ↦ err e | ok i ↦ ok (suc i) ]

unfoldable pub allocation_unjoin : ℕ → List Allocation → List Allocation
allocation_unjoin ptr [] = []
allocation_unjoin ptr (a ∷ allocations) =
    (if a.ptr == ptr then empty else a) ∷ allocation_unjoin ptr allocations

unfoldable pub get_allocation_by_addr : List Allocation → ℕ → Option Allocation
get_allocation_by_addr [] addr = none
get_allocation_by_addr (a ∷ allocations) addr =
    let rest = get_allocation_by_addr allocations addr in if a.ptr == addr then some a else rest

module _ {H D : Type 0} (kernel : Kernel H D) where
  -- The answer 0 is the null pointer.
  unfoldable pub process_malloc : ℕ → Process H D → ℕ × Process H D
  process_malloc size process =
      let (ptr, heap) = kernel.kzalloc size process.heap in
      let mapped = kernel.map_to ptr (mapping_end ptr size) user_flags process.page_directory in
      let refused : D → ℕ × Process H D = λ d. (
        0,
        record {
          allocations = process.allocations;
          heap = kernel.kfree ptr heap;
          page_directory = d;
        },
      ) in
      if ptr == 0
      then (
        0,
        record {
          allocations = process.allocations;
          heap = heap;
          page_directory = process.page_directory;
        },
      )
      else elim (find_free_alloc_index process.allocations) [
        | err e ↦ refused process.page_directory
        | ok index ↦ elim mapped.0 [
          | err e ↦ refused mapped.1
          | ok _ ↦ (
            ptr,
            record {
              allocations = set process.allocations index (record { ptr = ptr; size = size });
              heap = heap;
              page_directory = mapped.1;
            },
          )
        ]
      ]

  unfoldable pub process_free : ℕ → Process H D → Process H D
  process_free ptr process = elim (get_allocation_by_addr process.allocations ptr) [
    | none ↦ process
    | some a ↦
        let unmapped = kernel.map_to a.ptr (mapping_end a.ptr a.size) 0 process.page_directory in
        elim unmapped.0 [
          | err e ↦ record {
            allocations = process.allocations;
            heap = process.heap;
            page_directory = unmapped.1;
          }
          | ok _ ↦ record {
            allocations = allocation_unjoin ptr process.allocations;
            heap = kernel.kfree ptr process.heap;
            page_directory = unmapped.1;
          }
        ]
  ]

  -- The memory of a process that is terminated, null pointers included.
  unfoldable pub terminate_allocs : List Allocation → H → H
  terminate_allocs [] heap = heap
  terminate_allocs (a ∷ allocations) heap = terminate_allocs allocations (kernel.kfree a.ptr heap)
