-- ===== src/Process/Allocations.antt =====
-- The table of allocations of a process, as process_malloc and process_free of src/task/process.c
-- change it.
use serpae_os.Common.{
  ℕ, suc, ◌≡◌, ◌≢◌, ◌⊎◌, inl, inr, refl, true, false, some, List, [], ◌∷◌, ◌==◌, set, arith, ap,
  sym, Bool-cases, Status, Status-cases, ok, err, enomem,
}
use serpae_os.Process.{
  Allocation, empty, Kernel, Process, user_flags, mapping_end, find_free_alloc_index,
  allocation_unjoin, get_allocation_by_addr, process_malloc, process_free,
}

-- Free entries have no size, and no entry has the pointer.
abbrev pub IsFresh : ℕ → List Allocation → Type 0
IsFresh ptr [] = Unit {0}
IsFresh ptr (a ∷ allocations) = (a.ptr ≡ 0 → a ≡ empty) × (a.ptr ≢ ptr) × IsFresh ptr allocations

unjoin_fresh :
    (ptr : ℕ) (allocations : List Allocation)
    → IsFresh ptr allocations
    → allocation_unjoin ptr allocations ≡ allocations
unfolding allocation_unjoin
unjoin_fresh ptr [] fresh = refl
unjoin_fresh ptr (a ∷ allocations) fresh =
    let other : (a.ptr == ptr) ≡ false = ground (arith, fresh.1) in
    rw (allocation_unjoin, other, unjoin_fresh ptr allocations fresh.2)

-- The entry that is taken is found by its pointer, and free again behind allocation_unjoin; or none
-- is free.
joined :
    (ptr size : ℕ) (allocations : List Allocation)
    → IsFresh ptr allocations
    → ((i : ℕ) × (find_free_alloc_index allocations ≡ ok i)
        × (get_allocation_by_addr (set allocations i (record { ptr = ptr; size = size })) ptr
            ≡ some (record { ptr = ptr; size = size }))
        × (allocation_unjoin ptr (set allocations i (record { ptr = ptr; size = size }))
            ≡ allocations))
      ⊎ (find_free_alloc_index allocations ≡ err enomem)
unfolding find_free_alloc_index get_allocation_by_addr allocation_unjoin
joined ptr size [] fresh = inr refl
joined ptr size (a ∷ allocations) fresh =
    let own : (ptr == ptr) ≡ true = ground arith in
    let other : (a.ptr == ptr) ≡ false = ground (arith, fresh.1) in
    elim (Bool-cases (a.ptr == 0)) [
      | inl free ↦
          let null : a.ptr ≡ 0 = ground arith in
          inl (
            0,
            rw (find_free_alloc_index, free),
            rw (get_allocation_by_addr, own),
            rw (allocation_unjoin, own, unjoin_fresh ptr allocations fresh.2)
                (ap (λ b. b ∷ allocations) (sym (fresh.0 null))),
          )
      | inr used ↦ elim (joined ptr size allocations fresh.2) [
        | inr full ↦ inr (rw (find_free_alloc_index, used, full))
        | inl (i, e, got, gone) ↦ inl (
          suc i,
          rw (find_free_alloc_index, used, e),
          rw (get_allocation_by_addr, other) got,
          rw (allocation_unjoin, other, gone),
        )
      ]
    ]

-- If the heap gives memory at a pointer that is not null and that the process does not own:
-- process_malloc answers the pointer, and process_free of it leaves the table of allocations as it was
-- and frees the memory, or, if the pages cannot be unmapped, frees nothing and leaves the allocation in
-- the table; or the table is full, or the pages cannot be mapped, and process_malloc answers the null
-- pointer, frees the memory at once and leaves the table.
pub process_free-process_malloc :
    {H D : Type 0} (kernel : Kernel H D) (process : Process H D) (size ptr : ℕ) (heap : H)
    (mapped unmapped : Status (Unit {0})) (d d' : D)
    → kernel.kzalloc size process.heap ≡ (ptr, heap)
    → ptr ≢ 0
    → IsFresh ptr process.allocations
    → kernel.map_to ptr (mapping_end ptr size) user_flags process.page_directory ≡ (mapped, d)
    → kernel.map_to ptr (mapping_end ptr size) 0 d ≡ (unmapped, d')
    → ((mapped ≡ ok tt)
        × ((process_malloc kernel size process).0 ≡ ptr)
        × (((unmapped ≡ ok tt)
              × (process_free kernel ptr (process_malloc kernel size process).1 ≡ record {
                allocations = process.allocations;
                heap = kernel.kfree ptr heap;
                page_directory = d';
              }))
            ⊎ ((e : ℕ) × (unmapped ≡ err e)
                × (process_free kernel ptr (process_malloc kernel size process).1 ≡ record {
                  allocations = (process_malloc kernel size process).1.allocations;
                  heap = heap;
                  page_directory = d';
                }))))
      ⊎ ((find_free_alloc_index process.allocations ≡ err enomem)
          × (process_malloc kernel size process ≡ (
            0,
            record {
              allocations = process.allocations;
              heap = kernel.kfree ptr heap;
              page_directory = process.page_directory;
            },
          )))
      ⊎ ((e : ℕ) × (mapped ≡ err e)
          × (process_malloc kernel size process ≡ (
            0,
            record {
              allocations = process.allocations;
              heap = kernel.kfree ptr heap;
              page_directory = d;
            },
          )))
unfolding process_malloc process_free
process_free-process_malloc kernel process size ptr heap mapped unmapped d d' given some_ptr fresh
      map unmap =
    let null : (ptr == 0) ≡ false = ground arith in
    elim (joined ptr size process.allocations fresh) [
      | inr full ↦ inr (inl (full, rw (process_malloc, given, null, full, given)))
      | inl (i, e, got, gone) ↦ elim (Status-cases mapped) [
        | inr (n, failed) ↦
            inr
              (inr (n, failed, rw (process_malloc, given, null, e, given, map, failed, given, map)))
        | inl (u, succeeded) ↦
            let taken : process_malloc kernel size process ≡ (
              ptr,
              record {
                allocations = set process.allocations i (record { ptr = ptr; size = size });
                heap = heap;
                page_directory = d;
              },
            ) =
              rw (process_malloc, given, null, e, given, map, succeeded, given, map) in
            inl (
              succeeded,
              ap (λ r. r.0) taken,
              elim (Status-cases unmapped) [
                | inl (w, removed) ↦
                    inl (removed, rw taken (rw (process_free, got, unmap, removed, gone, unmap)))
                | inr (n, failed) ↦
                    inr (n, failed, rw taken (rw (process_free, got, unmap, failed, unmap)))
              ],
            )
      ]
    ]
