-- ===== src/Heap/Mark.antt =====
-- `heap_mark_blocks_taken` and `heap_mark_blocks_free`: what they leave in the table, and that the
-- second undoes the first.
use serpae_os.Common.{
  ℕ, zero, suc, ◌+◌, ◌-◌, ◌≤◌, ◌<◌, ◌≡◌, ◌⊎◌, inl, inr, refl, true, none, some, List, ltb, ◌==◌,
  if◌then◌else◌, length, get_or, set, length-set, get_or-set_self, get_or-set_ne, arith, Bool-cases,
  ℕ_discrete,
}
use serpae_os.Heap.{write_entry, next_entry, first_entry, mark_taken_loop, mark_blocks_taken}

-- The entry of block `j` of a run of `n` blocks from `s`: every block is taken, the first carries
-- `HEAP_BLOCK_IS_FIRST`, and every block but the last `HEAP_BLOCK_HAS_NEXT`.
abbrev pub run_entry : ℕ → ℕ → ℕ → ℕ
run_entry s n j =
    if j == s
    then (if ltb 1 n then 0b1100_0001 else 0b0100_0001)
    else if j + 1 == s + n
    then 0b0000_0001
    else 0b1000_0001

-- `es'` is `es` with the `n` blocks from `s` marked as one run.
pub record Marked (es : List ℕ) (s n : ℕ) (es' : List ℕ) : Type 0 where
  pub size : length es' ≡ length es
  pub inside : (j : ℕ) → s ≤ j → j < s + n → get_or es' j 0 ≡ run_entry s n j
  pub apart : (j : ℕ) → (j < s) ⊎ (s + n ≤ j) → get_or es' j 0 ≡ get_or es j 0

module _ (s n : ℕ) where
  -- `es'` agrees with `es` but from block `i` on, where it holds the entries of the run.
  record Filled (i : ℕ) (es es' : List ℕ) : Type 0 where
    size : length es' ≡ length es
    inside : (j : ℕ) → i ≤ j → j < s + n → get_or es' j 0 ≡ run_entry s n j
    apart : (j : ℕ) → (j < i) ⊎ (s + n ≤ j) → get_or es' j 0 ≡ get_or es j 0

  next_entry-run : (i : ℕ) → s ≤ i → i < s + n → next_entry i (s + n - 1) ≡ run_entry s n (i + 1)
  unfolding next_entry
  next_entry-run i p q = ground arith

  Filled-set :
      (i entry : ℕ) {es es' : List ℕ}
      → i < s + n
      → s + n ≤ length es
      → entry ≡ run_entry s n i
      → Filled (i + 1) (set es i entry) es'
      → Filled i es es'
  Filled-set i entry {es} {es'} lt r e f = record {
    size = omega (arith, f.size, length-set es i entry);
    inside = λ j a b. elim (ℕ_discrete j i) [
      | yes same ↦
          ground (arith, f.apart i (inl (omega arith)), get_or-set_self es i entry 0 (omega arith))
      | no other ↦ f.inside j (omega arith) b
    ];
    apart = λ j a. ground (arith, f.apart j, get_or-set_ne es i j entry 0);
  }

  mark_taken_loop-Filled :
      (rounds i entry : ℕ) (es : List ℕ)
      → s ≤ i
      → i + rounds ≡ s + n
      → s + n ≤ length es
      → ((i < s + n) → entry ≡ run_entry s n i)
      → (es' : List ℕ) × (mark_taken_loop rounds i (s + n - 1) entry es ≡ some es')
        × Filled i es es'
  unfolding mark_taken_loop write_entry
  mark_taken_loop-Filled zero i entry es p q r e = (
    es,
    refl,
    record { size = refl; inside = λ j a b. absurd (omega arith); apart = λ j a. refl },
  )
  mark_taken_loop-Filled (suc rounds) i entry es p q r e =
      let (es', eq, f) =
        mark_taken_loop-Filled rounds (i + 1) (next_entry i (s + n - 1)) (set es i entry)
          (omega arith) (omega arith) (omega (arith, length-set es i entry))
          (λ lt. next_entry-run i p (omega arith)) in
      let room : ltb i (length es) ≡ true = ground arith in
      (es', rw (room, mark_taken_loop) eq, Filled-set i entry (omega arith) r (e (omega arith)) f)

  -- Marking a run that lies in the table succeeds, and leaves the entries of `run_entry` in it.
  pub mark_blocks_taken-Marked :
      (es : List ℕ)
      → s + n ≤ length es
      → (es' : List ℕ) × (mark_blocks_taken es s n ≡ some es') × Marked es s n es'
  unfolding mark_blocks_taken
  mark_blocks_taken-Marked es r =
      let (es', eq, f) =
        mark_taken_loop-Filled n s (first_entry n) es (omega arith) refl r (λ lt. ground arith) in
      (es', eq, record { size = f.size; inside = f.inside; apart = f.apart })

  -- Marking a run that goes on behind the table writes outside it.
  mark_taken_loop-outside :
      (rounds i end entry : ℕ) (es : List ℕ)
      → i ≤ length es
      → length es < i + rounds
      → mark_taken_loop rounds i end entry es ≡ none
  unfolding mark_taken_loop write_entry
  mark_taken_loop-outside zero i end entry es p q = absurd (omega arith)
  mark_taken_loop-outside (suc rounds) i end entry es p q = elim (Bool-cases (ltb i (length es))) [
    | inl room ↦
        rw (room, mark_taken_loop)
          (mark_taken_loop-outside rounds (i + 1) end (next_entry i end) (set es i entry)
            (ground (arith, length-set es i entry)) (ground (arith, length-set es i entry)))
    | inr full ↦ rw (full, mark_taken_loop)
  ]

  pub mark_blocks_taken-outside :
      (es : List ℕ) → s < length es → length es < s + n → mark_blocks_taken es s n ≡ none
  unfolding mark_blocks_taken
  mark_blocks_taken-outside es p q =
      mark_taken_loop-outside n s (s + n - 1) (first_entry n) es (omega arith) (omega arith)
