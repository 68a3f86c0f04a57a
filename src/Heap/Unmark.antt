-- ===== src/Heap/Unmark.antt =====
-- `heap_mark_blocks_free` over a run that `heap_mark_blocks_taken` has marked.
use serpae_os.Common.{
  ℕ, zero, suc, ◌+◌, ◌-◌, ◌≤◌, ◌<◌, ◌≡◌, ◌⊎◌, inl, inr, refl, some, List, ◌==◌, length, get_or, set,
  length-set, get_or-set_self, get_or-set_ne, get_or_ext, bit_and, arith, Bool-cases, ℕ_discrete,
  range_cases, sym, ◌∙◌,
}
use serpae_os.Heap.{entry_free, has_next, mark_free_loop, mark_blocks_free, block}
use serpae_os.Heap.Mark.{run_entry, Marked}

-- `out` is `es` with the blocks from `i` up to `e` freed.
pub record Freed (i e : ℕ) (es out : List ℕ) : Type 0 where
  pub size : length out ≡ length es
  pub inside : (j : ℕ) → i ≤ j → j < e → get_or out j 0 ≡ entry_free
  pub apart : (j : ℕ) → (j < i) ⊎ (e ≤ j) → get_or out j 0 ≡ get_or es j 0

Freed-set :
    (i e : ℕ) {es out : List ℕ}
    → i < e
    → e ≤ length es
    → Freed (i + 1) e (set es i entry_free) out
    → Freed i e es out
Freed-set i e {es} {out} lt r f = record {
  size = omega (arith, f.size, length-set es i entry_free);
  inside = λ j a b. elim (ℕ_discrete j i) [
    | yes same ↦
        ground (arith, f.apart i (inl (omega arith)), get_or-set_self es i 0 0 (omega arith))
    | no other ↦ f.inside j (omega arith) b
  ];
  apart = λ j a. ground (arith, f.apart j, get_or-set_ne es i j 0 0);
}

module _ (s n : ℕ) where
  -- Only the last entry of a run lacks `HEAP_BLOCK_HAS_NEXT`.
  last_of_run :
      (i : ℕ) → s ≤ i → i < s + n → (bit_and (run_entry s n i) has_next == 0) ≡ (i + 1 == s + n)
  last_of_run i p q = ground arith

  mark_free_loop-Freed :
      (rounds i : ℕ) (es : List ℕ)
      → s ≤ i
      → i < s + n
      → s + n ≤ length es
      → i + rounds ≡ length es
      → ((j : ℕ) → i ≤ j → j < s + n → get_or es j 0 ≡ run_entry s n j)
      → Freed i (s + n) es (mark_free_loop rounds i es)
  unfolding mark_free_loop
  mark_free_loop-Freed zero i es p q r e run = absurd (omega arith)
  mark_free_loop-Freed (suc rounds) i es p q r e run =
      let here : get_or es i 0 ≡ run_entry s n i = run i (omega arith) q in
      elim (Bool-cases (i + 1 == s + n)) [
        | inl last ↦
            rw (here, last_of_run i p q, last, mark_free_loop)
              (Freed-set i (s + n) q r (record {
                size = refl;
                inside = λ j a b. absurd (ground arith);
                apart = λ j a. refl;
              }))
        | inr more ↦
            rw (here, last_of_run i p q, more, mark_free_loop)
              (Freed-set i (s + n) q r (
                mark_free_loop-Freed rounds (i + 1) (set es i entry_free) (omega arith)
                  (ground arith) (omega (arith, length-set es i 0))
                  (omega (arith, length-set es i 0))
                  λ j a b. ground (arith, get_or-set_ne es i j 0 0, run j)))
      ]

  -- Freeing the first block of a marked run frees the run, and nothing else.
  pub mark_blocks_free-Freed :
      (es : List ℕ)
      → 0 < n
      → s + n ≤ length es
      → ((j : ℕ) → s ≤ j → j < s + n → get_or es j 0 ≡ run_entry s n j)
      → (out : List ℕ) × (mark_blocks_free es (block s) ≡ some out) × Freed s (s + n) es out
  unfolding mark_blocks_free
  mark_blocks_free-Freed es pos r run = (
    mark_free_loop (length es - s) s es,
    refl,
    mark_free_loop-Freed (length es - s) s es (omega arith) (omega arith) r (omega arith) run,
  )

  -- If the run was free before it was marked, the table is what it was.
  pub mark_blocks_free-mark_blocks_taken :
      (es es' out : List ℕ)
      → ((j : ℕ) → s ≤ j → j < s + n → get_or es j 0 ≡ entry_free)
      → Marked es s n es'
      → Freed s (s + n) es' out
      → out ≡ es
  mark_blocks_free-mark_blocks_taken es es' out free m f =
      get_or_ext 0 out es (omega (arith, m.size, f.size)) λ j lt. elim (range_cases s (s + n) j) [
        | inl i ↦ f.inside j i.0 i.1 ∙ sym (free j i.0 i.1)
        | inr o ↦ f.apart j o ∙ m.apart j o
      ]
