-- ===== src/Heap/Search.antt =====
-- `heap_get_start_block`, the search for a run of free blocks.
use serpae_os.Common.{
  ℕ, zero, suc, ◌+◌, ◌≤◌, ◌<◌, ◌≡◌, ◌⊎◌, inl, inr, refl, false, Option, none, some, List, ◌==◌,
  length, get_or, ok, err, arith, Bool-cases, enomem,
}
use serpae_os.Heap.{get_entry_type, entry_free, run_start, start_block_loop, get_start_block}

-- Blocks `a`, …, `b - 1` are free.
abbrev pub FreeRun : List ℕ → ℕ → ℕ → Type 0
FreeRun es a b = (j : ℕ) → a ≤ j → j < b → get_entry_type (get_or es j 0) ≡ entry_free

-- `n` free blocks from `s` on, all in the table.
abbrev pub FullRun : List ℕ → ℕ → ℕ → Type 0
FullRun es n s = (s + n ≤ length es) × FreeRun es s (s + n)

-- Fewer than `n` free blocks from `s` on, up to the end of the table.
abbrev pub TailRun : List ℕ → ℕ → ℕ → Type 0
TailRun es n s = (s < length es) × (length es < s + n) × FreeRun es s (length es)

-- What `bc` and `bs` say when the loop is at block `i`.
abbrev Running : List ℕ → ℕ → ℕ → Option ℕ → Type 0
Running es i bc none = bc ≡ 0
Running es i bc (some s) = (s + bc ≡ i) × (0 < bc) × FreeRun es s i

FreeRun-snoc :
    (es : List ℕ) (a i : ℕ)
    → FreeRun es a i
    → get_entry_type (get_or es i 0) ≡ entry_free
    → FreeRun es a (i + 1)
FreeRun-snoc es a i run e j p q = ground (arith, run j)

module _ (es : List ℕ) (n : ℕ) where
  Running-step :
      (i bc : ℕ) (bs : Option ℕ)
      → Running es i bc bs
      → get_entry_type (get_or es i 0) ≡ entry_free
      → Running es (i + 1) (bc + 1) (some (run_start bs i))
  Running-step i bc none r e =
      (omega arith, omega arith, FreeRun-snoc es i i (λ j p q. absurd (omega arith)) e)
  Running-step i bc (some s) r e = (omega arith, omega arith, FreeRun-snoc es s i r.2 e)

  loop_sound :
      (rounds i bc : ℕ) (bs : Option ℕ) {s : ℕ}
      → i + rounds ≡ length es
      → bc < n
      → Running es i bc bs
      → start_block_loop es n rounds i bc bs ≡ some s
      → FullRun es n s ⊎ TailRun es n s
  unfolding start_block_loop
  loop_sound zero i bc none at fits r e = cc
  loop_sound zero i bc (some s') at fits r e =
      inr (ground arith, ground arith, λ j p q. r.2 j (ground arith) (ground arith))
  loop_sound (suc rounds) i bc bs {s} at fits r e =
      elim (Bool-cases (get_entry_type (get_or es i 0) == entry_free)) [
        | inl free ↦ elim (Bool-cases (bc + 1 == n)) [
          | inl full ↦
              let (count, _, run) = Running-step i bc bs r (ground arith) in
              let start : run_start bs i ≡ s = ground arith in
              inl (ground arith, λ j p q. run j (omega arith) (ground arith))
          | inr more ↦
              loop_sound rounds (i + 1) (bc + 1) (some (run_start bs i)) (omega arith)
                (ground arith) (Running-step i bc bs r (ground arith))
                (rw (free, more, start_block_loop) at e)
        ]
        | inr taken ↦
            loop_sound rounds (i + 1) 0 none (omega arith) (omega arith) refl
              (rw (taken, start_block_loop) at e)
      ]

  -- A run of `n` free blocks at `t` that the loop has not passed is never passed by.
  abbrev NotPassed : ℕ → Option ℕ → ℕ → Type 0
  NotPassed i none t = i ≤ t
  NotPassed i (some s) t = (s ≤ t) × (i < s + n)

  start-le : (i t : ℕ) (bs : Option ℕ) → NotPassed i bs t → run_start bs i ≤ t
  start-le i t none np = np
  start-le i t (some s) np = np.0

  taken_before :
      (i t : ℕ) (bs : Option ℕ)
      → FullRun es n t
      → 0 < n
      → NotPassed i bs t
      → (get_entry_type (get_or es i 0) == entry_free) ≡ false
      → i + 1 ≤ t
  taken_before i t none full pos np taken = ground (arith, full.1 i)
  taken_before i t (some s) full pos np taken = ground (arith, full.1 i)

  loop_first :
      (t rounds i bc : ℕ) (bs : Option ℕ)
      → FullRun es n t
      → i + rounds ≡ length es
      → 0 < n
      → bc < n
      → Running es i bc bs
      → NotPassed i bs t
      → (s : ℕ) × (start_block_loop es n rounds i bc bs ≡ some s) × (s ≤ t)
  unfolding start_block_loop
  loop_first t zero i bc none full at pos fits r np = absurd (omega arith)
  loop_first t zero i bc (some s) full at pos fits r np = absurd (omega arith)
  loop_first t (suc rounds) i bc bs full at pos fits r np =
      elim (Bool-cases (get_entry_type (get_or es i 0) == entry_free)) [
        | inl free ↦ elim (Bool-cases (bc + 1 == n)) [
          | inl last ↦ (run_start bs i, rw (free, last, start_block_loop), start-le i t bs np)
          | inr more ↦
              rw (free, more, start_block_loop)
                (loop_first t rounds (i + 1) (bc + 1) (some (run_start bs i)) full (omega arith) pos
                  (ground arith) (Running-step i bc bs r (ground arith))
                  (start-le i t bs np, ground (arith, Running-step i bc bs r)))
        ]
        | inr taken ↦
            rw (taken, start_block_loop)
              (loop_first t rounds (i + 1) 0 none full (omega arith) pos pos refl
                (taken_before i t bs full pos np taken))
      ]

  -- A block that the search returns starts a run of `n` free blocks, or the shorter run at the end.
  pub get_start_block_sound :
      {s : ℕ} → 0 < n → get_start_block es n ≡ ok s → FullRun es n s ⊎ TailRun es n s
  unfolding get_start_block
  get_start_block_sound pos e =
      loop_sound (length es) 0 0 none (omega arith) pos refl (ground arith)

  not_tail : (s t : ℕ) → s ≤ t → FullRun es n t → FullRun es n s ⊎ TailRun es n s → FullRun es n s
  not_tail s t le full (inl whole) = whole
  not_tail s t le full (inr tail) = absurd (omega arith)

  -- If `n` free blocks in a row exist, the search returns such a run, and none further up.
  pub get_start_block_first :
      (t : ℕ)
      → 0 < n
      → FullRun es n t
      → (s : ℕ) × (get_start_block es n ≡ ok s) × (s ≤ t) × FullRun es n s
  unfolding get_start_block
  get_start_block_first t pos full =
      let (s, e, le) =
        loop_first t (length es) 0 0 none full (omega arith) pos pos refl (omega arith) in
      let found : get_start_block es n ≡ ok s = rw (e, get_start_block) in
      (s, found, le, not_tail s t le full (get_start_block_sound pos found))

  -- A failing search reports `ENOMEM`.
  pub get_start_block-enomem : {e : ℕ} → get_start_block es n ≡ err e → e ≡ enomem
  unfolding get_start_block
  get_start_block-enomem h = ground arith
