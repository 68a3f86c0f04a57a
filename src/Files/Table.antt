-- ===== src/Files/Table.antt =====
-- The table of file descriptors: the entry in place i has the index i + 1.
use serpae_os.Common.{
  ℕ, zero, suc, ◌+◌, ◌<◌, ◌≡◌, ◌≢◌, inl, inr, refl, Option, none, some, [], ◌∷◌, length, set,
  get_or, arith, sym, ◌∙◌, length-set, get_or-set_self, get_or-set_ne, some_cancel, some_ne,
  Option-cases, ℕ_discrete,
}
use mathlib.Core.Path.{subst}
use serpae_os.Files.{FileDescriptor, Table, max_file_descriptors, first_free}

pub record IsTable (table : Table) : Type 0 where
  pub size : length table ≡ max_file_descriptors
  pub indexes :
      (i : ℕ) (desc : FileDescriptor) → get_or table i none ≡ some desc → desc.index ≡ i + 1

-- The entry in place i is null, and none before it is.
abbrev pub IsFirst : Table → ℕ → Type 0
IsFirst table i =
    (i < length table)
    × (get_or table i none ≡ none)
    × ((j : ℕ) → j < i → get_or table j none ≢ none)

not_before :
    (table : Table) (i : ℕ) (desc : FileDescriptor)
    → ((j : ℕ) → j < i → get_or table j none ≢ none)
    → (j : ℕ) → j < suc i
    → get_or (some desc ∷ table) j none ≢ none
not_before table i desc before zero lt = some_ne desc
not_before table i desc before (suc j) lt = before j (omega arith)

-- `first_free` finds the first null entry, and finds none only if there is none.
pub first_free-some : (table : Table) (i : ℕ) → first_free table ≡ some i → IsFirst table i
unfolding first_free
first_free-some [] i e = absurd (ground (arith, e))
first_free-some (none ∷ table) i e =
    let at : 0 ≡ i = some_cancel e in
    subst (IsFirst (none ∷ table)) at (omega arith, refl, λ j lt. absurd (omega arith))
first_free-some (some desc ∷ table) i e = elim (Option-cases (first_free table)) [
  | inl stuck ↦ absurd (ground (arith, e, stuck))
  | inr (k, found) ↦
      let (lt, free, before) = first_free-some table k found in
      let computed : first_free (some desc ∷ table) ≡ some (suc k) = rw found in
      let at : suc k ≡ i = some_cancel (sym computed ∙ e) in
      subst (IsFirst (some desc ∷ table)) at (omega arith, free, not_before table k desc before)
]

pub first_free-none :
    (table : Table)
    → first_free table ≡ none
    → (i : ℕ) → i < length table
    → get_or table i none ≢ none
unfolding first_free
first_free-none [] e i lt = absurd (omega arith)
first_free-none (none ∷ table) e i lt = absurd (some_ne 0 e)
first_free-none (some desc ∷ table) e zero lt = some_ne desc
first_free-none (some desc ∷ table) e (suc i) lt = elim (Option-cases (first_free table)) [
  | inl stuck ↦ first_free-none table stuck i (omega arith)
  | inr (k, found) ↦
      let computed : first_free (some desc ∷ table) ≡ some (suc k) = rw found in
      absurd (some_ne (suc k) (sym computed ∙ e))
]

-- An entry of the table under its own index, or null, keeps a table.
pub set-IsTable :
    (table : Table) (i : ℕ) (entry : Option FileDescriptor)
    → ((desc : FileDescriptor) → entry ≡ some desc → desc.index ≡ i + 1)
    → i < length table
    → IsTable table
    → IsTable (set table i entry)
set-IsTable table i entry own small t = record {
  size = omega (arith, length-set table i entry, t.size);
  indexes = λ j desc e. elim (ℕ_discrete i j) [
    | yes same ↦
        let stored : get_or (set table i entry) j none ≡ entry =
          rw (← same) (get_or-set_self table i entry none small) in
        rw (← same) (own desc (sym stored ∙ e))
    | no ne ↦ t.indexes j desc (sym (get_or-set_ne table i j entry none ne) ∙ e)
  ];
}
