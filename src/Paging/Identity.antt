-- ===== src/Paging/Identity.antt =====
-- `paging_new_4gb` maps every page of the address space to the frame of the same number.
use serpae_os.Common.{
  ℕ, zero, suc, ◌+◌, ◌-◌, ◌*◌, ◌/◌, ◌%◌, ◌^◌, bit_or, ◌≤◌, ◌<◌, ◌≡◌, ◌≢◌, refl, arith, ℕ_discrete,
  ◌∙◌,
}
use serpae_os.Common.Bits.{bit_or_low, page_mask}
use serpae_os.Paging.{
  Memory, store, page_size, is_writeable, table_of, word, get, get_physical_address,
  align_to_lower_page, fill_table, fill_directory, new_4gb,
}
use serpae_os.Paging.Fill.{fill_table-outside, fill_table-inside}
use serpae_os.Paging.Layout.{Layout, table_at, get-entry}
use serpae_os.Paging.Map.{frame_entry}

-- What `kzalloc` returns for the directory and the tables: different pages of the address space.
pub record Separate (directory : ℕ) (table : ℕ → ℕ) : Type 0 where
  pub page : directory % page_size ≡ 0
  pub pages : (i : ℕ) → i < 1024 → table i % page_size ≡ 0
  pub words : (i : ℕ) → i < 1024 → table i < 2 ^ 32
  pub outside : (i : ℕ) → i < 1024 → table i ≢ directory
  pub distinct : (i j : ℕ) → i < 1024 → j < 1024 → i ≢ j → table i ≢ table j

-- The entry of the directory for table `i`.
abbrev directory_entry : (ℕ → ℕ) → ℕ → ℕ → ℕ
directory_entry table flags i = bit_or (bit_or (table i) flags) is_writeable

-- Word `q` is neither in the directory from entry `i` on, nor in the tables from `i` on.
abbrev Untouched : ℕ → (ℕ → ℕ) → ℕ → ℕ → Type 0
Untouched directory table i q =
    (k : ℕ)
    → i ≤ k
    → k < 1024
    → (q ≢ word directory k) × ((b : ℕ) → b < 1024 → q ≢ word (table k) b)

entry_of_page :
    (q flags : ℕ)
    → q < 2 ^ 20
    → flags < page_size
    → (bit_or (bit_or (q * page_size) flags) is_writeable < 2 ^ 32)
      × (table_of (bit_or (bit_or (q * page_size) flags) is_writeable) ≡ q * page_size)
unfolding table_of
entry_of_page q flags hq small =
    let two = bit_or_low 12 q flags is_writeable small (omega arith) in
    let e = bit_or (bit_or (q * page_size) flags) is_writeable in
    let value : e ≡ q * page_size + bit_or flags is_writeable =
      rw (frame_entry q flags small) two.0 in
    let word : e < 2 ^ 32 = omega (arith, two.1) in (word, omega (arith, page_mask e word, two.1))

module _ (directory : ℕ) (table : ℕ → ℕ) (flags : ℕ) (sep : Separate directory table) where
  fill_directory-Untouched :
      (rounds i offset q : ℕ) (m : Memory)
      → i + rounds ≡ 1024
      → Untouched directory table i q
      → fill_directory m directory table flags rounds i offset q ≡ m q
  unfolding fill_directory store
  fill_directory-Untouched zero i offset q m at away = refl
  fill_directory-Untouched (suc rounds) i offset q m at away =
      let filled = fill_table m (table i) offset flags 1024 0 in
      let here = away i (omega arith) (omega arith) in
      ground (
        arith,
        fill_directory-Untouched rounds (i + 1) ((offset + 1024 * page_size) % 2 ^ 32) q
            (store filled (word directory i) (directory_entry table flags i)) (omega arith)
            (λ k p r. away k (omega arith) r),
        fill_table-outside (table i) offset flags 1024 0 q m (λ j p r. here.1 j (omega arith)),
        here.0,
      )

  word-Untouched : (i j : ℕ) → j < i → j < 1024 → Untouched directory table i (word directory j)
  word-Untouched i j lt hj k p r =
      (omega arith, λ b hb. omega (arith, sep.page, sep.pages k r, sep.outside k r))

  table-Untouched :
      (i j b : ℕ) → j < i → j < 1024 → b < 1024 → Untouched directory table i (word (table j) b)
  table-Untouched i j b lt hj hb k p r = (
    omega (arith, sep.page, sep.pages j hj, sep.outside j hj),
    λ c hc. omega (arith, sep.pages j hj, sep.pages k r, sep.distinct j k hj r (omega arith)),
  )

  fill_directory-entries :
      (rounds i offset k : ℕ) (m : Memory)
      → i + rounds ≡ 1024
      → offset ≡ (i * 4194304) % 2 ^ 32
      → i ≤ k
      → k < 1024
      → (fill_directory m directory table flags rounds i offset (word directory k)
          ≡ directory_entry table flags k)
  unfolding fill_directory store
  fill_directory-entries zero i offset k m at off le lt = absurd (omega arith)
  fill_directory-entries (suc rounds) i offset k m at off le lt =
      let m' =
        store (fill_table m (table i) offset flags 1024 0) (word directory i)
          (directory_entry table flags i) in
      elim (ℕ_discrete k i) [
        | yes e ↦ rw e (
            fill_directory-Untouched rounds (i + 1) ((offset + 1024 * page_size) % 2 ^ 32)
              (word directory i) m' (omega arith)
              (word-Untouched (i + 1) i (omega arith) (omega arith))
            ∙ ground arith)
        | no ne ↦
            fill_directory-entries rounds (i + 1) ((offset + 1024 * page_size) % 2 ^ 32) k m'
              (omega arith) (omega arith) (omega arith) lt
      ]

  fill_directory-tables :
      (rounds i offset k b : ℕ) (m : Memory)
      → i + rounds ≡ 1024
      → offset ≡ (i * 4194304) % 2 ^ 32
      → i ≤ k
      → k < 1024
      → b < 1024
      → fill_directory m directory table flags rounds i offset (word (table k) b)
        ≡ bit_or ((k * 1024 + b) * page_size) flags
  unfolding fill_directory store
  fill_directory-tables zero i offset k b m at off le lt hb = absurd (omega arith)
  fill_directory-tables (suc rounds) i offset k b m at off le lt hb =
      let filled = fill_table m (table i) offset flags 1024 0 in
      let m' = store filled (word directory i) (directory_entry table flags i) in
      let place : (offset + b * page_size) % 2 ^ 32 ≡ (i * 1024 + b) * page_size = omega arith in
      elim (ℕ_discrete k i) [
        | yes e ↦ rw e (
            fill_directory-Untouched rounds (i + 1) ((offset + 1024 * page_size) % 2 ^ 32)
              (word (table i) b) m' (omega arith)
              (table-Untouched (i + 1) i b (omega arith) (omega arith) hb)
            ∙ ground (
              arith,
              place,
              fill_table-inside (table i) offset flags 1024 0 b m (omega arith) (omega arith),
              sep.page,
              sep.pages i (omega arith),
              sep.outside i (omega arith),
            ))
        | no ne ↦
            fill_directory-tables rounds (i + 1) ((offset + 1024 * page_size) % 2 ^ 32) k b m'
              (omega arith) (omega arith) (omega arith) lt hb
      ]

  -- The directory entry of a table points at it, whatever the flags.
  directory_entry-table :
      (i : ℕ)
      → i < 1024
      → flags < page_size
      → (directory_entry table flags i < 2 ^ 32)
        × (table_of (directory_entry table flags i) ≡ table i)
  directory_entry-table i hi small =
      let q = table i / page_size in
      let page : q * page_size ≡ table i = omega (arith, sep.pages i hi) in
      rw page at (entry_of_page q flags (omega (arith, sep.words i hi)) small)

  new_4gb-directory :
      (m : Memory) (i : ℕ)
      → i < 1024
      → new_4gb m directory table flags (word directory i) ≡ directory_entry table flags i
  unfolding new_4gb
  new_4gb-directory m i hi =
      fill_directory-entries 1024 0 0 i m (omega arith) (omega arith) (omega arith) hi

  new_4gb-tables :
      (m : Memory) (i b : ℕ)
      → i < 1024
      → b < 1024
      → new_4gb m directory table flags (word (table i) b)
        ≡ bit_or ((i * 1024 + b) * page_size) flags
  unfolding new_4gb
  new_4gb-tables m i b hi hb =
      fill_directory-tables 1024 0 0 i b m (omega arith) (omega arith) (omega arith) hi hb

  new_4gb-table_at :
      (m : Memory) (i : ℕ)
      → i < 1024
      → flags < page_size
      → table_at (new_4gb m directory table flags) directory i ≡ table i
  new_4gb-table_at m i hi small = rw (new_4gb-directory m i hi) (directory_entry-table i hi small).1

  -- The new directory has the layout that the other functions need.
  pub new_4gb-Layout :
      (m : Memory) → flags < page_size → Layout (new_4gb m directory table flags) directory
  new_4gb-Layout m small = record {
    page = sep.page;
    words = λ i hi. rw (new_4gb-directory m i hi) (directory_entry-table i hi small).0;
    outside = λ i hi. rw (new_4gb-table_at m i hi small) (sep.outside i hi);
    distinct = λ i j hi hj ne.
        rw (new_4gb-table_at m i hi small, new_4gb-table_at m j hj small)
          (sep.distinct i j hi hj ne);
  }

  -- The entry of page `p` is frame `p` with the flags.
  pub new_4gb-identity :
      (m : Memory) (p : ℕ)
      → flags < page_size
      → p < 2 ^ 20
      → get (new_4gb m directory table flags) directory (p * page_size) ≡ p * page_size + flags
  new_4gb-identity m p small hp =
      let at : table_at (new_4gb m directory table flags) directory (p / 1024) ≡ table (p / 1024) =
        new_4gb-table_at m (p / 1024) (omega arith) small in
      let split : p / 1024 * 1024 + p % 1024 ≡ p = omega arith in
      rw
        (
          get-entry _ directory p hp,
          at,
          new_4gb-tables m (p / 1024) (p % 1024) (omega arith) (omega arith),
          split,
        )
        (frame_entry p flags small)

  -- Every address is translated to itself.
  pub new_4gb-get_physical_address :
      (m : Memory) (virt : ℕ)
      → flags < page_size
      → virt < 2 ^ 32
      → get_physical_address (new_4gb m directory table flags) directory virt ≡ virt
  unfolding get_physical_address align_to_lower_page table_of
  new_4gb-get_physical_address m virt small hv =
      let lower : virt - virt % page_size ≡ virt / page_size * page_size = omega arith in
      let e = virt / page_size * page_size + flags in
      let word : e < 2 ^ 32 = omega arith in
      rw (lower, new_4gb-identity m (virt / page_size) small (omega arith))
        (omega (arith, page_mask e word))
