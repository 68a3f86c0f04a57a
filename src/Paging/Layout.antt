-- ===== src/Paging/Layout.antt =====
-- A page directory that maps: where its tables lie, and what reads and writes of entries do.
use serpae_os.Common.{
  ℕ, ◌*◌, ◌/◌, ◌%◌, ◌^◌, ◌<◌, ◌≡◌, ◌≢◌, ◌==◌, ok, if◌then◌else◌, arith, ℕ_discrete, ap,
}
use serpae_os.Common.Bits.{page_mask}
use serpae_os.Paging.{
  Memory, store, page_size, get_indexes, table_of, word, set, indexes_or_zero, get,
}

-- The address of table `i`.
abbrev pub table_at : Memory → ℕ → ℕ → ℕ
table_at m directory i = table_of (m (word directory i))

-- The directory fills a page, each of its entries is a word, and its 1024 tables are pages of
-- their own.
pub record Layout (m : Memory) (directory : ℕ) : Type 0 where
  pub page : directory % page_size ≡ 0
  pub words : (i : ℕ) → i < 1024 → m (word directory i) < 2 ^ 32
  pub outside : (i : ℕ) → i < 1024 → table_at m directory i ≢ directory
  pub distinct :
      (i j : ℕ) → i < 1024 → j < 1024 → i ≢ j → table_at m directory i ≢ table_at m directory j

-- Page `p` of the address space has its entry in word `p % 1024` of table `p / 1024`.
abbrev pub entry_address : Memory → ℕ → ℕ → ℕ
entry_address m directory p = word (table_at m directory (p / 1024)) (p % 1024)

abbrev pub entry : Memory → ℕ → ℕ → ℕ
entry m directory p = m (entry_address m directory p)

table_of-aligned : (x : ℕ) → x < 2 ^ 32 → table_of x % page_size ≡ 0
unfolding table_of
table_of-aligned x h = omega (arith, page_mask x h)

get_indexes_page : (p : ℕ) → p < 2 ^ 20 → get_indexes (p * page_size) ≡ ok (p / 1024, p % 1024)
unfolding get_indexes
get_indexes_page p h = ground arith

pub get-entry :
    (m : Memory) (directory p : ℕ)
    → p < 2 ^ 20
    → get m directory (p * page_size) ≡ entry m directory p
unfolding get
get-entry m directory p h = rw (get_indexes_page p h, indexes_or_zero)

pub set-store :
    (m : Memory) (directory p val : ℕ)
    → p < 2 ^ 20
    → set m directory (p * page_size) val ≡ ok (store m (entry_address m directory p) val)
unfolding set
set-store m directory p val h = rw (get_indexes_page p h)

module _ {m : Memory} {directory : ℕ} (l : Layout m directory) where
  -- No entry of a table lies in the directory.
  entry-ne-word : (p i : ℕ) → p < 2 ^ 20 → i < 1024 → word directory i ≢ entry_address m directory p
  entry-ne-word p i hp hi = omega (
    arith,
    l.page,
    l.outside (p / 1024) (omega arith),
    table_of-aligned (m (word directory (p / 1024))) (l.words (p / 1024) (omega arith)),
  )

  -- Different pages have different entries.
  entry_address_inj :
      (p q : ℕ)
      → p < 2 ^ 20
      → q < 2 ^ 20
      → p ≢ q
      → entry_address m directory p ≢ entry_address m directory q
  entry_address_inj p q hp hq ne = elim (ℕ_discrete (p / 1024) (q / 1024)) [
    | yes same ↦ λ e. ne (omega (arith, ap (table_at m directory) same))
    | no other ↦ omega (
      arith,
      l.distinct (p / 1024) (q / 1024) (omega arith) (omega arith) other,
      table_of-aligned (m (word directory (p / 1024))) (l.words (p / 1024) (omega arith)),
      table_of-aligned (m (word directory (q / 1024))) (l.words (q / 1024) (omega arith)),
    )
  ]

  store-word :
      (p val i : ℕ)
      → p < 2 ^ 20
      → i < 1024
      → store m (entry_address m directory p) val (word directory i) ≡ m (word directory i)
  unfolding store
  store-word p val i hp hi = ground (arith, entry-ne-word p i hp hi)

  -- A write to the entry of page `p` changes the entry of page `p` alone.
  pub entry-store :
      (p q val : ℕ)
      → p < 2 ^ 20
      → q < 2 ^ 20
      → entry (store m (entry_address m directory p) val) directory q
        ≡ (if q == p then val else entry m directory q)
  unfolding store
  entry-store p q val hp hq =
      rw (store-word p val (q / 1024) hp (omega arith))
        (ground (arith, entry_address_inj q p hq hp))

  -- It keeps the layout.
  pub Layout-store :
      (p val : ℕ) → p < 2 ^ 20 → Layout (store m (entry_address m directory p) val) directory
  Layout-store p val hp = record {
    page = l.page;
    words = λ i hi. rw (store-word p val i hp hi) (l.words i hi);
    outside = λ i hi. rw (store-word p val i hp hi) (l.outside i hi);
    distinct = λ i j hi hj ne.
        rw (store-word p val i hp hi, store-word p val j hp hj) (l.distinct i j hi hj ne);
  }
