-- ===== src/Fat16/Lookup.antt =====
-- The entry for a path, fat16_find_item_in_directory, fat16_get_directory_entry and
-- fat16_get_parent_dir of src/fs/fat/fat16.c.
use serpae_os.Common.{ℕ, ◌≡◌, refl, none, some, List, [], ◌∷◌, ◌++◌, get_elem?, ap}
use serpae_os.Streamer.{Controller, Disk}
use serpae_os.Fat16.{Volume}
use serpae_os.Fat16.Directory.{
  Directory, FatItem, file, directory, freed, overrun, find_entry_in_directory,
  new_fat_item_for_directory_item,
}

-- What a lookup leads to: an item, the null pointer, a read through the null pointer or through a
-- freed one or a memset of a negative size, or a count of items that has not ended.
pub data Lookup : Type 0 where
  found : FatItem → Lookup
  missing : Lookup
  bad_access : Lookup
  running : Lookup

module _ {S : Type 0} (ata : Controller S) (disk : Disk) (v : Volume) (fuel : ℕ) (s : S) where
  unfoldable pub find_item_in_directory : Directory → List ℕ → Lookup
  find_item_in_directory dir name = elim (find_entry_in_directory dir.items dir.total name) [
    | none ↦ missing
    | some i ↦ elim (get_elem? dir.items i) [
      | none ↦ missing
      | some item ↦ elim (new_fat_item_for_directory_item ata disk v fuel item s) [
        | none ↦ running
        | some overrun ↦ bad_access
        | some f_item ↦ found f_item
      ]
    ]
  ]

  -- The loop over the parts behind the first. The type of the null pointer is read, if a part before
  -- the last is missing.
  unfoldable pub walk : Lookup → List (List ℕ) → Lookup
  walk current [] = current
  walk (found (file item)) (part ∷ parts) = missing
  walk (found (directory dir)) (part ∷ parts) = walk (find_item_in_directory dir part) parts
  walk (found freed) (part ∷ parts) = bad_access
  walk (found overrun) (part ∷ parts) = bad_access
  walk missing (part ∷ parts) = bad_access
  walk bad_access (part ∷ parts) = bad_access
  walk running (part ∷ parts) = running

  -- `root` is the root directory of the volume, as it was read when the disk was found.
  unfoldable pub get_directory_entry : Directory → List ℕ → List (List ℕ) → Lookup
  get_directory_entry root part parts = elim (find_item_in_directory root part) [
    | missing ↦ missing
    | found item ↦ walk (found item) parts
    | bad_access ↦ bad_access
    | running ↦ running
  ]

  -- All parts but the last.
  abbrev pub but_last : List ℕ → List (List ℕ) → List (List ℕ)
  but_last part [] = []
  but_last part (next ∷ parts) = part ∷ but_last next parts

  unfoldable pub get_parent_dir : Directory → List ℕ → List (List ℕ) → Lookup
  get_parent_dir root part parts = elim (but_last part parts) [
    | [] ↦ found (directory root)
    | first ∷ rest ↦ get_directory_entry root first rest
  ]

  -- A missing directory in a path of three parts or more is read through the null pointer: the second
  -- part is not in the directory that the first names, and there is a third.
  pub get_directory_entry-bad_access :
      (root dir : Directory) (first second third : List ℕ) (parts : List (List ℕ))
      → find_item_in_directory root first ≡ found (directory dir)
      → find_item_in_directory dir second ≡ missing
      → get_directory_entry root first (second ∷ third ∷ parts) ≡ bad_access
  unfolding get_directory_entry walk
  get_directory_entry-bad_access root dir first second third parts one two =
      rw (get_directory_entry, one, walk, two)

  -- A path of directories that are all there is followed to its last part.
  abbrev pub Leads : Directory → List (List ℕ) → Directory → Type 0
  Leads dir [] last = dir ≡ last
  Leads dir (part ∷ parts) last =
      (next : Directory) × (find_item_in_directory dir part ≡ found (directory next))
      × Leads next parts last

  walk-Leads :
      (dirs : List (List ℕ)) (dir last : Directory) (part : List ℕ)
      → Leads dir dirs last
      → walk (found (directory dir)) (dirs ++ part ∷ []) ≡ find_item_in_directory last part
  unfolding walk
  walk-Leads [] dir last part h = rw h
  walk-Leads (p ∷ dirs) dir last part (next, e, h) = rw (walk, e) (walk-Leads dirs next last part h)

  walk-last :
      (dirs : List (List ℕ)) (dir last : Directory)
      → Leads dir dirs last
      → walk (found (directory dir)) dirs ≡ found (directory last)
  unfolding walk
  walk-last [] dir last h = rw h
  walk-last (p ∷ dirs) dir last (next, e, h) = rw (walk, e) (walk-last dirs next last h)

  but_last-snoc :
      (dirs : List (List ℕ)) (first part : List ℕ)
      → but_last first (dirs ++ part ∷ []) ≡ first ∷ dirs
  but_last-snoc [] first part = refl
  but_last-snoc (d ∷ dirs) first part = ap (λ r. first ∷ r) (but_last-snoc dirs d part)

  -- If the first parts of a path lead from the root through directories to a last one, the entry for
  -- the path is that of its last part in the last directory, and the parent directory is the last one.
  pub get_directory_entry-Leads :
      (root last : Directory) (first part : List ℕ) (dirs : List (List ℕ))
      → Leads root (first ∷ dirs) last
      → (get_directory_entry root first (dirs ++ part ∷ []) ≡ find_item_in_directory last part)
        × (get_parent_dir root first (dirs ++ part ∷ []) ≡ found (directory last))
  unfolding get_directory_entry get_parent_dir
  get_directory_entry-Leads root last first part dirs (next, e, h) = (
    rw (get_directory_entry, e) (walk-Leads dirs next last part h),
    rw (get_parent_dir, but_last-snoc dirs first part, get_directory_entry, e)
        (walk-last dirs next last h),
  )
