-- ===== src/Files/Close.antt =====
-- What `fclose` and `fdelete` leave of the table of descriptors.
use serpae_os.Common.{
  ℕ, ◌+◌, ◌-◌, ◌≡◌, ◌≢◌, refl, false, none, some, List, ltb, set, arith, sym, ◌∙◌, get_or-set_self,
  some_ne, ok, err,
}
use serpae_os.Files.{
  Filesystem, Disk, Files, FileDescriptor, Table, free_descriptor, get_descriptor, fclose, fdelete,
}
use serpae_os.Files.Table.{IsTable, set-IsTable}
use serpae_os.Files.Descriptors.{get_descriptor-some, get_descriptor-set_ne, get_descriptor-entry}

-- `after` is the table with the descriptor closed: it is a table still, and no other number changed.
abbrev pub Closed : ℕ → Table → Table → Type 0
Closed fd before after =
    IsTable after
    × (get_descriptor fd after ≡ none)
    × ((other : ℕ) → other ≢ fd → get_descriptor other after ≡ get_descriptor other before)

free_descriptor-Closed :
    (fd : ℕ) (table : Table) (desc : FileDescriptor)
    → IsTable table
    → get_descriptor fd table ≡ some desc
    → Closed fd table (free_descriptor desc table)
unfolding free_descriptor
free_descriptor-Closed fd table desc t e =
    let (lo, hi, entry) = get_descriptor-some fd table desc e in
    let index : desc.index ≡ fd - 1 + 1 = t.indexes (fd - 1) desc entry in
    let at : desc.index - 1 ≡ fd - 1 = omega arith in
    rw at (
      set-IsTable table (fd - 1) none (λ d absent. absurd (some_ne d (sym absent)))
          (omega (arith, t.size)) t,
      get_descriptor-entry fd (set table (fd - 1) none) lo hi
          ∙ get_or-set_self table (fd - 1) none none (omega (arith, t.size)),
      λ other ne. get_descriptor-set_ne (fd - 1) other table none (omega arith),
    )

module _ {S Stat : Type 0} (driver : ℕ → Filesystem S Stat) (disks : List Disk) (fd : ℕ)
    (f : Files S) (desc : FileDescriptor) (t : IsTable f.descriptors)
    (is_open : get_descriptor fd f.descriptors ≡ some desc) where
  -- If the driver closes the file of an open descriptor, `fclose` answers 0, the descriptor is not
  -- open any more, no other descriptor changes, and the table is well formed.
  pub fclose-Closed :
      ((driver desc.filesystem).close desc.private f.fs).0 ≡ ok 0
      → ((fclose driver disks fd f).0 ≡ ok 0)
        × Closed fd f.descriptors (fclose driver disks fd f).1.descriptors
  unfolding fclose
  fclose-Closed closes =
      rw (fclose, is_open, closes) (refl, free_descriptor-Closed fd f.descriptors desc t is_open)

  -- If the driver cannot close the file of an open descriptor, `fclose` answers its error and keeps
  -- the table.
  pub fclose-err :
      (e : ℕ)
      → ((driver desc.filesystem).close desc.private f.fs).0 ≡ err e
      → ((fclose driver disks fd f).0 ≡ err e)
        × ((fclose driver disks fd f).1.descriptors ≡ f.descriptors)
  unfolding fclose
  fclose-err e fails = rw (fclose, is_open, fails) (refl, refl)

  -- `fdelete` of an open descriptor answers what the driver answers, and closes the descriptor
  -- whether or not the file was deleted; no other descriptor changes.
  pub fdelete-Closed :
      ((fdelete driver disks fd f).0
        ≡ ((driver desc.filesystem).delete desc.disk desc.private f.fs).0)
      × Closed fd f.descriptors (fdelete driver disks fd f).1.descriptors
  unfolding fdelete
  fdelete-Closed =
      let (lo, hi, entry) = get_descriptor-some fd f.descriptors desc is_open in
      let positive : ltb fd 1 ≡ false = ground arith in
      rw (fdelete, positive, is_open) (refl, free_descriptor-Closed fd f.descriptors desc t is_open)
