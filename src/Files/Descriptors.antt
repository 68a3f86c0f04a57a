-- ===== src/Files/Descriptors.antt =====
-- Which descriptors are open after `fopen`, `fclose` and `fdelete`.
use serpae_os.Common.{
  ℕ, ◌+◌, ◌-◌, ◌<◌, ◌≡◌, ◌≢◌, ◌⊎◌, inl, inr, refl, Option, none, some, List, set, get_or, arith,
  sym, ◌∙◌, get_or-set_self, get_or-set_ne, some_ne, range_cases, ok, err, eio, einvarg,
  ok-injective, ok_ne_err,
}
use serpae_os.Files.{
  Filesystem, Disk, Files, FileDescriptor, Table, max_file_descriptors, get_descriptor,
  get_mode_by_string, fopen, fclose, fdelete,
}
use serpae_os.Files.Open.{fopen-Opened}

-- A number is out of range, or that of an entry.
get_descriptor_cases :
    (fd : ℕ)
    → ((table : Table) → get_descriptor fd table ≡ none)
      ⊎ ((0 < fd)
          × (fd < max_file_descriptors)
          × ((table : Table) → get_descriptor fd table ≡ get_or table (fd - 1) none))
unfolding get_descriptor
get_descriptor_cases fd = elim (range_cases 1 max_file_descriptors fd) [
  | inl (lo, hi) ↦ inr (lo, hi, λ table. ground arith)
  | inr (inl low) ↦ inl (λ table. ground arith)
  | inr (inr high) ↦ inl (λ table. ground arith)
]

pub get_descriptor-entry :
    (fd : ℕ) (table : Table)
    → 0 < fd
    → fd < max_file_descriptors
    → get_descriptor fd table ≡ get_or table (fd - 1) none
unfolding get_descriptor
get_descriptor-entry fd table lo hi = ground arith

get_descriptor-last : (table : Table) → get_descriptor max_file_descriptors table ≡ none
unfolding get_descriptor
get_descriptor-last table = refl

-- An entry that is written does not change the others.
pub get_descriptor-set_ne :
    (i fd : ℕ) (table : Table) (entry : Option FileDescriptor)
    → fd ≢ i + 1
    → get_descriptor fd (set table i entry) ≡ get_descriptor fd table
get_descriptor-set_ne i fd table entry ne = elim (get_descriptor_cases fd) [
  | inl out ↦ rw (out table, out (set table i entry))
  | inr (lo, hi, entry_of) ↦
      rw (entry_of table, entry_of (set table i entry))
        (get_or-set_ne table i (fd - 1) entry none (omega arith))
]

pub get_descriptor-some :
    (fd : ℕ) (table : Table) (desc : FileDescriptor)
    → get_descriptor fd table ≡ some desc
    → (0 < fd) × (fd < max_file_descriptors) × (get_or table (fd - 1) none ≡ some desc)
get_descriptor-some fd table desc e = elim (get_descriptor_cases fd) [
  | inl out ↦ absurd (some_ne desc (sym e ∙ out table))
  | inr (lo, hi, entry_of) ↦ (lo, hi, sym (entry_of table) ∙ e)
]

module _ {S Stat : Type 0} (driver : ℕ → Filesystem S Stat) (disks : List Disk) (f : Files S) where
  module _ (filename mode_str : List ℕ) where
    -- If `fopen` answers a descriptor below 512, it was not open before, and is open after with the
    -- mode that the string tells. No other descriptor changes.
    pub fopen-get_descriptor :
        (fd : ℕ)
        → (fopen driver disks filename mode_str f).0 ≡ ok fd
        → fd < max_file_descriptors
        → (get_descriptor fd f.descriptors ≡ none)
          × ((desc : FileDescriptor) × (get_descriptor fd
                  (fopen driver disks filename mode_str f).1.descriptors
                ≡ some desc)
              × (desc.mode ≡ get_mode_by_string mode_str))
          × ((other : ℕ)
              → other ≢ fd
              → get_descriptor other (fopen driver disks filename mode_str f).1.descriptors
                ≡ get_descriptor other f.descriptors)
    fopen-get_descriptor fd success small = elim (fopen-Opened driver disks filename mode_str f) [
      | inl (e, failed, same) ↦ absurd (ok_ne_err (sym success ∙ failed))
      | inr (i, desc, first, result, table, index, mode) ↦
          let at : i + 1 ≡ fd = ok-injective (sym result ∙ success) in
          let pred : fd - 1 ≡ i = omega arith in
          (
            rw (get_descriptor-entry fd f.descriptors (omega arith) small, pred) first.1,
            (
              desc,
              rw
                  (
                    table,
                    get_descriptor-entry fd (set f.descriptors i (some desc)) (omega arith) small,
                    pred,
                  )
                  (get_or-set_self f.descriptors i (some desc) none first.0),
              mode,
            ),
            λ other ne.
                rw table (get_descriptor-set_ne i other f.descriptors (some desc) (omega arith)),
          )
    ]

    -- If `fopen` answers the descriptor 512, the last entry of the table is taken, and neither `fclose`
    -- nor `fdelete` of the descriptor frees it: both refuse the number and change nothing.
    pub fclose-fopen_last :
        (fopen driver disks filename mode_str f).0 ≡ ok max_file_descriptors
        → let g = (fopen driver disks filename mode_str f).1 in
          (get_or g.descriptors 511 none ≢ none)
          × (fclose driver disks max_file_descriptors g ≡ (err eio, g))
          × (fdelete driver disks max_file_descriptors g ≡ (err einvarg, g))
    unfolding fclose fdelete
    fclose-fopen_last success = elim (fopen-Opened driver disks filename mode_str f) [
      | inl (e, failed, same) ↦ absurd (ok_ne_err (sym success ∙ failed))
      | inr (i, desc, first, result, table, index, mode) ↦
          let at : i + 1 ≡ max_file_descriptors = ok-injective (sym result ∙ success) in
          let last : 511 ≡ i = omega arith in
          let refused =
            get_descriptor-last (fopen driver disks filename mode_str f).1.descriptors in
          (
            rw (table, last, get_or-set_self f.descriptors i (some desc) none first.0)
                (some_ne desc),
            rw (fclose, refused),
            rw (fdelete, refused),
          )
    ]
