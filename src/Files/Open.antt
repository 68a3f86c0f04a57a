-- ===== src/Files/Open.antt =====
-- What `fopen` and `fclose` do to the table of descriptors.
use serpae_os.Common.{
  ℕ, ◌+◌, ◌-◌, ◌≡◌, ◌⊎◌, inl, inr, refl, some, List, ◌∷◌, ◌==◌, set, arith, set-set, List-cases,
  some_cancel, Option-cases, Bool-cases, Status, ok, err, Status-cases, eio, einvarg, enomem,
}
use serpae_os.PathParser.{parse}
use serpae_os.Files.{
  Filesystem, Disk, Files, FileDescriptor, first_free, new_descriptor, get_mode_by_string, disk_get,
  fail, open_with, fopen,
}
use serpae_os.Files.Table.{IsTable, IsFirst, first_free-some, set-IsTable}

place : (i : ℕ) → i + 1 - 1 ≡ i
place i = omega arith

module _ {S Stat : Type 0} (driver : ℕ → Filesystem S Stat) (disks : List Disk) where
  -- An error, and the table as it was; or a descriptor in the first null entry, which stands for the
  -- file with the given mode.
  abbrev pub Opened : ℕ → Files S → Status ℕ × Files S → Type 0
  Opened mode f result =
      ((e : ℕ) × (result.0 ≡ err e) × (result.1.descriptors ≡ f.descriptors))
      ⊎ ((i : ℕ) × (desc : FileDescriptor) × IsFirst f.descriptors i
          × (result.0 ≡ ok (i + 1))
          × (result.1.descriptors ≡ set f.descriptors i (some desc))
          × (desc.index ≡ i + 1)
          × (desc.mode ≡ mode))

  fail-Opened :
      (mode e private : ℕ) (f g : Files S)
      → g.descriptors ≡ f.descriptors
      → Opened mode f (fail driver disks e private g)
  unfolding fail
  fail-Opened mode e private f g same = inl (e, refl, same)

  open_with-Opened :
      (filesystem disk : ℕ) (parts : List (List ℕ)) (mode : ℕ) (f : Files S)
      → Opened mode f (open_with driver disks filesystem disk parts mode f)
  unfolding open_with new_descriptor fail
  open_with-Opened filesystem disk parts mode f =
      elim (Status-cases ((driver filesystem).open_file disk parts mode f.fs).0) [
        | inr (e, failed) ↦ rw (open_with, failed) (inl (e, refl, refl))
        | inl (private, success) ↦ elim (Option-cases (first_free f.descriptors)) [
          | inl full ↦ rw (open_with, success, full) (inl (enomem, refl, refl))
          | inr (i, found) ↦
              let filled : FileDescriptor = record {
                index = i + 1;
                filesystem = filesystem;
                private = private;
                disk = disk;
                mode = mode;
              } in
              rw (open_with, success, found)
                (inr (
                  i,
                  filled,
                  first_free-some f.descriptors i found,
                  refl,
                  rw (new_descriptor, found, place i) (set-set f.descriptors i _ (some filled)),
                  refl,
                  refl,
                ))
        ]
      ]

  pub fopen-Opened :
      (filename mode_str : List ℕ) (f : Files S)
      → Opened (get_mode_by_string mode_str) f (fopen driver disks filename mode_str f)
  unfolding fopen
  fopen-Opened filename mode_str f =
      let mode = get_mode_by_string mode_str in
      let failed : (e : ℕ) → Opened mode f (fail driver disks e 0 f) =
        λ e. fail-Opened mode e 0 f f refl in
      elim (Option-cases (parse filename)) [
        | inl bad ↦ rw (fopen, bad) (failed einvarg)
        | inr (root, parsed) ↦ elim (List-cases root.parts) [
          | inl no_parts ↦ rw (fopen, parsed, no_parts) (failed einvarg)
          | inr (part, parts, some_parts) ↦ elim (Option-cases (disk_get disks root.drive_no)) [
            | inl no_disk ↦ rw (fopen, parsed, some_parts, no_disk) (failed eio)
            | inr (disk, found) ↦ elim (Bool-cases (disk.filesystem == 0)) [
              | inl null ↦ rw (fopen, parsed, some_parts, found, null) (failed eio)
              | inr driven ↦ elim (Bool-cases (mode == 0)) [
                | inl invalid ↦
                    rw (fopen, parsed, some_parts, found, driven, invalid) (failed einvarg)
                | inr valid ↦
                    rw (fopen, parsed, some_parts, found, driven, valid)
                      (open_with-Opened disk.filesystem root.drive_no (part ∷ parts) mode f)
              ]
            ]
          ]
        ]
      ]

  -- `fopen` keeps the table.
  pub fopen-IsTable :
      (filename mode_str : List ℕ) (f : Files S)
      → IsTable f.descriptors
      → IsTable (fopen driver disks filename mode_str f).1.descriptors
  fopen-IsTable filename mode_str f t = elim (fopen-Opened filename mode_str f) [
    | inl (e, failed, same) ↦ rw same t
    | inr (i, desc, first, opened, table, index, mode) ↦
        rw table
          (set-IsTable f.descriptors i (some desc) (λ d e. rw (← some_cancel e) index) first.0 t)
  ]
