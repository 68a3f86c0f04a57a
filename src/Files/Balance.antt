-- ===== src/Files/Balance.antt =====
-- Files that are opened and closed again, and the calls that leave the table of descriptors alone.
use serpae_os.Common.{
  ℕ, zero, suc, ◌+◌, ◌-◌, ◌<◌, ◌≡◌, ◌≢◌, inl, inr, refl, ◌||◌, none, some, List, [], ◌∷◌, ltb, ◌==◌,
  set, get_or, arith, ap, sym, ◌∙◌, get_or-set_self, set-set, Option-cases, Bool-cases, Status, ok,
  err, eio, einvarg, ok_ne_err, ok-injective,
}
use serpae_os.Files.{
  Filesystem, Disk, Files, FileDescriptor, max_file_descriptors, get_descriptor, free_descriptor,
  with_descriptor, fopen, fstat, fread, fclose,
}
use serpae_os.Files.Table.{IsTable}
use serpae_os.Files.Open.{fopen-Opened}
use serpae_os.Files.Descriptors.{get_descriptor-entry}

pub set_own {ℓ} : {A : Type ℓ} (d : A) (xs : List A) (i : ℕ) → set xs i (get_or xs i d) ≡ xs
set_own d [] i = refl
set_own d (x ∷ xs) zero = refl
set_own d (x ∷ xs) (suc i) = ap (λ r. x ∷ r) (set_own d xs i)

module _ {S Stat : Type 0} (driver : ℕ → Filesystem S Stat) (disks : List Disk) where
  with_descriptor-descriptors {ℓ} :
      {A : Type ℓ} (fd refused : ℕ) (call : FileDescriptor → Filesystem S Stat → S → Status A × S)
      (f : Files S)
      → (with_descriptor driver disks fd refused call f).1.descriptors ≡ f.descriptors
  unfolding with_descriptor
  with_descriptor-descriptors fd refused call f =
      elim (Option-cases (get_descriptor fd f.descriptors)) [
        | inl e ↦ rw (with_descriptor, e)
        | inr (desc, e) ↦ rw (with_descriptor, e)
      ]

  pub fstat-descriptors :
      (fd : ℕ) (f : Files S) → (fstat driver disks fd f).1.descriptors ≡ f.descriptors
  unfolding fstat
  fstat-descriptors fd f =
      with_descriptor-descriptors fd eio (λ desc fs s. fs.stat desc.disk desc.private s) f

  pub fread-descriptors :
      (fd size : ℕ) (f : Files S) → (fread driver disks fd size f).1.descriptors ≡ f.descriptors
  unfolding fread
  fread-descriptors fd size f = elim (Bool-cases (size == 0 || ltb fd 1)) [
    | inl e ↦ rw (fread, e)
    | inr e ↦
        rw (fread, e)
          (with_descriptor-descriptors fd einvarg
            (λ desc fs s. fs.read desc.disk desc.private size s) f)
  ]

  -- The descriptor 0 is refused.
  pub fclose-zero : (f : Files S) → fclose driver disks 0 f ≡ (err eio, f)
  unfolding fclose get_descriptor
  fclose-zero f = refl

  module _ (filename mode_str : List ℕ) (f : Files S) where
    -- If the drivers close what they have opened, a descriptor that `fopen` answers, but for the last, is
    -- closed again with the table as it was before.
    pub fclose-fopen :
        (fd : ℕ) (g : Files S)
        → IsTable f.descriptors
        → ((filesystem private : ℕ) (s : S) → ((driver filesystem).close private s).0 ≡ ok 0)
        → (fopen driver disks filename mode_str f).0 ≡ ok fd
        → fd ≢ max_file_descriptors
        → g.descriptors ≡ (fopen driver disks filename mode_str f).1.descriptors
        → (fclose driver disks fd g).1.descriptors ≡ f.descriptors
    unfolding fclose free_descriptor
    fclose-fopen fd g t closes success small kept =
        elim (fopen-Opened driver disks filename mode_str f) [
          | inl (e, failed, same) ↦ absurd (ok_ne_err (sym success ∙ failed))
          | inr (i, desc, first, result, table, index, mode) ↦
              let at : i + 1 ≡ fd = ok-injective (sym result ∙ success) in
              let pred : fd - 1 ≡ i = omega (arith, at) in
              let place : desc.index - 1 ≡ i = omega (arith, index, at) in
              let stored : g.descriptors ≡ set f.descriptors i (some desc) = kept ∙ table in
              let is_open : get_descriptor fd g.descriptors ≡ some desc =
                get_descriptor-entry fd g.descriptors (omega (arith, at))
                  (omega (arith, at, small, t.size, first.0))
                ∙ rw (stored, pred) (get_or-set_self f.descriptors i (some desc) none first.0) in
              rw
                (
                  fclose,
                  is_open,
                  closes desc.filesystem desc.private g.fs,
                  free_descriptor,
                  place,
                  stored,
                )
                (set-set f.descriptors i (some desc) none
                  ∙ ap (λ entry. set f.descriptors i entry) (sym first.1)
                  ∙ set_own none f.descriptors i)
        ]

    -- `fopen` that fails, and `fclose` of no descriptor, leave the table.
    pub fclose-fopen_fails :
        (e : ℕ)
        → (fopen driver disks filename mode_str f).0 ≡ err e
        → (fclose driver disks 0 (fopen driver disks filename mode_str f).1).1.descriptors
          ≡ f.descriptors
    unfolding fclose get_descriptor
    fclose-fopen_fails e failed = elim (fopen-Opened driver disks filename mode_str f) [
      | inl (e', failed', same) ↦ same
      | inr (i, desc, first, result, table, index, mode) ↦ absurd (ok_ne_err (sym result ∙ failed))
    ]

    pub fopen_positive : (fd : ℕ) → (fopen driver disks filename mode_str f).0 ≡ ok fd → 0 < fd
    fopen_positive fd success = elim (fopen-Opened driver disks filename mode_str f) [
      | inl (e, failed, same) ↦ absurd (ok_ne_err (sym success ∙ failed))
      | inr (i, desc, first, result, table, index, mode) ↦
          let at : i + 1 ≡ fd = ok-injective (sym result ∙ success) in omega (arith, at)
    ]
