-- ===== src/Process/Iob.antt =====
-- The files of a process, process_fopen, process_fclose and process_terminate_files of
-- src/task/process.c. A FILE pointer is the number of an entry of `iob`.
use serpae_os.Common.{
  ℕ, zero, suc, ◌+◌, ◌<◌, ◌≡◌, ◌≢◌, inl, inr, refl, Bool, true, false, Option, none, some, List, [],
  ◌∷◌, ◌==◌, if◌then◌else◌, length, set, get_or, arith, ap, sym, ◌∙◌, get_or-set_self, set-set,
  some_cancel, some_ne, Option-cases, Bool-cases, Status, ok, err,
}
use serpae_os.Common.Int.{ℤ, pos, negsuc}
use serpae_os.Files.{Filesystem, Disk, Files, max_file_descriptors, fopen, fclose}
use serpae_os.Files.Table.{IsTable}
use serpae_os.Files.Balance.{set_own, fclose-zero, fclose-fopen, fopen_positive}

abbrev pub nfile : ℕ
nfile = 20

-- What `fopen` answers, as an `int`.
abbrev pub int_of : Status ℕ → ℤ
int_of (ok n) = pos n
int_of (err zero) = pos 0
int_of (err (suc e)) = negsuc e

abbrev pub is_zero : ℤ → Bool
is_zero (pos n) = n == 0
is_zero (negsuc n) = false

-- A descriptor that is negative is refused as 0 is.
abbrev pub descriptor_of : ℤ → ℕ
descriptor_of (pos n) = n
descriptor_of (negsuc n) = 0

-- The first entry that is 0.
unfoldable pub free_entry : List ℤ → Option ℕ
free_entry [] = none
free_entry (fd ∷ iob) =
    let rest = free_entry iob in
    if is_zero fd then some 0 else elim rest [ none ↦ none | some i ↦ some (suc i) ]

module _ {S Stat : Type 0} (driver : ℕ → Filesystem S Stat) (disks : List Disk) where
  -- `none` is the null pointer.
  unfoldable pub process_fopen : List ℕ → List ℕ → List ℤ → Files S → Option ℕ × List ℤ × Files S
  process_fopen filename mode iob f = elim (free_entry iob) [
    | none ↦ (none, iob, f)
    | some i ↦
        let (opened, f') = fopen driver disks filename mode f in
        let fd = int_of opened in if is_zero fd then (none, iob, f') else (some i, set iob i fd, f')
  ]

  unfoldable pub process_fclose : ℕ → List ℤ → Files S → List ℤ × Files S
  process_fclose i iob f =
      let (res, f') = fclose driver disks (descriptor_of (get_or iob i (pos 0))) f in
      (set iob i (pos 0), f')

  -- The entries from `i` on, with `rounds` left.
  unfoldable pub terminate_loop : ℕ → ℕ → List ℤ → Files S → List ℤ × Files S
  terminate_loop zero i iob f = (iob, f)
  terminate_loop (suc rounds) i iob f =
      let (iob', f') =
        if is_zero (get_or iob i (pos 0)) then process_fclose i iob f else (iob, f) in
      terminate_loop rounds (i + 1) iob' f'

  unfoldable pub process_terminate_files : List ℤ → Files S → List ℤ × Files S
  process_terminate_files iob f = terminate_loop nfile 0 iob f

  zero_entry : (z : ℤ) → is_zero z ≡ true → z ≡ pos 0
  zero_entry (pos n) e = ap pos (ground (arith, e))
  zero_entry (negsuc n) e = absurd (ground (arith, e))

  process_fclose-zero :
      (i : ℕ) (iob : List ℤ) (f : Files S)
      → is_zero (get_or iob i (pos 0)) ≡ true
      → process_fclose i iob f ≡ (iob, f)
  unfolding process_fclose
  process_fclose-zero i iob f e =
      let at = zero_entry (get_or iob i (pos 0)) e in
      let own : set iob i (pos 0) ≡ iob = ap (λ z. set iob i z) (sym at) ∙ set_own (pos 0) iob i in
      rw (process_fclose, at, own, fclose-zero driver disks f)

  terminate_loop-same :
      (rounds i : ℕ) (iob : List ℤ) (f : Files S) → terminate_loop rounds i iob f ≡ (iob, f)
  unfolding terminate_loop
  terminate_loop-same zero i iob f = refl
  terminate_loop-same (suc rounds) i iob f = elim (Bool-cases (is_zero (get_or iob i (pos 0)))) [
    | inl e ↦
        rw (terminate_loop, e, process_fclose-zero i iob f e)
          (terminate_loop-same rounds (i + 1) iob f)
    | inr e ↦ rw (terminate_loop, e) (terminate_loop-same rounds (i + 1) iob f)
  ]

  -- When a process ends, process_terminate_files leaves all its entries and all open files as they are:
  -- it closes none of the files that the process has opened.
  pub process_terminate_files-same :
      (iob : List ℤ) (f : Files S) → process_terminate_files iob f ≡ (iob, f)
  unfolding process_terminate_files
  process_terminate_files-same iob f = terminate_loop-same nfile 0 iob f

  free_entry-zero :
      (iob : List ℤ) (i : ℕ)
      → free_entry iob ≡ some i
      → (i < length iob) × (get_or iob i (pos 0) ≡ pos 0)
  unfolding free_entry
  free_entry-zero [] i e = absurd (some_ne i (sym e))
  free_entry-zero (fd ∷ iob) i e = elim (Bool-cases (is_zero fd)) [
    | inl here ↦
        let found : free_entry (fd ∷ iob) ≡ some 0 = rw (free_entry, here) in
        let at : 0 ≡ i = some_cancel (sym found ∙ e) in rw (← at) (omega arith, zero_entry fd here)
    | inr later ↦ elim (Option-cases (free_entry iob)) [
      | inl full ↦
          let none_found : free_entry (fd ∷ iob) ≡ none = rw (free_entry, later, full) in
          absurd (some_ne i (sym e ∙ none_found))
      | inr (j, rest) ↦
          let found : free_entry (fd ∷ iob) ≡ some (suc j) = rw (free_entry, later, rest) in
          let at : suc j ≡ i = some_cancel (sym found ∙ e) in
          let (low, zero_there) = free_entry-zero iob j rest in
          rw (← at) (omega (arith, low), zero_there)
    ]
  ]

  module _ (filename mode : List ℕ) (iob : List ℤ) (f : Files S) where
    -- If the drivers close what they have opened, a process with a free entry that opens a file, with any
    -- descriptor but the last, gets the entry, and process_fclose of it gives back the entries of the
    -- process and the table of descriptors as they were.
    pub process_fclose-process_fopen :
        (fd i : ℕ)
        → IsTable f.descriptors
        → ((filesystem private : ℕ) (s : S) → ((driver filesystem).close private s).0 ≡ ok 0)
        → (fopen driver disks filename mode f).0 ≡ ok fd
        → fd ≢ max_file_descriptors
        → free_entry iob ≡ some i
        → let (fp, iob', f') = process_fopen filename mode iob f in
          (fp ≡ some i)
          × (get_or iob' i (pos 0) ≡ pos fd)
          × ((process_fclose i iob' f').0 ≡ iob)
          × ((process_fclose i iob' f').1.descriptors ≡ f.descriptors)
    unfolding process_fopen process_fclose
    process_fclose-process_fopen fd i t closes success small free =
        let positive = fopen_positive driver disks filename mode f fd success in
        let some_fd : (fd == 0) ≡ false = ground (arith, positive) in
        let (low, zero_there) = free_entry-zero iob i free in
        let stored = get_or-set_self iob i (pos fd) (pos 0) low in
        let f' = (fopen driver disks filename mode f).1 in
        rw (process_fopen, process_fclose, free, success, some_fd, stored)
          (
            refl,
            refl,
            set-set iob i (pos fd) (pos 0)
                ∙ ap (λ z. set iob i z) (sym zero_there)
                ∙ set_own (pos 0) iob i,
            fclose-fopen driver disks filename mode f fd f' t closes success small refl,
          )

    -- If `fopen` fails with an error, process_fopen answers an entry all the same, as it does for a file
    -- that is open, and the entry holds the error.
    pub process_fopen-failed :
        (e i : ℕ)
        → (fopen driver disks filename mode f).0 ≡ err (suc e)
        → free_entry iob ≡ some i
        → let (fp, iob', f') = process_fopen filename mode iob f in
          (fp ≡ some i) × (get_or iob' i (pos 0) ≡ negsuc e)
    unfolding process_fopen
    process_fopen-failed e i failed free =
        let (low, zero_there) = free_entry-zero iob i free in
        rw (process_fopen, free, failed) (refl, get_or-set_self iob i (negsuc e) (pos 0) low)
