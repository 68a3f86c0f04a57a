-- ===== src/Elf/Load.antt =====
-- A program that is read from a file, elf_load of src/loader/formats/elfloader.c, over the drivers of the
-- file systems and any heap.
use serpae_os.Common.{
  ℕ, ◌+◌, ◌≡◌, ◌≢◌, inl, inr, false, List, [], ◌∷◌, ◌==◌, if◌then◌else◌, arith, ap, sym, ◌∙◌,
  Bool-cases, Status, ok, err, Status-cases, eio,
}
use serpae_os.Bytes.{Memory, store, memset}
use serpae_os.Files.{Filesystem, Disk, Files, max_file_descriptors, fopen, fstat, fread, fclose}
use serpae_os.Files.Table.{IsTable}
use serpae_os.Files.Balance.{
  fclose-fopen, fclose-fopen_fails, fopen_positive, fstat-descriptors, fread-descriptors,
}
use serpae_os.Elf.{ElfFile, elf_process_loaded}

-- `fread` stores its bytes from an address on.
abbrev pub store_bytes : Memory → ℕ → List ℕ → Memory
store_bytes m a [] = m
store_bytes m a (c ∷ bytes) = store_bytes (store m a c) (a + 1) bytes

-- `sizeof(struct elf_file)`.
abbrev pub size_of_elf_file : ℕ
size_of_elf_file = 132

-- What the loader works on: the files, the heap, and the memory.
pub record Loader (S H : Type 0) : Type 0 where
  pub files : Files S
  pub heap : H
  pub memory : Memory

-- `filesize` reads the field of `file_stat`, and `kmalloc` answers 0 for a failure.
module _ {S Stat H : Type 0} (driver : ℕ → Filesystem S Stat) (disks : List Disk)
    (filesize : Stat → ℕ) (kmalloc : ℕ → H → ℕ × H) (signature : ℕ) where
  unfoldable pub kzalloc : ℕ → Loader S H → ℕ × Loader S H
  kzalloc size l =
      let (ptr, heap) = kmalloc size l.heap in
      if ptr == 0
      then (0, record l { heap = heap })
      else (ptr, record l { heap = heap; memory = memset l.memory ptr 0 size })

  -- `elf_load` with the file open, up to `out`.
  unfoldable pub load_open : ℕ → Loader S H → Status ElfFile × Loader S H
  load_open fd l =
      let (found, files) = fstat driver disks fd l.files in
      let known : Loader S H = record l { files = files } in
      elim found [
        | err e ↦ (err e, known)
        | ok answer ↦
            let size = filesize answer.1 in
            let (elf_memory, zeroed) = kzalloc size known in
            let (copied, files') = fread driver disks fd size zeroed.files in
            let tried : Loader S H = record zeroed { files = files' } in
            elim copied [
              | err e ↦ (err e, tried)
              | ok content ↦
                  let read : Loader S H = record tried {
                    memory = store_bytes tried.memory elf_memory content.1;
                  } in
                  let (res, file) = elf_process_loaded read.memory signature (record {
                    elf_memory = elf_memory;
                    virtual_base_address = 0;
                    virtual_end_address = 0;
                    physical_base_address = 0;
                    physical_end_address = 0;
                  }) in
                  elim res [ err e ↦ (err e, read) | ok _ ↦ (ok file, read) ]
            ]
      ]

  -- The label `out`: `fclose` of the descriptor, or of 0 if there is none.
  unfoldable pub close_file : ℕ → Loader S H → Loader S H
  close_file fd l = record l { files = (fclose driver disks fd l.files).1 }

  -- The file's own record is taken to be allocated.
  unfoldable pub elf_load : List ℕ → Loader S H → Status ElfFile × Loader S H
  elf_load filename l =
      let (ptr, l') = kzalloc size_of_elf_file l in
      let (opened, files) = fopen driver disks filename (b'r' ∷ []) l'.files in
      let tried : Loader S H = record l' { files = files } in
      elim opened [
        | err e ↦ (err eio, close_file 0 tried)
        | ok fd ↦
            let (res, after) = load_open fd tried in
            if fd == 0 then (err eio, close_file 0 tried) else (res, close_file fd after)
      ]

  kzalloc-files : (size : ℕ) (l : Loader S H) → (kzalloc size l).1.files ≡ l.files
  unfolding kzalloc
  kzalloc-files size l = elim (Bool-cases ((kmalloc size l.heap).0 == 0)) [
    | inl e ↦ rw (kzalloc, e)
    | inr e ↦ rw (kzalloc, e)
  ]

  load_open-descriptors :
      (fd : ℕ) (l : Loader S H) → (load_open fd l).1.files.descriptors ≡ l.files.descriptors
  unfolding load_open
  load_open-descriptors fd l =
      let stats = fstat-descriptors driver disks fd l.files in
      elim (Status-cases (fstat driver disks fd l.files).0) [
        | inr (e, failed) ↦ rw (load_open, failed) stats
        | inl (found, success) ↦
            let known : Loader S H = record l { files = (fstat driver disks fd l.files).1 } in
            let size = filesize found.1 in
            let same = kzalloc-files size known in
            let zeroed = (kzalloc size known).1 in
            let reads =
              fread-descriptors driver disks fd size zeroed.files
              ∙ ap (λ f. f.descriptors) same
              ∙ stats in
            elim (Status-cases (fread driver disks fd size zeroed.files).0) [
              | inr (e, refused) ↦ rw (load_open, success, refused) reads
              | inl (content, copied) ↦
                  let m = store_bytes zeroed.memory (kzalloc size known).0 content.1 in
                  elim (Status-cases
                    (elf_process_loaded m signature (record {
                      elf_memory = (kzalloc size known).0;
                      virtual_base_address = 0;
                      virtual_end_address = 0;
                      physical_base_address = 0;
                      physical_end_address = 0;
                    })).0) [
                      | inr (e, bad) ↦ rw (load_open, success, copied, bad) reads
                      | inl (_, good) ↦ rw (load_open, success, copied, good) reads
                    ]
            ]
      ]

  -- If the drivers close what they have opened, and fopen does not answer the last descriptor, then
  -- elf_load leaves the table of descriptors as it was, whether it loads the program or fails at any
  -- step.
  pub elf_load-descriptors :
      (filename : List ℕ) (l : Loader S H)
      → IsTable l.files.descriptors
      → ((filesystem private : ℕ) (s : S) → ((driver filesystem).close private s).0 ≡ ok 0)
      → (fopen driver disks filename (b'r' ∷ []) l.files).0 ≢ ok max_file_descriptors
      → (elf_load filename l).1.files.descriptors ≡ l.files.descriptors
  unfolding elf_load close_file
  elf_load-descriptors filename l t closes last =
      let l' = (kzalloc size_of_elf_file l).1 in
      let same : l'.files ≡ l.files = kzalloc-files size_of_elf_file l in
      let kept : l'.files.descriptors ≡ l.files.descriptors = ap (λ f. f.descriptors) same in
      let moved = ap (λ f. (fopen driver disks filename (b'r' ∷ []) f).0) same in
      let tried : Loader S H = record l' {
        files = (fopen driver disks filename (b'r' ∷ []) l'.files).1;
      } in
      elim (Status-cases (fopen driver disks filename (b'r' ∷ []) l'.files).0) [
        | inr (e, failed) ↦
            rw (elf_load, failed, close_file)
              (fclose-fopen_fails driver disks filename (b'r' ∷ []) l'.files e failed ∙ kept)
        | inl (fd, success) ↦
            let positive = fopen_positive driver disks filename (b'r' ∷ []) l'.files fd success in
            let test : (fd == 0) ≡ false = ground (arith, positive) in
            rw (elf_load, success, test, close_file)
              (fclose-fopen driver disks filename (b'r' ∷ []) l'.files fd
                  (load_open fd tried).1.files (rw kept t) closes success
                  (λ e. last (sym moved ∙ success ∙ ap ok e)) (load_open-descriptors fd tried)
                ∙ kept)
      ]
