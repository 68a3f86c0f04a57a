-- ===== src/Elf/Accept.antt =====
-- The programs that elf_load of src/loader/formats/elfloader.c accepts.
use serpae_os.Common.{
  ℕ, zero, suc, ◌+◌, ◌<◌, ◌≡◌, inl, inr, refl, List, [], ◌∷◌, ◌==◌, arith, ap, sym, ◌∙◌, Bool-cases,
  ok, err, Status-cases, eio, ok_ne_err, ok-injective,
}
use mathlib.Core.Path.{subst}
use serpae_os.Bytes.{Memory}
use serpae_os.Files.{Filesystem, Disk, fopen, fstat, fread}
use serpae_os.Elf.{
  Phdr, ElfFile, phdr_at, elf_program_header, lower_base, raise_end, elf_process_phdr_pt_load,
  elf_process_pheader, pheaders_loop, elf_process_pheaders, elf_process_loaded, e_phnum,
  elf_validate_loaded,
}
use serpae_os.Elf.Check.{IsMagic, IsElf, elf_validate_loaded_iff}
use serpae_os.Elf.Bounds.{IsLoad, phdr_of, IsSpan}
use serpae_os.Elf.Span.{elf_process_loaded-IsSpan}
use serpae_os.Elf.Load.{
  Loader, kzalloc, store_bytes, load_open, close_file, elf_load, size_of_elf_file,
}

-- A header moves the bounds only.
elf_process_pheader-elf_memory :
    (phdr : Phdr) (f : ElfFile) → (elf_process_pheader phdr f).1.elf_memory ≡ f.elf_memory
unfolding elf_process_pheader elf_process_phdr_pt_load lower_base raise_end
elf_process_pheader-elf_memory phdr f = ground arith

pheaders_loop-elf_memory :
    (m : Memory) (rounds i : ℕ) (f : ElfFile)
    → (pheaders_loop m rounds i f).1.elf_memory ≡ f.elf_memory
unfolding pheaders_loop
pheaders_loop-elf_memory m zero i f = refl
pheaders_loop-elf_memory m (suc rounds) i f =
    let phdr = phdr_at m (elf_program_header m f.elf_memory i) in
    let same = elf_process_pheader-elf_memory phdr f in
    elim (Status-cases (elf_process_pheader phdr f).0) [
      | inr (e, failed) ↦ rw (pheaders_loop, failed) same
      | inl (_, success) ↦
          rw (pheaders_loop, success)
            (pheaders_loop-elf_memory m rounds (i + 1) (elf_process_pheader phdr f).1 ∙ same)
    ]

-- What a program that is processed without an error is.
elf_process_loaded-IsElf :
    (m : Memory) (signature : ℕ) (f : ElfFile)
    → (elf_process_loaded m signature f).0 ≡ ok tt
    → (elf_validate_loaded m signature f.elf_memory ≡ ok tt)
      × ((elf_process_loaded m signature f).1.elf_memory ≡ f.elf_memory)
unfolding elf_process_loaded elf_process_pheaders
elf_process_loaded-IsElf m signature f success =
    elim (Status-cases (elf_validate_loaded m signature f.elf_memory)) [
      | inl (_, valid) ↦ (valid, rw (elf_process_loaded, valid) (pheaders_loop-elf_memory m _ 0 f))
      | inr (e, bad) ↦
          let failed : (elf_process_loaded m signature f).0 ≡ err e =
            rw (elf_process_loaded, bad) in
          absurd (ok_ne_err (sym success ∙ failed))
    ]

-- The file that is processed.
abbrev fresh : ℕ → ElfFile
fresh elf_memory = record {
  elf_memory = elf_memory;
  virtual_base_address = 0;
  virtual_end_address = 0;
  physical_base_address = 0;
  physical_end_address = 0;
}

accepted :
    (m : Memory) (signature a : ℕ) (file : ElfFile)
    → (elf_process_loaded m signature (fresh a)).0 ≡ ok tt
    → (elf_process_loaded m signature (fresh a)).1 ≡ file
    → IsMagic m signature
    → ((i : ℕ)
        → IsLoad m file.elf_memory (e_phnum m file.elf_memory) i
        → 0 < (phdr_of m file.elf_memory i).p_vaddr)
    → IsElf m file.elf_memory × IsSpan m file.elf_memory (e_phnum m file.elf_memory) file
accepted m signature a file good processed own positive =
    let (valid, same) = elf_process_loaded-IsElf m signature (fresh a) good in
    let at : file.elf_memory ≡ a = ap (λ f. f.elf_memory) (sym processed) ∙ same in
    let all : (i : ℕ) → IsLoad m a (e_phnum m a) i → 0 < (phdr_of m a i).p_vaddr =
      subst (λ x. (i : ℕ) → IsLoad m x (e_phnum m x) i → 0 < (phdr_of m x i).p_vaddr) at positive in
    let (file', done, span) = elf_process_loaded-IsSpan m signature (fresh a) valid refl refl all in
    let equal : file' ≡ file = ap (λ r. r.1) (sym done) ∙ processed in
    subst (λ x. IsElf m x × IsSpan m x (e_phnum m x) file) (sym at)
      (
        (elf_validate_loaded_iff m signature a own).0 valid,
        subst (IsSpan m a (e_phnum m a)) equal span,
      )

module _ {S Stat H : Type 0} (driver : ℕ → Filesystem S Stat) (disks : List Disk)
    (filesize : Stat → ℕ) (kmalloc : ℕ → H → ℕ × H) (signature : ℕ) where
  -- The end of a load that succeeds.
  abbrev Processed : ElfFile → Memory → Type 0
  Processed file m =
      (a : ℕ) × ((elf_process_loaded m signature (fresh a)).0 ≡ ok tt)
      × ((elf_process_loaded m signature (fresh a)).1 ≡ file)

  load_open-Processed :
      (fd : ℕ) (l : Loader S H) (file : ElfFile)
      → (load_open driver disks filesize kmalloc signature fd l).0 ≡ ok file
      → Processed file (load_open driver disks filesize kmalloc signature fd l).1.memory
  unfolding load_open
  load_open-Processed fd l file success = elim (Status-cases (fstat driver disks fd l.files).0) [
    | inr (e, failed) ↦
        let wrong : (load_open driver disks filesize kmalloc signature fd l).0 ≡ err e =
          rw (load_open, failed) in
        absurd (ok_ne_err (sym success ∙ wrong))
    | inl (found, known) ↦
        let l' : Loader S H = record l { files = (fstat driver disks fd l.files).1 } in
        let size = filesize found.1 in
        let zeroed = kzalloc driver disks filesize kmalloc signature size l' in
        elim (Status-cases (fread driver disks fd size zeroed.1.files).0) [
          | inr (e, refused) ↦
              let wrong : (load_open driver disks filesize kmalloc signature fd l).0 ≡ err e =
                rw (load_open, known, refused) in
              absurd (ok_ne_err (sym success ∙ wrong))
          | inl (content, copied) ↦
              let m = store_bytes zeroed.1.memory zeroed.0 content.1 in
              elim (Status-cases (elf_process_loaded m signature (fresh zeroed.0)).0) [
                | inr (e, bad) ↦
                    let wrong : (load_open driver disks filesize kmalloc signature fd l).0 ≡ err e =
                      rw (load_open, known, copied, bad) in
                    absurd (ok_ne_err (sym success ∙ wrong))
                | inl (_, good) ↦
                    let answer : (load_open driver disks filesize kmalloc signature fd l).0
                        ≡ ok (elf_process_loaded m signature (fresh zeroed.0)).1 =
                      rw (load_open, known, copied, good) in
                    rw (load_open, known, copied, good)
                      (zeroed.0, good, ok-injective (sym answer ∙ success))
              ]
        ]
  ]

  elf_load-Processed :
      (filename : List ℕ) (l : Loader S H) (file : ElfFile)
      → (elf_load driver disks filesize kmalloc signature filename l).0 ≡ ok file
      → Processed file (elf_load driver disks filesize kmalloc signature filename l).1.memory
  unfolding elf_load close_file
  elf_load-Processed filename l file success =
      let l' = (kzalloc driver disks filesize kmalloc signature size_of_elf_file l).1 in
      let tried : Loader S H = record l' {
        files = (fopen driver disks filename (b'r' ∷ []) l'.files).1;
      } in
      elim (Status-cases (fopen driver disks filename (b'r' ∷ []) l'.files).0) [
        | inr (e, failed) ↦
            let wrong : (elf_load driver disks filesize kmalloc signature filename l).0 ≡ err eio =
              rw (elf_load, failed) in
            absurd (ok_ne_err (sym success ∙ wrong))
        | inl (fd, opened) ↦ elim (Bool-cases (fd == 0)) [
          | inl none_open ↦
              let wrong : (elf_load driver disks filesize kmalloc signature filename l).0
                  ≡ err eio =
                rw (elf_load, opened, none_open) in
              absurd (ok_ne_err (sym success ∙ wrong))
          | inr some_open ↦
              let answer : (elf_load driver disks filesize kmalloc signature filename l).0
                  ≡ (load_open driver disks filesize kmalloc signature fd tried).0 =
                rw (elf_load, opened, some_open) in
              rw (elf_load, opened, some_open, close_file)
                (load_open-Processed fd tried file (sym answer ∙ success))
        ]
      ]

  -- A file that elf_load answers is a program: in the memory that it leaves, if that has the bytes of the
  -- signature still, the program has a header that is valid, and if none of its segments that are loaded
  -- is at the address 0, the file holds their bounds.
  pub elf_load-IsElf :
      (filename : List ℕ) (l : Loader S H) (file : ElfFile)
      → (elf_load driver disks filesize kmalloc signature filename l).0 ≡ ok file
      → let m = (elf_load driver disks filesize kmalloc signature filename l).1.memory in
        IsMagic m signature
        → ((i : ℕ)
            → IsLoad m file.elf_memory (e_phnum m file.elf_memory) i
            → 0 < (phdr_of m file.elf_memory i).p_vaddr)
        → IsElf m file.elf_memory × IsSpan m file.elf_memory (e_phnum m file.elf_memory) file
  elf_load-IsElf filename l file success own positive =
      let (a, good, processed) = elf_load-Processed filename l file success in
      accepted (elf_load driver disks filesize kmalloc signature filename l).1.memory signature a
        file good processed own positive
