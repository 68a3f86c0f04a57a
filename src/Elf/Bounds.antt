-- ===== src/Elf/Bounds.antt =====
-- The span of the segments, elf_process_pheaders of src/loader/formats/elfloader.c.
use serpae_os.Common.{
  ℕ, ◌+◌, ◌%◌, ◌^◌, ◌≤◌, ◌<◌, ◌≡◌, ◌≢◌, ◌⊎◌, inl, inr, refl, arith, ap, sym, ◌∙◌, ℕ_discrete,
}
use serpae_os.Bytes.{Memory}
use serpae_os.Elf.{Phdr, ElfFile, phdr_at, pt_load, elf_program_header, end_virtual_address}

-- Some of the program headers that are loaded, by their numbers below `n`, at `header`.
abbrev pub IsLoad : Memory → ℕ → ℕ → ℕ → Type 0
IsLoad m header n i = (i < n) × ((phdr_at m (elf_program_header m header i)).p_type ≡ pt_load)

abbrev pub phdr_of : Memory → ℕ → ℕ → Phdr
phdr_of m header i = phdr_at m (elf_program_header m header i)

-- The least virtual address of the headers that are loaded, and where the program has that segment; 0
-- if there is none.
pub record IsBase (m : Memory) (header n virtual physical : ℕ) : Type 0 where
  pub least : (i : ℕ) → IsLoad m header n i → virtual ≤ (phdr_of m header i).p_vaddr
  pub found :
      ((i : ℕ) × IsLoad m header n i
        × (virtual ≡ (phdr_of m header i).p_vaddr)
        × (physical ≡ (header + (phdr_of m header i).p_offset) % 2 ^ 32))
      ⊎ ((virtual ≡ 0) × ((i : ℕ) → ¬ IsLoad m header n i))

-- The greatest end of a segment that is loaded, and where the program has that end; 0 if there is none.
pub record IsEnd (m : Memory) (header n virtual physical : ℕ) : Type 0 where
  pub greatest : (i : ℕ) → IsLoad m header n i → end_virtual_address (phdr_of m header i) ≤ virtual
  pub found :
      ((i : ℕ) × IsLoad m header n i
        × (virtual ≡ end_virtual_address (phdr_of m header i))
        × (physical
            ≡ (header + (phdr_of m header i).p_offset + (phdr_of m header i).p_filesz) % 2 ^ 32))
      ⊎ ((virtual ≡ 0) × ((i : ℕ) → ¬ IsLoad m header n i))

-- The bounds that a file holds, for its first `n` headers.
pub record IsSpan (m : Memory) (header n : ℕ) (f : ElfFile) : Type 0 where
  pub memory : f.elf_memory ≡ header
  pub base : IsBase m header n f.virtual_base_address f.physical_base_address
  pub end : IsEnd m header n f.virtual_end_address f.physical_end_address

IsLoad-below :
    (m : Memory) (header n i : ℕ) → IsLoad m header (n + 1) i → i ≢ n → IsLoad m header n i
IsLoad-below m header n i load ne = (omega (arith, load.0, ne), load.1)

-- One more header, which is not loaded.
IsLoad-skip :
    (m : Memory) (header n i : ℕ)
    → (phdr_of m header n).p_type ≢ pt_load
    → IsLoad m header (n + 1) i
    → IsLoad m header n i
IsLoad-skip m header n i skip load =
    IsLoad-below m header n i load
      (λ e. skip (ap (λ i. (phdr_of m header i).p_type) (sym e) ∙ load.1))

IsLoad-more : (m : Memory) (header n i : ℕ) → IsLoad m header n i → IsLoad m header (n + 1) i
IsLoad-more m header n i load = (omega (arith, load.0), load.1)

pub IsBase-skip :
    (m : Memory) (header n virtual physical : ℕ)
    → (phdr_of m header n).p_type ≢ pt_load
    → IsBase m header n virtual physical
    → IsBase m header (n + 1) virtual physical
IsBase-skip m header n virtual physical skip b = record {
  least = λ i load. b.least i (IsLoad-skip m header n i skip load);
  found = elim b.found [
    | inl (i, load, at, rest) ↦ inl (i, IsLoad-more m header n i load, at, rest)
    | inr (nothing, out) ↦ inr (nothing, λ i load. out i (IsLoad-skip m header n i skip load))
  ];
}

pub IsEnd-skip :
    (m : Memory) (header n virtual physical : ℕ)
    → (phdr_of m header n).p_type ≢ pt_load
    → IsEnd m header n virtual physical
    → IsEnd m header (n + 1) virtual physical
IsEnd-skip m header n virtual physical skip b = record {
  greatest = λ i load. b.greatest i (IsLoad-skip m header n i skip load);
  found = elim b.found [
    | inl (i, load, at, rest) ↦ inl (i, IsLoad-more m header n i load, at, rest)
    | inr (nothing, out) ↦ inr (nothing, λ i load. out i (IsLoad-skip m header n i skip load))
  ];
}

-- The header that is read next has the least address so far.
pub IsBase-take :
    (m : Memory) (header n virtual physical : ℕ)
    → (phdr_of m header n).p_type ≡ pt_load
    → IsBase m header n virtual physical
    → ((phdr_of m header n).p_vaddr ≤ virtual) ⊎ (virtual ≡ 0)
    → ((i : ℕ) → IsLoad m header n i → 0 < (phdr_of m header i).p_vaddr)
    → IsBase m header
        (n + 1)
        (phdr_of m header n).p_vaddr
        ((header + (phdr_of m header n).p_offset) % 2 ^ 32)
IsBase-take m header n virtual physical own b lower positive = record {
  least = λ i load. elim (ℕ_discrete i n) [
    | yes e ↦ rw e (omega arith)
    | no ne ↦
        let before = IsLoad-below m header n i load ne in
        elim lower [
          | inl h ↦ omega (arith, h, b.least i before)
          | inr e ↦ elim b.found [
            | inl (j, seen, at, rest) ↦ absurd (omega (arith, e, at, positive j seen))
            | inr (e, out) ↦ absurd (out i before)
          ]
        ]
  ];
  found = inl (n, (omega arith, own), refl, refl);
}

pub IsBase-keep :
    (m : Memory) (header n virtual physical : ℕ)
    → virtual < (phdr_of m header n).p_vaddr
    → virtual ≢ 0
    → IsBase m header n virtual physical
    → IsBase m header (n + 1) virtual physical
IsBase-keep m header n virtual physical higher nonzero b = record {
  least = λ i load. elim (ℕ_discrete i n) [
    | yes e ↦ rw e (omega (arith, higher))
    | no ne ↦ b.least i (IsLoad-below m header n i load ne)
  ];
  found = elim b.found [
    | inl (i, load, at, rest) ↦ inl (i, IsLoad-more m header n i load, at, rest)
    | inr (e, out) ↦ absurd (nonzero e)
  ];
}

pub IsEnd-take :
    (m : Memory) (header n virtual physical : ℕ)
    → (phdr_of m header n).p_type ≡ pt_load
    → IsEnd m header n virtual physical
    → (virtual ≤ end_virtual_address (phdr_of m header n)) ⊎ (virtual ≡ 0)
    → IsEnd m header
        (n + 1)
        (end_virtual_address (phdr_of m header n))
        ((header + (phdr_of m header n).p_offset + (phdr_of m header n).p_filesz) % 2 ^ 32)
IsEnd-take m header n virtual physical own b higher = record {
  greatest = λ i load. elim (ℕ_discrete i n) [
    | yes e ↦ rw e (omega arith)
    | no ne ↦
        let before = b.greatest i (IsLoad-below m header n i load ne) in
        elim higher [ inl h ↦ omega (arith, h, before) | inr e ↦ omega (arith, e, before) ]
  ];
  found = inl (n, (omega arith, own), refl, refl);
}

pub IsEnd-keep :
    (m : Memory) (header n virtual physical : ℕ)
    → end_virtual_address (phdr_of m header n) < virtual
    → IsEnd m header n virtual physical
    → IsEnd m header (n + 1) virtual physical
IsEnd-keep m header n virtual physical lower b = record {
  greatest = λ i load. elim (ℕ_discrete i n) [
    | yes e ↦ rw e (omega (arith, lower))
    | no ne ↦ b.greatest i (IsLoad-below m header n i load ne)
  ];
  found = elim b.found [
    | inl (i, load, at, rest) ↦ inl (i, IsLoad-more m header n i load, at, rest)
    | inr (e, out) ↦ absurd (omega (arith, e, lower))
  ];
}
