-- ===== src/Elf/Span.antt =====
-- The loop over the program headers, elf_process_pheaders of src/loader/formats/elfloader.c.
use serpae_os.Common.{
  ℕ, zero, suc, ◌+◌, ◌<◌, ◌≡◌, inl, inr, refl, true, false, ◌||◌, leb, ◌==◌, arith, ap, ◌∙◌,
  Bool-cases, ℕ_discrete, ok,
}
use serpae_os.Bytes.{Memory}
use serpae_os.Elf.{
  ElfFile, phdr_at, pt_load, elf_program_header, end_virtual_address, lower_base, raise_end,
  elf_process_phdr_pt_load, elf_process_pheader, pheaders_loop, elf_process_pheaders,
  elf_process_loaded, e_phnum, elf_validate_loaded,
}
use serpae_os.Elf.Bounds.{
  IsLoad, phdr_of, IsBase, IsEnd, IsSpan, IsBase-skip, IsEnd-skip, IsBase-take, IsBase-keep,
  IsEnd-take, IsEnd-keep,
}

module _ (m : Memory) (header : ℕ) where
  lower_base-IsBase :
      (n : ℕ) (f : ElfFile)
      → f.elf_memory ≡ header
      → (phdr_of m header n).p_type ≡ pt_load
      → IsBase m header n f.virtual_base_address f.physical_base_address
      → ((i : ℕ) → IsLoad m header n i → 0 < (phdr_of m header i).p_vaddr)
      → let f' = lower_base (phdr_of m header n) f in
        (f'.elf_memory ≡ header)
        × IsBase m header (n + 1) f'.virtual_base_address f'.physical_base_address
        × (f'.virtual_end_address ≡ f.virtual_end_address)
        × (f'.physical_end_address ≡ f.physical_end_address)
  unfolding lower_base
  lower_base-IsBase n f at own b positive =
      let phdr = phdr_of m header n in
      elim (Bool-cases (leb phdr.p_vaddr f.virtual_base_address || f.virtual_base_address == 0)) [
        | inl e ↦
            rw (lower_base, e, at)
              (refl, IsBase-take m header n _ _ own b (ground (arith, e)) positive, refl, refl)
        | inr e ↦
            rw (lower_base, e)
              (at, IsBase-keep m header n _ _ (ground (arith, e)) (ground (arith, e)) b, refl, refl)
      ]

  raise_end-IsEnd :
      (n : ℕ) (f : ElfFile)
      → f.elf_memory ≡ header
      → (phdr_of m header n).p_type ≡ pt_load
      → IsEnd m header n f.virtual_end_address f.physical_end_address
      → let f' = raise_end (phdr_of m header n) f in
        (f'.elf_memory ≡ header)
        × IsEnd m header (n + 1) f'.virtual_end_address f'.physical_end_address
        × (f'.virtual_base_address ≡ f.virtual_base_address)
        × (f'.physical_base_address ≡ f.physical_base_address)
  unfolding raise_end
  raise_end-IsEnd n f at own b =
      let phdr = phdr_of m header n in
      elim (Bool-cases
        (leb f.virtual_end_address (end_virtual_address phdr) || f.virtual_end_address == 0)) [
          | inl e ↦
              rw (raise_end, e, at)
                (refl, IsEnd-take m header n _ _ own b (ground (arith, e)), refl, refl)
          | inr e ↦
              rw (raise_end, e) (at, IsEnd-keep m header n _ _ (ground (arith, e)) b, refl, refl)
        ]

  elf_process_pheader-IsSpan :
      (n : ℕ) (f : ElfFile)
      → IsSpan m header n f
      → ((i : ℕ) → IsLoad m header (n + 1) i → 0 < (phdr_of m header i).p_vaddr)
      → (f' : ElfFile) × (elf_process_pheader (phdr_of m header n) f ≡ (ok tt, f'))
        × IsSpan m header (n + 1) f'
  unfolding elf_process_pheader elf_process_phdr_pt_load
  elf_process_pheader-IsSpan n f span positive =
      let phdr = phdr_of m header n in
      elim (ℕ_discrete phdr.p_type pt_load) [
        | yes own ↦
            let test : (phdr.p_type == pt_load) ≡ true = ground (arith, own) in
            let before : (i : ℕ) → IsLoad m header n i → 0 < (phdr_of m header i).p_vaddr =
              λ i load. positive i (omega (arith, load.0), load.1) in
            let lowered = lower_base phdr f in
            let (at, base, same, same') = lower_base-IsBase n f span.memory own span.base before in
            let end : IsEnd m header n lowered.virtual_end_address lowered.physical_end_address =
              rw (same, same') span.end in
            let (at', end', kept, kept') = raise_end-IsEnd n lowered at own end in
            (
              raise_end phdr lowered,
              rw (elf_process_pheader, test) refl,
              record { memory = at'; base = rw (kept, kept') base; end = end' },
            )
        | no other ↦
            let test : (phdr.p_type == pt_load) ≡ false = ground (arith, other) in
            (
              f,
              rw (elf_process_pheader, test) refl,
              record {
                memory = span.memory;
                base = IsBase-skip m header n _ _ other span.base;
                end = IsEnd-skip m header n _ _ other span.end;
              },
            )
      ]

  pheaders_loop_step :
      (rounds n : ℕ) (f f' : ElfFile)
      → f.elf_memory ≡ header
      → elf_process_pheader (phdr_of m header n) f ≡ (ok tt, f')
      → pheaders_loop m (suc rounds) n f ≡ pheaders_loop m rounds (n + 1) f'
  unfolding pheaders_loop
  pheaders_loop_step rounds n f f' at step =
      let own : elf_process_pheader (phdr_at m (elf_program_header m f.elf_memory n)) f
          ≡ (ok tt, f') =
        ap (λ header. elf_process_pheader (phdr_at m (elf_program_header m header n)) f) at
        ∙ step in
      rw (pheaders_loop, own) (ap (λ r. pheaders_loop m rounds (n + 1) r.1) own)

  pheaders_loop-IsSpan :
      (rounds n total : ℕ) (f : ElfFile)
      → n + rounds ≡ total
      → IsSpan m header n f
      → ((i : ℕ) → IsLoad m header total i → 0 < (phdr_of m header i).p_vaddr)
      → (f' : ElfFile) × (pheaders_loop m rounds n f ≡ (ok tt, f')) × IsSpan m header total f'
  unfolding pheaders_loop
  pheaders_loop-IsSpan zero n total f sum span positive =
      let at : n ≡ total = omega (arith, sum) in (f, refl, rw (← at) span)
  pheaders_loop-IsSpan (suc rounds) n total f sum span positive =
      let more : (i : ℕ) → IsLoad m header (n + 1) i → 0 < (phdr_of m header i).p_vaddr =
        λ i load. positive i (omega (arith, load.0, sum), load.1) in
      let (f', step, span') = elf_process_pheader-IsSpan n f span more in
      let sum' : n + 1 + rounds ≡ total = omega (arith, sum) in
      let (f'', rest, span'') = pheaders_loop-IsSpan rounds (n + 1) total f' sum' span' positive in
      (f'', pheaders_loop_step rounds n f f' span.memory step ∙ rest, span'')

-- elf_process_loaded of a program with a header that is valid, into a file that holds no bounds yet,
-- succeeds, if no segment that is loaded is at the address 0. It answers as the base the least virtual
-- address of the segments that are loaded and as the end the greatest end of one, with the places in
-- memory of both, or 0 if no segment is loaded.
pub elf_process_loaded-IsSpan :
    (m : Memory) (signature : ℕ) (f : ElfFile)
    → elf_validate_loaded m signature f.elf_memory ≡ ok tt
    → f.virtual_base_address ≡ 0
    → f.virtual_end_address ≡ 0
    → ((i : ℕ)
        → IsLoad m f.elf_memory (e_phnum m f.elf_memory) i
        → 0 < (phdr_of m f.elf_memory i).p_vaddr)
    → (f' : ElfFile) × (elf_process_loaded m signature f ≡ (ok tt, f'))
      × IsSpan m f.elf_memory (e_phnum m f.elf_memory) f'
unfolding elf_process_loaded elf_process_pheaders
elf_process_loaded-IsSpan m signature f valid base end positive =
    let none_below : (i : ℕ) → ¬ IsLoad m f.elf_memory 0 i = λ i load. omega (arith, load.0) in
    let start : IsSpan m f.elf_memory 0 f = record {
      memory = refl;
      base = record {
        least = λ i load. absurd (none_below i load);
        found = inr (base, none_below);
      };
      end = record {
        greatest = λ i load. absurd (none_below i load);
        found = inr (end, none_below);
      };
    } in
    let (f', done, span) =
      pheaders_loop-IsSpan m f.elf_memory (e_phnum m f.elf_memory) 0 (e_phnum m f.elf_memory) f
        (omega arith) start positive in
    (f', rw (elf_process_loaded, valid) done, span)
