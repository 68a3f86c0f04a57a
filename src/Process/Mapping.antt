-- ===== src/Process/Mapping.antt =====
-- The mapping of a program, process_map_elf of src/task/process.c, over Elf and Paging. The bytes of the
-- program and the words of the page tables are memories of their own, since no table holds a program.
use serpae_os.Common.{
  ℕ, zero, suc, ◌+◌, ◌-◌, ◌*◌, ◌/◌, ◌%◌, ◌^◌, ◌≤◌, ◌<◌, ◌≡◌, ◌⊎◌, inl, inr, refl, true, false, ◌&&◌,
  ltb, leb, ◌==◌, if◌then◌else◌, arith, ap, sym, ◌∙◌, ℕ_discrete, ok, err, bit_and,
}
use mathlib.Core.Path.{subst}
use serpae_os.Bytes
use serpae_os.Elf.{Phdr, ElfFile, phdr_at, e_phnum, elf_program_header, elf_phdr_phys_address}
use serpae_os.Elf.Bounds.{phdr_of}
use serpae_os.Paging.{
  Memory, page_size, Run, get, map_to, get_physical_address, align_address, align_to_lower_page,
}
use serpae_os.Paging.Layout.{Layout}
use serpae_os.Paging.Map.{Mapped, map_to-Mapped, get-get_physical_address}

abbrev pub pf_w : ℕ
pf_w = 2

-- PAGING_IS_PRESENT | PAGING_ACCESS_FROM_ALL, with PAGING_IS_WRITEABLE for a segment that is written.
abbrev pub segment_flags : Phdr → ℕ
segment_flags phdr = if bit_and phdr.p_flags pf_w == 0 then 5 else 7

unfoldable pub map_segment : Memory → ℕ → ElfFile → Phdr → Run
map_segment m directory file phdr =
    map_to m directory (align_to_lower_page phdr.p_vaddr)
      (align_to_lower_page (elf_phdr_phys_address file phdr))
      (align_address ((elf_phdr_phys_address file phdr + phdr.p_memsz) % 2 ^ 32))
      (segment_flags phdr)

-- The headers from `i` on, with `rounds` left.
unfoldable pub map_loop : Bytes.Memory → ℕ → ℕ → Memory → ℕ → ElfFile → Run
map_loop program zero i m directory file = record { memory = m; res = ok tt }
map_loop program (suc rounds) i m directory file =
    let r =
      map_segment m directory file
        (phdr_at program (elf_program_header program file.elf_memory i)) in
    elim r.res [ err e ↦ r | ok _ ↦ map_loop program rounds (i + 1) r.memory directory file ]

unfoldable pub process_map_elf : Bytes.Memory → Memory → ℕ → ElfFile → Run
process_map_elf program m directory file =
    map_loop program (e_phnum program file.elf_memory) 0 m directory file

-- The first page of a segment, its first frame, and the number of its pages.
abbrev pub page_of : Phdr → ℕ
page_of phdr = phdr.p_vaddr / page_size

abbrev pub frame_of : ElfFile → Phdr → ℕ
frame_of file phdr = elf_phdr_phys_address file phdr / page_size

abbrev pub count_of : ElfFile → Phdr → ℕ
count_of file phdr =
    (elf_phdr_phys_address file phdr + phdr.p_memsz + 4095) / page_size - frame_of file phdr

-- A segment is at the same place in its page as in its frame, and ends below the end of memory.
pub record IsPlaced (file : ElfFile) (phdr : Phdr) : Type 0 where
  pub congruent : phdr.p_vaddr % page_size ≡ elf_phdr_phys_address file phdr % page_size
  pub virtual_room : phdr.p_vaddr + phdr.p_memsz + 4096 ≤ 2 ^ 32
  pub physical_room : elf_phdr_phys_address file phdr + phdr.p_memsz + 4096 ≤ 2 ^ 32

-- The pages of two segments have none in common.
abbrev pub Apart : ElfFile → Phdr → Phdr → Type 0
Apart file a b =
    (page_of a + count_of file a ≤ page_of b) ⊎ (page_of b + count_of file b ≤ page_of a)

-- A segment is mapped.
abbrev pub IsMapped : Memory → ℕ → ElfFile → Phdr → Type 0
IsMapped m directory file phdr =
    (q : ℕ)
    → page_of phdr ≤ q
    → q < page_of phdr + count_of file phdr
    → get m directory (q * page_size)
      ≡ (frame_of file phdr + (q - page_of phdr)) * page_size + segment_flags phdr

segment_flags_small : (phdr : Phdr) → segment_flags phdr < page_size
segment_flags_small phdr = ground arith

lower-page : (x : ℕ) → align_to_lower_page x ≡ x / page_size * page_size
unfolding align_to_lower_page
lower-page x = omega arith

upper-page :
    (x : ℕ) → x + 4096 ≤ 2 ^ 32 → align_address (x % 2 ^ 32) ≡ (x + 4095) / page_size * page_size
unfolding align_address
upper-page x room = elim (ℕ_discrete (x % page_size) 0) [
  | yes e ↦
      let same : x % 2 ^ 32 ≡ x = omega arith in
      let test : (x % page_size == 0) ≡ true = ground arith in
      rw (same, align_address, test) (omega arith)
  | no ne ↦
      let same : x % 2 ^ 32 ≡ x = omega arith in
      let test : (x % page_size == 0) ≡ false = ground arith in
      rw (same, align_address, test) (omega arith)
]

pages-frames :
    (file : ElfFile) (phdr : Phdr)
    → IsPlaced file phdr
    → ((elf_phdr_phys_address file phdr + phdr.p_memsz + 4095) / page_size
        ≡ frame_of file phdr + count_of file phdr)
      × (page_of phdr + count_of file phdr ≤ 2 ^ 20)
      × (frame_of file phdr + count_of file phdr < 2 ^ 20)
pages-frames file phdr placed = (
  omega arith,
  omega (arith, placed.congruent, placed.virtual_room),
  omega (arith, placed.physical_room),
)

map_segment-Mapped :
    (m : Memory) (directory : ℕ) (file : ElfFile) (phdr : Phdr)
    → Layout m directory
    → IsPlaced file phdr
    → let r = map_segment m directory file phdr in
      (r.res ≡ ok tt)
      × Mapped m directory
          (page_of phdr)
          (frame_of file phdr)
          (count_of file phdr)
          (segment_flags phdr)
          r.memory
unfolding map_segment
map_segment-Mapped m directory file phdr l placed =
    let (end, pages, frames) = pages-frames file phdr placed in
    let phys = elf_phdr_phys_address file phdr in
    let upper : align_address ((phys + phdr.p_memsz) % 2 ^ 32)
        ≡ (frame_of file phdr + count_of file phdr) * page_size =
      upper-page (phys + phdr.p_memsz) placed.physical_room ∙ ap (λ n. n * page_size) end in
    rw (map_segment, lower-page phdr.p_vaddr, lower-page phys, upper)
      (map_to-Mapped directory (segment_flags phdr) (segment_flags_small phdr) m (page_of phdr)
        (frame_of file phdr) (count_of file phdr) l pages frames)

-- A segment that is apart from the one that is mapped stays as it was.
IsMapped-kept :
    (m m' : Memory) (directory : ℕ) (file : ElfFile) (a b : Phdr)
    → IsPlaced file a
    → Apart file a b
    → Mapped m directory (page_of b) (frame_of file b) (count_of file b) (segment_flags b) m'
    → IsMapped m directory file a
    → IsMapped m' directory file a
IsMapped-kept m m' directory file a b placed apart mapped before q low high =
    let (end, pages, frames) = pages-frames file a placed in
    let outside : (leb (page_of b) q && ltb q (page_of b + count_of file b)) ≡ false = elim apart [
      | inl h ↦ ground (arith, h, low, high)
      | inr h ↦ ground (arith, h, low, high)
    ] in
    mapped.entries q (omega (arith, high, pages)) ∙ rw outside (before q low high)

-- An address of a segment that is mapped.
translated :
    (m : Memory) (directory : ℕ) (file : ElfFile) (phdr : Phdr) (offset : ℕ)
    → IsPlaced file phdr
    → offset < phdr.p_memsz
    → IsMapped m directory file phdr
    → get_physical_address m directory (phdr.p_vaddr + offset)
      ≡ elf_phdr_phys_address file phdr + offset
translated m directory file phdr offset placed within mapped =
    let v = phdr.p_vaddr in
    let phys = elf_phdr_phys_address file phdr in
    let q = (v + offset) / page_size in
    let o = (v + offset) % page_size in
    let (end, pages, frames) = pages-frames file phdr placed in
    let low : page_of phdr ≤ q = omega arith in
    let high : q < page_of phdr + count_of file phdr = omega (arith, placed.congruent, within) in
    let inside : (frame_of file phdr + (q - page_of phdr)) < 2 ^ 20 = omega (arith, high, frames) in
    let split : v + offset ≡ q * page_size + o = omega arith in
    ap (get_physical_address m directory) split
    ∙ get-get_physical_address m directory q (frame_of file phdr + (q - page_of phdr))
        (segment_flags phdr) o inside (segment_flags_small phdr) (omega arith) (mapped q low high)
    ∙ omega (arith, placed.congruent)

module _ (program : Bytes.Memory) (directory : ℕ) (file : ElfFile) where
  -- The header of a number.
  abbrev segment : ℕ → Phdr
  segment i = phdr_of program file.elf_memory i

  map_loop-IsMapped :
      (rounds i total : ℕ) (m : Memory)
      → i + rounds ≡ total
      → Layout m directory
      → ((k : ℕ) → k < total → IsPlaced file (segment k))
      → ((j k : ℕ) → j < k → k < total → Apart file (segment j) (segment k))
      → ((k : ℕ) → k < i → IsMapped m directory file (segment k))
      → let r = map_loop program rounds i m directory file in
        (r.res ≡ ok tt) × ((k : ℕ) → k < total → IsMapped r.memory directory file (segment k))
  unfolding map_loop
  map_loop-IsMapped zero i total m sum l placed apart before =
      (refl, λ k lt. before k (omega (arith, lt, sum)))
  map_loop-IsMapped (suc rounds) i total m sum l placed apart before =
      let here : i < total = omega (arith, sum) in
      let (done, mapped) = map_segment-Mapped m directory file (segment i) l (placed i here) in
      let m' = (map_segment m directory file (segment i)).memory in
      let (end, pages, frames) = pages-frames file (segment i) (placed i here) in
      let all : (k : ℕ) → k < i + 1 → IsMapped m' directory file (segment k) = λ k lt.
        elim (ℕ_discrete k i) [
          | yes e ↦
              subst (λ k. IsMapped m' directory file (segment k)) (sym e)
                (λ q low high.
                  let inside : (leb (page_of (segment i)) q
                        && ltb q (page_of (segment i) + count_of file (segment i)))
                      ≡ true =
                    ground (arith, low, high) in
                  mapped.entries q (omega (arith, high, pages)) ∙ rw inside refl)
          | no ne ↦
              let below : k < i = omega (arith, lt, ne) in
              IsMapped-kept m m' directory file (segment k) (segment i)
                (placed k (omega (arith, below, here))) (apart k i below here) mapped
                (before k below)
        ] in
      rw (map_loop, done)
        (map_loop-IsMapped rounds (i + 1) total m' (omega (arith, sum)) mapped.layout placed apart
          all)

  -- If the segments of a program are at the same places in their pages as in their frames, end below the
  -- end of memory, and have no page in common, then process_map_elf succeeds, and every address of a
  -- segment is translated to the place of that byte in the program that was read.
  pub process_map_elf-get_physical_address :
      (m : Memory) (j offset : ℕ)
      → Layout m directory
      → ((k : ℕ) → k < e_phnum program file.elf_memory → IsPlaced file (segment k))
      → ((i k : ℕ)
          → i < k
          → k < e_phnum program file.elf_memory
          → Apart file (segment i) (segment k))
      → j < e_phnum program file.elf_memory
      → offset < (segment j).p_memsz
      → let r = process_map_elf program m directory file in
        (r.res ≡ ok tt)
        × (get_physical_address r.memory directory ((segment j).p_vaddr + offset)
            ≡ elf_phdr_phys_address file (segment j) + offset)
  unfolding process_map_elf
  process_map_elf-get_physical_address m j offset l placed apart here within =
      let total = e_phnum program file.elf_memory in
      let (done, all) =
        map_loop-IsMapped total 0 total m (omega arith) l placed apart
          (λ k lt. absurd (omega (arith, lt))) in
      let r = process_map_elf program m directory file in
      (
        done,
        translated r.memory directory file (segment j) offset (placed j here) within (all j here),
      )
