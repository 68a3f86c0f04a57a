-- ===== src/Elf.antt =====
-- The program loader, src/loader/formats/elfloader.c and elf.h: the checks of the header of a program
-- in memory, and the bounds of its segments. Addresses and words have 32 bits.
pub mod Check
pub mod Bounds
pub mod Span
pub mod Load
pub mod Accept
mod Tests
use serpae_os.Common.{
  ℕ, zero, suc, ◌+◌, ◌-◌, ◌*◌, ◌/◌, ◌%◌, ◌^◌, ◌≤◌, ◌<◌, ◌≡◌, ◌≢◌, ◌↔◌, ◌⊎◌, inl, inr, refl, Bool,
  true, false, not, ◌&&◌, ◌||◌, Option, none, some, List, [], ◌∷◌, ◌++◌, map, ltb, leb, ◌==◌,
  if◌then◌else◌, length, take, drop, set, get_or, get_elem?, replicate, arith, ap, ap₂, sym, ◌∙◌,
  length-append, length-set, get_or-set_self, get_or-set_ne, set-set, get_or-replicate, get_or_ext,
  length-replicate, length-take, length-drop, get_or-snoc_self, get_or-snoc_ne, get_or_out,
  List-cases, some_cancel, some_ne, Option-cases, Bool-cases, range_cases, tests, dec_lt, dec_le,
  ℕ_discrete, Status, ok, err, Status-cases, einformat,
}
use serpae_os.Common.Int.{ℤ, pos, negsuc}
use serpae_os.Bytes.{Memory, memcmp}

abbrev pub ei_class : ℕ
ei_class = 4

abbrev pub ei_data : ℕ
ei_data = 5

abbrev pub pt_load : ℕ
pt_load = 1

abbrev pub et_exec : ℕ
et_exec = 2

abbrev pub program_virtual_address : ℕ
program_virtual_address = 0x400000

-- Words of two and of four bytes, the low byte first.
abbrev pub half_at : Memory → ℕ → ℕ
half_at m a = m a + 256 * m (a + 1)

abbrev pub word_at : Memory → ℕ → ℕ
word_at m a = half_at m a + 65536 * half_at m (a + 2)

-- `struct elf32_phdr`.
pub record Phdr : Type 0 where
  pub p_type : ℕ
  pub p_offset : ℕ
  pub p_vaddr : ℕ
  pub p_paddr : ℕ
  pub p_filesz : ℕ
  pub p_memsz : ℕ
  pub p_flags : ℕ
  pub p_align : ℕ

abbrev pub size_of_phdr : ℕ
size_of_phdr = 32

-- The fields of `struct elf_file` that are used; the program is at `elf_memory`.
pub record ElfFile : Type 0 where
  pub elf_memory : ℕ
  pub virtual_base_address : ℕ
  pub virtual_end_address : ℕ
  pub physical_base_address : ℕ
  pub physical_end_address : ℕ

unfoldable pub phdr_at : Memory → ℕ → Phdr
phdr_at m a = record {
  p_type = word_at m a;
  p_offset = word_at m (a + 4);
  p_vaddr = word_at m (a + 8);
  p_paddr = word_at m (a + 12);
  p_filesz = word_at m (a + 16);
  p_memsz = word_at m (a + 20);
  p_flags = word_at m (a + 24);
  p_align = word_at m (a + 28);
}

-- Fields of `struct elf_header` at an address.
abbrev pub e_type : Memory → ℕ → ℕ
e_type m header = half_at m (header + 16)

abbrev pub e_entry : Memory → ℕ → ℕ
e_entry m header = word_at m (header + 24)

abbrev pub e_phoff : Memory → ℕ → ℕ
e_phoff m header = word_at m (header + 28)

abbrev pub e_phnum : Memory → ℕ → ℕ
e_phnum m header = half_at m (header + 44)

-- `signature` is the address of the four bytes of `elf_signature`.
unfoldable pub elf_valid_signature : Memory → ℕ → ℕ → Bool
elf_valid_signature m signature buffer = elim (memcmp m buffer signature 4) [
  | pos n ↦ n == 0
  | negsuc n ↦ false
]

unfoldable pub elf_valid_class : Memory → ℕ → Bool
elf_valid_class m header = m (header + ei_class) == 0 || m (header + ei_class) == 1

unfoldable pub elf_valid_encoding : Memory → ℕ → Bool
elf_valid_encoding m header = m (header + ei_data) == 0 || m (header + ei_data) == 1

unfoldable pub elf_is_executable : Memory → ℕ → Bool
elf_is_executable m header =
    e_type m header == et_exec && leb program_virtual_address (e_entry m header)

unfoldable pub elf_has_program_header : Memory → ℕ → Bool
elf_has_program_header m header = not (e_phoff m header == 0)

unfoldable pub elf_validate_loaded : Memory → ℕ → ℕ → Status (Unit {0})
elf_validate_loaded m signature header =
    if elf_valid_signature m signature header
      && elf_valid_class m header
      && elf_valid_encoding m header
      && elf_has_program_header m header
    then ok tt
    else err einformat

unfoldable pub elf_pheader : Memory → ℕ → ℕ
elf_pheader m header = if e_phoff m header == 0 then 0 else (header + e_phoff m header) % 2 ^ 32

unfoldable pub elf_program_header : Memory → ℕ → ℕ → ℕ
elf_program_header m header index = (elf_pheader m header + index * size_of_phdr) % 2 ^ 32

unfoldable pub elf_phdr_phys_address : ElfFile → Phdr → ℕ
elf_phdr_phys_address file phdr = (file.elf_memory + phdr.p_offset) % 2 ^ 32

abbrev pub end_virtual_address : Phdr → ℕ
end_virtual_address phdr = (phdr.p_vaddr + phdr.p_filesz) % 2 ^ 32

unfoldable pub lower_base : Phdr → ElfFile → ElfFile
lower_base phdr f =
    if leb phdr.p_vaddr f.virtual_base_address || f.virtual_base_address == 0
    then record f {
      virtual_base_address = phdr.p_vaddr;
      physical_base_address = (f.elf_memory + phdr.p_offset) % 2 ^ 32;
    }
    else f

unfoldable pub raise_end : Phdr → ElfFile → ElfFile
raise_end phdr f =
    if leb f.virtual_end_address (end_virtual_address phdr) || f.virtual_end_address == 0
    then record f {
      virtual_end_address = end_virtual_address phdr;
      physical_end_address = (f.elf_memory + phdr.p_offset + phdr.p_filesz) % 2 ^ 32;
    }
    else f

unfoldable pub elf_process_phdr_pt_load : Phdr → ElfFile → Status (Unit {0}) × ElfFile
elf_process_phdr_pt_load phdr f = (ok tt, raise_end phdr (lower_base phdr f))

unfoldable pub elf_process_pheader : Phdr → ElfFile → Status (Unit {0}) × ElfFile
elf_process_pheader phdr f =
    if phdr.p_type == pt_load then elf_process_phdr_pt_load phdr f else (ok tt, f)

-- The headers from `i` on, with `rounds` left.
unfoldable pub pheaders_loop : Memory → ℕ → ℕ → ElfFile → Status (Unit {0}) × ElfFile
pheaders_loop m zero i f = (ok tt, f)
pheaders_loop m (suc rounds) i f =
    let (res, f') = elf_process_pheader (phdr_at m (elf_program_header m f.elf_memory i)) f in
    elim res [ err e ↦ (err e, f') | ok _ ↦ pheaders_loop m rounds (i + 1) f' ]

unfoldable pub elf_process_pheaders : Memory → ElfFile → Status (Unit {0}) × ElfFile
elf_process_pheaders m f = pheaders_loop m (e_phnum m f.elf_memory) 0 f

unfoldable pub elf_process_loaded : Memory → ℕ → ElfFile → Status (Unit {0}) × ElfFile
elf_process_loaded m signature f = elim (elf_validate_loaded m signature f.elf_memory) [
  | err e ↦ (err e, f)
  | ok _ ↦ elf_process_pheaders m f
]
