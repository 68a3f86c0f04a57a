-- ===== src/Elf/Tests.antt =====
-- A program with one segment for the theorems on the program loader.
use serpae_os.Common.{
  ℕ, zero, suc, ◌+◌, ◌-◌, ◌<◌, ◌≡◌, ◌↔◌, refl, Option, none, some, List, [], ◌∷◌, ◌++◌, ltb,
  if◌then◌else◌, length, take, get_or, replicate, arith, ap, sym, ◌∙◌, length-replicate, some_ne,
  Status, ok, get_or-replicate_same, ok-injective,
}
use serpae_os.Bytes.{Memory, memset, memcmp, char_lt}
use serpae_os.PathParser.{PathRoot, parse}
use serpae_os.PathParser.RoundTrip.{print, parse-print}
use serpae_os.Files.{
  Filesystem, Disk, Files, FileDescriptor, first_free, new_descriptor, get_descriptor,
  with_descriptor, get_mode_by_string, mode_loop, disk_get, open_with, fopen, fstat, fread,
}
use serpae_os.Files.Table.{IsTable}
use serpae_os.Elf.{
  ElfFile, elf_valid_signature, elf_valid_class, elf_valid_encoding, elf_has_program_header,
  elf_validate_loaded, phdr_at, elf_pheader, elf_program_header, lower_base, raise_end,
  elf_process_phdr_pt_load, elf_process_pheader, pheaders_loop, elf_process_pheaders,
  elf_process_loaded, e_phnum,
}
use serpae_os.Elf.Check.{IsMagic, IsElf, elf_validate_loaded_iff}
use serpae_os.Elf.Bounds.{IsLoad, phdr_of, IsSpan}
use serpae_os.Elf.Span.{elf_process_loaded-IsSpan}
use mathlib.Core.Path.{subst}
use serpae_os.Elf.Load.{
  Loader, store_bytes, elf_load, load_open, kzalloc, close_file, elf_load-descriptors,
}
use serpae_os.Elf.Accept.{elf_load-IsElf}

-- The header, one program header, and the code.
abbrev header : List ℕ
header =
    127 ∷ 69 ∷ 76 ∷ 70 ∷ 1 ∷ 1 ∷ 1 ∷ 0 ∷ 0 ∷ 0 ∷ 0 ∷ 0 ∷ 0 ∷ 0 ∷ 0 ∷ 0 ∷ 2 ∷ 0 ∷ 3 ∷ 0 ∷ 1 ∷ 0 ∷ 0
    ∷ 0 ∷ 0 ∷ 0 ∷ 64 ∷ 0 ∷ 52 ∷ 0 ∷ 0 ∷ 0 ∷ 0 ∷ 0 ∷ 0 ∷ 0 ∷ 0 ∷ 0 ∷ 0 ∷ 0 ∷ 52 ∷ 0 ∷ 32 ∷ 0 ∷ 1 ∷ 0
    ∷ 0 ∷ 0 ∷ 0 ∷ 0 ∷ 0 ∷ 0 ∷ []

abbrev program : List ℕ
program =
    header
    ++ 1 ∷ 0 ∷ 0 ∷ 0 ∷ 84 ∷ 0 ∷ 0 ∷ 0 ∷ 0 ∷ 0 ∷ 64 ∷ 0 ∷ 0 ∷ 0 ∷ 64 ∷ 0 ∷ 4 ∷ 0 ∷ 0 ∷ 0 ∷ 8 ∷ 0 ∷ 0
      ∷ 0 ∷ 5 ∷ 0 ∷ 0 ∷ 0 ∷ 0 ∷ 16 ∷ 0 ∷ 0 ∷ 184 ∷ 0 ∷ 0 ∷ 195 ∷ []

abbrev magic : List ℕ
magic = 127 ∷ 69 ∷ 76 ∷ 70 ∷ []

-- The program at 0, and the signature at 1000.
abbrev memory : Memory
memory a = if ltb a 1000 then get_or program a 0 else get_or magic (a - 1000) 0

own : IsMagic memory 1000
own = record { byte_0 = refl; byte_1 = refl; byte_2 = refl; byte_3 = refl }

elf_validate_loaded_iff_example : (elf_validate_loaded memory 1000 0 ≡ ok tt) ↔ IsElf memory 0
elf_validate_loaded_iff_example = elf_validate_loaded_iff memory 1000 0 own

abbrev file : ElfFile
file = record {
  elf_memory = 0;
  virtual_base_address = 0;
  virtual_end_address = 0;
  physical_base_address = 0;
  physical_end_address = 0;
}

valid : elf_validate_loaded memory 1000 0 ≡ ok tt
unfolding elf_validate_loaded elf_valid_signature elf_valid_class elf_valid_encoding
    elf_has_program_header memcmp
valid = refl

positive : (i : ℕ) → IsLoad memory 0 1 i → 0 < (phdr_of memory 0 i).p_vaddr
unfolding phdr_at elf_program_header elf_pheader
positive zero load = omega arith
positive (suc i) load = absurd (omega (arith, load.0))

elf_process_loaded-IsSpan_example :
    (f' : ElfFile) × (elf_process_loaded memory 1000 file ≡ (ok tt, f')) × IsSpan memory 0 1 f'
elf_process_loaded-IsSpan_example =
    elf_process_loaded-IsSpan memory 1000 file valid refl refl positive

-- A driver of one file, which is the program.
driver : ℕ → Filesystem ℕ ℕ
driver _ = record {
  open_file = λ disk parts mode s. (ok 7, s + 1);
  read = λ disk private size s. (ok (1, take size program), s + 1);
  seek = λ private offset whence s. (ok 0, s + 1);
  stat = λ disk private s. (ok (0, length program), s + 1);
  close = λ private s. (ok 0, s + 1);
  write = λ disk private buf s. (ok (length buf), s + 1);
  delete = λ disk private s. (ok 0, s + 1);
  ftell = λ private s. (ok 0, s + 1);
}

abbrev disks : List Disk
disks = record { dev = 1; filesystem = 1 } ∷ replicate 12 (record { dev = 0; filesystem = 0 })

-- "0:/a"
abbrev root : PathRoot
root = record { drive_no = 0; parts = (97 ∷ []) ∷ [] }

parsed : parse (print root) ≡ some root
parsed =
    parse-print root (omega arith) (ground arith, (ground arith, ground arith, tt), tt)
      (omega arith)

-- The heap is the next address.
abbrev kmalloc : ℕ → ℕ → ℕ × ℕ
kmalloc size heap = (heap, heap + size)

abbrev loader : Loader ℕ ℕ
loader = record {
  files = record { descriptors = replicate 512 none; freed = []; fs = 0 };
  heap = 4096;
  memory = memory;
}

is_table : IsTable loader.files.descriptors
is_table = record {
  size = length-replicate {A = Option FileDescriptor} 512 none;
  indexes = λ i desc e. absurd (some_ne desc (sym e ∙ get_or-replicate_same 512 i none));
}

opened : (fopen driver disks (print root) (114 ∷ []) loader.files).0 ≡ ok 1
unfolding fopen open_with get_mode_by_string mode_loop disk_get first_free new_descriptor driver
opened = rw (fopen, parsed)

closes : (filesystem private s : ℕ) → ((driver filesystem).close private s).0 ≡ ok 0
unfolding driver
closes filesystem private s = refl

elf_load-descriptors_example :
    (elf_load driver disks (λ size. size) kmalloc 1000 (print root) loader).1.files.descriptors
    ≡ loader.files.descriptors
elf_load-descriptors_example =
    elf_load-descriptors driver disks (λ size. size) kmalloc 1000 (print root) loader is_table
      closes (λ e. absurd (omega (arith, ok-injective (sym opened ∙ e))))

-- What the load answers.
abbrev loaded : ElfFile
loaded = record {
  elf_memory = 4228;
  virtual_base_address = 0x400000;
  virtual_end_address = 0x400004;
  physical_base_address = 4312;
  physical_end_address = 4316;
}

abbrev open_files : Files ℕ
open_files = record {
  descriptors =
      some (record { index = 1; filesystem = 1; private = 7; disk = 0; mode = 1 })
      ∷ replicate 511 none;
  freed = [];
  fs = 1;
}

opened_all : fopen driver disks (print root) (114 ∷ []) loader.files ≡ (ok 1, open_files)
unfolding fopen open_with get_mode_by_string mode_loop disk_get first_free new_descriptor driver
opened_all = rw (fopen, parsed)

-- Behind the record of the file.
abbrev before : Loader ℕ ℕ
before = record { files = open_files; heap = 4228; memory = memset memory 4096 0 132 }

abbrev final : Memory
final = store_bytes (memset (memset memory 4096 0 132) 4228 0 88) 4228 program

load_open_success :
    ((load_open driver disks (λ size. size) kmalloc 1000 1 before).0 ≡ ok loaded)
    × ((load_open driver disks (λ size. size) kmalloc 1000 1 before).1.memory ≡ final)
unfolding load_open kzalloc driver fstat fread with_descriptor get_descriptor memset
    elf_process_loaded elf_process_pheaders pheaders_loop elf_process_pheader
    elf_process_phdr_pt_load lower_base raise_end phdr_at elf_program_header elf_pheader
    elf_validate_loaded elf_valid_signature elf_valid_class elf_valid_encoding
    elf_has_program_header memcmp char_lt
load_open_success = (refl, refl)

abbrev load : Status ElfFile × Loader ℕ ℕ
load = elf_load driver disks (λ size. size) kmalloc 1000 (print root) loader

load_success : (load.0 ≡ ok loaded) × (load.1.memory ≡ final)
unfolding elf_load kzalloc close_file
load_success =
    let files : (fopen driver disks (print root) (114 ∷ []) loader.files).1 ≡ open_files =
      ap (λ r. r.1) opened_all in
    rw (elf_load, opened_all, close_file)
      (
        ap
              (λ files.
                (load_open driver disks (λ size. size) kmalloc 1000 1
                  (record before { files = files })).0)
              files
            ∙ load_open_success.0,
        ap
              (λ files.
                (load_open driver disks (λ size. size) kmalloc 1000 1
                  (record before { files = files })).1.memory)
              files
            ∙ load_open_success.1,
      )

final_own : IsMagic final 1000
unfolding memset
final_own = record { byte_0 = refl; byte_1 = refl; byte_2 = refl; byte_3 = refl }

final_positive :
    (i : ℕ) → IsLoad final 4228 (e_phnum final 4228) i → 0 < (phdr_of final 4228 i).p_vaddr
unfolding phdr_at elf_program_header elf_pheader memset
final_positive zero l = omega arith
final_positive (suc i) l = absurd (omega (arith, l.0))

elf_load-IsElf_example :
    IsElf load.1.memory 4228 × IsSpan load.1.memory 4228 (e_phnum load.1.memory 4228) loaded
elf_load-IsElf_example =
    elf_load-IsElf driver disks (λ size. size) kmalloc 1000 (print root) loader loaded
      load_success.0 (subst (λ m. IsMagic m 1000) (sym load_success.1) final_own)
      (subst (λ m. (i : ℕ) → IsLoad m 4228 (e_phnum m 4228) i → 0 < (phdr_of m 4228 i).p_vaddr)
        (sym load_success.1) final_positive)
