-- ===== src/Process/Tests.antt =====
-- The theorems about the memory and the files of a process, at a heap of four blocks with a page
-- directory that maps all memory, and at a driver that always succeeds.
use serpae_os.Common.{
  ℕ, zero, suc, ◌+◌, ◌-◌, ◌*◌, ◌<◌, ◌≡◌, ◌≢◌, ◌⊎◌, refl, Option, none, some, List, [], ◌∷◌, ◌==◌,
  length, drop, get_or, replicate, arith, ap, sym, ◌∙◌, length-replicate, some_ne, Status, ok, err,
  get_or-replicate_same, enomem,
}
use serpae_os.Process.Slots.{
  Slots, done, stale, IsLive, process_get, any_loop, process_switch_to_any, process_unlink,
  process_unlink-stale,
}
use serpae_os.Common.Int.{ℤ, pos}
use serpae_os.PathParser.{PathRoot, parse}
use serpae_os.PathParser.RoundTrip.{print, parse-print}
use serpae_os.Files.{
  Filesystem, Disk, Files, FileDescriptor, first_free, new_descriptor, get_mode_by_string,
  mode_loop, disk_get, open_with, fopen,
}
use serpae_os.Files.Table.{IsTable}
use serpae_os.Heap
use serpae_os.Heap.{
  Heap, outside, align_value_to_upper, malloc_blocks, malloc, free, mark_blocks_taken,
  get_start_block, get_entry_type, block_to_address,
}
use serpae_os.Paging.{map_to, align_address, Memory, new_4gb, get_physical_address}
use serpae_os.Paging.Map.{Mapped, map_to-Mapped}
use serpae_os.Bytes
use serpae_os.Paging.Layout.{Layout}
use serpae_os.Paging.Identity.{Separate, new_4gb-Layout}
use serpae_os.Elf.{ElfFile, phdr_at, elf_program_header, elf_pheader, elf_phdr_phys_address}
use serpae_os.Elf.Bounds.{phdr_of}
use serpae_os.Process.Mapping.{IsPlaced, process_map_elf, process_map_elf-get_physical_address}
use serpae_os.Process.Iob.{
  free_entry, process_fopen, process_fclose, process_terminate_files, process_terminate_files-same,
  process_fclose-process_fopen,
}
use serpae_os.Process.{
  mapping_end, empty, Kernel, Process, process_malloc, process_free, find_free_alloc_index,
}
use serpae_os.Process.Allocations.{process_free-process_malloc}

driver : ℕ → Filesystem ℕ (Unit {0})
driver _ = record {
  open_file = λ disk parts mode s. (ok 7, s + 1);
  read = λ disk private size s. (ok (1, replicate size 0), s + 1);
  seek = λ private offset whence s. (ok 0, s + 1);
  stat = λ disk private s. (ok (0, tt), s + 1);
  close = λ private s. (ok 0, s + 1);
  write = λ disk private buf s. (ok (length buf), s + 1);
  delete = λ disk private s. (ok 0, s + 1);
  ftell = λ private s. (ok 0, s + 1);
}

abbrev no_disk : List Disk
no_disk = replicate 13 (record { dev = 0; filesystem = 0 })

abbrev disks : List Disk
disks = record { dev = 1; filesystem = 1 } ∷ drop 1 no_disk

abbrev files : Files ℕ
files = record { descriptors = replicate 512 none; freed = []; fs = 0 }

-- "0:/a"
abbrev root : PathRoot
root = record { drive_no = 0; parts = (97 ∷ []) ∷ [] }

parsed : parse (print root) ≡ some root
parsed =
    parse-print root (omega arith) (ground arith, (ground arith, ground arith, tt), tt)
      (omega arith)

-- The first entry is taken.
abbrev iob : List ℤ
iob = pos 3 ∷ replicate 19 (pos 0)

process_terminate_files-same_example : process_terminate_files driver disks iob files ≡ (iob, files)
process_terminate_files-same_example = process_terminate_files-same driver disks iob files

opened : (fopen driver disks (print root) (114 ∷ []) files).0 ≡ ok 1
unfolding fopen open_with get_mode_by_string mode_loop disk_get first_free new_descriptor driver
opened = rw (fopen, parsed)

failed : (fopen driver no_disk (print root) (114 ∷ []) files).0 ≡ err 1
unfolding fopen disk_get
failed = rw (fopen, parsed)

is_free : free_entry iob ≡ some 1
unfolding free_entry
is_free = refl

is_table : IsTable files.descriptors
is_table = record {
  size = length-replicate {A = Option FileDescriptor} 512 none;
  indexes = λ i desc e. absurd (some_ne desc (sym e ∙ get_or-replicate_same 512 i none));
}

closes : (filesystem private s : ℕ) → ((driver filesystem).close private s).0 ≡ ok 0
unfolding driver
closes filesystem private s = refl

process_fclose-process_fopen_example :
    let (fp, iob', f') = process_fopen driver disks (print root) (114 ∷ []) iob files in
    (fp ≡ some 1)
    × (get_or iob' 1 (pos 0) ≡ pos 1)
    × ((process_fclose driver disks 1 iob' f').0 ≡ iob)
    × ((process_fclose driver disks 1 iob' f').1.descriptors ≡ files.descriptors)
process_fclose-process_fopen_example =
    process_fclose-process_fopen driver disks (print root) (114 ∷ []) iob files 1 1 is_table closes
      opened (λ e. absurd (omega (arith, e))) is_free

-- The process at 1, which is shown, in the first slot, and the one at 2 in the second.
abbrev home_and_shell : Slots
home_and_shell = record {
  processes = 1 ∷ 2 ∷ replicate 48 0;
  freed = [];
  display = record {
    terminal = record { video = λ p. p; row = 3; col = 7 };
    screens = λ i. record { current_screen = i == 1; x = pos 0; y = 0; video = λ p. 32 };
    current = 1;
  };
}

-- With the one at 2 shown.
abbrev shell_shown : Slots
shell_shown = record home_and_shell { display = record home_and_shell.display { current = 2 } }

process_unlink-stale_example :
    ((home_and_shell.display.current ≢ 2)
      × ((s' : Slots) × (process_unlink 2 1 home_and_shell ≡ done s')
          × (process_get (pos 1) s'.processes ≡ 0)
          × ((i : ℕ) → i ≢ 1 → get_or s'.processes i 0 ≡ get_or home_and_shell.processes i 0)
          × (s'.freed ≡ 2 ∷ [])
          × IsLive s'))
    ⊎ ((home_and_shell.display.current ≡ 2) × (process_unlink 2 1 home_and_shell ≡ stale))
process_unlink-stale_example =
    process_unlink-stale home_and_shell 2 1 (λ e. absurd (omega (arith, e)))
      (λ e. absurd (omega (arith, e))) (λ e. absurd (omega (arith, e))) refl
      (0, refl, λ e. absurd (omega (arith, e)))

process_unlink-stale_current : process_unlink 2 1 shell_shown ≡ stale
unfolding process_unlink process_switch_to_any any_loop
process_unlink-stale_current = refl

-- A program at 0x10000 with one segment, of 4 bytes from 84 on.
abbrev program : Bytes.Memory
program a =
    get_or
      (127 ∷ 69 ∷ 76 ∷ 70 ∷ 1 ∷ 1 ∷ 1 ∷ 0 ∷ 0 ∷ 0 ∷ 0 ∷ 0 ∷ 0 ∷ 0 ∷ 0 ∷ 0 ∷ 2 ∷ 0 ∷ 3 ∷ 0 ∷ 1 ∷ 0
        ∷ 0 ∷ 0 ∷ 84 ∷ 0 ∷ 64 ∷ 0 ∷ 52 ∷ 0 ∷ 0 ∷ 0 ∷ 0 ∷ 0 ∷ 0 ∷ 0 ∷ 0 ∷ 0 ∷ 0 ∷ 0 ∷ 52 ∷ 0 ∷ 32 ∷ 0
        ∷ 1 ∷ 0 ∷ 0 ∷ 0 ∷ 0 ∷ 0 ∷ 0 ∷ 0 ∷ 1 ∷ 0 ∷ 0 ∷ 0 ∷ 84 ∷ 0 ∷ 0 ∷ 0 ∷ 84 ∷ 0 ∷ 64 ∷ 0 ∷ 84 ∷ 0
        ∷ 64 ∷ 0 ∷ 4 ∷ 0 ∷ 0 ∷ 0 ∷ 4 ∷ 0 ∷ 0 ∷ 0 ∷ 5 ∷ 0 ∷ 0 ∷ 0 ∷ 0 ∷ 16 ∷ 0 ∷ 0 ∷ [])
      (a - 0x10000) 0

abbrev elf_file : ElfFile
elf_file = record {
  elf_memory = 0x10000;
  virtual_base_address = 0x40_0054;
  virtual_end_address = 0x40_0058;
  physical_base_address = 0x1_0054;
  physical_end_address = 0x1_0058;
}

abbrev directory : ℕ
directory = 0x0100_0000

abbrev table : ℕ → ℕ
table i = 0x0200_0000 + i * 4096

separate : Separate directory table
separate = record {
  page = refl;
  pages = λ i h. omega arith;
  words = λ i h. omega arith;
  outside = λ i h. omega arith;
  distinct = λ i j p q ne. omega arith;
}

pages : Memory
pages = new_4gb (λ _. 0) directory table 5

pages-Layout : Layout pages directory
unfolding pages
pages-Layout = new_4gb-Layout directory table 5 separate (λ _. 0) (omega arith)

-- The heap of the kernel: four blocks, of which the second is taken.
abbrev kernel_heap : Heap
kernel_heap = record { entries = 0 ∷ 0x41 ∷ 0 ∷ 0 ∷ []; saddr = 0x0100_0000 }

abbrev kernel_heap' : Heap
kernel_heap' = record { entries = 0 ∷ 0x41 ∷ 0xc1 ∷ 0x01 ∷ []; saddr = 0x0100_0000 }

abbrev malloc_from : ℕ → Heap → ℕ × Heap
malloc_from size h = elim (malloc h size) [ outside ↦ (0, h) | Heap.done h' ptr ↦ (ptr, h') ]

abbrev free_to : ℕ → Heap → Heap
free_to ptr h = elim (free h ptr) [ none ↦ h | some h' ↦ h' ]

-- kmalloc and kfree of the heap, and paging_map_to of the directory.
abbrev kernel : Kernel Heap Memory
kernel = record {
  kzalloc = malloc_from;
  kfree = free_to;
  map_to = λ ptr end flags m. let r = map_to m directory ptr ptr end flags in (r.res, r.memory);
}

-- The first entry is taken, the second one free.
abbrev process : Process Heap Memory
process = record {
  allocations = record { ptr = 8192; size = 5 } ∷ empty ∷ [];
  heap = kernel_heap;
  page_directory = pages;
}

malloc_bytes : malloc_from 5000 kernel_heap ≡ (0x0100_2000, kernel_heap')
unfolding malloc align_value_to_upper malloc_blocks mark_blocks_taken get_start_block get_entry_type
    block_to_address
malloc_bytes = refl

abbrev pages_mapped : Memory
pages_mapped = (map_to pages directory 0x0100_2000 0x0100_2000 0x0100_4000 7).memory

abbrev pages_unmapped : Memory
pages_unmapped = (map_to pages_mapped directory 0x0100_2000 0x0100_2000 0x0100_4000 0).memory

first_pages :
    (let r = map_to pages directory (0x1002 * 4096) (0x1002 * 4096) ((0x1002 + 2) * 4096) 7 in
      (r.res ≡ ok tt) × Mapped pages directory 0x1002 0x1002 2 7 r.memory)
first_pages =
    map_to-Mapped directory 7 (omega arith) pages 0x1002 0x1002 2 pages-Layout (omega arith)
      (omega arith)

mapped : kernel.map_to 0x0100_2000 (mapping_end 0x0100_2000 5000) 7 pages ≡ (ok tt, pages_mapped)
unfolding align_address
mapped = ap (λ res. (res, pages_mapped)) first_pages.0

unmapped :
    kernel.map_to 0x0100_2000 (mapping_end 0x0100_2000 5000) 0 pages_mapped
    ≡ (ok tt, pages_unmapped)
unfolding align_address
unmapped =
    ap (λ res. (res, pages_unmapped))
      (map_to-Mapped directory 0 (omega arith) pages_mapped 0x1002 0x1002 2 first_pages.1.layout
        (omega arith) (omega arith)).0

process_free-process_malloc_example :
    ((Path (Status (Unit {0})) (ok tt) (ok tt))
      × ((process_malloc kernel 5000 process).0 ≡ 0x0100_2000)
      × (((Path (Status (Unit {0})) (ok tt) (ok tt))
            × (process_free kernel 0x0100_2000 (process_malloc kernel 5000 process).1 ≡ record {
              allocations = process.allocations;
              heap = free_to 0x0100_2000 kernel_heap';
              page_directory = pages_unmapped;
            }))
          ⊎ ((e : ℕ) × (Path (Status (Unit {0})) (ok tt) (err e))
              × (process_free kernel 0x0100_2000 (process_malloc kernel 5000 process).1 ≡ record {
                allocations = (process_malloc kernel 5000 process).1.allocations;
                heap = kernel_heap';
                page_directory = pages_unmapped;
              }))))
    ⊎ ((find_free_alloc_index process.allocations ≡ err enomem)
        × (process_malloc kernel 5000 process ≡ (
          0,
          record {
            allocations = process.allocations;
            heap = free_to 0x0100_2000 kernel_heap';
            page_directory = pages;
          },
        )))
    ⊎ ((e : ℕ) × (Path (Status (Unit {0})) (ok tt) (err e))
        × (process_malloc kernel 5000 process ≡ (
          0,
          record {
            allocations = process.allocations;
            heap = free_to 0x0100_2000 kernel_heap';
            page_directory = pages_mapped;
          },
        )))
process_free-process_malloc_example =
    process_free-process_malloc kernel process 5000 0x0100_2000 kernel_heap' (ok tt) (ok tt)
      pages_mapped pages_unmapped malloc_bytes (λ e. absurd (omega (arith, e)))
      ((
        λ e. absurd (omega (arith, e)),
        λ e. absurd (omega (arith, e)),
        ((λ e. refl), λ e. absurd (omega (arith, e)), tt),
      ))
      mapped unmapped

placed : (k : ℕ) → k < 1 → IsPlaced elf_file (phdr_of program 0x10000 k)
unfolding phdr_at elf_program_header elf_pheader elf_phdr_phys_address
placed zero lt = record {
  congruent = refl;
  virtual_room = omega arith;
  physical_room = omega arith;
}
placed (suc k) lt = absurd (omega (arith, lt))

last_byte : 3 < (phdr_of program 0x10000 0).p_memsz
unfolding phdr_at elf_program_header elf_pheader
last_byte = omega arith

process_map_elf-get_physical_address_example :
    ((process_map_elf program pages directory elf_file).res ≡ ok tt)
    × (get_physical_address
          (process_map_elf program pages directory elf_file).memory
          directory
          ((phdr_of program 0x10000 0).p_vaddr + 3)
        ≡ elf_phdr_phys_address elf_file (phdr_of program 0x10000 0) + 3)
process_map_elf-get_physical_address_example =
    process_map_elf-get_physical_address program directory elf_file pages 0 3 pages-Layout placed
      (λ i k lt h. absurd (omega (arith, lt, h))) (omega arith) last_byte
