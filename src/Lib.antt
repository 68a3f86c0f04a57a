-- ===== src/Lib.antt =====
-- The SerpaeOS kernel: a model of its memory management, strings, paths, open files, disk
-- streams, FAT16 volumes, screens, tasks, program loader and key buffer, with the theorems that make
-- them correct.
--
-- - Heap: the block allocator of the kernel heap (src/memory/heap/heap.c). `create` is heap_create,
--   `malloc` heap_malloc, `free` heap_free, and so on for the functions that they call. The table is
--   a list of bytes; a write outside it is a result of its own.
-- - Paging: page directories and tables (src/memory/paging/paging.c) as words of a memory, which is
--   a function from addresses. The addresses that kzalloc returns are arguments.
-- - Str: the strings of src/string/string.c, as lists of bytes, and atoi of
--   programs/stdlib/src/string.c, which reads what itoa writes.
-- - PathParser: paths such as 0:/bin/shell (src/fs/pparser.c), to a drive and the texts of its parts.
-- - Keyboard: the key buffer of a process (src/keyboard/keyboard.c), as its array, tail and head.
-- - Files: the open files of the kernel (src/fs/file.c) over the drivers of the file systems, whose
--   functions are a parameter: any functions on any state. fopen parses with PathParser.
-- - Streamer: byte streams on a disk (src/disk/streamer.c) over the blocks of src/disk/disk.c. The
--   commands of the controller are a parameter, with what a disk that works does as hypotheses.
-- - Bytes: memset, memcmp and memcpy (src/memory/memory.c) on a memory of bytes, which is a function
--   from addresses.
-- - Fat16: volumes with FAT16 (src/fs/fat/fat16.c, fat16_write.c, fat16_common.h) over Streamer: Table
--   and Chains for the file allocation table, Names and Directory for entries, Lookup for paths, Reads
--   for the bytes of a file, Resolve for the mount, Files, Update and Write for open files. A disk is
--   the state of its controller, and the root directory is a parameter.
-- - Terminal: the text screen and its cursor (src/graphics/graphics.c).
-- - Screen: the screens of processes (src/task/process.c) and the switch of the shown one, which copies
--   between them and Terminal.
-- - Process: the memory that a process allocates, over any heap and any page directory, its files, over
--   Files, the table of processes, over Screen, and the mapping of a program, over Elf and Paging
--   (src/task/process.c).
-- - Task: the list of tasks and the choice of the next one (src/task/task.c), at addresses that kzalloc
--   answers.
-- - Elf: the checks of a program, the bounds of its segments, and its load from a file
--   (src/loader/formats/elfloader.c) over Files and Bytes.
-- - Common: shared notation, arrays as lists, the error numbers of src/status.h, and laws of the
--   bit operations.
--
-- Not modelled: the file system FAT32, the loading of processes as a whole, system calls, and what only
-- talks to the hardware. kzalloc succeeds wherever its callers take that for granted.
-- The root directory of a volume stays readable after fat16_write_directory_entry gave it to kfree.
--
-- Loops recur on the rounds that are left or on the list they walk. Fuel stands for a number of
-- rounds in five places: the parts of a path (its length is enough, since each part takes a byte),
-- the walks along a chain of clusters and over a directory, and writes over clusters (a round for
-- each cluster, for a directory one for each item and one more, for a write one for each byte and
-- one more), the walks along the list of tasks (a round for each task and one more), the digits of
-- itoa (10 are enough for 32 bits), and the calls of a stream's read (one for each sector it
-- touches, and one more at the end of a sector). Numbers of C are natural numbers, with the
-- wrap-around of 32-bit arithmetic written out where the code can reach it; positions of a stream
-- are taken to be below 2^31.
pub mod Bytes
pub mod Common
pub mod Elf
pub mod Fat16
pub mod Files
pub mod Heap
pub mod Keyboard
pub mod Paging
pub mod PathParser
pub mod Process
pub mod Screen
pub mod Str
pub mod Streamer
pub mod Task
pub mod Terminal
