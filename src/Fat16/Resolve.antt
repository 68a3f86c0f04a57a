-- ===== src/Fat16/Resolve.antt =====
-- The volume of a disk, fat16_resolve and fat16_get_root_directory of src/fs/fat/fat16.c. `kzalloc`
-- succeeds, and so does `diskstreamer_new`.
use serpae_os.Common.{
  ℕ, ◌+◌, ◌*◌, ◌/◌, Option, none, some, List, ◌==◌, if◌then◌else◌, drop, get_or, Status, ok, err,
  eio, enotus,
}
use serpae_os.Streamer.{sector_size, Controller, Disk}
use serpae_os.Fat16.{Volume, word_of, read_at}
use serpae_os.Fat16.Directory.{item_size, Directory, items_of, get_total_items_for_directory}

-- The bytes of `struct fat_h`.
abbrev pub header_size : ℕ
header_size = 62

abbrev pub fat16_signature : ℕ
fat16_signature = 0x29

abbrev pub byte_at : List ℕ → ℕ → ℕ
byte_at bytes i = get_or bytes i 0

abbrev pub root_dir_sector_pos : Volume → ℕ
root_dir_sector_pos v = v.fat_copies * v.sectors_per_fat + v.reserved_sectors

abbrev pub root_dir_size : Volume → ℕ
root_dir_size v = v.root_dir_entries * item_size

-- The fields of the header that are used, and the sector behind the root directory.
unfoldable pub header_of : List ℕ → Volume
header_of bytes =
    let entries = word_of (drop 17 bytes) in
    let root = byte_at bytes 16 * word_of (drop 22 bytes) + word_of (drop 14 bytes) in
    record {
      sectors_per_cluster = byte_at bytes 13;
      reserved_sectors = word_of (drop 14 bytes);
      fat_copies = byte_at bytes 16;
      sectors_per_fat = word_of (drop 22 bytes);
      root_dir_entries = entries;
      sectors_big = word_of (drop 32 bytes) + 65536 * word_of (drop 34 bytes);
      ending_sector_pos = root + entries * item_size / sector_size;
    }

-- The root directory. If its items could not be counted, their number is the error, a negative one.
pub data Root : Type 0 where
  counted : Directory → Root
  uncounted : Directory → Root

-- The result of `fat16_resolve`.
pub data Resolved : Type 0 where
  refused : ℕ → Resolved
  mounted : Volume → Root → Resolved

module _ {S : Type 0} (ata : Controller S) (disk : Disk) where
  -- `none` is a count that has not ended.
  unfoldable pub get_root_directory : Volume → ℕ → S → Option (Status Root)
  get_root_directory v fuel s =
      let pos = root_dir_sector_pos v in
      let copied = read_at ata disk (pos * sector_size) (root_dir_size v) s in
      let dir : ℕ → Directory = λ total. record {
        items = items_of v.root_dir_entries copied.bytes;
        total = total;
        sector_pos = pos;
      } in
      elim (get_total_items_for_directory ata disk fuel pos s) [
        | none ↦ none
        | some total ↦ elim copied.res [
          | err e ↦ some (err eio)
          | ok _ ↦ elim total [
            | ok n ↦ some (ok (counted (dir n)))
            | err e ↦ some (ok (uncounted (dir 0)))
          ]
        ]
      ]

  unfoldable pub resolve : ℕ → S → Option Resolved
  resolve fuel s =
      let copied = read_at ata disk 0 header_size s in
      let v = header_of copied.bytes in
      elim copied.res [
        | err e ↦ some (refused eio)
        | ok _ ↦
            if byte_at copied.bytes 38 == fat16_signature
            then elim (get_root_directory v fuel s) [
              | none ↦ none
              | some (err e) ↦ some (refused eio)
              | some (ok root) ↦ some (mounted v root)
            ]
            else some (refused enotus)
      ]
