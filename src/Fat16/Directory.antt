-- ===== src/Fat16/Directory.antt =====
-- Directories of a FAT16 volume, src/fs/fat/fat16.c: their entries, their number, and the entry for a
-- path. `kzalloc` succeeds.
pub mod Find
pub mod Count
pub mod Bytes
use serpae_os.Common.{
  ℕ, zero, suc, ◌+◌, ◌-◌, ◌*◌, ◌/◌, ◌%◌, ◌^◌, ◌≤◌, ◌<◌, ◌≡◌, ◌≢◌, ◌↔◌, ◌⊎◌, inl, inr, refl, Bool,
  true, false, not, ◌&&◌, ◌||◌, Option, none, some, List, [], ◌∷◌, ◌++◌, map, ltb, leb, ◌==◌,
  if◌then◌else◌, length, take, drop, set, get_or, get_elem?, replicate, arith, ap, ap₂, sym, ◌∙◌,
  length-append, length-set, get_or-set_self, get_or-set_ne, set-set, get_or-replicate, get_or_ext,
  length-replicate, length-take, length-drop, get_or-snoc_self, get_or-snoc_ne, get_or_out,
  List-cases, some_cancel, some_ne, Option-cases, Bool-cases, range_cases, tests, dec_lt, dec_le,
  ℕ_discrete, Status, ok, err, Status-cases, eio, bit_and, bit_or,
}
use serpae_os.Common.Int.{pos}
use serpae_os.PathParser.{max_path}
use serpae_os.Str.{istrncmp}
use serpae_os.Streamer.{sector_size, Controller, Disk}
use serpae_os.Fat16.{
  Volume, word_of, bytes_of_word, cluster_to_sector, read_at, read_internal, cluster_bytes,
}
use serpae_os.Fat16.Names.{get_full_relative_filename}

abbrev pub item_size : ℕ
item_size = 32

abbrev pub file_read_only : ℕ
file_read_only = 0x01

abbrev pub file_subdirectory : ℕ
file_subdirectory = 0x10

pub record DirectoryItem : Type 0 where
  pub filename : List ℕ
  pub ext : List ℕ
  pub attribute : ℕ
  pub reserved : ℕ
  pub creation_time_tenths_of_a_sec : ℕ
  pub creation_time : ℕ
  pub creation_date : ℕ
  pub last_access : ℕ
  pub high_16_bits_first_cluster : ℕ
  pub last_mod_time : ℕ
  pub last_mod_date : ℕ
  pub low_16_bits_first_cluster : ℕ
  pub filesize : ℕ

-- The packed structure in its 32 bytes.
abbrev word_at : List ℕ → ℕ → ℕ
word_at bytes i = get_or bytes i 0 + 256 * get_or bytes (i + 1) 0

unfoldable pub item_of : List ℕ → DirectoryItem
item_of bytes = record {
  filename = take 8 bytes;
  ext = take 3 (drop 8 bytes);
  attribute = get_or bytes 11 0;
  reserved = get_or bytes 12 0;
  creation_time_tenths_of_a_sec = get_or bytes 13 0;
  creation_time = word_at bytes 14;
  creation_date = word_at bytes 16;
  last_access = word_at bytes 18;
  high_16_bits_first_cluster = word_at bytes 20;
  last_mod_time = word_at bytes 22;
  last_mod_date = word_at bytes 24;
  low_16_bits_first_cluster = word_at bytes 26;
  filesize = word_at bytes 28 + 65536 * word_at bytes 30;
}

unfoldable pub bytes_of_item : DirectoryItem → List ℕ
bytes_of_item i =
    i.filename
    ++ (i.ext
        ++ (i.attribute
            ∷ i.reserved
            ∷ i.creation_time_tenths_of_a_sec
            ∷ (bytes_of_word i.creation_time
                ++ (bytes_of_word i.creation_date
                    ++ (bytes_of_word i.last_access
                        ++ (bytes_of_word i.high_16_bits_first_cluster
                            ++ (bytes_of_word i.last_mod_time
                                ++ (bytes_of_word i.last_mod_date
                                    ++ (bytes_of_word i.low_16_bits_first_cluster
                                        ++ (bytes_of_word (i.filesize % 65536)
                                            ++ bytes_of_word (i.filesize / 65536)))))))))))

unfoldable pub get_first_cluster : DirectoryItem → ℕ
get_first_cluster i = bit_or (i.high_16_bits_first_cluster * 2 ^ 16) i.low_16_bits_first_cluster

abbrev pub is_directory : DirectoryItem → Bool
is_directory i = not (bit_and i.attribute file_subdirectory == 0)

pub record Directory : Type 0 where
  pub items : List DirectoryItem
  pub total : ℕ
  pub sector_pos : ℕ

-- `struct fat_item`. A directory that could not be read is `freed`: the code frees it, and returns it
-- (or null, for an item that is no directory, which no caller passes). `overrun` is a memset of a
-- negative size, which runs over all memory.
pub data FatItem : Type 0 where
  file : DirectoryItem → FatItem
  directory : Directory → FatItem
  freed : FatItem
  overrun : FatItem

-- The buffer of the callers here has 108 bytes, which every name fits.
unfoldable pub has_name : List ℕ → DirectoryItem → Bool
has_name name item = elim (get_full_relative_filename item.filename item.ext max_path) [
  | none ↦ false
  | some text ↦ elim (istrncmp text name max_path) [ pos n ↦ n == 0 | _ ↦ false ]
]

-- The loops over the first `total` items: the index of the first that has the name.
unfoldable pub find_entry_in_directory : List DirectoryItem → ℕ → List ℕ → Option ℕ
find_entry_in_directory items zero name = none
find_entry_in_directory [] (suc total) name = none
find_entry_in_directory (item ∷ items) (suc total) name =
    let rest = find_entry_in_directory items total name in
    if has_name name item then some 0 else elim rest [ none ↦ none | some i ↦ some (suc i) ]

-- The items that `total * 32` bytes hold.
unfoldable pub items_of : ℕ → List ℕ → List DirectoryItem
unfolding item_of
items_of zero bytes = []
items_of (suc total) bytes = item_of bytes ∷ items_of total (drop item_size bytes)

module _ {S : Type 0} (ata : Controller S) (disk : Disk) where
  -- The loop of `fat16_get_total_items_for_directory`, which ends at the first byte 0 of a name.
  -- `none` is a loop that has not ended.
  unfoldable pub count_loop : ℕ → ℕ → ℕ → S → Option (Status ℕ)
  count_loop zero position i s = none
  count_loop (suc fuel) position i s =
      let copied = read_at ata disk position item_size s in
      let first = get_or copied.bytes 0 0 in
      let skip = count_loop fuel (position + item_size) i s in
      let more = count_loop fuel (position + item_size) (i + 1) s in
      elim copied.res [
        | err e ↦ some (err eio)
        | ok _ ↦ if first == 0 then some (ok i) else if first == 0xE5 then skip else more
      ]

  unfoldable pub get_total_items_for_directory : ℕ → ℕ → S → Option (Status ℕ)
  get_total_items_for_directory fuel directory_start_sector s =
      count_loop fuel (directory_start_sector * sector_size) 0 s

module _ {S : Type 0} (ata : Controller S) (disk : Disk) (v : Volume) where
  -- A directory whose items cannot be counted has the total -EIO: the -32 bytes are no block of the
  -- heap, and the memset of kzalloc writes them as 2^32 - 32 bytes.
  unfoldable pub load_fat_directory : ℕ → DirectoryItem → S → Option FatItem
  load_fat_directory fuel item s =
      let cluster = get_first_cluster item in
      let cluster_sector = cluster_to_sector v cluster in
      if not (is_directory item)
      then some freed
      else elim (get_total_items_for_directory ata disk fuel cluster_sector s) [
        | none ↦ none
        | some (err e) ↦ some overrun
        | some (ok total) ↦
            elim (read_internal ata disk v (total * item_size + 1) cluster 0 (total * item_size)
              s) [
                | none ↦ none
                | some (bytes, res) ↦
                    if res == 0
                    then some (
                        directory (record {
                          items = items_of total bytes;
                          total = total;
                          sector_pos = cluster_sector;
                        }))
                    else some freed
              ]
      ]

  unfoldable pub new_fat_item_for_directory_item : ℕ → DirectoryItem → S → Option FatItem
  new_fat_item_for_directory_item fuel item s =
      if is_directory item then load_fat_directory fuel item s else some (file item)
