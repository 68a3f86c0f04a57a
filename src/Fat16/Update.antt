-- ===== src/Fat16/Update.antt =====
-- Files of a FAT16 volume that change: fat16_open of src/fs/fat/fat16.c, which stores the date of the
-- access, and fat16_write_directory_entry, fat16_delete and fat16_write of src/fs/fat/fat16_write.c.
-- The parent directory is the one on the disk, or the root directory as it was read when the disk was
-- found.
pub mod Entry
pub mod Delete
use serpae_os.Common.{
  ℕ, zero, suc, ◌+◌, ◌-◌, ◌*◌, ◌/◌, ◌%◌, ◌^◌, ◌≤◌, ◌<◌, ◌≡◌, ◌≢◌, ◌↔◌, ◌⊎◌, inl, inr, refl, Bool,
  true, false, not, ◌&&◌, ◌||◌, Option, none, some, List, [], ◌∷◌, ◌++◌, map, ltb, leb, ◌==◌,
  if◌then◌else◌, length, take, drop, set, get_or, get_elem?, replicate, arith, ap, ap₂, sym, ◌∙◌,
  length-append, length-set, get_or-set_self, get_or-set_ne, set-set, get_or-replicate, get_or_ext,
  length-replicate, length-take, length-drop, get_or-snoc_self, get_or-snoc_ne, get_or_out,
  List-cases, some_cancel, some_ne, Option-cases, Bool-cases, range_cases, tests, dec_lt, dec_le,
  ℕ_discrete, Status, ok, err, Status-cases, eio, einvarg, erdonly, bit_and,
}
use serpae_os.Common.Int.{pos}
use serpae_os.Str.{istrncmp}
use serpae_os.Streamer.{sector_size, Controller, Disk}
use serpae_os.Streamer.Read.{bytes_of}
use serpae_os.Fat16.{
  Volume, cluster_bytes, cluster_to_sector, sector_to_absolute, filesize_to_cluster_count,
  get_fat_entry, write_at,
}
use serpae_os.Fat16.Names.{get_full_relative_filename}
use serpae_os.Fat16.Chains.{
  u16, is_end, Written, find_last_cluster_of_chain, add_cluster_to_chain, erase_cluster_chain,
}
use serpae_os.Fat16.Directory.{
  item_size, file_read_only, DirectoryItem, Directory, FatItem, file, directory, freed, overrun,
  bytes_of_item, get_first_cluster,
}
use serpae_os.Fat16.Files.{FatFile, DateTime, pack_date, seek, seek_end}
use serpae_os.Fat16.Lookup.{
  Lookup, found, missing, bad_access, running, get_directory_entry, get_parent_dir,
}

abbrev pub file_mode_write : ℕ
file_mode_write = 2

abbrev pub file_mode_append : ℕ
file_mode_append = 4

-- What a function leaves on the disk and answers, an access of memory that is not its own, or a loop
-- that has not ended.
pub data Outcome (S A : Type 0) : Type 0 where
  done : S → A → Outcome S A
  fault : Outcome S A
  looping : Outcome S A

-- The loop of `fat16_write_directory_entry` over the items: the index of the first that has the name,
-- or `none` behind the last; the outer `none` is a write behind the buffer of 12 bytes.
unfoldable pub match_loop : List DirectoryItem → ℕ → List ℕ → Option (Option ℕ)
match_loop items zero name = some none
match_loop [] (suc total) name = some none
match_loop (item ∷ items) (suc total) name =
    let rest = match_loop items total name in
    elim (get_full_relative_filename item.filename item.ext 12) [
      | none ↦ none
      | some tmp_path ↦
          let same : Bool = elim (istrncmp name tmp_path 12) [ pos n ↦ n == 0 | _ ↦ false ] in
          if same then some (some 0) else elim rest [
            | none ↦ none
            | some none ↦ some none
            | some (some i) ↦ some (some (suc i))
          ]
    ]

-- The last part of a path.
abbrev pub get_last_part : List ℕ → List (List ℕ) → List ℕ
get_last_part part [] = part
get_last_part part (next ∷ parts) = get_last_part next parts

unfoldable pub with_last_access : DirectoryItem → ℕ → DirectoryItem
with_last_access i date = record {
  filename = i.filename;
  ext = i.ext;
  attribute = i.attribute;
  reserved = i.reserved;
  creation_time_tenths_of_a_sec = i.creation_time_tenths_of_a_sec;
  creation_time = i.creation_time;
  creation_date = i.creation_date;
  last_access = date;
  high_16_bits_first_cluster = i.high_16_bits_first_cluster;
  last_mod_time = i.last_mod_time;
  last_mod_date = i.last_mod_date;
  low_16_bits_first_cluster = i.low_16_bits_first_cluster;
  filesize = i.filesize;
}

unfoldable pub with_filename : DirectoryItem → List ℕ → DirectoryItem
with_filename i filename = record {
  filename = filename;
  ext = i.ext;
  attribute = i.attribute;
  reserved = i.reserved;
  creation_time_tenths_of_a_sec = i.creation_time_tenths_of_a_sec;
  creation_time = i.creation_time;
  creation_date = i.creation_date;
  last_access = i.last_access;
  high_16_bits_first_cluster = i.high_16_bits_first_cluster;
  last_mod_time = i.last_mod_time;
  last_mod_date = i.last_mod_date;
  low_16_bits_first_cluster = i.low_16_bits_first_cluster;
  filesize = i.filesize;
}

unfoldable pub with_filesize : DirectoryItem → ℕ → DirectoryItem
with_filesize i filesize = record {
  filename = i.filename;
  ext = i.ext;
  attribute = i.attribute;
  reserved = i.reserved;
  creation_time_tenths_of_a_sec = i.creation_time_tenths_of_a_sec;
  creation_time = i.creation_time;
  creation_date = i.creation_date;
  last_access = i.last_access;
  high_16_bits_first_cluster = i.high_16_bits_first_cluster;
  last_mod_time = i.last_mod_time;
  last_mod_date = i.last_mod_date;
  low_16_bits_first_cluster = i.low_16_bits_first_cluster;
  filesize = filesize;
}

abbrev pub with_item : FatFile → DirectoryItem → FatFile
with_item desc item = record {
  path = desc.path;
  item = file item;
  pos = desc.pos;
  mode = desc.mode;
}

-- Where the entry of an item stands.
abbrev pub item_position : Directory → ℕ → ℕ
item_position dir i = (dir.sector_pos * sector_size + i * item_size) % 2 ^ 32

module _ {S : Type 0} (ata : Controller S) (disk : Disk) (v : Volume) (junk : List ℕ)
    (root : Directory) where
  -- The answer is the number of bytes, 32, and the directories that are given to kfree with their items:
  -- the parent, also if it is the root directory. A parent that is missing is read through the null
  -- pointer.
  unfoldable pub write_directory_entry :
      ℕ → List ℕ × List (List ℕ) → DirectoryItem → S → Outcome S (Status ℕ × List Directory)
  write_directory_entry fuel path new_item s =
      elim (get_parent_dir ata disk v fuel s root path.0 path.1) [
        | missing ↦ fault
        | bad_access ↦ fault
        | running ↦ looping
        | found item ↦ elim item [
          | file i ↦ fault
          | freed ↦ fault
          | overrun ↦ fault
          | directory dir ↦ elim (match_loop dir.items dir.total (get_last_part path.0 path.1)) [
            | none ↦ fault
            | some none ↦ done s (err einvarg, [])
            | some (some i) ↦
                done (write_at ata disk junk (item_position dir i) (bytes_of_item new_item) s)
                  (ok item_size, dir ∷ [])
          ]
        ]
      ]

  -- A part that is missing is looked up a second time.
  unfoldable pub fat16_open :
      ℕ → List ℕ × List (List ℕ) → ℕ → DateTime → S → Outcome S (Status FatFile)
  fat16_open fuel path mode now s =
      elim (get_directory_entry ata disk v fuel s root path.0 path.1) [
        | missing ↦ done s (err eio)
        | bad_access ↦ fault
        | running ↦ looping
        | found f_item ↦ elim f_item [
          | directory dir ↦ done s (err einvarg)
          | freed ↦ done s (err einvarg)
          | overrun ↦ fault
          | file item ↦
              let fresh : FatFile = record {
                path = path;
                item = file item;
                pos = 0;
                mode = mode;
              } in
              let from_start = bit_and mode file_mode_append == 0 in
              let start = if from_start then fresh else (seek fresh 0 seek_end).1 in
              let accessed = with_last_access item (pack_date now) in
              if not (bit_and mode file_mode_write == 0)
                && not (bit_and item.attribute file_read_only == 0)
              then done s (err erdonly)
              else elim (write_directory_entry fuel path accessed s) [
                | fault ↦ fault
                | looping ↦ looping
                | done s' res ↦ done s' (ok (with_item start accessed))
              ]
        ]
      ]

  unfoldable pub delete : ℕ → FatFile → S → Outcome S (Status ℕ)
  delete fuel desc s = elim desc.item [
    | directory dir ↦ fault
    | freed ↦ fault
    | overrun ↦ fault
    | file item ↦
        let deleted = with_filename item (set item.filename 0 0xE5) in
        if bit_and desc.mode file_mode_write == 0
          || not (bit_and item.attribute file_read_only == 0)
        then done s (err einvarg)
        else elim (write_directory_entry fuel desc.path deleted s) [
          | fault ↦ fault
          | looping ↦ looping
          | done s' (err e, _) ↦ done s' (err eio)
          | done s' (ok n, _) ↦
              elim (erase_cluster_chain ata disk v junk fuel deleted.low_16_bits_first_cluster s') [
                | none ↦ looping
                | some w ↦ done w.disk w.res
              ]
        ]
  ]
