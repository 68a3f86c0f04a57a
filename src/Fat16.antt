-- ===== src/Fat16.antt =====
-- FAT16 volumes, src/fs/fat/fat16.c and src/fs/fat/fat16_write.c, over the streams of a disk: the
-- arithmetic of sectors and clusters, entries of the file allocation table, and their chains.
-- An `int` is its word of 32 bits, so -EIO is `2 ^ 32 - 1`.
pub mod Table
pub mod Reads
pub mod Names
pub mod Files
pub mod Lookup
pub mod Directory
pub mod Follow
pub mod Chains
pub mod Resolve
pub mod Update
pub mod Write
mod Tests
use serpae_os.Common.{
  ℕ, zero, suc, ◌+◌, ◌-◌, ◌*◌, ◌/◌, ◌%◌, ◌^◌, ◌≤◌, ◌<◌, ◌≡◌, ◌≢◌, ◌↔◌, ◌⊎◌, inl, inr, refl, Bool,
  true, false, not, ◌&&◌, ◌||◌, Option, none, some, List, [], ◌∷◌, ◌++◌, map, ltb, leb, ◌==◌,
  if◌then◌else◌, length, take, drop, set, get_or, get_elem?, replicate, arith, ap, ap₂, sym, ◌∙◌,
  length-append, length-set, get_or-set_self, get_or-set_ne, set-set, get_or-replicate, get_or_ext,
  length-replicate, length-take, length-drop, get_or-snoc_self, get_or-snoc_ne, get_or_out,
  List-cases, some_cancel, some_ne, Option-cases, Bool-cases, range_cases, tests, dec_lt, dec_le,
  ℕ_discrete, Status, ok, err, Status-cases, eio, einvarg, enodiskspace,
}
use serpae_os.Streamer
use serpae_os.Streamer.{sector_size, Controller, Disk, Copied}

abbrev pub fat_entry_size : ℕ
fat_entry_size = 2

abbrev pub bad_sector : ℕ
bad_sector = 0xFFF7

abbrev pub unused : ℕ
unused = 0

abbrev pub eoc : ℕ
eoc = 0xFFFF

-- `-e` as a word.
abbrev pub negated : ℕ → ℕ
negated e = 2 ^ 32 - e

abbrev pub is_err : ℕ → Bool
is_err word = leb (2 ^ 31) word

-- The fields of `struct fat_private` that place sectors and clusters: those of its header, and the
-- sector behind the root directory.
pub record Volume : Type 0 where
  pub sectors_per_cluster : ℕ
  pub reserved_sectors : ℕ
  pub fat_copies : ℕ
  pub sectors_per_fat : ℕ
  pub root_dir_entries : ℕ
  pub sectors_big : ℕ
  pub ending_sector_pos : ℕ

abbrev pub cluster_bytes : Volume → ℕ
cluster_bytes v = v.sectors_per_cluster * sector_size

-- The words of `int`: for the clusters 0 and 1 the difference to 2 is negative.
unfoldable pub cluster_to_sector : Volume → ℕ → ℕ
cluster_to_sector v cluster =
    (v.ending_sector_pos + cluster * v.sectors_per_cluster + (2 ^ 32 - 2 * v.sectors_per_cluster))
    % 2 ^ 32

unfoldable pub sector_to_absolute : ℕ → ℕ
sector_to_absolute sector = sector * sector_size % 2 ^ 32

unfoldable pub filesize_to_cluster_count : Volume → ℕ → ℕ
filesize_to_cluster_count v filesize =
    if filesize % cluster_bytes v == 0
    then filesize / cluster_bytes v
    else filesize / cluster_bytes v + 1

-- A `uint16_t` in its two bytes.
abbrev pub word_of : List ℕ → ℕ
word_of bytes = get_or bytes 0 0 + 256 * get_or bytes 1 0

abbrev pub bytes_of_word : ℕ → List ℕ
bytes_of_word w = w % 256 ∷ w / 256 % 256 ∷ []

module _ {S : Type 0} (ata : Controller S) (disk : Disk) where
  -- `diskstreamer_seek`, which does not fail, and `diskstreamer_read` with enough calls.
  unfoldable pub read_at : ℕ → ℕ → S → Copied
  read_at pos total s =
      elim (Streamer.read ata disk ((pos % sector_size + total) / sector_size + 1) pos total s) [
        | none ↦ record { bytes = []; pos = pos; res = err eio }
        | some copied ↦ copied
      ]

  -- `diskstreamer_seek` and `diskstreamer_write`. What the stack of `write_byte` holds is `junk`.
  unfoldable pub write_at : List ℕ → ℕ → List ℕ → S → S
  write_at junk pos buffer s = (Streamer.write ata disk junk pos buffer s).0

abbrev pub entry_position : Volume → ℕ → ℕ
entry_position v cluster = (v.reserved_sectors * sector_size + cluster * fat_entry_size) % 2 ^ 32

module _ {S : Type 0} (ata : Controller S) (disk : Disk) (v : Volume) where
  unfoldable pub get_fat_entry : ℕ → S → ℕ
  get_fat_entry cluster s =
      let copied = read_at ata disk (entry_position v cluster) 2 s in
      elim copied.res [ ok _ ↦ word_of copied.bytes | err e ↦ negated e ]

  -- The loop of `fat16_get_cluster_for_offset`. A negative entry is not tested for.
  unfoldable pub follow : ℕ → ℕ → S → ℕ
  follow zero cluster s = cluster
  follow (suc clusters_ahead) cluster s =
      let entry = get_fat_entry cluster s in
      let rest = follow clusters_ahead entry s in
      if entry == 0xFF8 || entry == 0xFFF
      then negated eio
      else if entry == bad_sector
      then negated eio
      else if entry == 0xFF0 || entry == 0xFF6
      then negated eio
      else if entry == 0
      then negated eio
      else rest

  unfoldable pub get_cluster_for_offset : ℕ → ℕ → S → ℕ
  get_cluster_for_offset starting_cluster offset s =
      follow (offset / cluster_bytes v) starting_cluster s

  -- `fat16_read_internal`. Each call but the last takes a cluster's bytes, so
  -- `total / cluster_bytes v + 1` calls are enough.
  unfoldable pub read_internal : ℕ → ℕ → ℕ → ℕ → S → Option (List ℕ × ℕ)
  read_internal zero cluster offset total s = none
  read_internal (suc fuel) cluster offset total s =
      let cluster_to_use = get_cluster_for_offset cluster offset s in
      let starting_pos =
        (sector_to_absolute (cluster_to_sector v cluster_to_use) + offset % cluster_bytes v)
        % 2 ^ 32 in
      let total_to_read = if ltb (cluster_bytes v) total then cluster_bytes v else total in
      let copied = read_at ata disk starting_pos total_to_read s in
      let rest = read_internal fuel cluster (offset + total_to_read) (total - total_to_read) s in
      if is_err cluster_to_use then some ([], cluster_to_use) else elim copied.res [
        | err e ↦ some (copied.bytes, negated e)
        | ok _ ↦
            if ltb 0 (total - total_to_read)
            then elim rest [ none ↦ none | some (later, res) ↦ some (copied.bytes ++ later, res) ]
            else some (copied.bytes, 0)
      ]

module _ {S : Type 0} (ata : Controller S) (disk : Disk) (v : Volume) (junk : List ℕ) where
  -- The answer of the code is the number of bytes, 2.
  unfoldable pub write_fat_entry : ℕ → ℕ → S → S
  write_fat_entry entry val s =
      write_at ata disk junk (entry_position v entry) (bytes_of_word val) s
