-- ===== src/Fat16/Write.antt =====
-- Writes to a file, fat16_write of src/fs/fat/fat16_write.c.
pub mod Lost
pub mod Ends
use serpae_os.Common.{
  ℕ, zero, suc, ◌+◌, ◌-◌, ◌*◌, ◌/◌, ◌%◌, ◌^◌, ◌≤◌, ◌<◌, ◌≡◌, ◌≢◌, ◌↔◌, ◌⊎◌, inl, inr, refl, Bool,
  true, false, not, ◌&&◌, ◌||◌, Option, none, some, List, [], ◌∷◌, ◌++◌, map, ltb, leb, ◌==◌,
  if◌then◌else◌, length, take, drop, set, get_or, get_elem?, replicate, arith, ap, ap₂, sym, ◌∙◌,
  length-append, length-set, get_or-set_self, get_or-set_ne, set-set, get_or-replicate, get_or_ext,
  length-replicate, length-take, length-drop, get_or-snoc_self, get_or-snoc_ne, get_or_out,
  List-cases, some_cancel, some_ne, Option-cases, Bool-cases, range_cases, tests, dec_lt, dec_le,
  ℕ_discrete, Status, ok, err, Status-cases, eio, einvarg, erdonly, bit_and,
}
use serpae_os.Streamer.{sector_size, Controller, Disk}
use serpae_os.Streamer.Read.{bytes_of}
use serpae_os.Fat16.{
  Volume, cluster_bytes, cluster_to_sector, sector_to_absolute, filesize_to_cluster_count,
  get_fat_entry, write_at,
}
use serpae_os.Fat16.Chains.{u16, is_end, Written, find_last_cluster_of_chain, add_cluster_to_chain}
use serpae_os.Fat16.Directory.{
  DirectoryItem, Directory, FatItem, file, directory, freed, overrun, get_first_cluster,
}
use serpae_os.Fat16.Files.{FatFile}
use serpae_os.Fat16.Update.{
  Outcome, done, fault, looping, file_mode_write, with_filesize, with_item, write_directory_entry,
}

-- The size after a write, in its 32 bits.
unfoldable pub grown_size : DirectoryItem → ℕ → ℕ
grown_size item size = (item.filesize + size) % 2 ^ 32

module _ {S : Type 0} (ata : Controller S) (disk : Disk) (v : Volume) (junk : List ℕ) where
  -- The first byte of a cluster on the disk.
  abbrev pub cluster_start : ℕ → ℕ
  cluster_start cluster = sector_to_absolute (cluster_to_sector v cluster)

  -- The loop that adds clusters: what the disk holds, and the answer of the last call.
  unfoldable pub add_needed : ℕ → ℕ → ℕ → ℕ → S → Option (Written S)
  add_needed fuel zero first res s = some (record { disk = s; res = ok res })
  add_needed fuel (suc needed) first res s =
      elim (add_cluster_to_chain ata disk v junk fuel first s) [
        | none ↦ none
        | some w ↦ elim w.res [ err e ↦ some w | ok n ↦ add_needed fuel needed first n w.disk ]
      ]

  -- The loop over the clusters behind the first one, from `buf + from`: what the disk holds, and the
  -- answer of the last write. Each round but the last writes a cluster's bytes.
  unfoldable pub write_loop : ℕ → ℕ → (ℕ → ℕ) → ℕ → ℕ → ℕ → S → Option (Written S)
  write_loop zero target_cluster buf from size res s = none
  write_loop (suc fuel) target_cluster buf from size res s =
      let next = u16 (get_fat_entry ata disk v target_cluster s) in
      let total_to_write = if leb size (cluster_bytes v) then size else cluster_bytes v in
      let written =
        write_at ata disk junk (cluster_start next) (bytes_of buf from total_to_write) s in
      let rest =
        write_loop fuel next buf (from + total_to_write) (size - total_to_write) total_to_write
          written in
      if size == 0
      then some (record { disk = s; res = ok res })
      else if is_end next
      then some (record { disk = s; res = ok res })
      else rest

  -- The third step, from the first cluster to write: `pos % cluster_bytes v` bytes, whatever `size`
  -- is, and then the others.
  unfoldable pub write_data : ℕ → ℕ → ℕ → (ℕ → ℕ) → ℕ → S → Option (Written S)
  write_data fuel first_cluster_to_write pos buf size s =
      let free_space_of_first_cluster = pos % cluster_bytes v in
      let offset = (cluster_start first_cluster_to_write + free_space_of_first_cluster) % 2 ^ 32 in
      write_loop fuel first_cluster_to_write buf free_space_of_first_cluster
        (size - free_space_of_first_cluster) free_space_of_first_cluster
        (write_at ata disk junk offset (bytes_of buf 0 free_space_of_first_cluster) s)

module _ {S : Type 0} (ata : Controller S) (disk : Disk) (v : Volume) (junk : List ℕ)
    (root : Directory) where
  -- `buf` is the memory from the buffer on. The second part of the answer is the descriptor.
  unfoldable pub write : ℕ → FatFile → (ℕ → ℕ) → ℕ → S → Outcome S (Status ℕ × FatFile)
  write fuel desc buf size s = elim desc.item [
    | directory dir ↦ done s (err einvarg, desc)
    | freed ↦ done s (err einvarg, desc)
    | overrun ↦ fault
    | file item ↦
        let first = u16 (get_first_cluster item) in
        let old_cluster_count = filesize_to_cluster_count v item.filesize in
        let new_size = grown_size item size in
        let needed : ℕ =
          if ltb (old_cluster_count * cluster_bytes v) new_size
          then filesize_to_cluster_count v new_size - old_cluster_count
          else 0 in
        let grown = with_filesize item new_size in
        if size == 0
        then done s (err einvarg, desc)
        else if bit_and desc.mode file_mode_write == 0
        then done s (err erdonly, desc)
        else elim (find_last_cluster_of_chain ata disk v fuel first s) [
          | none ↦ looping
          | some last ↦ elim (add_needed ata disk v junk fuel needed first 0 s) [
            | none ↦ looping
            | some added ↦ elim added.res [
              | err e ↦ done added.disk (err e, desc)
              | ok _ ↦
                  elim (write_directory_entry ata disk v junk root fuel desc.path grown
                    added.disk) [
                      | fault ↦ fault
                      | looping ↦ looping
                      | done s' (err e, _) ↦ done s' (err e, with_item desc grown)
                      | done s' (ok n, _) ↦
                          elim (write_data ata disk v junk fuel last desc.pos buf size s') [
                            | none ↦ looping
                            | some w ↦ done w.disk (w.res, with_item desc grown)
                          ]
                    ]
            ]
          ]
        ]
  ]
