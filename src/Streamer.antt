-- ===== src/Streamer.antt =====
-- Streams of bytes on a disk, src/disk/streamer.c, and the blocks of src/disk/disk.c under them. The
-- port commands of the ATA controller, `pata_read_sector` and `pata_write_sector`, are a parameter.
pub mod Read
mod Tests
pub mod Write
use serpae_os.Common.{
  ℕ, zero, suc, ◌+◌, ◌-◌, ◌*◌, ◌/◌, ◌%◌, ◌^◌, ◌≤◌, ◌<◌, ◌≡◌, ◌≢◌, ◌↔◌, ◌⊎◌, inl, inr, refl, Bool,
  true, false, not, ◌&&◌, ◌||◌, Option, none, some, List, [], ◌∷◌, ◌++◌, map, ltb, leb, ◌==◌,
  if◌then◌else◌, length, take, drop, set, get_or, get_elem?, replicate, arith, ap, ap₂, sym, ◌∙◌,
  length-append, length-set, get_or-set_self, get_or-set_ne, set-set, get_or-replicate, get_or_ext,
  length-replicate, length-take, length-drop, get_or-snoc_self, get_or-snoc_ne, get_or_out,
  List-cases, some_cancel, some_ne, Option-cases, Bool-cases, range_cases, tests, dec_lt, dec_le,
  ℕ_discrete, Status, ok, err, Status-cases, einvarg,
}

abbrev pub sector_size : ℕ
sector_size = 512

-- The controller on a state `S`: one sector by its number, of the drive that the disk names.
pub record Controller (S : Type 0) : Type 0 where
  pub read_sector : ℕ → S → Status (List ℕ)
  pub write_sector : ℕ → List ℕ → S → S

-- The fields of `struct disk` that choose a sector.
pub record Disk : Type 0 where
  pub dev : ℕ
  pub is_partition : Bool
  pub offset : ℕ

-- What a read leaves: the bytes behind `out`, the position, and the result.
pub record Copied : Type 0 where
  pub bytes : List ℕ
  pub pos : ℕ
  pub res : Status (Unit {0})

module _ {S : Type 0} (ata : Controller S) (disk : Disk) where
  unfoldable pub read_block : ℕ → S → Status (List ℕ)
  read_block lba s =
      if leb disk.dev 0
      then err einvarg
      else ata.read_sector (lba + (if disk.is_partition then disk.offset else 0)) s

  -- `none` is that nothing is written, since the disk is not known.
  unfoldable pub write_block : ℕ → List ℕ → S → Option S
  write_block lba buf s =
      if leb disk.dev 0 then none else some (ata.write_sector (lba + disk.offset) buf s)

  -- `diskstreamer_read`. Each call takes what is left of its sector, so
  -- `(pos % 512 + total) / 512 + 1` calls are enough.
  pub read : ℕ → ℕ → ℕ → S → Option Copied
  read zero pos total s = none
  read (suc fuel) pos total s =
      let offset = pos % sector_size in
      let overflow = leb sector_size (offset + total) in
      let total_to_read = if overflow then total - (offset + total - sector_size) else total in
      let rest = read fuel (pos + total_to_read) (total - total_to_read) s in
      elim (read_block (pos / sector_size) s) [
        | err e ↦ some (record { bytes = []; pos = pos; res = err e })
        | ok buf ↦
            let here = take total_to_read (drop offset buf) in
            if overflow
            then elim rest [
              | none ↦ none
              | some later ↦
                  some (record { bytes = here ++ later.bytes; pos = later.pos; res = later.res })
            ]
            else some (record { bytes = here; pos = pos + total_to_read; res = ok tt })
      ]

  -- `junk` is what the buffer on the stack holds if the block cannot be read: the results of both
  -- calls are ignored.
  pub write_byte : List ℕ → ℕ → ℕ → S → S
  write_byte junk pos c s =
      let buf : List ℕ = elim (read_block (pos / sector_size) s) [ ok buf ↦ buf | err e ↦ junk ] in
      elim (write_block (pos / sector_size) (set buf (pos % sector_size) c) s) [
        | none ↦ s
        | some s' ↦ s'
      ]

  -- The state and the position behind the bytes.
  pub write : List ℕ → ℕ → List ℕ → S → S × ℕ
  unfolding write_byte
  write junk pos [] s = (s, pos)
  write junk pos (c ∷ buffer) s = write junk (pos + 1) buffer (write_byte junk pos c s)
