-- ===== src/Fat16/Files.antt =====
-- Open files of a FAT16 volume, src/fs/fat/fat16.c: position, seek, stat and read.
pub mod Seek
pub mod Dates
use serpae_os.Common.{
  ℕ, zero, suc, ◌+◌, ◌-◌, ◌*◌, ◌/◌, ◌%◌, ◌^◌, ◌≤◌, ◌<◌, ◌≡◌, ◌≢◌, ◌↔◌, ◌⊎◌, inl, inr, refl, Bool,
  true, false, not, ◌&&◌, ◌||◌, Option, none, some, List, [], ◌∷◌, ◌++◌, map, ltb, leb, ◌==◌,
  if◌then◌else◌, length, take, drop, set, get_or, get_elem?, replicate, arith, ap, ap₂, sym, ◌∙◌,
  length-append, length-set, get_or-set_self, get_or-set_ne, set-set, get_or-replicate, get_or_ext,
  length-replicate, length-take, length-drop, get_or-snoc_self, get_or-snoc_ne, get_or_out,
  List-cases, some_cancel, some_ne, Option-cases, Bool-cases, range_cases, tests, dec_lt, dec_le,
  ℕ_discrete, Status, ok, err, Status-cases, eio, einvarg, bit_and, bit_or,
}
use serpae_os.Streamer.{Controller, Disk}
use serpae_os.Fat16.{Volume, is_err, read_internal}
use serpae_os.Fat16.Directory.{
  DirectoryItem, FatItem, file, directory, freed, file_read_only, get_first_cluster,
}

-- `struct fat_file_descriptor`. `path` is the first part of the path and the others.
pub record FatFile : Type 0 where
  pub path : List ℕ × List (List ℕ)
  pub item : FatItem
  pub pos : ℕ
  pub mode : ℕ

unfoldable pub ftell : FatFile → ℕ
ftell desc = desc.pos

-- The numbers of the seek modes.
abbrev pub seek_set : ℕ
seek_set = 0

abbrev pub seek_cur : ℕ
seek_cur = 1

abbrev pub seek_end : ℕ
seek_end = 2

abbrev pub seek_neg : ℕ
seek_neg = 3

unfoldable pub at_position : FatFile → ℕ → Status (Unit {0}) × FatFile
at_position desc pos =
    (ok tt, record { path = desc.path; item = desc.item; pos = pos; mode = desc.mode })

unfoldable pub seek : FatFile → ℕ → ℕ → Status (Unit {0}) × FatFile
seek desc offset seek_mode = elim desc.item [
  | file ritem ↦
      if leb ritem.filesize offset
      then (err eio, desc)
      else if seek_mode == seek_set
      then at_position desc offset
      else if seek_mode == seek_end
      then at_position desc (ritem.filesize - offset)
      else if seek_mode == seek_cur
      then at_position desc ((desc.pos + offset) % 2 ^ 32)
      else if seek_mode == seek_neg
      then at_position desc ((desc.pos + 2 ^ 32 - offset) % 2 ^ 32)
      else (err einvarg, desc)
  | _ ↦ (err einvarg, desc)
]

-- `struct date_time` without its century.
pub record DateTime : Type 0 where
  pub seconds : ℕ
  pub minutes : ℕ
  pub hours : ℕ
  pub day : ℕ
  pub month : ℕ
  pub year : ℕ

pub record FileStat : Type 0 where
  pub flags : ℕ
  pub filesize : ℕ
  pub creation_datetime : DateTime

-- Times and dates of an entry.
unfoldable pub unpack : ℕ → ℕ → DateTime
unpack creation_time creation_date = record {
  seconds = bit_and creation_time 0x1F * 2;
  minutes = bit_and (creation_time / 2 ^ 5) 0x3F;
  hours = creation_time / 2 ^ 11;
  day = bit_and creation_date 0x1F;
  month = bit_and (creation_date / 2 ^ 5) 0x0F;
  year = 1980 + creation_date / 2 ^ 9;
}

unfoldable pub stat : FatFile → Status FileStat
stat desc = elim desc.item [
  | file ritem ↦
      let flags = if bit_and ritem.attribute file_read_only == 0 then 0 else 1 in
      ok (record {
        flags = flags;
        filesize = ritem.filesize;
        creation_datetime = unpack ritem.creation_time ritem.creation_date;
      })
  | _ ↦ err einvarg
]

-- A date in the 16 bits of an entry, as `fat16_open` and `fat16_create_file` make it.
unfoldable pub pack_date : DateTime → ℕ
pack_date now =
    bit_or (bit_or (bit_and now.day 31) (now.month * 2 ^ 5)) ((now.year - 1980) * 2 ^ 9) % 2 ^ 16

module _ {S : Type 0} (ata : Controller S) (disk : Disk) (v : Volume) where
  -- The loop of `fat16_read`: the bytes, the offset behind them, and the result of the last read.
  unfoldable pub read_loop : ℕ → ℕ → ℕ → ℕ → S → Option (List ℕ × ℕ × ℕ)
  read_loop zero cluster offset size s = some ([], offset, 0)
  read_loop (suc nmemb) cluster offset size s =
      let rest = read_loop nmemb cluster (offset + size) size s in
      elim (read_internal ata disk v (size + 1) cluster offset size s) [
        | none ↦ none
        | some (bytes, res) ↦ if is_err res then some (bytes, offset, res) else elim rest [
          | none ↦ none
          | some (later, end, last) ↦ some (bytes ++ later, end, if nmemb == 0 then res else last)
        ]
      ]

  -- The bytes, the result, and the descriptor, whose position moves only if every read succeeds.
  unfoldable pub read : FatFile → ℕ → ℕ → S → Option (List ℕ × ℕ × FatFile)
  read desc size nmemb s = elim desc.item [
    | file item ↦ elim (read_loop nmemb (get_first_cluster item) desc.pos size s) [
      | none ↦ none
      | some (bytes, offset, res) ↦
          let pos = if is_err res then desc.pos else offset in
          some
            (bytes, res, record { path = desc.path; item = desc.item; pos = pos; mode = desc.mode })
    ]
    | _ ↦ none
  ]
