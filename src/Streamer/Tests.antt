-- ===== src/Streamer/Tests.antt =====
-- The theorems about streams, on a disk whose sectors are a function.
use serpae_os.Common.{
  ℕ, ltb, ◌+◌, ◌-◌, ◌*◌, ◌%◌, ◌≡◌, refl, true, false, some, List, [], ◌∷◌, ◌==◌, if◌then◌else◌,
  arith, ok, err,
}
use serpae_os.Streamer.{sector_size, Controller, Disk, read_block, write_block, read, write}
use serpae_os.Streamer.Read.{bytes_of, ReadableTo, read-bytes_of}
use serpae_os.Streamer.Write.{WorksTo, read-write}

abbrev Sectors : Type 0
Sectors = ℕ → List ℕ

-- Sectors from 1087 on are not there.
abbrev ata : Controller Sectors
ata = record {
  read_sector = λ lba s. if ltb lba 1087 then ok (s lba) else err 1;
  write_sector = λ lba buf s l. if l == lba then buf else s l;
}

abbrev disk : Disk
disk = record { dev = 1; is_partition = true; offset = 63 }

-- Byte p of the disk is p, below 256.
abbrev contents : ℕ → ℕ
contents p = p % 256

abbrev sectors : Sectors
sectors l = bytes_of contents ((l - 63) * sector_size) sector_size

-- The partition has 1024 blocks.
readable : ReadableTo ata disk 1024 sectors contents
unfolding read_block
readable = record {
  block = λ lba low.
      let l : lba + 63 - 63 ≡ lba = omega arith in
      let there : ltb (lba + 63) 1087 ≡ true = ground (arith, low) in rw (l, there);
}

works : WorksTo ata disk 1024
unfolding read_block write_block
works = record {
  stored = λ s lba buf low size. (
    _,
    refl,
    (let same : (lba + 63 == lba + 63) ≡ true = ground arith in
        let there : ltb (lba + 63) 1087 ≡ true = ground (arith, low) in rw (there, same)),
    λ other ne. let apart : (other + 63 == lba + 63) ≡ false = ground arith in rw apart,
  );
}

read-bytes_of_example :
    read ata disk 3 510 10 sectors
    ≡ some (record { bytes = bytes_of contents 510 10; pos = 520; res = ok tt })
read-bytes_of_example =
    read-bytes_of ata disk 1024 sectors contents readable 3 510 10 (omega arith) (omega arith)
      (omega arith)

read-write_example :
    read ata disk 2 511 2 (write ata disk [] 511 (7 ∷ 8 ∷ []) sectors).0
    ≡ some (record { bytes = 7 ∷ 8 ∷ []; pos = 513; res = ok tt })
read-write_example =
    read-write ata disk 1024 works [] (7 ∷ 8 ∷ []) sectors contents 511 2 readable (omega arith)
      (omega arith) (omega arith)
