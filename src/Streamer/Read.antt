-- ===== src/Streamer/Read.antt =====
-- Reads of a disk that works.
use serpae_os.Common.{
  ℕ, zero, suc, ◌+◌, ◌^◌, ◌-◌, ◌*◌, ◌/◌, ◌%◌, ◌≤◌, ◌<◌, ◌≡◌, refl, true, false, some, List, [], ◌∷◌,
  ◌++◌, leb, length, take, drop, arith, ap, ◌∙◌, dec_le, ok, err,
}
use serpae_os.Streamer.{sector_size, Controller, Disk, read_block, read}

-- `count` bytes of some contents, from a position on.
abbrev pub bytes_of : (ℕ → ℕ) → ℕ → ℕ → List ℕ
bytes_of contents pos zero = []
bytes_of contents pos (suc count) = contents pos ∷ bytes_of contents (pos + 1) count

-- The first blocks of the disk can be read, and hold the contents.
pub record ReadableTo {S : Type 0} (ata : Controller S) (disk : Disk) (blocks : ℕ) (s : S)
    (contents : ℕ → ℕ) : Type 0 where
  pub block :
      (lba : ℕ)
      → lba < blocks
      → read_block ata disk lba s ≡ ok (bytes_of contents (lba * sector_size) sector_size)

-- The same of a disk without a last block.
pub record Readable {S : Type 0} (ata : Controller S) (disk : Disk) (s : S) (contents : ℕ → ℕ)
    : Type 0 where
  pub block :
      (lba : ℕ) → read_block ata disk lba s ≡ ok (bytes_of contents (lba * sector_size) sector_size)

pub bytes_of-append :
    (contents : ℕ → ℕ) (pos n m : ℕ)
    → bytes_of contents pos n ++ bytes_of contents (pos + n) m ≡ bytes_of contents pos (n + m)
bytes_of-append contents pos zero m =
    let start : pos + 0 ≡ pos = omega arith in
    let count : 0 + m ≡ m = omega arith in rw (start, count)
bytes_of-append contents pos (suc n) m =
    let start : pos + suc n ≡ pos + 1 + n = omega arith in
    let count : suc n + m ≡ suc (n + m) = omega arith in
    rw (start, count) (ap (λ r. contents pos ∷ r) (bytes_of-append contents (pos + 1) n m))

take-drop-bytes_of :
    (contents : ℕ → ℕ) (pos total offset n : ℕ)
    → offset + n ≤ total
    → take n (drop offset (bytes_of contents pos total)) ≡ bytes_of contents (pos + offset) n
take-drop-bytes_of contents pos total zero zero h = refl
take-drop-bytes_of contents pos zero zero (suc n) h = absurd (omega arith)
take-drop-bytes_of contents pos (suc total) zero (suc n) h =
    let start : pos + 0 ≡ pos = omega arith in
    let after : pos + 1 + 0 ≡ pos + 1 = omega arith in
    let rest : take n (bytes_of contents (pos + 1) total) ≡ bytes_of contents (pos + 1 + 0) n =
      take-drop-bytes_of contents (pos + 1) total zero n (omega arith) in
    rw start (ap (λ r. contents pos ∷ r) (rest ∙ ap (λ p. bytes_of contents p n) after))
take-drop-bytes_of contents pos zero (suc offset) n h = absurd (omega arith)
take-drop-bytes_of contents pos (suc total) (suc offset) n h =
    let start : pos + suc offset ≡ pos + 1 + offset = omega arith in
    rw start (take-drop-bytes_of contents (pos + 1) total offset n (omega arith))

pub Readable-ReadableTo :
    {S : Type 0} {ata : Controller S} {disk : Disk} {s : S} {contents : ℕ → ℕ} (blocks : ℕ)
    → Readable ata disk s contents
    → ReadableTo ata disk blocks s contents
Readable-ReadableTo blocks r = record { block = λ lba h. r.block lba }

module _ {S : Type 0} (ata : Controller S) (disk : Disk) (blocks : ℕ) (s : S) (contents : ℕ → ℕ)
    (readable : ReadableTo ata disk blocks s contents) where
  -- The bytes that one call takes from its sector.
  here :
      (pos n : ℕ)
      → pos % sector_size + n ≤ sector_size
      → take n (
          drop
            (pos % sector_size)
            (bytes_of contents (pos / sector_size * sector_size) sector_size))
        ≡ bytes_of contents pos n
  here pos n h =
      let at : pos / sector_size * sector_size + pos % sector_size ≡ pos = omega arith in
      take-drop-bytes_of contents (pos / sector_size * sector_size) sector_size (pos % sector_size)
        n h
      ∙ ap (λ p. bytes_of contents p n) at

  -- The block behind the last byte is read too if the bytes end with their block.
  pub read_within :
      (fuel pos total : ℕ)
      → (pos % sector_size + total) / sector_size < fuel
      → (pos + total) / sector_size < blocks
      → read ata disk fuel pos total s
        ≡ some (record { bytes = bytes_of contents pos total; pos = pos + total; res = ok tt })
  unfolding read
  read_within zero pos total h room = absurd (omega arith)
  read_within (suc fuel) pos total h room =
      let offset = pos % sector_size in
      elim (dec_le sector_size (offset + total)) [
        | no within ↦
            let last : leb sector_size (offset + total) ≡ false = ground arith in
            rw (
              read,
              readable.block (pos / sector_size) (omega (arith, room)),
              last,
              here pos total (omega arith),
            )
        | yes over ↦
            let more : leb sector_size (offset + total) ≡ true = ground arith in
            let n = sector_size - offset in
            let taken : total - (offset + total - sector_size) ≡ n = omega arith in
            let rest = read_within fuel (pos + n) (total - n) (omega arith) (omega (arith, room)) in
            let whole : n + (total - n) ≡ total = omega arith in
            let moved : pos + n + (total - n) ≡ pos + total = omega arith in
            rw (
              read,
              readable.block (pos / sector_size) (omega (arith, room)),
              more,
              taken,
              rest,
              more,
              taken,
              here pos n (omega arith),
              bytes_of-append contents pos n (total - n),
              whole,
              moved,
            )
      ]

  -- If the first `blocks` blocks of the disk can be read, a read, with enough calls, of bytes that end
  -- below 2^31 and before the last byte of these blocks answers the bytes of the disk from the position
  -- on, and moves the position behind them.
  pub read-bytes_of :
      (fuel pos total : ℕ)
      → (pos % sector_size + total) / sector_size < fuel
      → pos + total < blocks * sector_size
      → pos + total < 2 ^ 31
      → read ata disk fuel pos total s
        ≡ some (record { bytes = bytes_of contents pos total; pos = pos + total; res = ok tt })
  read-bytes_of fuel pos total h room small = read_within fuel pos total h (omega (arith, room))

take_all : (n : ℕ) (xs : List ℕ) → length xs ≡ n → take n xs ++ [] ≡ xs
take_all zero [] h = refl
take_all zero (x ∷ xs) h = absurd (omega arith)
take_all (suc n) [] h = absurd (omega arith)
take_all (suc n) (x ∷ xs) h = ap (λ r. x ∷ r) (take_all n xs (omega arith))

-- A read of one whole sector at its start fails if the next sector cannot be read: the bytes are
-- copied and the position is moved, and the result is the error of the next sector.
pub read_boundary :
    {S : Type 0} (ata : Controller S) (disk : Disk) (s : S) (buf : List ℕ) (fuel lba e : ℕ)
    → length buf ≡ sector_size
    → read_block ata disk lba s ≡ ok buf
    → read_block ata disk (lba + 1) s ≡ err e
    → read ata disk (suc (suc fuel)) (lba * sector_size) sector_size s
      ≡ some (record { bytes = buf; pos = (lba + 1) * sector_size; res = err e })
unfolding read
read_boundary ata disk s buf fuel lba e size readable fails =
    let sector : lba * sector_size / sector_size ≡ lba = omega arith in
    let offset : lba * sector_size % sector_size ≡ 0 = omega arith in
    let behind : (lba * sector_size + sector_size) / sector_size ≡ lba + 1 = omega arith in
    let moved : lba * sector_size + sector_size ≡ (lba + 1) * sector_size = omega arith in
    let full : leb sector_size (lba * sector_size % sector_size + sector_size) ≡ true =
      ground (arith, offset) in
    let none_over : sector_size - (lba * sector_size % sector_size + sector_size - sector_size)
        ≡ sector_size =
      omega (arith, offset) in
    rw (
      read,
      sector,
      readable,
      full,
      none_over,
      behind,
      fails,
      full,
      none_over,
      offset,
      take_all sector_size buf size,
      moved,
    )
