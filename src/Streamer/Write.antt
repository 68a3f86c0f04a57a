-- ===== src/Streamer/Write.antt =====
-- Writes to a disk that works, and reads behind them.
use serpae_os.Common.{
  ℕ, zero, suc, ◌+◌, ◌^◌, ◌*◌, ◌/◌, ◌%◌, ◌≤◌, ◌<◌, ◌≡◌, ◌≢◌, ◌⊎◌, inl, inr, refl, some, List, [],
  ◌∷◌, ◌==◌, if◌then◌else◌, length, set, arith, ap, ap₂, sym, ◌∙◌, length-set, dec_lt, ℕ_discrete,
  ok,
}
use serpae_os.Streamer.{
  sector_size, Controller, Disk, read_block, write_block, read, write_byte, write,
}
use serpae_os.Streamer.Read.{bytes_of, Readable, ReadableTo, Readable-ReadableTo, read-bytes_of}

-- The contents with one byte changed, and with a list of bytes from a position on.
abbrev pub put : (ℕ → ℕ) → ℕ → ℕ → ℕ → ℕ
put contents pos c p = if p == pos then c else contents p

abbrev pub put_all : (ℕ → ℕ) → ℕ → List ℕ → ℕ → ℕ
put_all contents pos [] = contents
put_all contents pos (c ∷ buffer) = put_all (put contents pos c) (pos + 1) buffer

-- A block that is written is read back, and the other blocks stay.
pub record Works {S : Type 0} (ata : Controller S) (disk : Disk) : Type 0 where
  pub stored :
      (s : S) (lba : ℕ) (buf : List ℕ)
      → length buf ≡ sector_size
      → (s' : S) × (write_block ata disk lba buf s ≡ some s')
        × (read_block ata disk lba s' ≡ ok buf)
        × ((other : ℕ) → other ≢ lba → read_block ata disk other s' ≡ read_block ata disk other s)

-- The same of the first blocks of a disk.
pub record WorksTo {S : Type 0} (ata : Controller S) (disk : Disk) (blocks : ℕ) : Type 0 where
  pub stored :
      (s : S) (lba : ℕ) (buf : List ℕ)
      → lba < blocks
      → length buf ≡ sector_size
      → (s' : S) × (write_block ata disk lba buf s ≡ some s')
        × (read_block ata disk lba s' ≡ ok buf)
        × ((other : ℕ) → other ≢ lba → read_block ata disk other s' ≡ read_block ata disk other s)

pub write-nil :
    {S : Type 0} (ata : Controller S) (disk : Disk) (junk : List ℕ) (pos : ℕ) (s : S)
    → (write ata disk junk pos [] s).0 ≡ s
unfolding write
write-nil ata disk junk pos s = refl

-- A byte that is changed outside a range does not change the range.
bytes_of-put_out :
    (contents : ℕ → ℕ) (pos at count c : ℕ)
    → (at < pos) ⊎ (pos + count ≤ at)
    → bytes_of (put contents at c) pos count ≡ bytes_of contents pos count
bytes_of-put_out contents pos at zero c h = refl
bytes_of-put_out contents pos at (suc count) c h =
    let byte : put contents at c pos ≡ contents pos = ground (arith, h) in
    let out : (at < pos + 1) ⊎ (pos + 1 + count ≤ at) = elim h [
      | inl low ↦ inl (omega arith)
      | inr high ↦ inr (omega arith)
    ] in
    ap₂ ◌∷◌ byte (bytes_of-put_out contents (pos + 1) at count c out)

bytes_of-put :
    (contents : ℕ → ℕ) (pos at count c : ℕ)
    → at < count
    → set (bytes_of contents pos count) at c ≡ bytes_of (put contents (pos + at) c) pos count
bytes_of-put contents pos at zero c h = absurd (omega arith)
bytes_of-put contents pos zero (suc count) c h =
    let byte : c ≡ put contents (pos + 0) c pos = ground arith in
    ap₂ ◌∷◌ byte (sym (bytes_of-put_out contents (pos + 1) (pos + 0) count c (inl (omega arith))))
bytes_of-put contents pos (suc at) (suc count) c h =
    let byte : contents pos ≡ put contents (pos + suc at) c pos = ground arith in
    let place : pos + 1 + at ≡ pos + suc at = omega arith in
    ap₂ ◌∷◌ byte (
      bytes_of-put contents (pos + 1) at count c (omega arith)
      ∙ ap (λ p. bytes_of (put contents p c) (pos + 1) count) place)

pub put_all-before :
    (buffer : List ℕ) (contents : ℕ → ℕ) (pos p : ℕ)
    → p < pos
    → put_all contents pos buffer p ≡ contents p
put_all-before [] contents pos p h = refl
put_all-before (c ∷ buffer) contents pos p h =
    put_all-before buffer (put contents pos c) (pos + 1) p (omega arith) ∙ ground arith

pub bytes_of-put_all :
    (buffer : List ℕ) (contents : ℕ → ℕ) (pos : ℕ)
    → bytes_of (put_all contents pos buffer) pos (length buffer) ≡ buffer
bytes_of-put_all [] contents pos = refl
bytes_of-put_all (c ∷ buffer) contents pos =
    let byte : put contents pos c pos ≡ c = ground arith in
    ap₂ ◌∷◌ (put_all-before buffer (put contents pos c) (pos + 1) pos (omega arith) ∙ byte)
      (bytes_of-put_all buffer (put contents pos c) (pos + 1))

length-bytes_of : (contents : ℕ → ℕ) (pos count : ℕ) → length (bytes_of contents pos count) ≡ count
length-bytes_of contents pos zero = refl
length-bytes_of contents pos (suc count) = ap suc (length-bytes_of contents (pos + 1) count)

outside :
    (pos other : ℕ)
    → other ≢ pos / sector_size
    → (pos < other * sector_size) ⊎ (other * sector_size + sector_size ≤ pos)
outside pos other ne = elim (dec_lt pos (other * sector_size)) [
  | yes low ↦ inl low
  | no high ↦ inr (omega arith)
]

module _ {S : Type 0} (ata : Controller S) (disk : Disk) (blocks : ℕ)
    (works : WorksTo ata disk blocks) (junk : List ℕ) where
  write_byte-ReadableTo :
      (s : S) (contents : ℕ → ℕ) (pos c : ℕ)
      → pos < blocks * sector_size
      → ReadableTo ata disk blocks s contents
      → ReadableTo ata disk blocks (write_byte ata disk junk pos c s) (put contents pos c)
  unfolding write_byte
  write_byte-ReadableTo s contents pos c room r =
      let lba = pos / sector_size in
      let low : lba < blocks = omega (arith, room) in
      let buf = bytes_of contents (lba * sector_size) sector_size in
      let at : lba * sector_size + pos % sector_size ≡ pos = omega arith in
      let changed : set buf (pos % sector_size) c
          ≡ bytes_of (put contents pos c) (lba * sector_size) sector_size =
        bytes_of-put contents (lba * sector_size) (pos % sector_size) sector_size c (omega arith)
        ∙ ap (λ p. bytes_of (put contents p c) (lba * sector_size) sector_size) at in
      let (s', written, stored, others) = works.stored s lba (set buf (pos % sector_size) c) low (
        length-set buf (pos % sector_size) c
        ∙ length-bytes_of contents (lba * sector_size) sector_size) in
      record {
        block = λ other inside.
            rw (write_byte, r.block lba low, written)
              (elim (ℕ_discrete other lba) [
                | yes same ↦ rw same (stored ∙ ap ok changed)
                | no ne ↦
                    others other ne
                    ∙ r.block other inside
                    ∙ ap ok (
                        sym (
                          bytes_of-put_out contents (other * sector_size) pos sector_size c
                            (outside pos other ne)))
              ]);
      }

  write-ReadableTo :
      (buffer : List ℕ) (s : S) (contents : ℕ → ℕ) (pos : ℕ)
      → pos + length buffer ≤ blocks * sector_size
      → ReadableTo ata disk blocks s contents
      → ReadableTo ata disk blocks
          (write ata disk junk pos buffer s).0
          (put_all contents pos buffer)
        × ((write ata disk junk pos buffer s).1 ≡ pos + length buffer)
  unfolding write
  write-ReadableTo [] s contents pos room r = (r, omega arith)
  write-ReadableTo (c ∷ buffer) s contents pos room r =
      let (later, moved) =
        write-ReadableTo buffer (write_byte ata disk junk pos c s) (put contents pos c) (pos + 1)
          (omega (arith, room)) (write_byte-ReadableTo s contents pos c (omega (arith, room)) r) in
      (later, omega (arith, moved))

  -- If the first `blocks` blocks of the disk can be read, and such a block that is written is read back,
  -- a read at the position of a write, of as many bytes and with enough calls, answers the bytes that
  -- were written, if they end below 2^31 and before the last byte of these blocks.
  pub read-write :
      (buffer : List ℕ) (s : S) (contents : ℕ → ℕ) (pos fuel : ℕ)
      → ReadableTo ata disk blocks s contents
      → (pos % sector_size + length buffer) / sector_size < fuel
      → pos + length buffer < blocks * sector_size
      → pos + length buffer < 2 ^ 31
      → read ata disk fuel pos (length buffer) (write ata disk junk pos buffer s).0
        ≡ some (record { bytes = buffer; pos = pos + length buffer; res = ok tt })
  read-write buffer s contents pos fuel r enough room small =
      read-bytes_of ata disk blocks (write ata disk junk pos buffer s).0
        (put_all contents pos buffer)
        (write-ReadableTo buffer s contents pos (omega (arith, room)) r).0 fuel pos (length buffer)
        enough room small
      ∙ ap (λ b. some (record { bytes = b; pos = pos + length buffer; res = ok tt }))
          (bytes_of-put_all buffer contents pos)

module _ {S : Type 0} (ata : Controller S) (disk : Disk) (works : Works ata disk)
    (junk : List ℕ) where
  Works-WorksTo : (blocks : ℕ) → WorksTo ata disk blocks
  Works-WorksTo blocks = record { stored = λ s lba buf low size. works.stored s lba buf size }

  -- If the blocks of the disk can be read, and a block that is written is read back, the blocks hold
  -- the bytes of a write from its position on, and what they held before everywhere else; the
  -- position is behind the bytes.
  pub write-Readable :
      (buffer : List ℕ) (s : S) (contents : ℕ → ℕ) (pos : ℕ)
      → Readable ata disk s contents
      → Readable ata disk (write ata disk junk pos buffer s).0 (put_all contents pos buffer)
        × ((write ata disk junk pos buffer s).1 ≡ pos + length buffer)
  write-Readable buffer s contents pos r =
      let end = pos + length buffer in
      let some_blocks : (blocks : ℕ)
          → end ≤ blocks * sector_size
          → ReadableTo ata disk blocks (write ata disk junk pos buffer s).0
              (put_all contents pos buffer)
            × ((write ata disk junk pos buffer s).1 ≡ pos + length buffer) =
        λ blocks room.
          write-ReadableTo ata disk blocks (Works-WorksTo blocks) junk buffer s contents pos room
            (Readable-ReadableTo blocks r) in
      (
        record {
          block = λ lba. (some_blocks (end + lba + 1) (omega arith)).0.block lba (omega arith);
        },
        (some_blocks (end + 1) (omega arith)).1,
      )
