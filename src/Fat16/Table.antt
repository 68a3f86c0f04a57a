-- ===== src/Fat16/Table.antt =====
-- The file allocation table that the contents of a disk hold, and its entries as the code reads and
-- writes them.
use serpae_os.Common.{
  ℕ, ◌+◌, ◌*◌, ◌/◌, ◌%◌, ◌^◌, ◌<◌, ◌≡◌, ◌≢◌, ◌⊎◌, inl, inr, List, arith, ap₂, dec_lt, ok,
}
use serpae_os.Streamer.{sector_size, Controller, Disk}
use serpae_os.Streamer.Read.{bytes_of, Readable, Readable-ReadableTo, read_within}
use serpae_os.Streamer.Write.{Works, put_all, write-Readable}
use serpae_os.Fat16.{
  Volume, entry_position, bytes_of_word, read_at, write_at, get_fat_entry, write_fat_entry,
}

-- The entry of a cluster in some contents, low byte first.
abbrev pub fat_of : Volume → (ℕ → ℕ) → ℕ → ℕ
fat_of v contents c = contents (entry_position v c) + 256 * contents (entry_position v c + 1)

module _ {S : Type 0} (ata : Controller S) (disk : Disk) (s : S) (contents : ℕ → ℕ)
    (readable : Readable ata disk s contents) where
  pub read_at-bytes_of :
      (pos total : ℕ)
      → read_at ata disk pos total s
        ≡ record { bytes = bytes_of contents pos total; pos = pos + total; res = ok tt }
  unfolding read_at
  read_at-bytes_of pos total = rw (
    read_at,
    read_within ata disk ((pos + total) / sector_size + 1) s contents
        (Readable-ReadableTo ((pos + total) / sector_size + 1) readable)
        ((pos % sector_size + total) / sector_size + 1) pos total (omega arith) (omega arith),
  )

  -- The code reads the entry that the disk holds.
  pub get_fat_entry-fat_of :
      (v : Volume) (c : ℕ) → get_fat_entry ata disk v c s ≡ fat_of v contents c
  unfolding get_fat_entry
  get_fat_entry-fat_of v c =
      let copied = read_at-bytes_of (entry_position v c) 2 in rw (get_fat_entry, copied, copied)

-- Entries of two clusters do not overlap, since the table lies below 4 GiB.
positions_apart :
    (v : Volume) (c e : ℕ)
    → v.reserved_sectors < 2 ^ 16
    → c < 2 ^ 16
    → e < 2 ^ 16
    → c ≢ e
    → (entry_position v c + 1 < entry_position v e) ⊎ (entry_position v e + 1 < entry_position v c)
positions_apart v c e r hc he ne = elim (dec_lt c e) [
  | yes below ↦ inl (omega arith)
  | no above ↦ inr (omega arith)
]

module _ (v : Volume) (contents : ℕ → ℕ) (e val : ℕ) where
  -- The contents with one entry changed.
  abbrev pub with_entry : ℕ → ℕ
  with_entry = put_all contents (entry_position v e) (bytes_of_word val)

  pub fat_of-with_entry_self : val < 2 ^ 16 → fat_of v with_entry e ≡ val
  fat_of-with_entry_self h = let low = entry_position v e in ground (arith, h)

  -- Bytes outside the entry stay.
  pub with_entry_out :
      (p : ℕ) → (p < entry_position v e) ⊎ (entry_position v e + 1 < p) → with_entry p ≡ contents p
  with_entry_out p h = ground (arith, h)

  pub fat_of-with_entry_ne :
      (c : ℕ)
      → v.reserved_sectors < 2 ^ 16
      → c < 2 ^ 16
      → e < 2 ^ 16
      → c ≢ e
      → fat_of v with_entry c ≡ fat_of v contents c
  fat_of-with_entry_ne c r hc he ne =
      let out = λ (p : ℕ) (h : (p < entry_position v e) ⊎ (entry_position v e + 1 < p)).
        with_entry_out p h in
      let low = entry_position v c in
      elim (positions_apart v c e r hc he ne) [
        | inl below ↦
            ap₂ (λ a b. a + 256 * b) (out low (inl (omega arith)))
              (out (low + 1) (inl (omega arith)))
        | inr above ↦
            ap₂ (λ a b. a + 256 * b) (out low (inr (omega arith)))
              (out (low + 1) (inr (omega arith)))
      ]

-- After a write of an entry the disk holds the contents with that entry changed.
pub write_fat_entry-Readable :
    {S : Type 0} (ata : Controller S) (disk : Disk) (v : Volume) (junk : List ℕ) (s : S)
    (contents : ℕ → ℕ) (e val : ℕ)
    → Works ata disk
    → Readable ata disk s contents
    → Readable ata disk (write_fat_entry ata disk v junk e val s) (with_entry v contents e val)
unfolding write_fat_entry write_at
write_fat_entry-Readable ata disk v junk s contents e val works r =
    (write-Readable ata disk works junk (bytes_of_word val) s contents (entry_position v e) r).0
