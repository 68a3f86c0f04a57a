-- ===== src/Fat16/Files/Seek.antt =====
-- Positions in a file.
use serpae_os.Common.{
  ℕ, ◌+◌, ◌-◌, ◌%◌, ◌^◌, ◌≤◌, ◌<◌, ◌≡◌, inl, inr, refl, true, false, leb, ◌==◌, arith, Bool-cases,
  ok, err, eio, einvarg,
}
use serpae_os.Fat16.Directory.{DirectoryItem, file}
use serpae_os.Fat16.Files.{
  FatFile, ftell, seek, at_position, seek_set, seek_cur, seek_end, seek_neg,
}

at_position_lem :
    (desc : FatFile) (p : ℕ) → ((at_position desc p).0 ≡ ok tt) × (ftell (at_position desc p).1 ≡ p)
unfolding at_position ftell
at_position_lem desc p = (refl, refl)

-- On a file, an offset at or behind its end is refused with EIO, and a mode above 3 with EINVARG,
-- and the position stays. A seek from the start or the end answers 0, and its position is the offset
-- from there, so inside the file or at its end. A seek from the current position adds or subtracts
-- the offset in 32 bits.
pub seek-ftell :
    (desc : FatFile) (item : DirectoryItem) (offset seek_mode : ℕ)
    → desc.item ≡ file item
    → (item.filesize ≤ offset → seek desc offset seek_mode ≡ (err eio, desc))
      × (offset < item.filesize
          → (3 < seek_mode → seek desc offset seek_mode ≡ (err einvarg, desc))
            × (seek_mode ≤ 3 → (seek desc offset seek_mode).0 ≡ ok tt)
            × (ftell (seek desc offset seek_set).1 ≡ offset)
            × (ftell (seek desc offset seek_end).1 + offset ≡ item.filesize)
            × (ftell (seek desc offset seek_cur).1 ≡ (desc.pos + offset) % 2 ^ 32)
            × (ftell (seek desc offset seek_neg).1 ≡ (desc.pos + 2 ^ 32 - offset) % 2 ^ 32))
unfolding seek
seek-ftell desc item offset seek_mode e = (
  λ behind. let out : leb item.filesize offset ≡ true = ground arith in simp (seek, e, out),
  λ inside.
      let within : leb item.filesize offset ≡ false = ground arith in
      (
        λ high.
            let a : (seek_mode == seek_set) ≡ false = ground arith in
            let b : (seek_mode == seek_end) ≡ false = ground arith in
            let c : (seek_mode == seek_cur) ≡ false = ground arith in
            let d : (seek_mode == seek_neg) ≡ false = ground arith in
            simp (seek, e, within, a, b, c, d),
        λ low.
            let stays = λ (p : ℕ). (at_position_lem desc p).0 in
            elim (Bool-cases (seek_mode == seek_set)) [
              | inl a ↦ rw (seek, e, within, a, stays)
              | inr a ↦ elim (Bool-cases (seek_mode == seek_end)) [
                | inl b ↦ rw (seek, e, within, a, b, stays)
                | inr b ↦ elim (Bool-cases (seek_mode == seek_cur)) [
                  | inl c ↦ rw (seek, e, within, a, b, c, stays)
                  | inr c ↦
                      let d : (seek_mode == seek_neg) ≡ true = ground arith in
                      rw (seek, e, within, a, b, c, d, stays)
                ]
              ]
            ],
        rw (seek, e, within) (at_position_lem desc _).1,
        rw (seek, e, within, (at_position_lem desc (item.filesize - offset)).1) (omega arith),
        rw (seek, e, within) (at_position_lem desc _).1,
        rw (seek, e, within) (at_position_lem desc _).1,
      ),
)
