-- ===== src/Fat16/Directory/Count.antt =====
-- The number of items of a directory.
use serpae_os.Common.{
  ℕ, zero, suc, ◌+◌, ◌*◌, ◌≤◌, ◌<◌, ◌≡◌, ◌≢◌, ◌⊎◌, inl, inr, true, false, some, ◌==◌, if◌then◌else◌,
  arith, ap, ◌∙◌, Bool-cases, ok,
}
use serpae_os.Streamer.{sector_size, Controller, Disk}
use serpae_os.Streamer.Read.{Readable}
use serpae_os.Fat16.Table.{read_at-bytes_of}
use serpae_os.Fat16.Directory.{item_size, count_loop, get_total_items_for_directory}

module _ (contents : ℕ → ℕ) where
  -- How many of `n` items from `pos` on are not deleted.
  abbrev pub live : ℕ → ℕ → ℕ
  live pos zero = 0
  live pos (suc n) = (if contents pos == 0xE5 then 0 else 1) + live (pos + item_size) n

  -- The first bytes of the names of `n` items are not 0, and the next one is.
  abbrev pub EndsAt : ℕ → ℕ → Type 0
  EndsAt pos zero = contents pos ≡ 0
  EndsAt pos (suc n) = (contents pos ≢ 0) × EndsAt (pos + item_size) n

  abbrev pub HasDeleted : ℕ → ℕ → Type 0
  HasDeleted pos zero = ⊥
  HasDeleted pos (suc n) = (contents pos ≡ 0xE5) ⊎ HasDeleted (pos + item_size) n

  live_le : (n pos : ℕ) → live pos n ≤ n
  live_le zero pos = omega arith
  live_le (suc n) pos = ground (arith, live_le n (pos + item_size))

  live_lt : (n pos : ℕ) → HasDeleted pos n → live pos n < n
  live_lt zero pos h = absurd h
  live_lt (suc n) pos (inl here) = ground (arith, live_le n (pos + item_size), here)
  live_lt (suc n) pos (inr there) = ground (arith, live_lt n (pos + item_size) there)

module _ {S : Type 0} (ata : Controller S) (disk : Disk) (s : S) (contents : ℕ → ℕ)
    (readable : Readable ata disk s contents) where
  count_loop-live :
      (n fuel pos i : ℕ)
      → EndsAt contents pos n
      → n < fuel
      → count_loop ata disk fuel pos i s ≡ some (ok (i + live contents pos n))
  unfolding count_loop
  count_loop-live n zero pos i ends h = absurd (omega arith)
  count_loop-live zero (suc fuel) pos i ends h =
      let copied = read_at-bytes_of ata disk s contents readable pos item_size in
      let stop : (contents pos == 0) ≡ true = ground (arith, ends) in
      let sum : i + 0 ≡ i = omega arith in rw (count_loop, copied, copied, stop, sum)
  count_loop-live (suc n) (suc fuel) pos i ends h =
      let copied = read_at-bytes_of ata disk s contents readable pos item_size in
      let more : (contents pos == 0) ≡ false = ground (arith, ends.0) in
      elim (Bool-cases (contents pos == 0xE5)) [
        | inl deleted ↦
            let sum : i + (0 + live contents (pos + item_size) n)
                ≡ i + live contents (pos + item_size) n =
              omega arith in
            rw (count_loop, copied, copied, more, deleted, sum)
              (count_loop-live n fuel (pos + item_size) i ends.1 (omega arith))
        | inr used ↦
            let sum : i + (1 + live contents (pos + item_size) n)
                ≡ i + 1 + live contents (pos + item_size) n =
              omega arith in
            rw (count_loop, copied, copied, more, used, sum)
              (count_loop-live n fuel (pos + item_size) (i + 1) ends.1 (omega arith))
      ]

  -- The total of a directory of `n` items, up to the first name that starts with 0, is the number of
  -- those that are not deleted: so it is below `n` if one is deleted, and the last of the `n` items lies
  -- behind the ones that are searched.
  pub get_total_items_for_directory-live :
      (n fuel sector : ℕ)
      → EndsAt contents (sector * sector_size) n
      → n < fuel
      → (get_total_items_for_directory ata disk fuel sector s
          ≡ some (ok (live contents (sector * sector_size) n)))
        × (live contents (sector * sector_size) n ≤ n)
        × (HasDeleted contents (sector * sector_size) n
            → live contents (sector * sector_size) n < n)
  unfolding get_total_items_for_directory
  get_total_items_for_directory-live n fuel sector ends h = (
    count_loop-live n fuel (sector * sector_size) 0 ends h ∙ ap (λ k. some (ok k)) (omega arith),
    live_le contents n (sector * sector_size),
    live_lt contents n (sector * sector_size),
  )
