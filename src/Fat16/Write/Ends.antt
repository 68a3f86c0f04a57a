-- ===== src/Fat16/Write/Ends.antt =====
-- The loop of fat16_write of src/fs/fat/fat16_write.c ends.
use serpae_os.Common.{
  ℕ, zero, suc, ◌+◌, ◌-◌, ◌<◌, ◌≡◌, inl, inr, some, List, leb, ◌==◌, if◌then◌else◌, arith,
  Bool-cases, ok,
}
use serpae_os.Streamer.{Controller, Disk}
use serpae_os.Streamer.Read.{bytes_of}
use serpae_os.Fat16.{Volume, cluster_bytes, get_fat_entry, write_at}
use serpae_os.Fat16.Chains.{u16, is_end, Written}
use serpae_os.Fat16.Write.{cluster_start, write_loop}

module _ {S : Type 0} (ata : Controller S) (disk : Disk) (v : Volume) (junk : List ℕ)
    (some_bytes : 0 < cluster_bytes v) where
  -- In a volume whose clusters have bytes, a round for each byte and one more is enough, whatever the
  -- table holds.
  pub write_loop_ends :
      (fuel target : ℕ) (buf : ℕ → ℕ) (from size res : ℕ) (s : S)
      → size < fuel
      → (w : Written S) × (write_loop ata disk v junk fuel target buf from size res s ≡ some w)
  unfolding write_loop
  write_loop_ends zero target buf from size res s h = absurd (omega arith)
  write_loop_ends (suc fuel) target buf from size res s h =
      let next = u16 (get_fat_entry ata disk v target s) in
      let total = if leb size (cluster_bytes v) then size else cluster_bytes v in
      elim (Bool-cases (size == 0)) [
        | inl all ↦ (record { disk = s; res = ok res }, rw (write_loop, all))
        | inr more ↦ elim (Bool-cases (is_end next)) [
          | inl end ↦ (record { disk = s; res = ok res }, rw (write_loop, more, end))
          | inr on ↦
              let shorter : size - total < fuel = ground arith in
              let (w, e) =
                write_loop_ends fuel next buf (from + total) (size - total) total
                  (write_at ata disk junk (cluster_start ata disk v junk next)
                    (bytes_of buf from total) s)
                  shorter in
              (w, rw (write_loop, more, on) e)
        ]
      ]
