-- ===== src/Fat16/Reads.antt =====
-- Reads of a file along its chain.
use serpae_os.Common.{
  ◌^◌, ℕ, zero, suc, ◌+◌, ◌-◌, ◌*◌, ◌/◌, ◌%◌, ◌≤◌, ◌<◌, ◌≡◌, ◌⊎◌, inl, refl, true, false, some,
  List, [], ◌∷◌, ◌++◌, ltb, length, get_or, arith, ap, ◌∙◌, dec_lt,
}
use native.Mathlib.Nat.{mul-add-div_right, div-eq_of_lt, mod-eq_of_lt, add-mul-mod_self_right}
use serpae_os.Streamer.{sector_size, Controller, Disk}
use serpae_os.Streamer.Read.{bytes_of, Readable, bytes_of-append}
use serpae_os.Fat16.{
  Volume, cluster_bytes, cluster_to_sector, sector_to_absolute, is_err, get_cluster_for_offset,
  read_internal,
}
use serpae_os.Fat16.Table.{fat_of, read_at-bytes_of}
use serpae_os.Fat16.Chains.Walk.{IsChain}
use serpae_os.Fat16.Follow.{ArePlain, get_cluster_for_offset-get_or}

-- Quotient and remainder of a sum.
quotient : (b q r : ℕ) → r < b → (q * b + r) / b ≡ q
quotient b q r h =
    mul-add-div_right (omega arith) q r ∙ ap (λ k. q + k) (div-eq_of_lt h) ∙ omega arith

remainder : (b q r : ℕ) → r < b → (q * b + r) % b ≡ r
remainder b q r h =
    let swap : q * b + r ≡ r + q * b = omega arith in
    ap (λ n. n % b) swap ∙ add-mul-mod_self_right r q b ∙ mod-eq_of_lt h

-- Where a cluster stands on the disk.
abbrev pub cluster_place : Volume → ℕ → ℕ
cluster_place v cluster =
    (v.ending_sector_pos + (cluster - 2) * v.sectors_per_cluster) * sector_size

-- A cluster that the disk has and that ends below 2^31.
abbrev pub IsPlaced : Volume → ℕ → Type 0
IsPlaced v cluster = (2 ≤ cluster) × (cluster_place v cluster + cluster_bytes v ≤ 2 ^ 31)

-- The code computes the place of such a cluster in an int.
sector_to_absolute-cluster_to_sector :
    (v : Volume) (cluster : ℕ)
    → IsPlaced v cluster
    → sector_to_absolute (cluster_to_sector v cluster) ≡ cluster_place v cluster
unfolding sector_to_absolute cluster_to_sector
sector_to_absolute-cluster_to_sector v cluster (valid, room) =
    let ahead = cluster - 2 in
    let split : cluster ≡ ahead + 2 = omega (arith, valid) in
    let scaled : cluster * v.sectors_per_cluster
        ≡ ahead * v.sectors_per_cluster + 2 * v.sectors_per_cluster =
      ap (λ c. c * v.sectors_per_cluster) split ∙ omega arith in
    let sector : (v.ending_sector_pos
            + cluster * v.sectors_per_cluster
            + (2 ^ 32 - 2 * v.sectors_per_cluster))
          % 2 ^ 32
        ≡ v.ending_sector_pos + ahead * v.sectors_per_cluster =
      omega (arith, scaled, room) in
    ap (λ n. n * sector_size % 2 ^ 32) sector ∙ mod-eq_of_lt (omega (arith, room))

module _ (v : Volume) (contents : ℕ → ℕ) (clusters : List ℕ) where
  -- The place of a byte of a file on the disk.
  abbrev pub place : ℕ → ℕ
  place offset =
      cluster_place v (get_or clusters (offset / cluster_bytes v) 0) + offset % cluster_bytes v

  -- The bytes of a file from an offset on.
  abbrev pub file_bytes : ℕ → ℕ → List ℕ
  file_bytes offset zero = []
  file_bytes offset (suc total) = contents (place offset) ∷ file_bytes (offset + 1) total

  file_bytes-append :
      (offset n m : ℕ)
      → file_bytes offset n ++ file_bytes (offset + n) m ≡ file_bytes offset (n + m)
  file_bytes-append offset zero m =
      let start : offset + 0 ≡ offset = omega arith in
      let count : 0 + m ≡ m = omega arith in rw (start, count)
  file_bytes-append offset (suc n) m =
      let start : offset + suc n ≡ offset + 1 + n = omega arith in
      let count : suc n + m ≡ suc (n + m) = omega arith in
      rw (start, count) (ap (λ r. contents (place offset) ∷ r) (file_bytes-append (offset + 1) n m))

  -- Inside a cluster the bytes of the file are those of the disk from one place on.
  file_bytes-bytes_of :
      (n q r : ℕ)
      → r + n ≤ cluster_bytes v
      → file_bytes (q * cluster_bytes v + r) n
        ≡ bytes_of contents (cluster_place v (get_or clusters q 0) + r) n
  file_bytes-bytes_of zero q r h = refl
  file_bytes-bytes_of (suc n) q r h =
      let b = cluster_bytes v in
      let at = quotient b q r (omega arith) in
      let rem = remainder b q r (omega arith) in
      let first : place (q * b + r) ≡ cluster_place v (get_or clusters q 0) + r = rw (at, rem) in
      let next : q * b + r + 1 ≡ q * b + (r + 1) = omega arith in
      let base = cluster_place v (get_or clusters q 0) in
      let moved : base + r + 1 ≡ base + (r + 1) = omega arith in
      rw (first, next, moved)
        (ap (λ rest. contents (base + r) ∷ rest) (file_bytes-bytes_of n q (r + 1) (omega arith)))

below : (b q n t : ℕ) → q * b + t ≤ (n + 1) * b → 0 < t → q ≤ n
below b q n t h p = grind arith

-- Clusters of a chain are no negative numbers.
cluster-is_err :
    (fat : ℕ → ℕ) (rest : List ℕ) (c q : ℕ)
    → IsChain fat c rest
    → c < 0xFFF8
    → is_err (get_or (c ∷ rest) q 0) ≡ false
cluster-is_err fat rest c zero chain small = ground (arith, small)
cluster-is_err fat [] c (suc q) chain small = ground arith
cluster-is_err fat (d ∷ rest) c (suc q) chain small = cluster-is_err fat rest d q chain.2 chain.1

module _ {S : Type 0} (ata : Controller S) (disk : Disk) (v : Volume) (s : S) (contents : ℕ → ℕ)
    (readable : Readable ata disk s contents) (c : ℕ) (rest : List ℕ)
    (chain : IsChain (fat_of v contents) c rest) (plain : ArePlain rest) (small : c < 0xFFF8)
    (placed : (q : ℕ) → q ≤ length rest → IsPlaced v (get_or (c ∷ rest) q 0)) where
  cluster_at :
      (q r : ℕ)
      → r < cluster_bytes v
      → q ≤ length rest
      → get_cluster_for_offset ata disk v c (q * cluster_bytes v + r) s ≡ get_or (c ∷ rest) q 0
  cluster_at q r h k =
      let at = quotient (cluster_bytes v) q r h in
      get_cluster_for_offset-get_or ata disk v s contents readable c rest chain plain
        (q * cluster_bytes v + r) (rw at k)
      ∙ ap (λ i. get_or (c ∷ rest) i 0) at

  starting_pos :
      (q r : ℕ)
      → r < cluster_bytes v
      → q ≤ length rest
      → (sector_to_absolute (cluster_to_sector v (get_or (c ∷ rest) q 0)) + r) % 2 ^ 32
        ≡ cluster_place v (get_or (c ∷ rest) q 0) + r
  starting_pos q r h inside =
      let base = sector_to_absolute-cluster_to_sector v (get_or (c ∷ rest) q 0) (placed q inside) in
      ap (λ p. (p + r) % 2 ^ 32) base ∙ mod-eq_of_lt (omega (arith, h, (placed q inside).1))

  -- A read of at most a cluster's bytes is one read of the stream, wherever it starts.
  read_internal-bytes_of :
      (fuel q r total : ℕ)
      → r < cluster_bytes v
      → total ≤ cluster_bytes v
      → q ≤ length rest
      → read_internal ata disk v (suc fuel) c (q * cluster_bytes v + r) total s
        ≡ some (bytes_of contents (cluster_place v (get_or (c ∷ rest) q 0) + r) total, 0)
  unfolding read_internal
  read_internal-bytes_of fuel q r total h fits inside =
      let cluster = cluster_at q r h inside in
      let valid = cluster-is_err (fat_of v contents) rest c q chain small in
      let rem = remainder (cluster_bytes v) q r h in
      let whole : ltb (cluster_bytes v) total ≡ false = ground arith in
      let left : total - total ≡ 0 = omega arith in
      let bytes =
        read_at-bytes_of ata disk s contents readable (cluster_place v (get_or (c ∷ rest) q 0) + r)
          total in
      let place = starting_pos q r h inside in
      rw (
        read_internal, cluster, valid, whole, rem, place, bytes, whole, left, cluster, rem, place,
        bytes,
      )

  -- A read that starts inside a cluster and takes more than the rest of it, but no more than a
  -- cluster's bytes, goes on in the bytes behind that cluster on the disk, whichever the next cluster of the file is.
  pub read_internal-crosses :
      (fuel q r total : ℕ)
      → r < cluster_bytes v
      → total ≤ cluster_bytes v
      → cluster_bytes v < r + total
      → q ≤ length rest
      → read_internal ata disk v (suc fuel) c (q * cluster_bytes v + r) total s
        ≡ some (
          file_bytes v contents (c ∷ rest) (q * cluster_bytes v + r) (cluster_bytes v - r)
              ++ bytes_of contents
                  (cluster_place v (get_or (c ∷ rest) q 0) + cluster_bytes v)
                  (r + total - cluster_bytes v),
          0,
        )
  read_internal-crosses fuel q r total h fits over inside =
      let b = cluster_bytes v in
      let k = get_or (c ∷ rest) q 0 in
      let base = cluster_place v k in
      let next : base + b ≡ base + r + (b - r) = omega (arith, h) in
      let whole : b - r + (r + total - b) ≡ total = omega arith in
      rw
        (
          next,
          file_bytes-bytes_of v contents (c ∷ rest) (b - r) q r (omega arith),
          bytes_of-append contents (base + r) (b - r) (r + total - b),
          whole,
        )
        (read_internal-bytes_of fuel q r total h fits inside)

  read_internal-last :
      (fuel q r total : ℕ)
      → r < cluster_bytes v
      → r + total ≤ cluster_bytes v
      → q ≤ length rest
      → read_internal ata disk v (suc fuel) c (q * cluster_bytes v + r) total s
        ≡ some (file_bytes v contents (c ∷ rest) (q * cluster_bytes v + r) total, 0)
  read_internal-last fuel q r total h fits inside =
      rw (file_bytes-bytes_of v contents (c ∷ rest) total q r fits)
        (read_internal-bytes_of fuel q r total h (omega arith) inside)

  -- A longer read at the start of a cluster is the cluster, and a read behind it.
  read_internal-more :
      (fuel q total : ℕ) (later : List ℕ)
      → 0 < cluster_bytes v
      → cluster_bytes v < total
      → q ≤ length rest
      → read_internal ata disk v fuel c
          (q * cluster_bytes v + 0 + cluster_bytes v)
          (total - cluster_bytes v)
          s
        ≡ some (later, 0)
      → read_internal ata disk v (suc fuel) c (q * cluster_bytes v + 0) total s
        ≡ some (
          file_bytes v contents (c ∷ rest) (q * cluster_bytes v + 0) (cluster_bytes v) ++ later,
          0,
        )
  unfolding read_internal
  read_internal-more fuel q total later positive long inside ih =
      let b = cluster_bytes v in
      let cluster = cluster_at q 0 positive inside in
      let valid = cluster-is_err (fat_of v contents) rest c q chain small in
      let rem = remainder b q 0 positive in
      let more : ltb b total ≡ true = ground (arith, long) in
      let left : ltb 0 (total - b) ≡ true = ground (arith, long) in
      let bytes =
        read_at-bytes_of ata disk s contents readable (cluster_place v (get_or (c ∷ rest) q 0) + 0)
          b in
      let place = starting_pos q 0 positive inside in
      rw (
        read_internal,
        cluster,
        valid,
        more,
        rem,
        place,
        bytes,
        more,
        left,
        ih,
        more,
        cluster,
        rem,
        place,
        bytes,
        file_bytes-bytes_of v contents (c ∷ rest) b q 0 (omega arith),
      )

  -- On a disk that has no last block and whose blocks can all be read, in a chain whose clusters are 2
  -- or more and stand below 2^31 on the disk, and where none behind the first is a number the code takes
  -- for a mark (0, 0xFF0, 0xFF6, 0xFF8, 0xFFF, 0xFFF7), a read of some bytes that starts at a cluster of
  -- the file or does not leave the cluster it starts in answers the bytes of the file, if the chain is
  -- long enough for it. A call for each cluster is enough.
  pub read_internal-file_bytes :
      (fuel q r total : ℕ)
      → r < cluster_bytes v
      → (r ≡ 0) ⊎ (r + total ≤ cluster_bytes v)
      → 0 < total
      → q * cluster_bytes v + r + total ≤ (length rest + 1) * cluster_bytes v
      → total ≤ fuel * cluster_bytes v
      → read_internal ata disk v fuel c (q * cluster_bytes v + r) total s
        ≡ some (file_bytes v contents (c ∷ rest) (q * cluster_bytes v + r) total, 0)
  read_internal-file_bytes zero q r total h fits some_bytes long enough = absurd (omega arith)
  read_internal-file_bytes (suc fuel) q r total h fits some_bytes long enough =
      let b = cluster_bytes v in
      let inside : q ≤ length rest =
        below b q (length rest) (r + total) (omega (arith, long)) (omega arith) in
      elim (dec_lt b total) [
        | no short ↦ read_internal-last fuel q r total h (ground (arith, fits)) inside
        | yes more ↦
            let start : r ≡ 0 = ground (arith, fits) in
            let next : q * b + 0 + b ≡ (q + 1) * b + 0 = omega arith in
            let later : read_internal ata disk v fuel c (q * b + 0 + b) (total - b) s
                ≡ some (file_bytes v contents (c ∷ rest) (q * b + 0 + b) (total - b), 0) =
              rw next (
                read_internal-file_bytes fuel (q + 1) 0 (total - b) (omega arith) (inl refl)
                  (omega arith) (omega (arith, long)) (omega (arith, enough))) in
            let all : b + (total - b) ≡ total = omega arith in
            rw (
              start,
              read_internal-more fuel q total
                  (file_bytes v contents (c ∷ rest) (q * b + 0 + b) (total - b)) (omega arith) more
                  inside later,
              file_bytes-append v contents (c ∷ rest) (q * b + 0) b (total - b),
              all,
            )
      ]
