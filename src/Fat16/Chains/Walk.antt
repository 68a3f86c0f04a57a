-- ===== src/Fat16/Chains/Walk.antt =====
-- Walks along a chain: the last cluster, the list and the number of its clusters, and the cluster for
-- an offset in the file.
use serpae_os.Common.{
  ℕ, zero, suc, ◌+◌, ◌^◌, ◌≤◌, ◌<◌, ◌≡◌, true, false, some, List, [], ◌∷◌, length, arith, ap, ◌∙◌,
}
use serpae_os.Streamer.{Controller, Disk}
use serpae_os.Streamer.Read.{Readable}
use serpae_os.Fat16.{Volume}
use serpae_os.Fat16.Table.{fat_of, get_fat_entry-fat_of}
use serpae_os.Fat16.Chains.{
  u16, is_end, find_last_cluster_of_chain, get_cluster_chain, count_clusters_in_chain,
}

-- A chain of the table from `c` on: each entry names the next cluster, and the last is an end mark.
abbrev pub IsChain : (ℕ → ℕ) → ℕ → List ℕ → Type 0
IsChain fat c [] = (0xFFF8 ≤ fat c) × (fat c < 2 ^ 16)
IsChain fat c (d ∷ rest) = (fat c ≡ d) × (d < 0xFFF8) × IsChain fat d rest

-- The last cluster of a chain.
abbrev pub last_of : ℕ → List ℕ → ℕ
last_of c [] = c
last_of c (d ∷ rest) = last_of d rest

module _ {S : Type 0} (ata : Controller S) (disk : Disk) (v : Volume) (s : S) (contents : ℕ → ℕ)
    (readable : Readable ata disk s contents) where
  -- With a round for each cluster, the search for the last cluster of a chain finds it.
  pub find_last_cluster_of_chain-last_of :
      (rest : List ℕ) (fuel c : ℕ)
      → IsChain (fat_of v contents) c rest
      → length rest < fuel
      → find_last_cluster_of_chain ata disk v fuel c s ≡ some (last_of c rest)
  unfolding find_last_cluster_of_chain
  find_last_cluster_of_chain-last_of rest zero c chain h = absurd (omega arith)
  find_last_cluster_of_chain-last_of [] (suc fuel) c chain h =
      let entry = get_fat_entry-fat_of ata disk s contents readable v c in
      let code : u16 (fat_of v contents c) ≡ fat_of v contents c = omega (arith, chain.1) in
      let stop : is_end (fat_of v contents c) ≡ true = ground (arith, chain.0) in
      rw (find_last_cluster_of_chain, entry, code, stop)
  find_last_cluster_of_chain-last_of (d ∷ rest) (suc fuel) c chain h =
      let entry = get_fat_entry-fat_of ata disk s contents readable v c in
      let code : u16 d ≡ d = omega (arith, chain.1) in
      let more : is_end d ≡ false = ground (arith, chain.1) in
      rw (find_last_cluster_of_chain, entry, chain.0, code, more)
        (find_last_cluster_of_chain-last_of rest fuel d chain.2 (omega arith))

  -- The list of a chain holds its clusters.
  get_cluster_chain-IsChain :
      (rest : List ℕ) (fuel c : ℕ)
      → IsChain (fat_of v contents) c rest
      → length rest < fuel
      → get_cluster_chain ata disk v fuel c s ≡ some (c ∷ rest)
  unfolding get_cluster_chain
  get_cluster_chain-IsChain rest zero c chain h = absurd (omega arith)
  get_cluster_chain-IsChain [] (suc fuel) c chain h =
      let entry = get_fat_entry-fat_of ata disk s contents readable v c in
      let code : u16 (fat_of v contents c) ≡ fat_of v contents c = omega (arith, chain.1) in
      let stop : is_end (fat_of v contents c) ≡ true = ground (arith, chain.0) in
      rw (get_cluster_chain, entry, code, stop)
  get_cluster_chain-IsChain (d ∷ rest) (suc fuel) c chain h =
      let entry = get_fat_entry-fat_of ata disk s contents readable v c in
      let code : u16 d ≡ d = omega (arith, chain.1) in
      let more : is_end d ≡ false = ground (arith, chain.1) in
      rw (
        get_cluster_chain,
        entry,
        chain.0,
        code,
        more,
        get_cluster_chain-IsChain rest fuel d chain.2 (omega arith),
      )

  -- The count of a chain, from `i` on, is the number of its clusters.
  count_clusters_in_chain-length :
      (rest : List ℕ) (fuel i c : ℕ)
      → IsChain (fat_of v contents) c rest
      → length rest < fuel
      → count_clusters_in_chain ata disk v fuel i c s ≡ some (i + length rest)
  unfolding count_clusters_in_chain
  count_clusters_in_chain-length rest zero i c chain h = absurd (omega arith)
  count_clusters_in_chain-length [] (suc fuel) i c chain h =
      let entry = get_fat_entry-fat_of ata disk s contents readable v c in
      let code : u16 (fat_of v contents c) ≡ fat_of v contents c = omega (arith, chain.1) in
      let stop : is_end (fat_of v contents c) ≡ true = ground (arith, chain.0) in
      let sum : i + 0 ≡ i = omega arith in rw (count_clusters_in_chain, entry, code, stop, sum)
  count_clusters_in_chain-length (d ∷ rest) (suc fuel) i c chain h =
      let entry = get_fat_entry-fat_of ata disk s contents readable v c in
      let code : u16 d ≡ d = omega (arith, chain.1) in
      let more : is_end d ≡ false = ground (arith, chain.1) in
      let sum : i + suc (length rest) ≡ i + 1 + length rest = omega arith in
      rw (count_clusters_in_chain, entry, chain.0, code, more, sum)
        (count_clusters_in_chain-length rest fuel (i + 1) d chain.2 (omega arith))

  -- With a round for each cluster, the three walks along a chain end: at its last cluster, with its
  -- clusters in order, and with their number.
  pub walk-IsChain :
      (rest : List ℕ) (fuel c : ℕ)
      → IsChain (fat_of v contents) c rest
      → length rest < fuel
      → (find_last_cluster_of_chain ata disk v fuel c s ≡ some (last_of c rest))
        × (get_cluster_chain ata disk v fuel c s ≡ some (c ∷ rest))
        × (count_clusters_in_chain ata disk v fuel 1 c s ≡ some (length (c ∷ rest)))
  walk-IsChain rest fuel c chain h = (
    find_last_cluster_of_chain-last_of rest fuel c chain h,
    get_cluster_chain-IsChain rest fuel c chain h,
    count_clusters_in_chain-length rest fuel 1 c chain h ∙ ap some (omega arith),
  )
