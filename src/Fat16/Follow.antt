-- ===== src/Fat16/Follow.antt =====
-- The cluster for an offset in a file.
use serpae_os.Common.{
  ℕ, zero, suc, ◌/◌, ◌^◌, ◌≤◌, ◌<◌, ◌≡◌, ◌≢◌, refl, false, List, [], ◌∷◌, ◌==◌, length, get_or,
  arith, ◌∙◌,
}
use serpae_os.Streamer.{Controller, Disk}
use serpae_os.Streamer.Read.{Readable}
use serpae_os.Fat16.{Volume, bad_sector, is_err, follow, get_cluster_for_offset, cluster_bytes}
use serpae_os.Fat16.Table.{fat_of, get_fat_entry-fat_of}
use serpae_os.Fat16.Chains.Walk.{IsChain, last_of}

-- A cluster that the code does not take for a mark.
abbrev pub IsPlain : ℕ → Type 0
IsPlain d = (d ≢ 0) × (d ≢ 0xFF0) × (d ≢ 0xFF6) × (d ≢ 0xFF8) × (d ≢ 0xFFF) × (d ≢ bad_sector)

abbrev pub ArePlain : List ℕ → Type 0
ArePlain [] = Unit {0}
ArePlain (d ∷ rest) = IsPlain d × ArePlain rest

-- The entry of the last cluster is an end mark.
pub last_of-end :
    (fat : ℕ → ℕ) (rest : List ℕ) (c : ℕ)
    → IsChain fat c rest
    → (0xFFF8 ≤ fat (last_of c rest)) × (fat (last_of c rest) < 2 ^ 16)
last_of-end fat [] c chain = chain
last_of-end fat (d ∷ rest) c chain = last_of-end fat rest d chain.2

module _ {S : Type 0} (ata : Controller S) (disk : Disk) (v : Volume) (s : S) (contents : ℕ → ℕ)
    (readable : Readable ata disk s contents) where
  -- One step along the table from an entry that is no mark of the code.
  follow-step :
      (n c d : ℕ)
      → fat_of v contents c ≡ d
      → IsPlain d
      → follow ata disk v (suc n) c s ≡ follow ata disk v n d s
  unfolding follow
  follow-step n c d e plain =
      let entry = get_fat_entry-fat_of ata disk s contents readable v c in
      let a : (d == 0xFF8) ≡ false = ground (arith, plain) in
      let b : (d == 0xFFF) ≡ false = ground (arith, plain) in
      let f : (d == bad_sector) ≡ false = ground (arith, plain) in
      let g : (d == 0xFF0) ≡ false = ground (arith, plain) in
      let i : (d == 0xFF6) ≡ false = ground (arith, plain) in
      let j : (d == 0) ≡ false = ground (arith, plain) in rw (follow, entry, e, a, b, f, g, i, j)

  follow-get_or :
      (rest : List ℕ) (n c : ℕ)
      → IsChain (fat_of v contents) c rest
      → ArePlain rest
      → n ≤ length rest
      → follow ata disk v n c s ≡ get_or (c ∷ rest) n 0
  unfolding follow
  follow-get_or rest zero c chain plain h = refl
  follow-get_or [] (suc n) c chain plain h = absurd (omega arith)
  follow-get_or (d ∷ rest) (suc n) c chain plain h =
      follow-step n c d chain.0 plain.0 ∙ follow-get_or rest n d chain.2 plain.1 (omega arith)

  follow-end :
      (rest : List ℕ) (c : ℕ)
      → IsChain (fat_of v contents) c rest
      → ArePlain rest
      → follow ata disk v (suc (length rest)) c s ≡ fat_of v contents (last_of c rest)
  unfolding follow
  follow-end [] c chain plain = follow-step 0 c (fat_of v contents c) refl (
    ground (arith, chain.0),
    ground (arith, chain.0),
    ground (arith, chain.0),
    ground (arith, chain.0),
    ground (arith, chain.0),
    ground (arith, chain.0),
  )
  follow-end (d ∷ rest) c chain plain =
      follow-step (suc (length rest)) c d chain.0 plain.0 ∙ follow-end rest d chain.2 plain.1

  module _ (c : ℕ) (rest : List ℕ) (chain : IsChain (fat_of v contents) c rest)
      (plain : ArePlain rest) where
    -- In a chain whose clusters the code takes for no mark, the cluster for an offset in the file is
    -- the one that holds it.
    pub get_cluster_for_offset-get_or :
        (offset : ℕ)
        → offset / cluster_bytes v ≤ length rest
        → get_cluster_for_offset ata disk v c offset s
          ≡ get_or (c ∷ rest) (offset / cluster_bytes v) 0
    unfolding get_cluster_for_offset
    get_cluster_for_offset-get_or offset h =
        follow-get_or rest (offset / cluster_bytes v) c chain plain h

    -- For an offset in the first cluster behind the end of the chain the answer is no error, but the
    -- end mark of the chain as the number of a cluster.
    pub get_cluster_for_offset-end :
        (offset : ℕ)
        → offset / cluster_bytes v ≡ suc (length rest)
        → (get_cluster_for_offset ata disk v c offset s ≡ fat_of v contents (last_of c rest))
          × (0xFFF8 ≤ get_cluster_for_offset ata disk v c offset s)
          × (is_err (get_cluster_for_offset ata disk v c offset s) ≡ false)
    unfolding get_cluster_for_offset
    get_cluster_for_offset-end offset h =
        let answer : follow ata disk v (offset / cluster_bytes v) c s
            ≡ fat_of v contents (last_of c rest) =
          rw h (follow-end rest c chain plain) in
        let (low, high) = last_of-end (fat_of v contents) rest c chain in
        rw (get_cluster_for_offset, answer) (refl, low, ground (arith, high))
