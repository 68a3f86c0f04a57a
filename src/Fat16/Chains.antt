-- ===== src/Fat16/Chains.antt =====
-- Chains of clusters, src/fs/fat/fat16_write.c: free clusters, the last cluster of a chain, and
-- chains that grow and are erased. Loops that end only at a mark in the table recur on fuel, with
-- `none` for a loop that has not ended.
pub mod Walk
pub mod Grow
pub mod Erase
use serpae_os.Common.{
  ℕ, zero, suc, ◌+◌, ◌-◌, ◌*◌, ◌/◌, ◌%◌, ◌^◌, ◌≤◌, ◌<◌, ◌≡◌, ◌≢◌, ◌↔◌, ◌⊎◌, inl, inr, refl, Bool,
  true, false, not, ◌&&◌, ◌||◌, Option, none, some, List, [], ◌∷◌, ◌++◌, map, ltb, leb, ◌==◌,
  if◌then◌else◌, length, take, drop, set, get_or, get_elem?, replicate, arith, ap, ap₂, sym, ◌∙◌,
  length-append, length-set, get_or-set_self, get_or-set_ne, set-set, get_or-replicate, get_or_ext,
  length-replicate, length-take, length-drop, get_or-snoc_self, get_or-snoc_ne, get_or_out,
  List-cases, some_cancel, some_ne, Option-cases, Bool-cases, range_cases, tests, dec_lt, dec_le,
  ℕ_discrete, Status, ok, err, Status-cases, eio, einvarg, enodiskspace,
}
use serpae_os.Streamer.{Controller, Disk}
use serpae_os.Fat16.{Volume, eoc, unused, get_fat_entry, write_fat_entry}

abbrev pub u16 : ℕ → ℕ
u16 n = n % 2 ^ 16

-- The numbers of the code's end marks.
abbrev pub is_end : ℕ → Bool
is_end code = leb 0xFFF8 code

-- The number of clusters, up to which the search for a free one goes.
abbrev pub cluster_limit : Volume → ℕ
cluster_limit v = v.sectors_big / v.sectors_per_cluster

module _ {S : Type 0} (ata : Controller S) (disk : Disk) (v : Volume) where
  -- The loop of `fat16_get_first_first_cluster`.
  unfoldable pub free_loop : ℕ → ℕ → S → Option ℕ
  free_loop zero cluster s = none
  free_loop (suc fuel) cluster s =
      let rest = free_loop fuel (cluster + 1) s in
      if u16 (get_fat_entry ata disk v cluster s) == unused
      then some (u16 cluster)
      else if leb (cluster_limit v) cluster
      then some 0
      else rest

  -- Each round but the last is below the limit.
  unfoldable pub get_first_first_cluster : S → Option ℕ
  get_first_first_cluster s = free_loop (cluster_limit v + 1) 3 s

  unfoldable pub find_last_cluster_of_chain : ℕ → ℕ → S → Option ℕ
  find_last_cluster_of_chain zero curr s = none
  find_last_cluster_of_chain (suc fuel) curr s =
      let code = u16 (get_fat_entry ata disk v curr s) in
      let rest = find_last_cluster_of_chain fuel code s in if is_end code then some curr else rest

  unfoldable pub get_cluster_chain : ℕ → ℕ → S → Option (List ℕ)
  get_cluster_chain zero curr s = none
  get_cluster_chain (suc fuel) curr s =
      let code = u16 (get_fat_entry ata disk v curr s) in
      let rest = get_cluster_chain fuel code s in
      if is_end code
      then some (curr ∷ [])
      else elim rest [ none ↦ none | some out ↦ some (curr ∷ out) ]

  -- `i` counts from 1.
  unfoldable pub count_clusters_in_chain : ℕ → ℕ → ℕ → S → Option ℕ
  count_clusters_in_chain zero i curr s = none
  count_clusters_in_chain (suc fuel) i curr s =
      let code = u16 (get_fat_entry ata disk v curr s) in
      let rest = count_clusters_in_chain fuel (i + 1) code s in if is_end code then some i else rest

-- What a function that writes to the disk leaves there, and its answer.
pub record Written (S : Type 0) : Type 0 where
  pub disk : S
  pub res : Status ℕ

module _ {S : Type 0} (ata : Controller S) (disk : Disk) (v : Volume) (junk : List ℕ) where
  unfoldable pub add_cluster_to_chain : ℕ → ℕ → S → Option (Written S)
  add_cluster_to_chain fuel first_cluster s =
      elim (find_last_cluster_of_chain ata disk v fuel first_cluster s) [
        | none ↦ none
        | some cluster ↦ elim (get_first_first_cluster ata disk v s) [
          | none ↦ none
          | some next ↦
              let linked = write_fat_entry ata disk v junk cluster next s in
              if next == 0
              then some (record { disk = s; res = err enodiskspace })
              else some
                  (record { disk = write_fat_entry ata disk v junk next eoc linked; res = ok 0 })
        ]
      ]

  -- `add_cluster_to_chain`, so many times, whatever it answers.
  unfoldable pub add_clusters : ℕ → ℕ → ℕ → S → Option S
  add_clusters fuel zero first s = some s
  add_clusters fuel (suc rounds) first s = elim (add_cluster_to_chain fuel first s) [
    | none ↦ none
    | some w ↦ add_clusters fuel rounds first w.disk
  ]

  -- The answer is the first cluster, or 0. A count that is not positive is refused, with -EINVARG
  -- cut to 16 bits.
  unfoldable pub generate_cluster_chain : ℕ → ℕ → S → Option (S × ℕ)
  generate_cluster_chain fuel count s = elim (get_first_first_cluster ata disk v s) [
    | none ↦ none
    | some first ↦
        let chained =
          add_clusters fuel (count - 1) first (write_fat_entry ata disk v junk first eoc s) in
        if count == 0
        then some (s, u16 (2 ^ 32 - einvarg))
        else if first == 0
        then some (s, 0)
        else elim chained [ none ↦ none | some s' ↦ some (s', first) ]
  ]

  unfoldable pub erase_loop : ℕ → ℕ → S → Option S
  erase_loop zero curr s = none
  erase_loop (suc fuel) curr s =
      let code = u16 (get_fat_entry ata disk v curr s) in
      let erased = write_fat_entry ata disk v junk curr 0 s in
      let rest = erase_loop fuel code erased in if code == eoc then some erased else rest

  unfoldable pub erase_cluster_chain : ℕ → ℕ → S → Option (Written S)
  erase_cluster_chain fuel first s =
      if leb first 2
      then some (record { disk = s; res = err einvarg })
      else elim (erase_loop fuel first s) [
        | none ↦ none
        | some s' ↦ some (record { disk = s'; res = ok 0 })
      ]
