-- ===== src/Fat16/Chains/Grow.antt =====
-- Free clusters, and chains that grow.
use serpae_os.Common.{
  ℕ, zero, suc, ◌+◌, ◌^◌, ◌≤◌, ◌<◌, ◌≡◌, ◌≢◌, ◌⊎◌, inl, inr, true, false, Option, some, List, [],
  ◌∷◌, ◌++◌, leb, ◌==◌, length, arith, ap, ◌∙◌, dec_le, ℕ_discrete, ok, err, enodiskspace,
}
use serpae_os.Streamer.{Controller, Disk}
use serpae_os.Streamer.Read.{Readable}
use serpae_os.Streamer.Write.{Works}
use serpae_os.Fat16.{Volume, eoc, unused, write_fat_entry}
use serpae_os.Fat16.Table.{
  fat_of, get_fat_entry-fat_of, with_entry, fat_of-with_entry_self, fat_of-with_entry_ne,
  write_fat_entry-Readable,
}
use serpae_os.Fat16.Follow.{ArePlain, last_of-end}
use serpae_os.Fat16.Chains.{
  u16, cluster_limit, free_loop, get_first_first_cluster, add_cluster_to_chain,
}
use serpae_os.Fat16.Chains.Walk.{IsChain, last_of, walk-IsChain}

-- The first free cluster from `c` on, up to the limit.
abbrev pub FirstFree : (ℕ → ℕ) → ℕ → ℕ → ℕ → Type 0
FirstFree fat limit c f =
    (c ≤ f) × (f ≤ limit) × (u16 (fat f) ≡ 0) × ((x : ℕ) → c ≤ x → x < f → u16 (fat x) ≢ 0)

-- The search finds the first free cluster; or it answers 0, and there is none.
abbrev pub Searched : (ℕ → ℕ) → ℕ → ℕ → Option ℕ → Type 0
Searched fat limit c answer =
    ((f : ℕ) × (answer ≡ some f) × FirstFree fat limit c f)
    ⊎ ((answer ≡ some 0) × ((x : ℕ) → c ≤ x → x ≤ limit → u16 (fat x) ≢ 0))

module _ {S : Type 0} (ata : Controller S) (disk : Disk) (v : Volume) (s : S) (contents : ℕ → ℕ)
    (readable : Readable ata disk s contents) where
  free_loop-Searched :
      (fuel c : ℕ)
      → c ≤ cluster_limit v
      → cluster_limit v < c + fuel
      → cluster_limit v < 2 ^ 16
      → Searched (fat_of v contents) (cluster_limit v) c (free_loop ata disk v fuel c s)
  unfolding free_loop
  free_loop-Searched zero c low enough small = absurd (omega arith)
  free_loop-Searched (suc fuel) c low enough small =
      let fat = fat_of v contents in
      let limit = cluster_limit v in
      let entry = get_fat_entry-fat_of ata disk s contents readable v c in
      elim (ℕ_discrete (u16 (fat c)) 0) [
        | yes free ↦
            let test : (u16 (fat c) == unused) ≡ true = ground (arith, free) in
            let code : u16 c ≡ c = omega arith in
            inl (
              c,
              rw (free_loop, entry, test, code),
              (omega arith, low, free, λ x a b. absurd (omega arith)),
            )
        | no taken ↦
            let test : (u16 (fat c) == unused) ≡ false = ground (arith, taken) in
            elim (dec_le limit c) [
              | yes last ↦
                  let stop : leb limit c ≡ true = ground arith in
                  let same : c ≡ limit = omega arith in
                  inr (
                    rw (free_loop, entry, test, stop),
                    λ x a b. let at : x ≡ c = omega arith in rw at taken,
                  )
              | no below ↦
                  let go : leb limit c ≡ false = ground arith in
                  elim (free_loop-Searched fuel (c + 1) (omega arith) (omega arith) small) [
                    | inl (f, e, (lo, hi, free, before)) ↦ inl (
                      f,
                      rw (free_loop, entry, test, go) e,
                      (
                        omega arith,
                        hi,
                        free,
                        λ x a b. elim (ℕ_discrete x c) [
                          | yes same ↦ rw same taken
                          | no ne ↦ before x (omega arith) b
                        ],
                      ),
                    )
                    | inr (e, all) ↦ inr (
                      rw (free_loop, entry, test, go) e,
                      λ x a b. elim (ℕ_discrete x c) [
                        | yes same ↦ rw same taken
                        | no ne ↦ all x (omega arith) b
                      ],
                    )
                  ]
            ]
      ]

  -- On a volume of at least 3 and fewer than 65536 clusters, the search for a free cluster ends: with
  -- the first free one from 3 on, or with 0 if there is none up to the limit.
  pub get_first_first_cluster-Searched :
      3 ≤ cluster_limit v
      → cluster_limit v < 2 ^ 16
      → Searched (fat_of v contents) (cluster_limit v) 3 (get_first_first_cluster ata disk v s)
  unfolding get_first_first_cluster
  get_first_first_cluster-Searched low small =
      free_loop-Searched (cluster_limit v + 1) 3 low (omega arith) small

last_of-lt :
    (fat : ℕ → ℕ) (rest : List ℕ) (c : ℕ)
    → IsChain fat c rest
    → c < 2 ^ 16
    → last_of c rest < 2 ^ 16
last_of-lt fat [] c chain h = h
last_of-lt fat (d ∷ rest) c chain h = last_of-lt fat rest d chain.2 (omega (arith, chain.1))

-- A chain in a table whose last entry names `f` now, and whose entry of `f` is an end mark.
IsChain-snoc :
    (fat fat' : ℕ → ℕ) (f : ℕ) (rest : List ℕ) (c : ℕ)
    → IsChain fat c rest
    → ArePlain rest
    → c < 2 ^ 16
    → u16 (fat f) ≡ 0
    → f < 0xFFF8
    → ((x : ℕ) → x < 2 ^ 16 → x ≢ last_of c rest → x ≢ f → fat' x ≡ fat x)
    → fat' (last_of c rest) ≡ f
    → fat' f ≡ 0xFFFF
    → IsChain fat' c (rest ++ f ∷ [])
IsChain-snoc fat fat' f [] c chain plain hc free small same linked ended =
    (linked, small, (omega (arith, ended), omega (arith, ended)))
IsChain-snoc fat fat' f (d ∷ rest) c chain plain hc free small same linked ended =
    let last = (last_of-end fat rest d chain.2).0 in
    let apart : c ≢ last_of d rest =
      λ e. absurd (omega (arith, chain.0, chain.1, last, ap fat e)) in
    let other : c ≢ f = λ e. absurd (ground (arith, plain.0, free, chain.0, chain.1, ap fat e)) in
    (
      same c hc apart other ∙ chain.0,
      chain.1,
      IsChain-snoc fat fat' f rest d chain.2 plain.1 (omega (arith, chain.1)) free small same linked
          ended,
    )

-- The contents of the disk with `f` linked behind `last`.
abbrev pub linked : Volume → (ℕ → ℕ) → ℕ → ℕ → ℕ → ℕ
linked v contents last f = with_entry v (with_entry v contents last f) f eoc

module _ {S : Type 0} (ata : Controller S) (disk : Disk) (v : Volume) (junk : List ℕ) (s : S)
    (contents : ℕ → ℕ) (readable : Readable ata disk s contents) (works : Works ata disk)
    (reserved : v.reserved_sectors < 2 ^ 16) (low : 3 ≤ cluster_limit v)
    (small : cluster_limit v < 0xFFF8) (c : ℕ) (rest : List ℕ)
    (chain : IsChain (fat_of v contents) c rest) (plain : ArePlain rest) (hc : c < 2 ^ 16)
    (fuel : ℕ) (enough : length rest < fuel) where
  linked-IsChain :
      (f : ℕ)
      → FirstFree (fat_of v contents) (cluster_limit v) 3 f
      → IsChain (fat_of v (linked v contents (last_of c rest) f)) c (rest ++ f ∷ [])
        × ((x : ℕ)
            → x < 2 ^ 16
            → x ≢ last_of c rest
            → x ≢ f
            → fat_of v (linked v contents (last_of c rest) f) x ≡ fat_of v contents x)
  linked-IsChain f (lo, hi, free, before) =
      let last = last_of c rest in
      let first = with_entry v contents last f in
      let end = last_of-end (fat_of v contents) rest c chain in
      let size = last_of-lt (fat_of v contents) rest c chain hc in
      let apart : last ≢ f = λ e. absurd (omega (arith, free, end, ap (fat_of v contents) e)) in
      let same : (x : ℕ)
          → x < 2 ^ 16
          → x ≢ last
          → x ≢ f
          → fat_of v (linked v contents last f) x ≡ fat_of v contents x =
        λ x hx ne other.
          fat_of-with_entry_ne v first f eoc x reserved hx (omega arith) other
          ∙ fat_of-with_entry_ne v contents last f x reserved hx size ne in
      (
        IsChain-snoc (fat_of v contents) (fat_of v (linked v contents last f)) f rest c chain plain
            hc free (omega arith) same
            (fat_of-with_entry_ne v first f eoc last reserved size (omega arith) apart
              ∙ fat_of-with_entry_self v contents last f (omega arith))
            (fat_of-with_entry_self v first f eoc (omega arith)),
        same,
      )

  -- On a disk that works and has no last block, with a limit of clusters from 3 to 0xFFF7 and less than 2^16 reserved sectors, and for a chain
  -- none of whose clusters behind the first is a number the code takes for a mark: if a cluster from 3 to the limit is free, `fat16_add_cluster_to_chain` links
  -- the first free one behind the last of the chain, and the entries of all other clusters stay. If
  -- none is free, it answers -ENODISKSPACE and changes nothing.
  pub add_cluster_to_chain-IsChain :
      ((f : ℕ) × (after : S) × FirstFree (fat_of v contents) (cluster_limit v) 3 f
        × (add_cluster_to_chain ata disk v junk fuel c s
            ≡ some (record { disk = after; res = ok 0 }))
        × Readable ata disk after (linked v contents (last_of c rest) f)
        × IsChain (fat_of v (linked v contents (last_of c rest) f)) c (rest ++ f ∷ [])
        × ((x : ℕ)
            → x < 2 ^ 16
            → x ≢ last_of c rest
            → x ≢ f
            → fat_of v (linked v contents (last_of c rest) f) x ≡ fat_of v contents x))
      ⊎ (((x : ℕ) → 3 ≤ x → x ≤ cluster_limit v → u16 (fat_of v contents x) ≢ 0)
          × (add_cluster_to_chain ata disk v junk fuel c s
              ≡ some (record { disk = s; res = err enodiskspace })))
  unfolding add_cluster_to_chain
  add_cluster_to_chain-IsChain =
      let last = (walk-IsChain ata disk v s contents readable rest fuel c chain enough).0 in
      elim (get_first_first_cluster-Searched ata disk v s contents readable low (omega arith)) [
        | inr (e, none_free) ↦ inr (none_free, rw (add_cluster_to_chain, last, e))
        | inl (f, e, first) ↦
            let some_cluster : (f == 0) ≡ false = ground (arith, first.0) in
            let (grown, same) = linked-IsChain f first in
            let one = write_fat_entry ata disk v junk (last_of c rest) f s in
            let r =
              write_fat_entry-Readable ata disk v junk s contents (last_of c rest) f works
                readable in
            inl (
              f,
              write_fat_entry ata disk v junk f eoc one,
              first,
              rw (add_cluster_to_chain, last, e, some_cluster),
              write_fat_entry-Readable ata disk v junk one
                  (with_entry v contents (last_of c rest) f) f eoc works r,
              grown,
              same,
            )
      ]
