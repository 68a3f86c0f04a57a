-- ===== src/Fat16/Chains/Erase.antt =====
-- Chains that are erased.
use serpae_os.Common.{
  ℕ, zero, suc, ◌^◌, ◌≤◌, ◌<◌, ◌≡◌, ◌⊎◌, inl, inr, refl, true, false, some, List, [], ◌∷◌, leb,
  ◌==◌, length, arith, ap, sym, ◌∙◌, ℕ_discrete, ok,
}
use mathlib.Core.Path.{subst}
use serpae_os.Streamer.{Controller, Disk}
use serpae_os.Streamer.Read.{Readable}
use serpae_os.Streamer.Write.{Works}
use serpae_os.Fat16.{Volume, eoc, write_fat_entry}
use serpae_os.Fat16.Table.{
  fat_of, get_fat_entry-fat_of, with_entry, fat_of-with_entry_self, fat_of-with_entry_ne,
  write_fat_entry-Readable,
}
use serpae_os.Fat16.Chains.{u16, erase_loop, erase_cluster_chain}
use serpae_os.Fat16.Chains.Walk.{IsChain, last_of}

abbrev pub Among : ℕ → List ℕ → Type 0
Among x [] = ⊥
Among x (c ∷ rest) = (x ≡ c) ⊎ Among x rest

-- The chain behind a cluster of a chain, which is shorter.
suffix :
    (fat : ℕ → ℕ) (x c : ℕ) (rest : List ℕ)
    → IsChain fat c rest
    → Among x rest
    → (tail : List ℕ) × IsChain fat x tail × (length tail < length rest)
suffix fat x c [] chain h = absurd h
suffix fat x c (d ∷ rest) chain (inl e) =
    (rest, subst (λ y. IsChain fat y rest) (sym e) chain.2, omega arith)
suffix fat x c (d ∷ rest) chain (inr h) =
    let (tail, is, short) = suffix fat x d rest chain.2 h in (tail, is, omega arith)

-- A table has one chain from a cluster on.
same_length :
    (fat : ℕ → ℕ) (c : ℕ) (r1 r2 : List ℕ)
    → IsChain fat c r1
    → IsChain fat c r2
    → length r1 ≡ length r2
same_length fat c [] [] h1 h2 = refl
same_length fat c [] (d ∷ r2) h1 h2 = absurd (omega (arith, h1.0, h2.0, h2.1))
same_length fat c (d ∷ r1) [] h1 h2 = absurd (omega (arith, h2.0, h1.0, h1.1))
same_length fat c (d ∷ r1) (e ∷ r2) h1 h2 =
    let same : e ≡ d = sym h2.0 ∙ h1.0 in
    ap suc (same_length fat d r1 r2 h1.2 (subst (λ y. IsChain fat y r2) same h2.2))

-- So no cluster stands in a chain twice.
not_again : (fat : ℕ → ℕ) (c : ℕ) (rest : List ℕ) → IsChain fat c rest → ¬ Among c rest
not_again fat c rest chain h =
    let (tail, is, short) = suffix fat c c rest chain h in
    omega (arith, same_length fat c tail rest is chain)

-- The contents of the disk with the entries of the clusters set to 0.
abbrev pub erased : Volume → (ℕ → ℕ) → List ℕ → ℕ → ℕ
erased v contents [] = contents
erased v contents (c ∷ rest) = erased v (with_entry v contents c 0) rest

-- A table that is the same on a chain has the chain.
pub IsChain-same :
    (fat fat' : ℕ → ℕ) (c : ℕ) (rest : List ℕ)
    → ((x : ℕ) → Among x (c ∷ rest) → fat' x ≡ fat x)
    → IsChain fat c rest
    → IsChain fat' c rest
IsChain-same fat fat' c [] same chain =
    subst (λ y. (0xFFF8 ≤ y) × (y < 2 ^ 16)) (sym (same c (inl refl))) chain
IsChain-same fat fat' c (d ∷ rest) same chain = (
  same c (inl refl) ∙ chain.0,
  chain.1,
  IsChain-same fat fat' d rest (λ x h. same x (inr h)) chain.2,
)

pub Among-lt :
    (fat : ℕ → ℕ) (c x : ℕ) (rest : List ℕ) → IsChain fat c rest → Among x rest → x < 2 ^ 16
Among-lt fat c x [] chain h = absurd h
Among-lt fat c x (d ∷ rest) chain (inl e) = omega (arith, chain.1)
Among-lt fat c x (d ∷ rest) chain (inr h) = Among-lt fat d x rest chain.2 h

in_16_bits : (d : ℕ) → d < 0xFFF8 → d < 2 ^ 16
in_16_bits d h = omega arith

pub last-Among : (c : ℕ) (rest : List ℕ) → Among (last_of c rest) (c ∷ rest)
last-Among c [] = inl refl
last-Among c (d ∷ rest) = inr (last-Among d rest)

Among-cases : (x : ℕ) (l : List ℕ) → Among x l ⊎ (¬ Among x l)
Among-cases x [] = inr (λ h. h)
Among-cases x (c ∷ rest) = elim (ℕ_discrete x c) [
  | yes e ↦ inl (inl e)
  | no ne ↦ elim (Among-cases x rest) [
    | inl h ↦ inl (inr h)
    | inr out ↦ inr (λ h. elim h [ inl e ↦ ne e | inr i ↦ out i ])
  ]
]

module _ (v : Volume) (reserved : v.reserved_sectors < 2 ^ 16) where
  -- Outside the clusters the table stays.
  erased_out :
      (clusters : List ℕ) (contents : ℕ → ℕ) (x : ℕ)
      → x < 2 ^ 16
      → ((y : ℕ) → Among y clusters → y < 2 ^ 16)
      → ¬ Among x clusters
      → fat_of v (erased v contents clusters) x ≡ fat_of v contents x
  erased_out [] contents x hx small out = refl
  erased_out (c ∷ rest) contents x hx small out =
      erased_out rest (with_entry v contents c 0) x hx (λ y h. small y (inr h)) (λ h. out (inr h))
      ∙ fat_of-with_entry_ne v contents c 0 x reserved hx (small c (inl refl)) (λ e. out (inl e))

  -- Inside they are 0.
  erased_in :
      (clusters : List ℕ) (contents : ℕ → ℕ) (x : ℕ)
      → ((y : ℕ) → Among y clusters → y < 2 ^ 16)
      → Among x clusters
      → fat_of v (erased v contents clusters) x ≡ 0
  erased_in [] contents x small h = absurd h
  erased_in (c ∷ rest) contents x small h = elim (Among-cases x rest) [
    | inl later ↦ erased_in rest (with_entry v contents c 0) x (λ y i. small y (inr i)) later
    | inr absent ↦
        let first : x ≡ c = elim h [ inl e ↦ e | inr later ↦ absurd (absent later) ] in
        erased_out rest (with_entry v contents c 0) x (small x h) (λ y i. small y (inr i)) absent
        ∙ ap (fat_of v (with_entry v contents c 0)) first
        ∙ fat_of-with_entry_self v contents c 0 (omega arith)
  ]

module _ {S : Type 0} (ata : Controller S) (disk : Disk) (v : Volume) (junk : List ℕ)
    (works : Works ata disk) (reserved : v.reserved_sectors < 2 ^ 16) where
  erase_loop-erased :
      (rest : List ℕ) (fuel c : ℕ) (s : S) (contents : ℕ → ℕ)
      → Readable ata disk s contents
      → IsChain (fat_of v contents) c rest
      → fat_of v contents (last_of c rest) ≡ eoc
      → c < 2 ^ 16
      → length rest < fuel
      → (after : S) × (erase_loop ata disk v junk fuel c s ≡ some after)
        × Readable ata disk after (erased v contents (c ∷ rest))
  unfolding erase_loop
  erase_loop-erased rest zero c s contents r chain end hc h = absurd (omega arith)
  erase_loop-erased [] (suc fuel) c s contents r chain end hc h =
      let entry = get_fat_entry-fat_of ata disk s contents r v c in
      let stop : (u16 (fat_of v contents c) == eoc) ≡ true = ground (arith, end) in
      (
        write_fat_entry ata disk v junk c 0 s,
        rw (erase_loop, entry, stop),
        write_fat_entry-Readable ata disk v junk s contents c 0 works r,
      )
  erase_loop-erased (d ∷ rest) (suc fuel) c s contents r chain end hc h =
      let entry = get_fat_entry-fat_of ata disk s contents r v c in
      let code : u16 d ≡ d = omega (arith, chain.1) in
      let more : (d == eoc) ≡ false = ground (arith, chain.1) in
      let next = with_entry v contents c 0 in
      let fat = fat_of v contents in
      let same : (x : ℕ) → Among x (d ∷ rest) → fat_of v next x ≡ fat x = λ x i.
        fat_of-with_entry_ne v contents c 0 x reserved (Among-lt fat c x (d ∷ rest) chain i) hc
          (λ e. not_again fat c (d ∷ rest) chain (subst (λ y. Among y (d ∷ rest)) e i)) in
      let (after, e, readable) =
        erase_loop-erased rest fuel d (write_fat_entry ata disk v junk c 0 s) next
          (write_fat_entry-Readable ata disk v junk s contents c 0 works r)
          (IsChain-same fat (fat_of v next) d rest same chain.2)
          (same (last_of d rest) (last-Among d rest) ∙ end) (in_16_bits d chain.1) (omega arith) in
      (after, rw (erase_loop, entry, chain.0, code, more) e, readable)

  -- A chain that starts behind cluster 2 and ends with the mark 0xFFFF is erased, with a round for each
  -- cluster: its entries become 0, and all other entries stay.
  pub erase_cluster_chain-erased :
      (rest : List ℕ) (fuel c : ℕ) (s : S) (contents : ℕ → ℕ)
      → Readable ata disk s contents
      → IsChain (fat_of v contents) c rest
      → fat_of v contents (last_of c rest) ≡ eoc
      → 2 < c
      → c < 2 ^ 16
      → length rest < fuel
      → (after : S) × (erase_cluster_chain ata disk v junk fuel c s
          ≡ some (record { disk = after; res = ok 0 }))
        × Readable ata disk after (erased v contents (c ∷ rest))
        × ((x : ℕ) → Among x (c ∷ rest) → fat_of v (erased v contents (c ∷ rest)) x ≡ 0)
        × ((x : ℕ)
            → x < 2 ^ 16
            → ¬ Among x (c ∷ rest)
            → fat_of v (erased v contents (c ∷ rest)) x ≡ fat_of v contents x)
  unfolding erase_cluster_chain
  erase_cluster_chain-erased rest fuel c s contents r chain end low hc h =
      let (after, e, readable) = erase_loop-erased rest fuel c s contents r chain end hc h in
      let valid : leb c 2 ≡ false = ground arith in
      let small : (y : ℕ) → Among y (c ∷ rest) → y < 2 ^ 16 = λ y i. elim i [
        | inl first ↦ omega (arith, first)
        | inr later ↦ Among-lt (fat_of v contents) c y rest chain later
      ] in
      (
        after,
        rw (erase_cluster_chain, valid, e),
        readable,
        λ x i. erased_in v reserved (c ∷ rest) contents x small i,
        λ x hx out. erased_out v reserved (c ∷ rest) contents x hx small out,
      )
