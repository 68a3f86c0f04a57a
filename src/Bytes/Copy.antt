-- ===== src/Bytes/Copy.antt =====
-- What a copy and a fill leave in memory, and what a comparison decides.
use serpae_os.Common.{
  ℕ, zero, suc, ◌+◌, ◌-◌, ◌%◌, ◌≤◌, ◌<◌, ◌≡◌, ◌≢◌, ◌↔◌, ◌⊎◌, inl, inr, refl, true, ◌==◌, arith, ap,
  sym, ◌∙◌, ℕ_discrete,
}
use serpae_os.Common.Int.{pos}
use serpae_os.Bytes.{Memory, store, memset, memcmp, memcpy}

-- A fill sets the bytes of its range to its byte, and no others.
pub memset-range :
    (n : ℕ) (m : Memory) (ptr c p : ℕ)
    → (((ptr ≤ p) × (p < ptr + n)) → memset m ptr c n p ≡ c % 256)
      × (((p < ptr) ⊎ (ptr + n ≤ p)) → memset m ptr c n p ≡ m p)
unfolding memset
memset-range zero m ptr c p = (λ h. absurd (omega (arith, h)), λ h. refl)
memset-range (suc n) m ptr c p =
    let (inside, outside) = memset-range n (store m ptr (c % 256)) (ptr + 1) c p in
    (
      λ h. elim (ℕ_discrete p ptr) [
        | yes e ↦ outside (inl (omega arith)) ∙ ground (arith, e)
        | no ne ↦ inside (omega arith, omega arith)
      ],
      λ h. elim h [
        | inl low ↦ outside (inl (omega arith)) ∙ ground (arith, low)
        | inr high ↦ outside (inr (omega arith)) ∙ ground (arith, high)
      ],
    )

-- A copy to an address that is not inside its source, its start excepted, moves the bytes of the
-- source as they were to the range behind the address, and changes no others.
pub memcpy-range :
    (n : ℕ) (m : Memory) (dest src : ℕ)
    → (dest ≤ src) ⊎ (src + n ≤ dest)
    → ((i : ℕ) → i < n → memcpy m dest src n (dest + i) ≡ m (src + i))
      × ((p : ℕ) → (p < dest) ⊎ (dest + n ≤ p) → memcpy m dest src n p ≡ m p)
unfolding memcpy
memcpy-range zero m dest src apart = (λ i lt. absurd (omega arith), λ p h. refl)
memcpy-range (suc n) m dest src apart =
    let apart' : (dest + 1 ≤ src + 1) ⊎ (src + 1 + n ≤ dest + 1) = elim apart [
      | inl below ↦ inl (omega arith)
      | inr above ↦ inr (omega arith)
    ] in
    let (moved, kept) = memcpy-range n (store m dest (m src)) (dest + 1) (src + 1) apart' in
    (
      λ i lt. elim (ℕ_discrete i 0) [
        | yes first ↦
            let to : dest + i ≡ dest = omega arith in
            let from : src + i ≡ src = omega arith in
            rw (to, from) (kept dest (inl (omega arith)) ∙ ground arith)
        | no later ↦
            let to : dest + i ≡ dest + 1 + (i - 1) = omega arith in
            let from : src + i ≡ src + 1 + (i - 1) = omega arith in
            let other : src + 1 + (i - 1) ≢ dest = elim apart [
              | inl below ↦ omega arith
              | inr above ↦ omega arith
            ] in
            rw (to, from) (moved (i - 1) (omega arith) ∙ ground (arith, other))
      ],
      λ p h. elim h [
        | inl low ↦ kept p (inl (omega arith)) ∙ ground (arith, low)
        | inr high ↦ kept p (inr (omega arith)) ∙ ground (arith, high)
      ],
    )

plus_zero : (a i : ℕ) → i ≡ 0 → a + i ≡ a
plus_zero a i h = omega arith

-- `memcmp` answers 0 exactly for ranges of equal bytes.
pub memcmp_iff :
    (n : ℕ) (m : Memory) (s1 s2 : ℕ)
    → (memcmp m s1 s2 n ≡ pos 0) ↔ ((i : ℕ) → i < n → m (s1 + i) ≡ m (s2 + i))
unfolding memcmp
memcmp_iff zero m s1 s2 = (λ e i lt. absurd (omega arith), λ same. refl)
memcmp_iff (suc n) m s1 s2 =
    let (equal, zero_if) = memcmp_iff n m (s1 + 1) (s2 + 1) in
    (
      λ e i lt. elim (ℕ_discrete (m s1) (m s2)) [
        | yes first ↦
            let test : (m s1 == m s2) ≡ true = ground (arith, first) in
            let rest : memcmp m (s1 + 1) (s2 + 1) n ≡ pos 0 = ground (arith, e, test) in
            elim (ℕ_discrete i 0) [
              | yes start ↦ rw (plus_zero s1 i start, plus_zero s2 i start) first
              | no later ↦
                  let a : s1 + i ≡ s1 + 1 + (i - 1) = omega arith in
                  let b : s2 + i ≡ s2 + 1 + (i - 1) = omega arith in
                  rw (a, b) (equal rest (i - 1) (omega arith))
            ]
        | no differ ↦ absurd (ground (arith, e, differ))
      ],
      λ same.
          let start : m s1 ≡ m s2 =
            sym (ap m (plus_zero s1 0 refl)) ∙ same 0 (omega arith) ∙ ap m (plus_zero s2 0 refl) in
          let test : (m s1 == m s2) ≡ true = ground (arith, start) in
          rw (memcmp, test)
            (zero_if (λ i lt.
              let a : s1 + 1 + i ≡ s1 + suc i = omega arith in
              let b : s2 + 1 + i ≡ s2 + suc i = omega arith in
              rw (a, b) (same (suc i) (omega arith)))),
    )
