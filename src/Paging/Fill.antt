-- ===== src/Paging/Fill.antt =====
-- The loop of `paging_new_4gb` that fills one table.
use serpae_os.Common.{
  ℕ, zero, suc, ◌+◌, ◌*◌, ◌%◌, ◌^◌, bit_or, ◌≤◌, ◌<◌, ◌≡◌, ◌≢◌, refl, arith, ℕ_discrete, ◌∙◌,
}
use serpae_os.Paging.{Memory, store, page_size, word, fill_table}

pub fill_table-outside :
    (base offset flags rounds b q : ℕ) (m : Memory)
    → ((j : ℕ) → b ≤ j → j < b + rounds → q ≢ word base j)
    → fill_table m base offset flags rounds b q ≡ m q
unfolding fill_table store
fill_table-outside base offset flags zero b q m away = refl
fill_table-outside base offset flags (suc rounds) b q m away = ground (
  arith,
  fill_table-outside base offset flags rounds (b + 1) q
      (store m (word base b) (bit_or ((offset + b * page_size) % 2 ^ 32) flags))
      (λ j p r. away j (omega arith) (omega arith)),
  away b (omega arith) (omega arith),
)

pub fill_table-inside :
    (base offset flags rounds b j : ℕ) (m : Memory)
    → b ≤ j
    → j < b + rounds
    → fill_table m base offset flags rounds b (word base j)
      ≡ bit_or ((offset + j * page_size) % 2 ^ 32) flags
unfolding fill_table store
fill_table-inside base offset flags zero b j m p q = absurd (omega arith)
fill_table-inside base offset flags (suc rounds) b j m p q =
    let value = bit_or ((offset + b * page_size) % 2 ^ 32) flags in
    elim (ℕ_discrete j b) [
      | yes e ↦ rw e (
          fill_table-outside base offset flags rounds (b + 1) (word base b)
            (store m (word base b) value) (λ k r t e'. absurd (omega arith))
          ∙ ground arith)
      | no ne ↦
          fill_table-inside base offset flags rounds (b + 1) j (store m (word base b) value)
            (omega arith) (omega arith)
    ]
