-- ===== src/Terminal/Tests.antt =====
-- The theorems about the text screen, at screens of spaces and of numbers.
use serpae_os.Common.{ℕ, ◌+◌, ◌*◌, ◌%◌, ◌<◌, ◌≡◌, [], ◌∷◌, get_or, arith}
use serpae_os.Terminal.{Terminal, cell_of, print}
use serpae_os.Terminal.Cursor.{IsInside, print-cells}

-- A screen of white spaces, with the cursor at the end of its first row.
abbrev cleared : Terminal
cleared = record { video = λ p. 15 * 256 + 32; row = 0; col = 79 }

print-cells_example :
    IsInside (print (104 ∷ 105 ∷ []) cleared)
    × (cell_of (print (104 ∷ 105 ∷ []) cleared).col (print (104 ∷ 105 ∷ []) cleared).row ≡ 81)
    × ((i : ℕ)
        → i < 2
        → (print (104 ∷ 105 ∷ []) cleared).video (79 + i) % 256 ≡ get_or (104 ∷ 105 ∷ []) i 0)
    × ((p : ℕ) → p < 79 → (print (104 ∷ 105 ∷ []) cleared).video p ≡ 15 * 256 + 32)
print-cells_example =
    print-cells (104 ∷ 105 ∷ []) cleared
      ((omega arith, omega arith), ((omega arith, omega arith), tt)) (λ p. omega arith)
      (omega arith, omega arith) (omega arith)
