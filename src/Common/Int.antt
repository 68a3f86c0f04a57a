-- ===== src/Common/Int.antt =====
-- Signed results: `negsuc n` is -(n + 1), under the library's names over the native numbers.
use Prim.Native.Nat.{ℕ, ◌-◌}
use serpae_os.Common.Tests.{leb, if◌then◌else◌}

pub data ℤ : Type 0 where
  pos : ℕ → ℤ
  negsuc : ℕ → ℤ

-- a - b, as an integer.
abbrev pub sub_ℕ : ℕ → ℕ → ℤ
sub_ℕ a b = if leb b a then pos (a - b) else negsuc (b - a - 1)
