-- ===== src/Base/Int.antt =====
-- C++ `int`, by sign. `negsuc n` is -(n + 1).
use Prim.Native.Nat.{ℕ, ◌-◌, ◌^◌, max}

pub data ℤ : Type 0 where
  pos : ℕ → ℤ
  negsuc : ℕ → ℤ

-- The conversion to a 64-bit `size_t`.
abbrev pub to_size : ℤ → ℕ
to_size (pos n) = n
to_size (negsuc n) = 2 ^ 64 - 1 - n

-- `std::max(k, i)` for a number `k`
abbrev pub at_least : ℕ → ℤ → ℕ
at_least k (pos n) = max k n
at_least k (negsuc n) = k
