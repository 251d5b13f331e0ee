-- ===== src/Common/Divide.antt =====
-- Positions in blocks: quotients and remainders of a block's size.
use native.Mathlib.Nat.{mod-lt, mod-add-div', mul-le-mul_right, suc-mul}
use jimir_os.Common.{ℕ, suc, ◌+◌, ◌*◌, ◌/◌, ◌%◌, ◌≤◌, ◌<◌, ◌≡◌, ap, arith, inl, inr, ◌⊎◌}

-- Two blocks, one below the other.
pub block_below : (b m n : ℕ) → m < n → m * b + b ≤ n * b
block_below b m n h =
    omega (arith, mul-le-mul_right {m = suc m} {n = n} b (omega arith), suc-mul m b)

pub lt_or : (m n : ℕ) → (m ≡ n) ⊎ ((m < n) ⊎ (n < m))
lt_or m n = ground arith

-- A number has one quotient and one remainder.
pub divide_unique : (b m n r s : ℕ) → r < b → s < b → m * b + r ≡ n * b + s → (m ≡ n) × (r ≡ s)
divide_unique b m n r s hr hs e = elim (lt_or m n) [
  | inl q ↦ (q, omega (arith, e, ap (λ (k : ℕ). k * b) q))
  | inr (inl l) ↦ absurd (omega (arith, e, block_below b m n l))
  | inr (inr l) ↦ absurd (omega (arith, e, block_below b n m l))
]

-- A step that stays within its block.
pub within_block :
    (b x i : ℕ) → 0 < b → x % b + i < b → ((x + i) / b ≡ x / b) × ((x + i) % b ≡ x % b + i)
within_block b x i pos h =
    divide_unique b ((x + i) / b) (x / b) ((x + i) % b) (x % b + i) (mod-lt (x + i) pos) h
      (omega (arith, mod-add-div' (x + i) b, mod-add-div' x b))
