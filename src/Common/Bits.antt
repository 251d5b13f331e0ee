-- ===== src/Common/Bits.antt =====
-- Single bits of words: what `|`, `&` and a shifted `1` do to each of them.
use Prim.Native.Nat.{digits, bit_and, bit_or, bit_and-bitwise, bit_or-bitwise}
use native.Mathlib.Nat.{pow-suc, pow-succ', div-div-eq-div-mul}
use jimir_os.Common.{
  ℕ, zero, suc, ◌+◌, ◌-◌, ◌*◌, ◌/◌, ◌%◌, ◌^◌, ◌≤◌, ◌<◌, min, max, ◌≡◌, refl, ◌∙◌, sym, ap, arith,
  ◌==◌, if◌then◌else◌,
}

-- `(x >> k) & 1`, by recursion on `k`.
abbrev pub bit : ℕ → ℕ → ℕ
bit zero x = x % 2
bit (suc k) x = bit k (x / 2)

-- The operations on words recur on a count of digits to go, which serves if it is no less than the
-- first word: so a word's operation is that on the halves, and the operation on the last digits.
module _ (spent : ℕ → ℕ) (op : ℕ → ℕ → ℕ) where
  digits-zero : (count y : ℕ) → digits spent op count 0 y ≡ spent y
  digits-zero zero y = refl
  digits-zero (suc count) y = refl

  digits_count :
      (x y count count' : ℕ)
      → x ≤ count
      → x ≤ count'
      → digits spent op count x y ≡ digits spent op count' x y
  digits_count zero y count count' h h' = digits-zero count y ∙ sym (digits-zero count' y)
  digits_count (suc x) y zero count' h h' = absurd (omega arith)
  digits_count (suc x) y (suc count) zero h h' = absurd (omega arith)
  digits_count (suc x) y (suc count) (suc count') h h' =
      ap (λ (high : ℕ). high * 2 + op (suc x % 2) (y % 2))
        (digits_count (suc x / 2) (y / 2) count count' (omega arith) (omega arith))

  digits_halves :
      (x y : ℕ)
      → digits spent op (suc x) (suc x) y
        ≡ digits spent op (suc x / 2) (suc x / 2) (y / 2) * 2 + op (suc x % 2) (y % 2)
  digits_halves x y =
      ap (λ (high : ℕ). high * 2 + op (suc x % 2) (y % 2))
        (digits_count (suc x / 2) (y / 2) x (suc x / 2) (omega arith) (omega arith))

-- The native operations by those definitions.
and_is : (x y : ℕ) → bit_and x y ≡ digits (λ _. 0) min x x y
and_is x y = bit_and-bitwise x y

or_is : (x y : ℕ) → bit_or x y ≡ digits (λ d. d) max x x y
or_is x y = bit_or-bitwise x y

pub zero-bit_and : (y : ℕ) → bit_and 0 y ≡ 0
zero-bit_and y = and_is 0 y

zero-bit_or : (y : ℕ) → bit_or 0 y ≡ y
zero-bit_or y = or_is 0 y

pub bit_and_step : (x y : ℕ) → bit_and x y ≡ bit_and (x / 2) (y / 2) * 2 + min (x % 2) (y % 2)
bit_and_step zero y = omega (arith, zero-bit_and y, zero-bit_and (y / 2))
bit_and_step (suc x) y =
    and_is (suc x) y
    ∙ digits_halves (λ _. 0) min x y
    ∙ ap (λ (high : ℕ). high * 2 + min (suc x % 2) (y % 2)) (sym (and_is (suc x / 2) (y / 2)))

pub bit_or_step : (x y : ℕ) → bit_or x y ≡ bit_or (x / 2) (y / 2) * 2 + max (x % 2) (y % 2)
bit_or_step zero y = omega (arith, zero-bit_or y, zero-bit_or (y / 2))
bit_or_step (suc x) y =
    or_is (suc x) y
    ∙ digits_halves (λ d. d) max x y
    ∙ ap (λ (high : ℕ). high * 2 + max (suc x % 2) (y % 2)) (sym (or_is (suc x / 2) (y / 2)))

pub bit-le-one : (k x : ℕ) → bit k x ≤ 1
bit-le-one zero x = omega arith
bit-le-one (suc k) x = bit-le-one k (x / 2)

bit-eq : (k : ℕ) {x y : ℕ} → x ≡ y → bit k x ≡ bit k y
bit-eq k e = ap (bit k) e

pub bit-bit_and : (k a b : ℕ) → bit k (bit_and a b) ≡ min (bit k a) (bit k b)
bit-bit_and zero a b = omega (arith, bit_and_step a b)
bit-bit_and (suc k) a b =
    bit-eq k {x = bit_and a b / 2} {y = bit_and (a / 2) (b / 2)} (omega (arith, bit_and_step a b))
    ∙ bit-bit_and k (a / 2) (b / 2)

pub bit-bit_or : (k a b : ℕ) → bit k (bit_or a b) ≡ max (bit k a) (bit k b)
bit-bit_or zero a b = omega (arith, bit_or_step a b)
bit-bit_or (suc k) a b =
    bit-eq k {x = bit_or a b / 2} {y = bit_or (a / 2) (b / 2)} (omega (arith, bit_or_step a b))
    ∙ bit-bit_or k (a / 2) (b / 2)

pub bit-zero : (k : ℕ) → bit k 0 ≡ 0
bit-zero zero = refl
bit-zero (suc k) = bit-zero k

-- `1 << j` has the one bit `j`.
pub bit-pow : (k j : ℕ) → bit k (2 ^ j) ≡ (if j == k then 1 else 0)
bit-pow zero zero = refl
bit-pow zero (suc j) = ground (arith, pow-suc 2 j)
bit-pow (suc k) zero = ground (arith, bit-zero k)
bit-pow (suc k) (suc j) =
    bit-eq k {x = 2 ^ suc j / 2} {y = 2 ^ j} (omega (arith, pow-suc 2 j))
    ∙ bit-pow k j
    ∙ ground arith

-- `~x`, at width `w`.
pub bit-not : (w k x : ℕ) → k < w → x < 2 ^ w → bit k (2 ^ w - 1 - x) ≡ 1 - bit k x
bit-not zero k x h l = elim h [ ]
bit-not (suc w) zero x h l = omega (arith, pow-suc 2 w)
bit-not (suc w) (suc k) x h l =
    bit-eq k {x = (2 ^ suc w - 1 - x) / 2} {y = 2 ^ w - 1 - x / 2} (omega (arith, pow-suc 2 w))
    ∙ bit-not w k (x / 2) (omega arith) (omega (arith, pow-suc 2 w))

-- The recursion is the shift that the source writes.
pub bit-shift : (k x : ℕ) → bit k x ≡ x / 2 ^ k % 2
bit-shift zero x = omega arith
bit-shift (suc k) x =
    bit-shift k (x / 2)
    ∙ ap (λ (t : ℕ). t % 2)
        (div-div-eq-div-mul x 2 (2 ^ k) ∙ ap (λ (t : ℕ). x / t) (sym (pow-succ' 2 k)))

-- `|` stays within a width.
pub bit_or-lt : (w a b : ℕ) → a < 2 ^ w → b < 2 ^ w → bit_or a b < 2 ^ w
bit_or-lt zero a b h k = rw (zero_of_lt a h, zero_of_lt b k) (omega arith)
  where
    zero_of_lt : (x : ℕ) → x < 1 → x ≡ 0
    zero_of_lt x l = omega arith
bit_or-lt (suc w) a b h k = omega (
  arith,
  bit_or_step a b,
  pow-suc 2 w,
  bit_or-lt w (a / 2) (b / 2) (omega (arith, pow-suc 2 w)) (omega (arith, pow-suc 2 w)),
)
