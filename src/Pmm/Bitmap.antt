-- ===== src/Pmm/Bitmap.antt =====
-- The bitmap of kernel/mm/pmm.c: setting and clearing a frame's bit leaves the others.
use Prim.Native.Nat.{bit_and, bit_or}
use native.Mathlib.Nat.{pow-suc}
use jimir_os.Common.{
  ℕ, zero, suc, ◌-◌, ◌/◌, ◌%◌, ◌^◌, ◌≤◌, ◌<◌, ◌≡◌, ◌∙◌, refl, ap, sym, List, arith, length, get_or,
  modify, get_or-modify, length-modify, ◌==◌, if◌then◌else◌, Bool-cases, inl, inr,
}
use jimir_os.Common.Bits.{bit, bit-shift, bit-bit_and, bit-bit_or, bit-pow, bit-not, bit-le-one}
use jimir_os.Pmm.{bm_set, bm_clear, bm_test, bitmap_words, max_frames}

pow-lt : (j w : ℕ) → j < w → 2 ^ j < 2 ^ w
pow-lt zero (suc w) h = omega (arith, pow-suc 2 w, positive w)
  where
    positive : (n : ℕ) → 0 < 2 ^ n
    positive zero = omega arith
    positive (suc n) = omega (arith, pow-suc 2 n, positive n)
pow-lt (suc j) (suc w) h = omega (arith, pow-suc 2 j, pow-suc 2 w, pow-lt j w (omega arith))
pow-lt zero zero h = elim h [ ]
pow-lt (suc j) zero h = elim h [ ]

test_bit : (j : ℕ) (bm : List ℕ) → bm_test j bm ≡ bit (j % 32) (get_or bm (j / 32) 0)
unfolding bm_test
test_bit j bm = sym (bit-shift (j % 32) (get_or bm (j / 32) 0))

pub bm_test-le-one : (j : ℕ) (bm : List ℕ) → bm_test j bm ≤ 1
bm_test-le-one j bm = omega (arith, test_bit j bm, bit-le-one (j % 32) (get_or bm (j / 32) 0))

split-eq : (i j : ℕ) → i / 32 ≡ j / 32 → i % 32 ≡ j % 32 → i ≡ j
split-eq i j p q = omega arith

-- The bit of frame `i` is set, and every other frame's bit is as it was.
pub bm_test-bm_set :
    (i j : ℕ) (bm : List ℕ)
    → length bm ≡ bitmap_words
    → i < max_frames
    → bm_test j (bm_set i bm) ≡ (if i == j then 1 else bm_test j bm)
unfolding bm_set
bm_test-bm_set i j bm s h =
    test_bit j (modify bm (i / 32) (λ w. bit_or w (2 ^ (i % 32))))
    ∙ elim (Bool-cases (i / 32 == j / 32)) [
      | inr e ↦ ground (arith, at, e, test_bit j bm, split-eq i j)
      | inl e ↦
          ap (bit (j % 32)) (at ∙ rw e refl)
          ∙ bit-bit_or (j % 32) (get_or bm (j / 32) 0) (2 ^ (i % 32))
          ∙ ground (
            arith,
            bit-pow (j % 32) (i % 32),
            test_bit j bm,
            split-eq i j,
            e,
            bit-le-one (j % 32) (get_or bm (j / 32) 0),
          )
    ]
  where
    at : get_or (modify bm (i / 32) (λ w. bit_or w (2 ^ (i % 32)))) (j / 32) 0 ≡ (
        if i / 32 == j / 32
        then bit_or (get_or bm (j / 32) 0) (2 ^ (i % 32))
        else get_or bm (j / 32) 0)
    at = get_or-modify bm (i / 32) (j / 32) (λ w. bit_or w (2 ^ (i % 32))) 0 (omega arith)

pub bm_test-bm_clear :
    (i j : ℕ) (bm : List ℕ)
    → length bm ≡ bitmap_words
    → i < max_frames
    → bm_test j (bm_clear i bm) ≡ (if i == j then 0 else bm_test j bm)
unfolding bm_clear
bm_test-bm_clear i j bm s h =
    test_bit j (modify bm (i / 32) (λ w. bit_and w (2 ^ 32 - 1 - 2 ^ (i % 32))))
    ∙ elim (Bool-cases (i / 32 == j / 32)) [
      | inr e ↦ ground (arith, at, e, test_bit j bm, split-eq i j)
      | inl e ↦
          ap (bit (j % 32)) (at ∙ rw e refl)
          ∙ bit-bit_and (j % 32) (get_or bm (j / 32) 0) (2 ^ 32 - 1 - 2 ^ (i % 32))
          ∙ ground (
            arith,
            bit-not 32 (j % 32) (2 ^ (i % 32)) (omega arith) (pow-lt (i % 32) 32 (omega arith)),
            bit-pow (j % 32) (i % 32),
            test_bit j bm,
            split-eq i j,
            e,
            bit-le-one (j % 32) (get_or bm (j / 32) 0),
          )
    ]
  where
    at : get_or (modify bm (i / 32) (λ w. bit_and w (2 ^ 32 - 1 - 2 ^ (i % 32)))) (j / 32) 0 ≡ (
        if i / 32 == j / 32
        then bit_and (get_or bm (j / 32) 0) (2 ^ 32 - 1 - 2 ^ (i % 32))
        else get_or bm (j / 32) 0)
    at =
        get_or-modify bm (i / 32) (j / 32) (λ w. bit_and w (2 ^ 32 - 1 - 2 ^ (i % 32))) 0
          (omega arith)

pub length-bm_set : (i : ℕ) (bm : List ℕ) → length (bm_set i bm) ≡ length bm
unfolding bm_set
length-bm_set i bm = length-modify bm (i / 32) (λ w. bit_or w (2 ^ (i % 32)))

pub length-bm_clear : (i : ℕ) (bm : List ℕ) → length (bm_clear i bm) ≡ length bm
unfolding bm_clear
length-bm_clear i bm = length-modify bm (i / 32) (λ w. bit_and w (2 ^ 32 - 1 - 2 ^ (i % 32)))
