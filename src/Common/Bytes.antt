-- ===== src/Common/Bytes.antt =====
-- Runs of bytes in memory, and the numbers that they hold with the lowest byte first.
use jimir_os.Common.{
  ℕ, zero, suc, ◌+◌, ◌-◌, ◌*◌, ◌≤◌, ◌<◌, ◌≡◌, ◌∙◌, refl, ap, Bool, true, false, ◌&&◌, List, [], ◌∷◌,
  length, get_or, set, arith, ltb, leb, ◌==◌, if◌then◌else◌, get_or-set, length-set, Bool-cases,
  inl, inr, ◌↔◌, ==_iff,
}

-- `n` bytes from index `off` on; a byte out of range is 0.
unfoldable pub read_bytes : ℕ → ℕ → List ℕ → List ℕ
read_bytes off zero xs = []
read_bytes off (suc n) xs = get_or xs off 0 ∷ read_bytes (suc off) n xs

-- The bytes `src` copied to index `off` and on.
unfoldable pub write_bytes : ℕ → List ℕ → List ℕ → List ℕ
write_bytes off [] xs = xs
write_bytes off (b ∷ src) xs = write_bytes (suc off) src (set xs off b)

abbrev pub le16 : ℕ → List ℕ → ℕ
le16 off xs = get_or xs off 0 + 256 * get_or xs (off + 1) 0

abbrev pub le32 : ℕ → List ℕ → ℕ
le32 off xs = le16 off xs + 65536 * le16 (off + 2) xs

unfoldable pub eq_bytes : List ℕ → List ℕ → Bool
eq_bytes [] [] = true
eq_bytes [] (y ∷ ys) = false
eq_bytes (x ∷ xs) [] = false
eq_bytes (x ∷ xs) (y ∷ ys) = x == y && eq_bytes xs ys

pub length-read_bytes : (off n : ℕ) (xs : List ℕ) → length (read_bytes off n xs) ≡ n
unfolding read_bytes
length-read_bytes off zero xs = refl
length-read_bytes off (suc n) xs = ap suc (length-read_bytes (suc off) n xs)

pub get_or-read_bytes :
    (off n i : ℕ) (xs : List ℕ) → i < n → get_or (read_bytes off n xs) i 0 ≡ get_or xs (off + i) 0
unfolding read_bytes
get_or-read_bytes off zero i xs h = elim h [ ]
get_or-read_bytes off (suc n) zero xs h = ap (λ (k : ℕ). get_or xs k 0) (omega arith)
get_or-read_bytes off (suc n) (suc i) xs h =
    get_or-read_bytes (suc off) n i xs (omega arith) ∙ ap (λ (k : ℕ). get_or xs k 0) (omega arith)

pub length-write_bytes : (off : ℕ) (src xs : List ℕ) → length (write_bytes off src xs) ≡ length xs
unfolding write_bytes
length-write_bytes off [] xs = refl
length-write_bytes off (b ∷ src) xs =
    length-write_bytes (suc off) src (set xs off b) ∙ length-set xs off b

-- Each byte after a copy.
pub get_or-write_bytes :
    (off j : ℕ) (src xs : List ℕ)
    → off + length src ≤ length xs
    → get_or (write_bytes off src xs) j 0
      ≡ (if leb off j && ltb j (off + length src) then get_or src (j - off) 0 else get_or xs j 0)
unfolding write_bytes
get_or-write_bytes off j [] xs h = ground arith
get_or-write_bytes off j (b ∷ src) xs h =
    get_or-write_bytes (suc off) j src (set xs off b) (omega (arith, length-set xs off b))
    ∙ elim (Bool-cases (off == j)) [
      | inl e ↦ ground (arith, e, get_or-set xs off j b 0 (omega arith))
      | inr e ↦ apart (get_or-set xs off j b 0 (omega arith)) e
    ]
  where
    apart :
        get_or (set xs off b) j 0 ≡ (if off == j then b else get_or xs j 0)
        → off == j ≡ false
        → (if leb (suc off) j && ltb j (suc off + length src)
            then get_or src (j - suc off) 0
            else get_or (set xs off b) j 0)
          ≡ (if leb off j && ltb j (off + suc (length src))
              then get_or (b ∷ src) (j - off) 0
              else get_or xs j 0)
    apart q e = elim (Bool-cases (leb (suc off) j)) [
      | inr u ↦ ground (arith, q, e, u)
      | inl u ↦
          let p : j - off ≡ suc (j - suc off) = ground (arith, u) in
          ground (arith, q, e, u, ap (λ (k : ℕ). get_or (b ∷ src) k 0) p)
    ]

pub eq_bytes_iff : (xs ys : List ℕ) → (eq_bytes xs ys ≡ true) ↔ (xs ≡ ys)
unfolding eq_bytes
eq_bytes_iff [] [] = ((λ _. refl), (λ _. refl))
eq_bytes_iff [] (y ∷ ys) = ((λ h. ground (arith, h)), (λ h. ground (arith, h)))
eq_bytes_iff (x ∷ xs) [] = ((λ h. ground (arith, h)), (λ h. ground (arith, h)))
eq_bytes_iff (x ∷ xs) (y ∷ ys) = ground (arith, ==_iff x y, eq_bytes_iff xs ys)
