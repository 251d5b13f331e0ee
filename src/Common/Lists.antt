-- ===== src/Common/Lists.antt =====
-- Arrays as lists with native indices, and the predicate that every indexed entry satisfies.
use Prim.Native.Nat.{ℕ, zero, suc, ◌+◌, ◌<◌}
use mathlib.Core.Path.{◌≡◌, refl, ap}
use mathlib.Core.List.{List, [], ◌∷◌, ◌++◌}
use mathlib.Core.Option.{Option, none, some}
use native.Mathlib.Omega.{arith}
use jimir_os.Common.Tests.{◌==◌, if◌then◌else◌}

module _ {ℓ} {A : Type ℓ} where
  abbrev pub length : List A → ℕ
  length [] = 0
  length (_ ∷ xs) = suc (length xs)

  -- `a[i]`, with a default out of range.
  abbrev pub get_or : List A → ℕ → A → A
  get_or [] i d = d
  get_or (x ∷ _) zero d = x
  get_or (_ ∷ xs) (suc i) d = get_or xs i d

  abbrev pub get_elem? : List A → ℕ → Option A
  get_elem? [] _ = none
  get_elem? (x ∷ _) zero = some x
  get_elem? (_ ∷ xs) (suc i) = get_elem? xs i

  -- `a[i] = v`; a write out of range changes nothing.
  abbrev pub set : List A → ℕ → A → List A
  set [] i v = []
  set (_ ∷ xs) zero v = v ∷ xs
  set (x ∷ xs) (suc i) v = x ∷ set xs i v

  -- An assignment to fields of `a[i]`.
  abbrev pub modify : List A → ℕ → (A → A) → List A
  modify [] i f = []
  modify (x ∷ xs) zero f = f x ∷ xs
  modify (x ∷ xs) (suc i) f = x ∷ modify xs i f

  abbrev pub replicate : ℕ → A → List A
  replicate zero a = []
  replicate (suc n) a = a ∷ replicate n a

  abbrev pub take : ℕ → List A → List A
  take zero xs = []
  take (suc n) [] = []
  take (suc n) (x ∷ xs) = x ∷ take n xs

  abbrev pub drop : ℕ → List A → List A
  drop zero xs = xs
  drop (suc n) [] = []
  drop (suc n) (x ∷ xs) = drop n xs

  -- `for (i = 0; …; i++)` whose body changes `a[i]` alone, from index `i` on.
  abbrev pub map_from : (ℕ → A → A) → ℕ → List A → List A
  map_from f i [] = []
  map_from f i (x ∷ xs) = f i x ∷ map_from f (suc i) xs

module _ {ℓ} {A : Type ℓ} where
  pub length-append : (xs ys : List A) → length (xs ++ ys) ≡ length xs + length ys
  length-append [] ys = omega arith
  length-append (x ∷ xs) ys = omega (arith, length-append xs ys)

  pub length-set : (xs : List A) (i : ℕ) (v : A) → length (set xs i v) ≡ length xs
  length-set [] i v = refl
  length-set (x ∷ xs) zero v = refl
  length-set (x ∷ xs) (suc i) v = ap suc (length-set xs i v)

  pub length-modify : (xs : List A) (i : ℕ) (f : A → A) → length (modify xs i f) ≡ length xs
  length-modify [] i f = refl
  length-modify (x ∷ xs) zero f = refl
  length-modify (x ∷ xs) (suc i) f = ap suc (length-modify xs i f)

  pub length-replicate : (n : ℕ) (a : A) → length (replicate n a) ≡ n
  length-replicate zero a = refl
  length-replicate (suc n) a = ap suc (length-replicate n a)

  pub length-map_from : (f : ℕ → A → A) (i : ℕ) (xs : List A) → length (map_from f i xs) ≡ length xs
  length-map_from f i [] = refl
  length-map_from f i (x ∷ xs) = ap suc (length-map_from f (suc i) xs)

  pub get_or-set :
      (xs : List A) (i j : ℕ) (v d : A)
      → i < length xs
      → get_or (set xs i v) j d ≡ (if i == j then v else get_or xs j d)
  get_or-set [] i j v d h = elim h [ ]
  get_or-set (x ∷ xs) zero zero v d h = refl
  get_or-set (x ∷ xs) zero (suc j) v d h = ground arith
  get_or-set (x ∷ xs) (suc i) zero v d h = ground arith
  get_or-set (x ∷ xs) (suc i) (suc j) v d h = ground (arith, get_or-set xs i j v d (omega arith))

  pub get_or-modify :
      (xs : List A) (i j : ℕ) (f : A → A) (d : A)
      → i < length xs
      → get_or (modify xs i f) j d ≡ (if i == j then f (get_or xs j d) else get_or xs j d)
  get_or-modify [] i j f d h = elim h [ ]
  get_or-modify (x ∷ xs) zero zero f d h = refl
  get_or-modify (x ∷ xs) zero (suc j) f d h = ground arith
  get_or-modify (x ∷ xs) (suc i) zero f d h = ground arith
  get_or-modify (x ∷ xs) (suc i) (suc j) f d h =
      ground (arith, get_or-modify xs i j f d (omega arith))

  pub get_or-map_from :
      (f : ℕ → A → A) (i j : ℕ) (xs : List A) (d : A)
      → j < length xs
      → get_or (map_from f i xs) j d ≡ f (i + j) (get_or xs j d)
  get_or-map_from f i j [] d h = elim h [ ]
  get_or-map_from f i zero (x ∷ xs) d h = ap (λ k. f k x) (omega arith)
  get_or-map_from f i (suc j) (x ∷ xs) d h =
      rw (get_or-map_from f (suc i) j xs d (omega arith))
        (ap (λ k. f k (get_or xs j d)) (omega arith))

  pub get_or-replicate : (n i : ℕ) (a : A) → get_or (replicate n a) i a ≡ a
  get_or-replicate zero i a = refl
  get_or-replicate (suc n) zero a = refl
  get_or-replicate (suc n) (suc i) a = get_or-replicate n i a
