-- ===== src/Common/Runs.antt =====
-- Lists of numbers by their entries: parts, joins, and equality.
use Prim.Native.Nat.{ℕ, zero, suc, ◌+◌, ◌-◌, ◌<◌}
use mathlib.Core.Path.{◌≡◌, refl, ap, ap₂}
use mathlib.Core.List.{List, [], ◌∷◌, ◌++◌}
use native.Mathlib.Omega.{arith}
use jimir_os.Common.Tests.{ltb, if◌then◌else◌}
use jimir_os.Common.Lists.{length, get_or, drop}

pub length-drop : (n : ℕ) (xs : List ℕ) → length (drop n xs) ≡ length xs - n
length-drop zero xs = omega arith
length-drop (suc n) [] = omega arith
length-drop (suc n) (x ∷ xs) = omega (arith, length-drop n xs)

pub get_or-drop : (n i : ℕ) (xs : List ℕ) → get_or (drop n xs) i 0 ≡ get_or xs (n + i) 0
get_or-drop zero i xs = ap (λ (k : ℕ). get_or xs k 0) (omega arith)
get_or-drop (suc n) i [] = refl
get_or-drop (suc n) i (x ∷ xs) = ground (arith, get_or-drop n i xs)

-- Two lists of bytes of the same length that agree everywhere.
pub list_ext :
    (xs ys : List ℕ)
    → length xs ≡ length ys
    → ((i : ℕ) → i < length ys → get_or xs i 0 ≡ get_or ys i 0)
    → xs ≡ ys
list_ext [] [] e h = refl
list_ext [] (y ∷ ys) e h = absurd (omega (arith, e))
list_ext (x ∷ xs) [] e h = absurd (omega (arith, e))
list_ext (x ∷ xs) (y ∷ ys) e h =
    ap₂ (λ (a : ℕ) as'. a ∷ as') (h 0 (omega arith))
      (list_ext xs ys (omega (arith, e)) (λ i l. h (suc i) (omega arith)))

pub get_or-append :
    (i : ℕ) (xs ys : List ℕ)
    → get_or (xs ++ ys) i 0
      ≡ (if ltb i (length xs) then get_or xs i 0 else get_or ys (i - length xs) 0)
get_or-append i [] ys = ground arith
get_or-append zero (x ∷ xs) ys = ground arith
get_or-append (suc i) (x ∷ xs) ys = ground (arith, get_or-append i xs ys)
