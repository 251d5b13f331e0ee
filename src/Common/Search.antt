-- ===== src/Common/Search.antt =====
-- `for (i = 0; i < n; i++) if (test(a[i])) return i;`
use jimir_os.Common.{
  ℕ, zero, suc, ◌+◌, ◌≤◌, ◌<◌, ◌≡◌, ◌∙◌, ap, sym, Bool, true, false, Option, none, some, List, [],
  ◌∷◌, arith, length, get_or, if◌then◌else◌, Bool-cases, inl, inr, some_inj, none-ne-some,
}

module _ {ℓ} {A : Type ℓ} where
  -- The index of the first entry that passes the test; the list is the array from index `i` on.
  unfoldable pub find_index : (A → Bool) → ℕ → List A → Option ℕ
  find_index test i [] = none
  find_index test i (x ∷ xs) = if test x then some i else find_index test (suc i) xs

module _ {ℓ} {A : Type ℓ} (test : A → Bool) (d : A) where
  find_from-some :
      (i : ℕ) (xs : List A) {r : ℕ}
      → find_index test i xs ≡ some r
      → (k : ℕ) × (r ≡ i + k) × (k < length xs) × (test (get_or xs k d) ≡ true)
  unfolding find_index
  find_from-some i [] e = absurd (none-ne-some e)
  find_from-some i (x ∷ xs) {r} e = elim (Bool-cases (test x)) [
    | inl u ↦ (0, omega (arith, some_inj (rw u at e)), omega arith, u)
    | inr u ↦
        let (k, q, h, p) = find_from-some (suc i) xs (rw u at e) in
        (suc k, omega arith, omega arith, p)
  ]

  find_from-exists :
      (i : ℕ) (xs : List A) (k : ℕ)
      → k < length xs
      → test (get_or xs k d) ≡ true
      → (r : ℕ) × (find_index test i xs ≡ some r) × (r ≤ i + k)
  unfolding find_index
  find_from-exists i [] k h u = elim h [ ]
  find_from-exists i (x ∷ xs) zero h u = (i, rw u, omega arith)
  find_from-exists i (x ∷ xs) (suc k) h u = elim (Bool-cases (test x)) [
    | inl v ↦ (i, rw v, omega arith)
    | inr v ↦
        let (r, e, le) = find_from-exists (suc i) xs k (omega arith) u in (r, rw v e, omega arith)
  ]

  -- The entry found is in the array and passes.
  pub find_index-some :
      (xs : List A) {r : ℕ}
      → find_index test 0 xs ≡ some r
      → (r < length xs) × (test (get_or xs r d) ≡ true)
  find_index-some xs {r} e =
      let (k, q, h, p) = find_from-some 0 xs e in let same : r ≡ k = omega arith in rw same (h, p)

  -- If some entry passes, one is found that is not above it.
  pub find_index-exists :
      (xs : List A) (k : ℕ)
      → k < length xs
      → test (get_or xs k d) ≡ true
      → (r : ℕ) × (find_index test 0 xs ≡ some r) × (r ≤ k)
  find_index-exists xs k h u = let (r, e, le) = find_from-exists 0 xs k h u in (r, e, omega arith)

  -- If none is found, none passes.
  pub find_index-none :
      (xs : List A) (k : ℕ)
      → find_index test 0 xs ≡ none
      → k < length xs
      → test (get_or xs k d) ≡ false
  find_index-none xs k e h = elim (Bool-cases (test (get_or xs k d))) [
    | inl u ↦ let (r, q, le) = find_index-exists xs k h u in absurd (none-ne-some (sym e ∙ q))
    | inr u ↦ u
  ]

  -- If one entry alone passes, it is the one found.
  pub find_index_unique :
      (xs : List A) (k : ℕ)
      → k < length xs
      → test (get_or xs k d) ≡ true
      → ((j : ℕ) → j < length xs → test (get_or xs j d) ≡ true → j ≡ k)
      → find_index test 0 xs ≡ some k
  find_index_unique xs k h u only =
      let (r, e, le) = find_index-exists xs k h u in
      let (hr, ur) = find_index-some xs e in e ∙ ap some (only r hr ur)
