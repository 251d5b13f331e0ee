-- ===== src/Ext2/Names.antt =====
-- Paths, directory entries and their listing in kernel/fs/ext2.c.
use jimir_os.Common.{
  ℕ, zero, suc, ◌+◌, ◌-◌, ◌≤◌, ◌<◌, ◌≡◌, ◌∙◌, refl, ap, sym, subst, true, false, ◌&&◌, ◌||◌, not,
  none, some, List, [], ◌∷◌, ◌++◌, arith, length, get_or, ltb, leb, ◌==◌, if◌then◌else◌, Bool-cases,
  Option-cases, inl, inr, ◌⊎◌, length-append, none-ne-some,
}
use jimir_os.Common.Bytes.{le16, le32, read_bytes}
use jimir_os.Block.{Drivers}
use jimir_os.Ext2.{Env}
use jimir_os.Ext2.Directory.{
  is_separator, base_from, path_basename, DirEntry, entries_from, root_entries, emit, emit_all,
  ext2_list,
}
use jimir_os.Ext2.Mount.{ext2_is_mounted}

-- No character of the text separates names.
abbrev pub Plain : List ℕ → Type 0
Plain [] = Unit
Plain (c ∷ cs) = (is_separator c ≡ false) × Plain cs

-- `base` is the last name of `path`: the path ends in it, it has no separator, and what stands
-- before it is empty or ends in one.
pub record IsBase (path base : List ℕ) : Type 0 where
  pub before : List ℕ
  pub joined : path ≡ before ++ base
  pub plain : Plain base
  pub cut :
      (before ≡ [])
      ⊎ ((dirs : List ℕ) × (c : ℕ) × (before ≡ dirs ++ c ∷ []) × (is_separator c ≡ true))

Plain-append : (xs : List ℕ) (c : ℕ) → Plain xs → is_separator c ≡ false → Plain (xs ++ c ∷ [])
Plain-append [] c p q = (q, tt)
Plain-append (x ∷ xs) c p q = (p.0, Plain-append xs c p.1 q)

append_one : (xs : List ℕ) (c : ℕ) (ys : List ℕ) → (xs ++ c ∷ []) ++ ys ≡ xs ++ c ∷ ys
append_one [] c ys = refl
append_one (x ∷ xs) c ys = ap (λ as'. x ∷ as') (append_one xs c ys)

append_nil : (xs : List ℕ) → xs ++ [] ≡ xs
append_nil [] = refl
append_nil (x ∷ xs) = ap (λ as'. x ∷ as') (append_nil xs)

append_three : (xs ys zs : List ℕ) → (xs ++ ys) ++ zs ≡ xs ++ (ys ++ zs)
append_three [] ys zs = refl
append_three (x ∷ xs) ys zs = ap (λ as'. x ∷ as') (append_three xs ys zs)

-- The names before a separator are passed over.
after_separator :
    (mid p base : List ℕ) (c : ℕ)
    → is_separator c ≡ true
    → IsBase p base
    → IsBase (mid ++ c ∷ p) base
after_separator mid p base c sep b = record {
  before = (mid ++ c ∷ []) ++ b.before;
  joined =
      ap (λ xs. mid ++ c ∷ xs) b.joined
      ∙ sym (append_one mid c (b.before ++ base))
      ∙ sym (append_three (mid ++ c ∷ []) b.before base);
  plain = b.plain;
  cut = elim b.cut [
    | inl e ↦ inr (mid, c, ap (λ xs. (mid ++ c ∷ []) ++ xs) e ∙ append_nil (mid ++ c ∷ []), sep)
    | inr (dirs, c', e, q) ↦ inr (
      (mid ++ c ∷ []) ++ dirs,
      c',
      ap (λ xs. (mid ++ c ∷ []) ++ xs) e ∙ sym (append_three (mid ++ c ∷ []) dirs (c' ∷ [])),
      q,
    )
  ];
}

-- The loop, with the name `mid` read since the last separator.
base_from-IsBase : (mid p : List ℕ) → Plain mid → IsBase (mid ++ p) (base_from (mid ++ p) p)
unfolding base_from
base_from-IsBase mid [] m = record {
  before = [];
  joined = refl;
  plain = subst Plain (sym (append_nil mid)) m;
  cut = inl refl;
}
base_from-IsBase mid (c ∷ p) m = elim (Bool-cases (is_separator c)) [
  | inl sep ↦ rw sep (after_separator mid p (base_from p p) c sep (base_from-IsBase [] p tt))
  | inr no_sep ↦ rw no_sep (
      subst (λ xs. IsBase xs (base_from xs p)) (append_one mid c p)
        (base_from-IsBase (mid ++ c ∷ []) p (Plain-append mid c m no_sep)))
]

-- `path_basename` gives the last name of a path that is there and not empty, and fails on the others.
pub path_basename-IsBase :
    (path : List ℕ)
    → ((path ≡ []) × (path_basename (some path) ≡ none))
      ⊎ ((base : List ℕ) × (path_basename (some path) ≡ some base) × IsBase path base)
unfolding path_basename
path_basename-IsBase [] = inl (refl, refl)
path_basename-IsBase (c ∷ path) =
    inr (base_from (c ∷ path) (c ∷ path), refl, base_from-IsBase [] (c ∷ path) tt)

emit-le : (len : ℕ) (out name : List ℕ) → length out ≤ len → length (emit len out name) ≤ len
unfolding emit
emit-le len out [] h = ground (arith, length-append out (10 ∷ []))
emit-le len out (c ∷ name) h = elim (Bool-cases (ltb (length out + 1) len)) [
  | inl u ↦ rw u (emit-le len (out ++ c ∷ []) name (ground (arith, u, length-append out (c ∷ []))))
  | inr u ↦ rw u (emit-le len out name h)
]

emit_all-le :
    (len : ℕ) (out : List ℕ) (ds : List DirEntry)
    → length out ≤ len
    → length (emit_all len out ds) ≤ len
unfolding emit_all
emit_all-le len out [] h = h
emit_all-le len out (d ∷ ds) h = emit_all-le len (emit len out d.name) ds (emit-le len out d.name h)

some_list_inj : {xs ys : List ℕ} → some xs ≡ some ys → xs ≡ ys
some_list_inj e = cc

-- A listing, whatever the directory holds, stays within the buffer that it is given.
pub ext2_list-le :
    (dev : Drivers) (len : ℕ) (e : Env) {out : List ℕ}
    → (ext2_list dev len e).0 ≡ some out
    → length out ≤ len
unfolding ext2_list
ext2_list-le dev len e {out} q = elim (Bool-cases (ext2_is_mounted e.fs)) [
  | inr u ↦ absurd (none-ne-some (rw (u, ext2_list) at q))
  | inl u ↦ elim (Option-cases (root_entries dev e).0) [
    | inl g ↦ absurd (none-ne-some (rw (u, g) at q))
    | inr (ds, g) ↦
        let w : emit_all len [] ds ≡ out = some_list_inj (rw (u, g) at q) in
        rw (← w) (emit_all-le len [] ds (omega arith))
  ]
]

-- The walk over a block needs no more rounds than the bytes that are left: any fuel above that
-- gives the same entries, so that no entry is missed for want of it.
pub entries_from_fuel :
    (fuel fuel' block_size off : ℕ) (bytes : List ℕ)
    → block_size - off < fuel
    → block_size - off < fuel'
    → entries_from fuel block_size off bytes ≡ entries_from fuel' block_size off bytes
unfolding entries_from
entries_from_fuel zero fuel' block_size off bytes h h' = absurd (omega arith)
entries_from_fuel (suc fuel) zero block_size off bytes h h' = absurd (omega arith)
entries_from_fuel (suc fuel) (suc fuel') block_size off bytes h h' =
    elim (Bool-cases (
      leb (off + 8) block_size
      && not (ltb (le16 (off + 4) bytes) 8 || ltb (block_size - off) (le16 (off + 4) bytes)))) [
        | inr u ↦ rw (u, entries_from) refl
        | inl u ↦
            rw (u, entries_from)
              (ap
                (λ rest.
                  if le32 off bytes == 0 || get_or bytes (off + 6) 0 == 0
                  then rest
                  else record {
                    ino = le32 off bytes;
                    name = read_bytes (off + 8) (get_or bytes (off + 6) 0) bytes;
                  }
                    ∷ rest)
                (entries_from_fuel fuel fuel' block_size (off + le16 (off + 4) bytes) bytes
                  (ground (arith, u, h)) (ground (arith, u, h'))))
      ]
