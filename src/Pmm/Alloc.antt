-- ===== src/Pmm/Alloc.antt =====
-- What the allocators of kernel/mm/pmm.c return, and what a frame given back restores.
use jimir_os.Common.{
  ℕ, zero, suc, ◌+◌, ◌*◌, ◌/◌, ◌≤◌, ◌<◌, ◌≡◌, ◌≢◌, ◌∙◌, refl, sym, false, none, some, List, arith,
  ◌==◌, if◌then◌else◌, Bool-cases, Option-cases, inl, inr, ◌⊎◌, leb, ltb, none-ne-some, some_inj,
}
use jimir_os.Pmm.{
  Pmm, bm_test, take_frame, first_free, alloc_below, pmm_alloc_frame, pmm_alloc_frame_below,
  pmm_free_frame, frame_size,
}
use jimir_os.Pmm.Bitmap.{bm_test-bm_set, bm_test-bm_clear, bm_test-le-one}
use jimir_os.Pmm.Count.{IsValid, take_frame-IsValid, free_below-le}

-- The frame found is the lowest free one in its range.
first_free-some :
    (n i : ℕ) (bm : List ℕ) {r : ℕ}
    → first_free n i bm ≡ some r
    → (i ≤ r) × (r < i + n) × (bm_test r bm ≡ 0) × ((j : ℕ) → i ≤ j → j < r → bm_test j bm ≡ 1)
unfolding first_free
first_free-some zero i bm e = absurd (none-ne-some e)
first_free-some (suc n) i bm {r} e = elim (Bool-cases (bm_test i bm == 0)) [
  | inl u ↦
      let same : i ≡ r = some_inj (rw u at e) in
      (
        omega (arith, same),
        omega (arith, same),
        rw (← same) (ground (arith, u)),
        λ j p q. absurd (omega (arith, same)),
      )
  | inr u ↦
      let (p, q, t, low) = first_free-some n (suc i) bm (rw u at e) in
      (
        omega arith,
        omega arith,
        t,
        λ j hj hr. elim (Bool-cases (i == j)) [
          | inl s ↦ ground (arith, s, u, bm_test-le-one j bm)
          | inr s ↦ low j (ground (arith, s)) hr
        ],
      )
]

first_free-none :
    (n i j : ℕ) (bm : List ℕ) → first_free n i bm ≡ none → i ≤ j → j < i + n → bm_test j bm ≡ 1
unfolding first_free
first_free-none zero i j bm e p q = absurd (omega arith)
first_free-none (suc n) i j bm e p q = elim (Bool-cases (bm_test i bm == 0)) [
  | inl u ↦ absurd (none-ne-some (sym (rw u at e)))
  | inr u ↦ elim (Bool-cases (i == j)) [
    | inl s ↦ ground (arith, s, u, bm_test-le-one j bm)
    | inr s ↦ first_free-none n (suc i) j bm (rw u at e) (ground (arith, s)) (omega arith)
  ]
]

-- How a call of an allocator over the frames below `n` ends: with no frame free below `n`, nothing
-- changed and 0 returned; or with the lowest free frame taken, its address returned, every other
-- frame as it was and the count one lower.
unfoldable pub Allocated : ℕ → Pmm → ℕ × Pmm → Type 0
Allocated n p (phys, q) =
    ((phys ≡ 0) × (q ≡ p) × ((j : ℕ) → j < n → bm_test j p.bitmap ≡ 1))
    ⊎ ((i : ℕ) × (i < n)
        × (phys ≡ i * frame_size)
        × (bm_test i p.bitmap ≡ 0)
        × ((j : ℕ) → j < i → bm_test j p.bitmap ≡ 1)
        × ((j : ℕ) → bm_test j q.bitmap ≡ (if i == j then 1 else bm_test j p.bitmap))
        × (q.free_frames_cnt + 1 ≡ p.free_frames_cnt)
        × (q.total_frames ≡ p.total_frames)
        × IsValid q)

alloc_below-Allocated :
    (n : ℕ) (p : Pmm) → n ≤ p.total_frames → IsValid p → Allocated n p (alloc_below n p)
unfolding alloc_below Allocated take_frame
alloc_below-Allocated n p h v = elim (Option-cases (first_free n 0 p.bitmap)) [
  | inl e ↦
      rw (e, alloc_below)
        (inl (refl, refl, λ j hj. first_free-none n 0 j p.bitmap e (omega arith) (omega arith)))
  | inr (i, e) ↦
      let (lo, hi, free, low) = first_free-some n 0 p.bitmap e in
      let (w, less) = take_frame-IsValid i p (omega arith) free v in
      rw (e, alloc_below)
        (inr (
          i,
          omega arith,
          omega (arith, v.total_in),
          free,
          λ j hj. low j (omega arith) hj,
          λ j. bm_test-bm_set i j p.bitmap v.size (omega (arith, v.total_in)),
          less,
          refl,
          w,
        ))
]

-- `pmm_alloc_frame_below` on every branch: it looks at the frames that end at or below the bound,
-- and takes the lowest free one of them.
pub pmm_alloc_frame_below-Allocated :
    (max_phys : ℕ) (p : Pmm)
    → IsValid p
    → Allocated
        (if ltb p.total_frames (max_phys / frame_size)
          then p.total_frames
          else max_phys / frame_size)
        p
        (pmm_alloc_frame_below max_phys p)
unfolding pmm_alloc_frame_below
pmm_alloc_frame_below-Allocated max_phys p v =
    alloc_below-Allocated
      (if ltb p.total_frames (max_phys / frame_size) then p.total_frames else max_phys / frame_size)
      p (ground arith) v

-- `pmm_alloc_frame` on every branch.
pub pmm_alloc_frame-Allocated :
    (p : Pmm) → IsValid p → Allocated p.total_frames p (pmm_alloc_frame p)
unfolding pmm_alloc_frame
pmm_alloc_frame-Allocated p v = alloc_below-Allocated p.total_frames p (omega arith) v

-- Giving back the frame that an allocation took.
free-allocated :
    (i : ℕ) (p q : Pmm)
    → IsValid p
    → IsValid q
    → i < q.total_frames
    → bm_test i p.bitmap ≡ 0
    → ((j : ℕ) → bm_test j q.bitmap ≡ (if i == j then 1 else bm_test j p.bitmap))
    → q.free_frames_cnt + 1 ≡ p.free_frames_cnt
    → ((j : ℕ) → bm_test j (pmm_free_frame (i * frame_size) q).bitmap ≡ bm_test j p.bitmap)
      × ((pmm_free_frame (i * frame_size) q).free_frames_cnt ≡ p.free_frames_cnt)
      × ((pmm_free_frame (i * frame_size) q).total_frames ≡ q.total_frames)
unfolding pmm_free_frame
free-allocated i p q v w h free same less =
    rw (idx, in_range, used)
      (
        (λ j. ground (
          arith,
          bm_test-bm_clear i j q.bitmap w.size (omega (arith, w.total_in)),
          same j,
          free,
        )),
        omega (arith, less, v.counted, v.total_in, free_below-le p.total_frames p.bitmap),
        refl,
      )
  where
    idx : i * frame_size / frame_size ≡ i
    idx = omega arith

    in_range : leb q.total_frames i ≡ false
    in_range = ground arith

    used : bm_test i q.bitmap == 0 ≡ false
    used = ground (arith, same i)

-- A frame that is allocated and given back leaves the bit of every frame, and the count, as before.
pub pmm_free_frame-pmm_alloc_frame :
    (p : Pmm)
    → IsValid p
    → (pmm_alloc_frame p).0 ≢ 0
    → ((j : ℕ)
        → bm_test j (pmm_free_frame (pmm_alloc_frame p).0 (pmm_alloc_frame p).1).bitmap
          ≡ bm_test j p.bitmap)
      × ((pmm_free_frame (pmm_alloc_frame p).0 (pmm_alloc_frame p).1).free_frames_cnt
          ≡ p.free_frames_cnt)
      × ((pmm_free_frame (pmm_alloc_frame p).0 (pmm_alloc_frame p).1).total_frames ≡ p.total_frames)
unfolding Allocated
pmm_free_frame-pmm_alloc_frame p v d = elim (pmm_alloc_frame-Allocated p v) [
  | inl (e, _, _) ↦ absurd (d e)
  | inr (i, h, e, free, low, same, less, total, w) ↦
      let (a, b, c) =
        free-allocated i p (pmm_alloc_frame p).1 v w (omega (arith, total)) free same less in
      rw e (a, b, c ∙ total)
]
