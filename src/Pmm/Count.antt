-- ===== src/Pmm/Count.antt =====
-- The count of free frames that kernel/mm/pmm.c keeps beside its bitmap.
use jimir_os.Common.{
  ℕ, zero, suc, ◌+◌, ◌-◌, ◌/◌, ◌%◌, ◌≤◌, ◌<◌, ◌≡◌, ◌≢◌, ◌∙◌, refl, sym, List, arith, length, ◌==◌,
  if◌then◌else◌, Bool-cases, inl, inr, ==_iff, length-replicate, get_or-replicate, replicate, leb,
  ltb, ◌^◌, Option, none, some, [], ◌∷◌,
}
use native.Mathlib.Nat.{zero-div}
use jimir_os.Pmm.{
  Pmm, bm_set, bm_clear, bm_test, bitmap_words, max_frames, take_frame, reserve_frame,
  reserve_frames, reserve_region, pmm_free_frame, frame_size, end_frame, MmapEntry, MultibootInfo,
  Linker, reserve_entries, reserve_mods, reserve_mmap, reserve_critical, sized, pmm_init,
  max_addr_of, max_memory_bytes,
}
use jimir_os.Pmm.Bitmap.{
  bm_test-bm_set, bm_test-bm_clear, bm_test-le-one, length-bm_set, length-bm_clear,
}

-- How many frames below `n` are free.
unfoldable pub free_below : ℕ → List ℕ → ℕ
free_below zero bm = 0
free_below (suc n) bm = free_below n bm + (1 - bm_test n bm)

pub record IsValid (p : Pmm) : Type 0 where
  pub size : length p.bitmap ≡ bitmap_words
  pub total_in : p.total_frames ≤ max_frames
  pub counted : p.free_frames_cnt ≡ free_below p.total_frames p.bitmap

free_below-same :
    (n : ℕ) (a b : List ℕ)
    → ((j : ℕ) → j < n → bm_test j b ≡ bm_test j a)
    → free_below n b ≡ free_below n a
unfolding free_below
free_below-same zero a b e = refl
free_below-same (suc n) a b e =
    omega (arith, free_below-same n a b (λ j h. e j (omega arith)), e n (omega arith))

-- Two bitmaps that differ in one frame, which is free in the first.
free_below-differ :
    (n i : ℕ) (a b : List ℕ)
    → i < n
    → bm_test i a ≡ 0
    → bm_test i b ≡ 1
    → ((j : ℕ) → i ≢ j → bm_test j b ≡ bm_test j a)
    → free_below n b + 1 ≡ free_below n a
unfolding free_below
free_below-differ zero i a b h u v e = elim h [ ]
free_below-differ (suc n) i a b h u v e = elim (Bool-cases (i == n)) [
  | inl q ↦
      let same : i ≡ n = (==_iff i n).0 q in
      let u' : bm_test n a ≡ 0 = rw (← same) u in
      let v' : bm_test n b ≡ 1 = rw (← same) v in
      omega (arith, free_below-same n a b (λ j hj. e j (omega (arith, same))), u', v')
  | inr q ↦
      omega (arith, free_below-differ n i a b (ground (arith, q)) u v e, e n (ground (arith, q)))
]

pub take_frame-IsValid :
    (i : ℕ) (p : Pmm)
    → i < p.total_frames
    → bm_test i p.bitmap ≡ 0
    → IsValid p
    → IsValid (take_frame i p) × ((take_frame i p).free_frames_cnt + 1 ≡ p.free_frames_cnt)
unfolding take_frame
take_frame-IsValid i p h u v = (
  record {
    size = length-bm_set i p.bitmap ∙ v.size;
    total_in = v.total_in;
    counted = ground (arith, v.counted, one_less);
  },
  ground (arith, v.counted, one_less),
)
  where
    set-test : (j : ℕ) → bm_test j (bm_set i p.bitmap) ≡ (if i == j then 1 else bm_test j p.bitmap)
    set-test j = bm_test-bm_set i j p.bitmap v.size (omega (arith, v.total_in))

    one_less :
        free_below p.total_frames (bm_set i p.bitmap) + 1 ≡ free_below p.total_frames p.bitmap
    one_less =
        free_below-differ p.total_frames i p.bitmap (bm_set i p.bitmap) h u
          (ground (arith, set-test i)) (λ j d. ground (arith, set-test j, d))

pub free_below-le : (n : ℕ) (bm : List ℕ) → free_below n bm ≤ n
unfolding free_below
free_below-le zero bm = omega arith
free_below-le (suc n) bm = omega (arith, free_below-le n bm)

-- A frame given back keeps the count right, whatever its address.
pub free_frame-IsValid : (phys : ℕ) (p : Pmm) → IsValid p → IsValid (pmm_free_frame phys p)
unfolding pmm_free_frame
free_frame-IsValid phys p v = elim (Bool-cases (leb p.total_frames idx)) [
  | inl e ↦ rw e v
  | inr e ↦ rw e (elim (Bool-cases (bm_test idx p.bitmap == 0)) [
    | inl u ↦ rw u v
    | inr u ↦ rw u (cleared (ground (arith, e)) (ground (arith, u, bm_test-le-one idx p.bitmap)))
  ])
]
  where
    idx : ℕ
    idx = phys / frame_size

    cleared :
        idx < p.total_frames
        → bm_test idx p.bitmap ≡ 1
        → IsValid (record p {
          bitmap = bm_clear idx p.bitmap;
          free_frames_cnt = (p.free_frames_cnt + 1) % 2 ^ 32;
        })
    cleared h u = record {
      size = length-bm_clear idx p.bitmap ∙ v.size;
      total_in = v.total_in;
      counted =
          omega (arith, v.counted, one_more, free_below-le p.total_frames p.bitmap, v.total_in);
    }
      where
        clear-test :
            (j : ℕ)
            → bm_test j (bm_clear idx p.bitmap) ≡ (if idx == j then 0 else bm_test j p.bitmap)
        clear-test j = bm_test-bm_clear idx j p.bitmap v.size (omega (arith, v.total_in))

        one_more :
            free_below p.total_frames p.bitmap + 1
            ≡ free_below p.total_frames (bm_clear idx p.bitmap)
        one_more =
            free_below-differ p.total_frames idx (bm_clear idx p.bitmap) p.bitmap h
              (ground (arith, clear-test idx)) u (λ j d. ground (arith, clear-test j, d))

pub reserve_frame-IsValid :
    (i : ℕ) (p : Pmm) → i < p.total_frames → IsValid p → IsValid (reserve_frame i p)
unfolding reserve_frame
reserve_frame-IsValid i p h v = elim (Bool-cases (bm_test i p.bitmap == 0)) [
  | inl e ↦ rw e (take_frame-IsValid i p h (ground (arith, e)) v).0
  | inr e ↦ rw e v
]

pub total-reserve_frame : (i : ℕ) (p : Pmm) → (reserve_frame i p).total_frames ≡ p.total_frames
unfolding reserve_frame take_frame
total-reserve_frame i p = ground arith

pub total-reserve_frames :
    (n i : ℕ) (p : Pmm) → (reserve_frames n i p).total_frames ≡ p.total_frames
unfolding reserve_frames
total-reserve_frames zero i p = refl
total-reserve_frames (suc n) i p =
    total-reserve_frames n (suc i) (reserve_frame i p) ∙ total-reserve_frame i p

pub total-reserve_region :
    (start end : ℕ) (p : Pmm) → (reserve_region start end p).total_frames ≡ p.total_frames
unfolding reserve_region
total-reserve_region start end p =
    ground
      (arith, total-reserve_frames (end_frame end p - start / frame_size) (start / frame_size) p)

reserve_frames-IsValid :
    (n i : ℕ) (p : Pmm)
    → (0 < n → i + n ≤ p.total_frames)
    → IsValid p
    → IsValid (reserve_frames n i p)
unfolding reserve_frames
reserve_frames-IsValid zero i p h v = v
reserve_frames-IsValid (suc n) i p h v =
    reserve_frames-IsValid n (suc i) (reserve_frame i p)
      (λ _. omega (arith, total-reserve_frame i p, h (omega arith)))
      (reserve_frame-IsValid i p (omega (arith, h (omega arith))) v)

pub end_frame-in : (end : ℕ) (p : Pmm) → end_frame end p ≤ p.total_frames
unfolding end_frame
end_frame-in end p = ground arith

pub reserve_region-IsValid :
    (start end : ℕ) (p : Pmm) → IsValid p → IsValid (reserve_region start end p)
unfolding reserve_region
reserve_region-IsValid start end p v = elim (Bool-cases (leb end start)) [
  | inl e ↦ rw e v
  | inr e ↦ rw e (
      reserve_frames-IsValid (end_frame end p - start / frame_size) (start / frame_size) p
        (λ h. omega (arith, end_frame-in end p)) v)
]

reserve_entries-IsValid :
    (es : List MmapEntry) (p : Pmm) → IsValid p → IsValid (reserve_entries es p)
unfolding reserve_entries
reserve_entries-IsValid [] p v = v
reserve_entries-IsValid (e ∷ es) p v = elim (Bool-cases (e.type == 1)) [
  | inl q ↦ rw q (reserve_entries-IsValid es p v)
  | inr q ↦ rw q (
      reserve_entries-IsValid es (reserve_region (e.addr % 2 ^ 32) ((e.addr + e.len) % 2 ^ 32) p)
        (reserve_region-IsValid (e.addr % 2 ^ 32) ((e.addr + e.len) % 2 ^ 32) p v))
]

reserve_mods-IsValid : (ms : List (ℕ × ℕ)) (p : Pmm) → IsValid p → IsValid (reserve_mods ms p)
unfolding reserve_mods
reserve_mods-IsValid [] p v = v
reserve_mods-IsValid ((start, end) ∷ ms) p v =
    reserve_mods-IsValid ms (reserve_region start end p) (reserve_region-IsValid start end p v)

zero-test : (j : ℕ) → bm_test j (replicate bitmap_words 0) ≡ 0
unfolding bm_test
zero-test j =
    rw (get_or-replicate {A = ℕ} bitmap_words (j / 32) 0) (omega (arith, zero-div (2 ^ (j % 32))))

all_free : (n : ℕ) → free_below n (replicate bitmap_words 0) ≡ n
unfolding free_below
all_free zero = refl
all_free (suc n) = omega (arith, all_free n, zero-test n)

pub sized-IsValid : (mb : MultibootInfo) → IsValid (sized mb)
unfolding sized
sized-IsValid mb = record {
  size = length-replicate {A = ℕ} bitmap_words 0;
  total_in = ground arith;
  counted = sym (all_free (capped / frame_size));
}
  where
    capped : ℕ
    capped = if ltb max_memory_bytes (max_addr_of mb) then max_memory_bytes else max_addr_of mb

pub reserve_mmap-IsValid :
    (m : Option (List MmapEntry)) (p : Pmm) → IsValid p → IsValid (reserve_mmap m p)
reserve_mmap-IsValid none p v = v
reserve_mmap-IsValid (some es) p v = reserve_entries-IsValid es p v

-- Whatever the boot loader reports, `pmm_init` leaves the count of free frames equal to the number
-- of frames that are free in the bitmap, and no more frames than the bitmap has bits.
pub pmm_init-IsValid : (l : Linker) (mb : MultibootInfo) → IsValid (pmm_init l mb)
unfolding pmm_init reserve_critical
pmm_init-IsValid l mb =
    reserve_mods-IsValid mb.mods (reserve_critical l (reserve_mmap mb.mmap (sized mb))) (
      reserve_region-IsValid 0xb8000 (0xb8000 + 0x1000)
        (reserve_region l.kernel_phys_start l.kernel_phys_end (
          reserve_region l.boot_start l.boot_end
            (reserve_region 0 0x100000 (reserve_mmap mb.mmap (sized mb)))))
        (reserve_region-IsValid l.kernel_phys_start l.kernel_phys_end
          (reserve_region l.boot_start l.boot_end
            (reserve_region 0 0x100000 (reserve_mmap mb.mmap (sized mb))))
          (reserve_region-IsValid l.boot_start l.boot_end
            (reserve_region 0 0x100000 (reserve_mmap mb.mmap (sized mb)))
            (reserve_region-IsValid 0 0x100000 (reserve_mmap mb.mmap (sized mb))
              (reserve_mmap-IsValid mb.mmap (sized mb) (sized-IsValid mb))))))
