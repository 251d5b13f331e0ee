-- ===== src/Pmm/Reserve.antt =====
-- What `reserve_region` and `pmm_init` of kernel/mm/pmm.c keep from being handed out.
use jimir_os.Common.{
  ℕ, zero, suc, ◌+◌, ◌-◌, ◌*◌, ◌/◌, ◌^◌, ◌≤◌, ◌<◌, ◌≡◌, ◌∙◌, refl, sym, Bool, true, false, Option,
  List, [], ◌∷◌, arith, ◌==◌, if◌then◌else◌, Bool-cases, inl, inr, leb, ltb, ◌&&◌, ◌||◌,
  true-ne-false,
}
use jimir_os.Pmm.{
  Pmm, bm_test, take_frame, reserve_frame, reserve_frames, reserve_region, end_frame, frame_size,
  MmapEntry, MultibootInfo, Linker, reserve_mods, reserve_mmap, reserve_critical, sized, pmm_init,
}
use jimir_os.Pmm.Bitmap.{bm_test-bm_set, bm_test-le-one}
use jimir_os.Pmm.Count.{
  IsValid, reserve_frame-IsValid, total-reserve_frame, end_frame-in, total-reserve_region,
  reserve_region-IsValid, reserve_mmap-IsValid, sized-IsValid,
}

test-reserve_frame :
    (i j : ℕ) (p : Pmm)
    → i < p.total_frames
    → IsValid p
    → bm_test j (reserve_frame i p).bitmap ≡ (if i == j then 1 else bm_test j p.bitmap)
unfolding reserve_frame take_frame
test-reserve_frame i j p h v = elim (Bool-cases (bm_test i p.bitmap == 0)) [
  | inl e ↦ rw e (bm_test-bm_set i j p.bitmap v.size (omega (arith, v.total_in)))
  | inr e ↦ rw e (elim (Bool-cases (i == j)) [
    | inl q ↦ ground (arith, q, e, bm_test-le-one i p.bitmap)
    | inr q ↦ ground (arith, q)
  ])
]

test-reserve_frames :
    (n i j : ℕ) (p : Pmm)
    → (0 < n → i + n ≤ p.total_frames)
    → IsValid p
    → bm_test j (reserve_frames n i p).bitmap
      ≡ (if leb i j && ltb j (i + n) then 1 else bm_test j p.bitmap)
unfolding reserve_frames
test-reserve_frames zero i j p h v = ground arith
test-reserve_frames (suc n) i j p h v =
    test-reserve_frames n (suc i) j (reserve_frame i p)
      (λ _. omega (arith, total-reserve_frame i p, h (omega arith)))
      (reserve_frame-IsValid i p (omega (arith, h (omega arith))) v)
    ∙ ground (arith, test-reserve_frame i j p (omega (arith, h (omega arith))) v)

-- Whether a frame of the memory of `p` has a byte in a region.
unfoldable pub overlaps : ℕ → ℕ → ℕ → ℕ → Bool
overlaps total start end j =
    ltb start end && leb (start / frame_size) j && ltb (j * frame_size) end && ltb j total

-- `reserve_region` marks the frames that have a byte in the region as used, those alone, and
-- leaves the bit of every other frame; if the end of the region, rounded up to a frame, is an
-- address of 32 bits.
pub reserve_region-overlaps :
    (start end j : ℕ) (p : Pmm)
    → IsValid p
    → end + frame_size ≤ 2 ^ 32
    → bm_test j (reserve_region start end p).bitmap
      ≡ (if overlaps p.total_frames start end j then 1 else bm_test j p.bitmap)
unfolding reserve_region overlaps end_frame
reserve_region-overlaps start end j p v h = elim (Bool-cases (leb end start)) [
  | inl e ↦ ground (arith, e)
  | inr e ↦ rw e (
      test-reserve_frames (end_frame end p - start / frame_size) (start / frame_size) j p
        (λ nonempty. omega (arith, nonempty, end_frame-in end p)) v
      ∙ same (ground (arith, e)))
]
  where
    same :
        start < end
        → (if leb (start / frame_size) j
              && ltb j (start / frame_size + (end_frame end p - start / frame_size))
            then 1
            else bm_test j p.bitmap)
          ≡ (if ltb start end
                && leb (start / frame_size) j
                && ltb (j * frame_size) end
                && ltb j p.total_frames
              then 1
              else bm_test j p.bitmap)
    same lt = ground arith

-- No reservation frees a frame.
reserve_region-keeps :
    (start end j : ℕ) (p : Pmm)
    → IsValid p
    → bm_test j p.bitmap ≡ 1
    → bm_test j (reserve_region start end p).bitmap ≡ 1
unfolding reserve_region
reserve_region-keeps start end j p v u = elim (Bool-cases (leb end start)) [
  | inl e ↦ rw e u
  | inr e ↦ rw e (
      test-reserve_frames (end_frame end p - start / frame_size) (start / frame_size) j p
        (λ nonempty. omega (arith, nonempty, end_frame-in end p)) v
      ∙ ground (arith, u))
]

-- The state after reserving one region more, with what is used in it.
record Used (P : ℕ → Bool) (total : ℕ) (p : Pmm) : Type 0 where
  pub valid : IsValid p
  pub total_is : p.total_frames ≡ total
  pub used : (j : ℕ) → P j ≡ true → bm_test j p.bitmap ≡ 1

reserve-Used :
    (P : ℕ → Bool) (total start end : ℕ) (p : Pmm)
    → Used P total p
    → Used P total (reserve_region start end p)
reserve-Used P total start end p u = record {
  valid = reserve_region-IsValid start end p u.valid;
  total_is = total-reserve_region start end p ∙ u.total_is;
  used = λ j h. reserve_region-keeps start end j p u.valid (u.used j h);
}

reserve_more :
    (P : ℕ → Bool) (total start end : ℕ) (p : Pmm)
    → end + frame_size ≤ 2 ^ 32
    → Used P total p
    → Used (λ j. P j || overlaps total start end j) total (reserve_region start end p)
reserve_more P total start end p h u = record {
  valid = reserve_region-IsValid start end p u.valid;
  total_is = total-reserve_region start end p ∙ u.total_is;
  used = λ j c. elim (Bool-cases (P j)) [
    | inl e ↦ reserve_region-keeps start end j p u.valid (u.used j e)
    | inr e ↦ reserve_region-overlaps start end j p u.valid h ∙ rw (u.total_is, rw e at c) refl
  ];
}

mods-Used :
    (P : ℕ → Bool) (total : ℕ) (ms : List (ℕ × ℕ)) (p : Pmm)
    → Used P total p
    → Used P total (reserve_mods ms p)
unfolding reserve_mods
mods-Used P total [] p u = u
mods-Used P total ((start, end) ∷ ms) p u =
    mods-Used P total ms (reserve_region start end p) (reserve-Used P total start end p u)

mapped-Used :
    (m : Option (List MmapEntry)) (p : Pmm)
    → IsValid p
    → Used (λ _. false) (reserve_mmap m p).total_frames (reserve_mmap m p)
mapped-Used m p v = record {
  valid = reserve_mmap-IsValid m p v;
  total_is = refl;
  used = λ j c. absurd (true-ne-false (sym c));
}

-- The frames that `pmm_init` must not hand out: the first megabyte, the bootstrap code, the kernel
-- image and the text buffer of the VGA adapter.
unfoldable pub critical : Linker → ℕ → ℕ → Bool
critical l total j =
    ((overlaps total 0 0x100000 j || overlaps total l.boot_start l.boot_end j)
      || overlaps total l.kernel_phys_start l.kernel_phys_end j)
    || overlaps total 0xb8000 0xb9000 j

-- Whatever memory map and modules the boot loader reports, after `pmm_init` every frame that has a
-- byte in the first megabyte, the bootstrap code, the kernel image or the VGA text buffer is in
-- use, so that no allocation hands it out; if the ends of the two images that the linker gives are
-- more than a frame below 4 GB.
pub pmm_init-critical :
    (l : Linker) (mb : MultibootInfo) (j : ℕ)
    → l.boot_end + frame_size ≤ 2 ^ 32
    → l.kernel_phys_end + frame_size ≤ 2 ^ 32
    → critical l (pmm_init l mb).total_frames j ≡ true
    → bm_test j (pmm_init l mb).bitmap ≡ 1
unfolding pmm_init reserve_critical critical
pmm_init-critical l mb j hb hk c = done.used j (rw (← done.total_is) c)
  where
    base : Pmm
    base = reserve_mmap mb.mmap (sized mb)

    total : ℕ
    total = base.total_frames

    done : Used (λ j. critical l total j) total (reserve_mods mb.mods (reserve_critical l base))
    done =
        mods-Used (λ j. critical l total j) total mb.mods (reserve_critical l base)
          (reserve_more
            (λ j.
              ((false || overlaps total 0 0x100000 j) || overlaps total l.boot_start l.boot_end j)
              || overlaps total l.kernel_phys_start l.kernel_phys_end j)
            total 0xb8000 0xb9000
            (reserve_region l.kernel_phys_start l.kernel_phys_end
              (reserve_region l.boot_start l.boot_end (reserve_region 0 0x100000 base)))
            (omega arith)
            (reserve_more
              (λ j.
                (false || overlaps total 0 0x100000 j) || overlaps total l.boot_start l.boot_end j)
              total l.kernel_phys_start l.kernel_phys_end
              (reserve_region l.boot_start l.boot_end (reserve_region 0 0x100000 base)) hk
              (reserve_more (λ j. false || overlaps total 0 0x100000 j) total l.boot_start
                l.boot_end (reserve_region 0 0x100000 base) hb
                (reserve_more (λ _. false) total 0 0x100000 base (omega arith)
                  (mapped-Used mb.mmap (sized mb) (sized-IsValid mb))))))
