-- ===== src/Pmm/Calls.antt =====
-- Sequences of calls into kernel/mm/pmm.c, from `pmm_init` on.
use jimir_os.Common.{ℕ, ◌/◌, List, [], ◌∷◌, inl, inr, subst, sym, ltb, if◌then◌else◌}
use jimir_os.Pmm.{
  Pmm, Linker, MultibootInfo, pmm_init, pmm_alloc_frame, pmm_alloc_frame_below, pmm_free_frame,
  frame_size,
}
use jimir_os.Pmm.Count.{IsValid, pmm_init-IsValid, free_frame-IsValid}
use jimir_os.Pmm.Alloc.{Allocated, pmm_alloc_frame-Allocated, pmm_alloc_frame_below-Allocated}

pub data Call : Type 0 where
  allocates : Call
  allocates_below frees : ℕ → Call

unfoldable pub call : Call → Pmm → Pmm
call allocates p = (pmm_alloc_frame p).1
call (allocates_below max_phys) p = (pmm_alloc_frame_below max_phys p).1
call (frees phys) p = pmm_free_frame phys p

unfoldable pub run : List Call → Pmm → Pmm
run [] p = p
run (c ∷ cs) p = run cs (call c p)

allocated : (n : ℕ) (p : Pmm) (r : ℕ × Pmm) → IsValid p → Allocated n p r → IsValid r.1
unfolding Allocated
allocated n p r v (inl (z, same, used)) = subst IsValid (sym same) v
allocated n p r v (inr (i, h, e, free, low, test, less, total, w)) = w

call-IsValid : (c : Call) (p : Pmm) → IsValid p → IsValid (call c p)
unfolding call
call-IsValid allocates p v =
    allocated p.total_frames p (pmm_alloc_frame p) v (pmm_alloc_frame-Allocated p v)
call-IsValid (allocates_below max_phys) p v =
    allocated
      (if ltb p.total_frames (max_phys / frame_size) then p.total_frames else max_phys / frame_size)
      p (pmm_alloc_frame_below max_phys p) v (pmm_alloc_frame_below-Allocated max_phys p v)
call-IsValid (frees phys) p v = free_frame-IsValid phys p v

run-IsValid : (cs : List Call) (p : Pmm) → IsValid p → IsValid (run cs p)
unfolding run
run-IsValid [] p v = v
run-IsValid (c ∷ cs) p v = run-IsValid cs (call c p) (call-IsValid c p v)

-- After `pmm_init`, whatever the boot loader reports, and any sequence of allocations and frees of
-- any addresses, the count of free frames is the number of frames that are free in the bitmap, and
-- there are no more frames than the bitmap has bits.
pub run-pmm_init-IsValid :
    (cs : List Call) (l : Linker) (mb : MultibootInfo) → IsValid (run cs (pmm_init l mb))
run-pmm_init-IsValid cs l mb = run-IsValid cs (pmm_init l mb) (pmm_init-IsValid l mb)
