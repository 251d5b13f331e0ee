-- ===== src/Pmm/Tests.antt =====
-- Runs of kernel/mm/pmm.c on small memories.
use jimir_os.Common.{ℕ, ◌≡◌, ◌≢◌, refl, true, some, [], ◌∷◌, replicate, arith, if◌then◌else◌}
use jimir_os.Pmm.{
  Pmm, Linker, MultibootInfo, bm_set, bm_test, first_free, alloc_below, take_frame, pmm_alloc_frame,
  pmm_free_frame, reserve_region, reserve_frames, reserve_frame, end_frame, reserve_entries,
  reserve_mods, reserve_critical, sized, max_addr_of, highest_end, pmm_init,
}
use jimir_os.Pmm.Count.{IsValid, free_below}
use jimir_os.Pmm.Calls.{allocates, allocates_below, frees, run, run-pmm_init-IsValid}
use jimir_os.Pmm.Alloc.{Allocated, pmm_alloc_frame-Allocated, pmm_free_frame-pmm_alloc_frame}
use jimir_os.Pmm.Reserve.{overlaps, reserve_region-overlaps, critical, pmm_init-critical}

-- Three frames, of which the first is in use.
abbrev three : Pmm
three = record { total_frames = 3; free_frames_cnt = 2; bitmap = 1 ∷ replicate 2047 0 }

three-IsValid : IsValid three
unfolding free_below bm_test
three-IsValid = record { size = refl; total_in = omega arith; counted = refl }

abbrev linker : Linker
linker = record {
  boot_start = 0x100000;
  boot_end = 0x104000;
  kernel_phys_start = 0x104000;
  kernel_phys_end = 0x120000;
}

abbrev multiboot : MultibootInfo
multiboot = record {
  mem_upper = 0;
  mmap = some (record { addr = 0; len = 0x4000; type = 1 } ∷ []);
  mods = [];
}

multiboot-critical : critical linker (pmm_init linker multiboot).total_frames 3 ≡ true
unfolding critical overlaps pmm_init reserve_critical reserve_region reserve_frames reserve_frame
    take_frame end_frame reserve_entries reserve_mods sized max_addr_of highest_end bm_test bm_set
multiboot-critical = refl

three-allocates : (pmm_alloc_frame three).0 ≢ 0
unfolding pmm_alloc_frame alloc_below first_free bm_test
three-allocates = ground arith

pmm_alloc_frame-Allocated_example : Allocated 3 three (pmm_alloc_frame three)
pmm_alloc_frame-Allocated_example = pmm_alloc_frame-Allocated three three-IsValid

pmm_free_frame-pmm_alloc_frame_example :
    ((j : ℕ)
      → bm_test j (pmm_free_frame (pmm_alloc_frame three).0 (pmm_alloc_frame three).1).bitmap
        ≡ bm_test j three.bitmap)
    × ((pmm_free_frame (pmm_alloc_frame three).0 (pmm_alloc_frame three).1).free_frames_cnt
        ≡ three.free_frames_cnt)
    × ((pmm_free_frame (pmm_alloc_frame three).0 (pmm_alloc_frame three).1).total_frames
        ≡ three.total_frames)
pmm_free_frame-pmm_alloc_frame_example =
    pmm_free_frame-pmm_alloc_frame three three-IsValid three-allocates

reserve_region-overlaps_example :
    bm_test 1 (reserve_region 0x1800 0x1900 three).bitmap
    ≡ (if overlaps 3 0x1800 0x1900 1 then 1 else bm_test 1 three.bitmap)
reserve_region-overlaps_example =
    reserve_region-overlaps 0x1800 0x1900 1 three three-IsValid (omega arith)

pmm_init-critical_example : bm_test 3 (pmm_init linker multiboot).bitmap ≡ 1
pmm_init-critical_example =
    pmm_init-critical linker multiboot 3 (omega arith) (omega arith) multiboot-critical

run-pmm_init-IsValid_example :
    IsValid
      (run (allocates ∷ allocates_below 0x2000 ∷ frees 0x1000 ∷ []) (pmm_init linker multiboot))
run-pmm_init-IsValid_example =
    run-pmm_init-IsValid (allocates ∷ allocates_below 0x2000 ∷ frees 0x1000 ∷ []) linker multiboot
