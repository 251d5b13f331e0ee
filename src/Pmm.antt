-- ===== src/Pmm.antt =====
-- The physical frame allocator: kernel/mm/pmm.c, with the records of kernel/include/kernel/multiboot.h
-- that it reads. The static variables are the record `Pmm`.
pub mod Bitmap
pub mod Count
pub mod Alloc
pub mod Reserve
pub mod Calls
mod Tests
use Prim.Native.Nat.{bit_and, bit_or}
use jimir_os.Common.{
  ℕ, zero, suc, ◌+◌, ◌-◌, ◌*◌, ◌/◌, ◌%◌, ◌^◌, ◌≡◌, min, Bool, true, false, not, Option, none, some,
  List, [], ◌∷◌, ltb, leb, ◌==◌, if◌then◌else◌, get_or, modify, replicate,
}

abbrev pub frame_size : ℕ
frame_size = 4096

abbrev pub max_memory_bytes : ℕ
max_memory_bytes = 256 * 1024 * 1024

abbrev pub max_frames : ℕ
max_frames = 65536

abbrev pub bitmap_words : ℕ
bitmap_words = 2048

pub record Pmm : Type 0 where
  pub total_frames : ℕ
  pub free_frames_cnt : ℕ
  pub bitmap : List ℕ

unfoldable pub bm_set : ℕ → List ℕ → List ℕ
bm_set idx bm = modify bm (idx / 32) (λ w. bit_or w (2 ^ (idx % 32)))

unfoldable pub bm_clear : ℕ → List ℕ → List ℕ
bm_clear idx bm = modify bm (idx / 32) (λ w. bit_and w (2 ^ 32 - 1 - 2 ^ (idx % 32)))

unfoldable pub bm_test : ℕ → List ℕ → ℕ
bm_test idx bm = get_or bm (idx / 32) 0 / 2 ^ (idx % 32) % 2

-- `if (free_frames_cnt) free_frames_cnt--;` after `bm_set`.
unfoldable pub take_frame : ℕ → Pmm → Pmm
take_frame idx p = record p {
  bitmap = bm_set idx p.bitmap;
  free_frames_cnt = if p.free_frames_cnt == 0 then p.free_frames_cnt else p.free_frames_cnt - 1;
}

unfoldable pub reserve_frame : ℕ → Pmm → Pmm
reserve_frame f p = if bm_test f p.bitmap == 0 then take_frame f p else p

-- The loop of `reserve_region`, with `n` rounds left, from frame `f` on.
unfoldable pub reserve_frames : ℕ → ℕ → Pmm → Pmm
reserve_frames zero f p = p
reserve_frames (suc n) f p = reserve_frames n (suc f) (reserve_frame f p)

unfoldable pub end_frame : ℕ → Pmm → ℕ
end_frame end_phys p =
    let e = (end_phys + frame_size - 1) % 2 ^ 32 / frame_size in
    if ltb p.total_frames e then p.total_frames else e

unfoldable pub reserve_region : ℕ → ℕ → Pmm → Pmm
reserve_region start_phys end_phys p =
    if leb end_phys start_phys
    then p
    else reserve_frames (end_frame end_phys p - start_phys / frame_size) (start_phys / frame_size) p

-- `multiboot_mmap_entry_t`; the entries are laid out one behind the other by their `size`.
pub record MmapEntry : Type 0 where
  pub addr : ℕ
  pub len : ℕ
  pub type : ℕ

-- What `pmm_init` reads: the memory map if bit 6 of the flags is set, and the bounds of the modules,
-- none of them if bit 3 is not set.
pub record MultibootInfo : Type 0 where
  pub mem_upper : ℕ
  pub mmap : Option (List MmapEntry)
  pub mods : List (ℕ × ℕ)

-- The addresses that the linker provides.
pub record Linker : Type 0 where
  pub boot_start : ℕ
  pub boot_end : ℕ
  pub kernel_phys_start : ℕ
  pub kernel_phys_end : ℕ

unfoldable pub highest_end : ℕ → List MmapEntry → ℕ
highest_end max_addr [] = max_addr
highest_end max_addr (e ∷ es) =
    let e_end = (e.addr + e.len) % 2 ^ 64 in
    highest_end (if ltb max_addr e_end then e_end else max_addr) es

unfoldable pub max_addr_of : MultibootInfo → ℕ
unfolding highest_end
max_addr_of mb = elim mb.mmap [
  | some es ↦ highest_end 0 es
  | none ↦ (mb.mem_upper + 1024) % 2 ^ 32 * 1024
]

unfoldable pub reserve_entries : List MmapEntry → Pmm → Pmm
reserve_entries [] p = p
reserve_entries (e ∷ es) p =
    reserve_entries es
      (if e.type == 1 then p else reserve_region (e.addr % 2 ^ 32) ((e.addr + e.len) % 2 ^ 32) p)

unfoldable pub reserve_mods : List (ℕ × ℕ) → Pmm → Pmm
reserve_mods [] p = p
reserve_mods ((start, end) ∷ ms) p = reserve_mods ms (reserve_region start end p)

abbrev pub reserve_mmap : Option (List MmapEntry) → Pmm → Pmm
reserve_mmap none p = p
reserve_mmap (some es) p = reserve_entries es p

-- The state behind the first loops of `pmm_init`.
unfoldable pub sized : MultibootInfo → Pmm
unfolding max_addr_of
sized mb =
    let max_addr = max_addr_of mb in
    let capped = if ltb max_memory_bytes max_addr then max_memory_bytes else max_addr in
    record {
      total_frames = capped / frame_size;
      free_frames_cnt = capped / frame_size;
      bitmap = replicate bitmap_words 0;
    }

unfoldable pub reserve_critical : Linker → Pmm → Pmm
reserve_critical l p = reserve_region 0xb8000 (0xb8000 + 0x1000) (
    reserve_region l.kernel_phys_start l.kernel_phys_end
      (reserve_region l.boot_start l.boot_end (reserve_region 0 0x100000 p)))

unfoldable pub pmm_init : Linker → MultibootInfo → Pmm
pmm_init l mb = reserve_mods mb.mods (reserve_critical l (reserve_mmap mb.mmap (sized mb)))

-- The loop of the two allocators, with `n` rounds left, from frame `idx` on.
unfoldable pub first_free : ℕ → ℕ → List ℕ → Option ℕ
first_free zero idx bm = none
first_free (suc n) idx bm =
    let rest = first_free n (suc idx) bm in if bm_test idx bm == 0 then some idx else rest

unfoldable pub alloc_below : ℕ → Pmm → ℕ × Pmm
alloc_below n p = elim (first_free n 0 p.bitmap) [
  | none ↦ (0, p)
  | some idx ↦ (idx * frame_size % 2 ^ 32, take_frame idx p)
]

unfoldable pub pmm_alloc_frame : Pmm → ℕ × Pmm
pmm_alloc_frame p = alloc_below p.total_frames p

unfoldable pub pmm_alloc_frame_below : ℕ → Pmm → ℕ × Pmm
pmm_alloc_frame_below max_phys p =
    let max_idx = max_phys / frame_size in
    alloc_below (if ltb p.total_frames max_idx then p.total_frames else max_idx) p

unfoldable pub pmm_free_frame : ℕ → Pmm → Pmm
pmm_free_frame frame_phys p =
    let idx = frame_phys / frame_size in
    if leb p.total_frames idx then p else if bm_test idx p.bitmap == 0 then p else record p {
      bitmap = bm_clear idx p.bitmap;
      free_frames_cnt = (p.free_frames_cnt + 1) % 2 ^ 32;
    }
