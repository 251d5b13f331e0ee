-- ===== src/Ext2/Failures.antt =====
-- Mounts and writes of kernel/fs/ext2.c that fail.
use jimir_os.Common.{
  ℕ, ◌+◌, ◌≡◌, refl, Bool, true, false, not, ◌&&◌, Option, none, some, List, arith, length, ltb,
  ◌==◌, if◌then◌else◌, Bool-cases, Option-cases, inl, inr, ◌⊎◌,
}
use jimir_os.Common.Int.{ℤ, pos, minus_one}
use jimir_os.Block.{Block, Drivers, block_read}
use jimir_os.Ext2.{Ext2, super_block, no_block}
use jimir_os.Ext2.Mount.{
  ext2_mount_from_disk, ext2_is_mounted, disk_gdt, read_gdt, gdt_bytes, configured, bad_block_size,
  block_size_of, ext2_magic, some_gdt,
}

pub too_short : Option (List ℕ) → Bool
too_short none = true
too_short (some image) = ltb (length image) 2048

-- How a mount from an image ends: it succeeds and the file system is mounted on the image; or it
-- fails and nothing is mounted, with an image of 2048 bytes or more; or there is no image or a
-- shorter one, it fails and nothing changes.
pub MountEnds : Option (List ℕ) → Ext2 → ℤ × Ext2 → Type 0
MountEnds start s (r, s') =
    ((r ≡ pos 0) × (s'.img ≡ start) × (s'.use_disk ≡ false) × (ext2_is_mounted s' ≡ true))
    ⊎ (((r ≡ minus_one) × (ext2_is_mounted s' ≡ false) × (too_short start ≡ false))
        ⊎ ((r ≡ minus_one) × (s' ≡ s) × (too_short start ≡ true)))

disk_gdt-fails :
    (kmalloc : ℕ → Bool) (dev : Drivers) (b : Block) (t : Ext2)
    → (disk_gdt kmalloc dev b t).0 ≡ minus_one
    → ext2_is_mounted (disk_gdt kmalloc dev b t).1 ≡ false
unfolding disk_gdt ext2_is_mounted
disk_gdt-fails kmalloc dev b t f = elim (Bool-cases (kmalloc (gdt_bytes t))) [
  | inr k ↦ rw k refl
  | inl k ↦
      elim (Option-cases (
        read_gdt dev t (gdt_bytes t + 1) (if t.block_size == 1024 then 2 else 1) (gdt_bytes t) b)) [
          | inl g ↦ rw (k, g, disk_gdt) refl
          | inr (bytes, g) ↦ absurd (pos-ne-minus (rw (k, g, disk_gdt) at f))
        ]
]
  where
    pos-ne-minus : pos 0 ≡ minus_one → ⊥
    pos-ne-minus e = cc

-- A mount from the disk that gets as far as the superblock and fails leaves nothing mounted, not
-- even what was mounted before.
pub ext2_mount_from_disk-fails :
    (kmalloc : ℕ → Bool) (dev : Drivers) (b : Block) (s : Ext2) {super_buf : List ℕ}
    → block_read dev 2 2 b ≡ some super_buf
    → (ext2_mount_from_disk kmalloc dev b s).0 ≡ minus_one
    → ext2_is_mounted (ext2_mount_from_disk kmalloc dev b s).1 ≡ false
unfolding ext2_mount_from_disk ext2_is_mounted
ext2_mount_from_disk-fails kmalloc dev b s {super_buf} q f =
    elim (Bool-cases (s2.sb.s_magic == ext2_magic)) [
      | inr m ↦ rw (q, ext2_mount_from_disk, m) (zero_size s2)
      | inl m ↦ elim (Bool-cases (bad_block_size s3.block_size)) [
        | inl w ↦ rw (q, ext2_mount_from_disk, m, w) (zero_size s3)
        | inr w ↦
            rw (q, ext2_mount_from_disk, m, w)
              (disk_gdt-fails kmalloc dev b (configured s3)
                (rw (q, ext2_mount_from_disk, m, w) at f))
      ]
    ]
  where
    s2 : Ext2
    s2 = record s { use_disk = false; block_cache_num = no_block; sb = super_block super_buf }

    s3 : Ext2
    s3 = record s2 { block_size = block_size_of s2.sb }

    zero_size : (t : Ext2) → some_gdt t.gdt && not (0 == 0) ≡ false
    zero_size t = ground arith
