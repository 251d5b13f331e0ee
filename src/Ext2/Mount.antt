-- ===== src/Ext2/Mount.antt =====
-- Mounting in kernel/fs/ext2.c, from the image of a module and from the disk.
use jimir_os.Common.{
  ℕ, zero, suc, ◌+◌, ◌-◌, ◌*◌, ◌/◌, ◌%◌, ◌^◌, min, Bool, true, false, ◌&&◌, ◌||◌, not, Option, none,
  some, List, [], ◌++◌, ltb, ◌==◌, if◌then◌else◌, length, map,
}
use jimir_os.Common.Bytes.{read_bytes}
use jimir_os.Common.Int.{ℤ, pos, minus_one}
use jimir_os.Block.{Block, Drivers, block_read}
use jimir_os.Ext2.{Ext2, Fd, SuperBlock, super_block, ext2_max_block_size, no_block}

abbrev pub ext2_magic : ℕ
ext2_magic = 0xef53

-- `1024u << s_log_block_size`; the processor takes the count modulo 32.
abbrev pub block_size_of : SuperBlock → ℕ
block_size_of sb = 1024 * 2 ^ (sb.s_log_block_size % 32) % 2 ^ 32

abbrev pub bad_block_size : ℕ → Bool
bad_block_size n = n == 0 || ltb ext2_max_block_size n

-- The assignments behind the test of the block size; a superblock with no inodes per group would
-- divide by 0.
abbrev pub configured : Ext2 → Ext2
configured s =
    let per_group = s.sb.s_inodes_per_group in
    record s {
      sectors_per_block = if s.block_size / 512 == 0 then 1 else s.block_size / 512;
      inodes_per_group = per_group;
      inode_size = if s.sb.s_inode_size == 0 then 128 else s.sb.s_inode_size;
      groups = (s.sb.s_inodes_count + per_group + (2 ^ 32 - 1)) % 2 ^ 32 / per_group;
    }

abbrev pub gdt_bytes : Ext2 → ℕ
gdt_bytes s = s.groups * 32 % 2 ^ 32

abbrev pub close_fd : Fd → Fd
close_fd fd = record fd { used = false }

abbrev pub unmounted : Ext2 → Ext2
unmounted s = record s { img = none; block_size = 0; gdt = none }

-- `ext2_mount_from_module` from the descriptor table on.
unfoldable pub module_gdt : (ℕ → Bool) → List ℕ → Ext2 → ℤ × Ext2
module_gdt kmalloc image s =
    let gdt_off = if s.block_size == 1024 then 2 * 1024 else s.block_size in
    if ltb (length image) ((gdt_off + gdt_bytes s) % 2 ^ 32)
    then (minus_one, unmounted s)
    else if kmalloc (gdt_bytes s)
    then (
      pos 0,
      record s { gdt = some (read_bytes gdt_off (gdt_bytes s) image); fds = map close_fd s.fds },
    )
    else (minus_one, unmounted s)

-- `kmalloc` tells whether a request of that size gets memory; `start` is `none` for NULL.
unfoldable pub ext2_mount_from_module : (ℕ → Bool) → Option (List ℕ) → Ext2 → ℤ × Ext2
unfolding module_gdt
ext2_mount_from_module kmalloc none s = (minus_one, s)
ext2_mount_from_module kmalloc (some image) s =
    let s1 = record s {
      img = some image;
      use_disk = false;
      block_cache_num = no_block;
      sb = super_block (read_bytes 1024 200 image);
    } in
    let s2 = record s1 { block_size = block_size_of s1.sb } in
    if ltb (length image) 2048
    then (minus_one, s)
    else if not (s1.sb.s_magic == ext2_magic)
    then (minus_one, unmounted s1)
    else if bad_block_size s2.block_size
    then (minus_one, unmounted s2)
    else module_gdt kmalloc image (configured s2)

-- The loop that reads the descriptor table from the disk; each round reads a byte at least.
unfoldable pub read_gdt : Drivers → Ext2 → ℕ → ℕ → ℕ → Block → Option (List ℕ)
read_gdt dev s zero gdt_block remaining b = none
read_gdt dev s (suc fuel) gdt_block remaining b = elim (ltb 0 remaining) [
  | false ↦ some []
  | true ↦
      let chunk = min remaining s.block_size in
      elim (block_read dev (gdt_block * s.sectors_per_block % 2 ^ 32) (s.sectors_per_block % 256)
        b) [
          | none ↦ none
          | some temp ↦ elim (read_gdt dev s fuel (gdt_block + 1) (remaining - chunk) b) [
            | none ↦ none
            | some rest ↦ some (read_bytes 0 chunk temp ++ rest)
          ]
        ]
]

-- `ext2_mount_from_disk` from the descriptor table on.
unfoldable pub disk_gdt : (ℕ → Bool) → Drivers → Block → Ext2 → ℤ × Ext2
disk_gdt kmalloc dev b s =
    if kmalloc (gdt_bytes s)
    then elim (read_gdt dev s (gdt_bytes s + 1) (if s.block_size == 1024 then 2 else 1)
        (gdt_bytes s) b) [
          | none ↦ (
            minus_one,
            record s { gdt = none; block_size = 0; use_disk = false; block_cache_num = no_block },
          )
          | some bytes ↦ (
            pos 0,
            record s {
              gdt = some bytes;
              img = none;
              use_disk = true;
              block_cache_num = no_block;
              fds = map close_fd s.fds;
            },
          )
        ]
    else (minus_one, record s { gdt = none; block_size = 0 })

unfoldable pub ext2_mount_from_disk : (ℕ → Bool) → Drivers → Block → Ext2 → ℤ × Ext2
unfolding disk_gdt read_gdt
ext2_mount_from_disk kmalloc dev b s =
    let s1 = record s { use_disk = false; block_cache_num = no_block } in
    elim (block_read dev 2 2 b) [
      | none ↦ (minus_one, s1)
      | some super_buf ↦
          let s2 = record s1 { sb = super_block super_buf } in
          let s3 = record s2 { block_size = block_size_of s2.sb } in
          if not (s2.sb.s_magic == ext2_magic)
          then (minus_one, record s2 { block_size = 0 })
          else if bad_block_size s3.block_size
          then (minus_one, record s3 { block_size = 0 })
          else disk_gdt kmalloc dev b (configured s3)
    ]

abbrev pub some_gdt : Option (List ℕ) → Bool
some_gdt none = false
some_gdt (some _) = true

unfoldable pub ext2_is_mounted : Ext2 → Bool
ext2_is_mounted s = some_gdt s.gdt && not (s.block_size == 0)
