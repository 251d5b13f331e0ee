-- ===== src/Ext2/Tests.antt =====
-- Runs of kernel/fs/ext2.c on small images and a small disk.
use jimir_os.Common.{
  ℕ, ◌^◌, zero, suc, ◌+◌, ◌-◌, ◌/◌, ◌≤◌, ◌<◌, ◌≡◌, ◌⊎◌, refl, true, false, ◌&&◌, none, some, List,
  [], ◌∷◌, length, get_or, replicate, arith, ltb, leb, if◌then◌else◌,
}
use jimir_os.Common.Bytes.{read_bytes, write_bytes, eq_bytes}
use jimir_os.Common.Int.{minus_one}
use jimir_os.Block.{ahci, Drivers, block_read}
use jimir_os.Ext2.{
  Ext2, Env, Inode, SuperBlock, super_block, words, inode, no_block, get_block, img_block,
  block_offset_bytes, copy_from_block, read_chunks, inode_bytes, read_inode, read_file_direct,
}
use jimir_os.Ext2.Image.{file_byte}
use jimir_os.Ext2.Layout.{Laid}
use jimir_os.Ext2.Read.{Reads, read_file_direct-in_image}
use jimir_os.Ext2.Write.{write_file_direct-bytes, read_file_direct-write_file_direct}
use jimir_os.Ext2.Mount.{ext2_mount_from_disk, ext2_is_mounted}
use jimir_os.Ext2.Directory.{
  path_basename, entries_from, entries_of, root_entries, emit, emit_all, ext2_list, lookup_in_root,
  find_in, find_name,
}
use jimir_os.Ext2.Descriptors.{write_file_direct}
use jimir_os.Ext2.Names.{IsBase, path_basename-IsBase, ext2_list-le, entries_from_fuel}
use jimir_os.Ext2.Failures.{ext2_mount_from_disk-fails}

abbrev drivers : Drivers
drivers = record {
  ahci_found = true;
  ata_found = false;
  reads = λ _ _ _. true;
  writes = λ _ _ _. false;
}

abbrev blank_sb : SuperBlock
blank_sb = record {
  s_inodes_count = 0;
  s_log_block_size = 0;
  s_inodes_per_group = 0;
  s_magic = 0;
  s_inode_size = 0;
}

-- A root directory in block 2, with the file `a`; inode 2 is the second record of block 1.
abbrev image : List ℕ
image =
    write_bytes 2048 (12 ∷ 0 ∷ 0 ∷ 0 ∷ 0 ∷ 4 ∷ 1 ∷ 1 ∷ b'a' ∷ [])
      (write_bytes 1192 (2 ∷ []) (write_bytes 1152 (0 ∷ 64 ∷ []) (replicate 5120 0)))

abbrev mounted : Ext2
mounted = record {
  img = some image;
  sb = blank_sb;
  block_size = 1024;
  inodes_per_group = 16;
  inode_size = 128;
  groups = 1;
  gdt = some (0 ∷ 0 ∷ 0 ∷ 0 ∷ 0 ∷ 0 ∷ 0 ∷ 0 ∷ 1 ∷ 0 ∷ 0 ∷ 0 ∷ []);
  sectors_per_block = 2;
  use_disk = false;
  block_cache = replicate 4096 0;
  block_cache_num = no_block;
  fds = replicate 16 (record { used = false; ino = 0; pos_of = 0 });
}

abbrev env : Env
env = record {
  fs = mounted;
  block = record { ready = true; driver = ahci; disk = replicate 4096 0 };
}

-- A file of 1500 bytes in blocks 3 and 4.
abbrev file : Inode
file = record { i_mode = 0x8000; i_size = 1500; i_block = 3 ∷ 4 ∷ [] }

two_blocks : (k : ℕ) → k < 2 → (get_or (3 ∷ 4 ∷ []) k 0 ≡ k + 3)
two_blocks zero h = refl
two_blocks (suc zero) h = refl
two_blocks (suc (suc k)) h = absurd (omega arith)

image-long : length image ≡ 5120
unfolding write_bytes
image-long = refl

file-Laid : Laid mounted file image
file-Laid = record {
  img_is = refl;
  short = omega (arith, image-long);
  on_image = refl;
  size_pos = omega arith;
  direct = λ p h. omega arith;
  placed = λ p h. omega (arith, two_blocks (p / 1024) (omega arith));
  inside = λ p h. omega (arith, image-long, two_blocks (p / 1024) (omega arith));
  apart = λ p q h k e.
      omega (arith, e, two_blocks (p / 1024) (omega arith), two_blocks (q / 1024) (omega arith));
}

file-unwrapped : (k : ℕ) → block_offset_bytes (get_or (3 ∷ 4 ∷ []) k 0) mounted + 1024 < 2 ^ 32
unfolding block_offset_bytes
file-unwrapped zero = omega arith
file-unwrapped (suc zero) = omega arith
file-unwrapped (suc (suc k)) = omega arith

read_file_direct-in_image_example :
    Reads drivers file env refl (omega arith) 1000 100 (read_file_direct drivers file 1000 100 env)
read_file_direct-in_image_example =
    read_file_direct-in_image drivers file env refl (omega arith) file-unwrapped 1000 100

write_file_direct-bytes_example :
    ((write_file_direct drivers file 1023 (7 ∷ 8 ∷ []) env).0 ≡ 2)
    × ((p : ℕ)
        → p < 1500
        → file_byte (write_file_direct drivers file 1023 (7 ∷ 8 ∷ []) env).1.fs file p ≡ (
            if leb 1023 p && ltb p 1025
            then get_or (7 ∷ 8 ∷ []) (p - 1023) 0
            else file_byte mounted file p))
    × ((after : List ℕ) × Laid
          (write_file_direct drivers file 1023 (7 ∷ 8 ∷ []) env).1.fs
          file
          after)
write_file_direct-bytes_example =
    write_file_direct-bytes drivers file 1023 (7 ∷ 8 ∷ []) image env file-Laid (omega arith)

read_file_direct-write_file_direct_example :
    (read_file_direct drivers file 1023 2
      (write_file_direct drivers file 1023 (7 ∷ 8 ∷ []) env).1).0
    ≡ 7 ∷ 8 ∷ []
read_file_direct-write_file_direct_example =
    read_file_direct-write_file_direct drivers file 1023 (7 ∷ 8 ∷ []) image env file-Laid
      (omega arith)

abbrev path_a : List ℕ
path_a = b'/' ∷ b'a' ∷ []

abbrev line_a : List ℕ
line_a = b'a' ∷ 10 ∷ []

path_basename-IsBase_example :
    ((path_a ≡ []) × (path_basename (some path_a) ≡ none))
    ⊎ ((base : List ℕ) × (path_basename (some path_a) ≡ some base) × IsBase path_a base)
path_basename-IsBase_example = path_basename-IsBase path_a

lists_a : (ext2_list drivers 100 env).0 ≡ some line_a
unfolding ext2_list ext2_is_mounted root_entries read_inode inode_bytes read_chunks copy_from_block
    get_block img_block block_offset_bytes inode words entries_of entries_from emit emit_all
    write_bytes read_bytes
lists_a = refl

finds_a : (lookup_in_root drivers (b'a' ∷ []) env).0 ≡ some 12
unfolding lookup_in_root find_in find_name read_inode inode_bytes read_chunks copy_from_block
    get_block img_block block_offset_bytes inode words entries_from write_bytes read_bytes eq_bytes
finds_a = refl

ext2_list-le_example : length line_a ≤ 100
ext2_list-le_example = ext2_list-le drivers 100 env lists_a

entries_from_fuel_example :
    entries_from 1025 1024 0 (replicate 1024 1) ≡ entries_from 2000 1024 0 (replicate 1024 1)
entries_from_fuel_example =
    entries_from_fuel 1025 2000 1024 0 (replicate 1024 1) (omega arith) (omega arith)

-- An image with a superblock of 16 inodes, all in one group.
abbrev with_groups : List ℕ
with_groups =
    write_bytes 1024 (16 ∷ [])
      (write_bytes 1064 (16 ∷ []) (write_bytes 1080 (0x53 ∷ 0xef ∷ []) image))

reads_super : block_read drivers 2 2 env.block ≡ some (read_bytes 1024 1024 (replicate 4096 0))
unfolding block_read
reads_super = refl

no_magic : (ext2_mount_from_disk (λ _. true) drivers env.block mounted).0 ≡ minus_one
unfolding ext2_mount_from_disk block_read super_block read_bytes
no_magic = refl

ext2_mount_from_disk-fails_example :
    ext2_is_mounted (ext2_mount_from_disk (λ _. true) drivers env.block mounted).1 ≡ false
ext2_mount_from_disk-fails_example =
    ext2_mount_from_disk-fails (λ _. true) drivers env.block mounted reads_super no_magic

-- The disk is mounted, and block 1 is in the cache.
abbrev cached : Env
cached = record env { fs = record mounted { img = none; use_disk = true; block_cache_num = 1 } }
