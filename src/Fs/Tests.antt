-- ===== src/Fs/Tests.antt =====
-- Runs of kernel/fs/fs.c with a small disk.
use jimir_os.Common.{◌≡◌, refl, Bool, true, false, some, [], ◌∷◌, replicate}
use jimir_os.Common.Bytes.{read_bytes}
use jimir_os.Common.Int.{minus_one}
use jimir_os.Block.{Block, ata, Drivers, block_read, block_write}
use jimir_os.Ext2.{Env, super_block, no_block}
use jimir_os.Ext2.Mount.{ext2_mount_from_disk, ext2_is_mounted}
use jimir_os.Fs.{copy_sectors, copy_module_to_disk, sync_to_disk}
use jimir_os.Fs.Sync.{sync_to_disk-unmounts}

abbrev drivers : Bool → Drivers
drivers can_write = record {
  ahci_found = false;
  ata_found = true;
  reads = λ _ _ _. true;
  writes = λ _ _ _. can_write;
}

abbrev block : Block
block = record { ready = true; driver = ata; disk = replicate 2048 1 }

abbrev copied : Block
copied = (copy_module_to_disk (drivers true) (7 ∷ 8 ∷ []) block).1

abbrev env : Env
env = record {
  fs = record {
    img = some (7 ∷ 8 ∷ []);
    sb = record {
      s_inodes_count = 0;
      s_log_block_size = 0;
      s_inodes_per_group = 0;
      s_magic = 0;
      s_inode_size = 0;
    };
    block_size = 1024;
    inodes_per_group = 16;
    inode_size = 128;
    groups = 1;
    gdt = some (replicate 32 0);
    sectors_per_block = 2;
    use_disk = false;
    block_cache = replicate 4096 0;
    block_cache_num = no_block;
    fds = [];
  };
  block = block;
}

reads_super : block_read (drivers false) 2 2 block ≡ some (read_bytes 1024 1024 (replicate 2048 1))
unfolding block_read
reads_super = refl

no_magic : (ext2_mount_from_disk (λ _. true) (drivers false) block env.fs).0 ≡ minus_one
unfolding ext2_mount_from_disk block_read super_block read_bytes
no_magic = refl

no_copy : (copy_module_to_disk (drivers false) (7 ∷ 8 ∷ []) block).0 ≡ false
unfolding copy_module_to_disk copy_sectors block_write
no_copy = refl

sync_to_disk-unmounts_example :
    ext2_is_mounted (sync_to_disk (λ _. true) (drivers false) (7 ∷ 8 ∷ []) env).fs ≡ false
sync_to_disk-unmounts_example =
    sync_to_disk-unmounts (λ _. true) (drivers false) (7 ∷ 8 ∷ []) env reads_super no_magic no_copy
