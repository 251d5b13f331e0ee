-- ===== src/Fs/Sync.antt =====
-- Moving a file system from a module to the disk in kernel/fs/fs.c.
use jimir_os.Common.{ℕ, ◌≡◌, Bool, false, some, List}
use jimir_os.Common.Int.{minus_one}
use jimir_os.Block.{Block, Drivers, block_read}
use jimir_os.Ext2.{Env}
use jimir_os.Ext2.Mount.{ext2_mount_from_disk, ext2_is_mounted}
use jimir_os.Ext2.Failures.{ext2_mount_from_disk-fails}
use jimir_os.Fs.{copy_module_to_disk, sync_to_disk}

-- When the superblock of the disk can be read but the disk cannot be mounted, and the copy of the
-- module fails, the last part of `fs_init` leaves no file system mounted.
pub sync_to_disk-unmounts :
    (kmalloc : ℕ → Bool) (dev : Drivers) (image : List ℕ) (e : Env) {super_buf : List ℕ}
    → block_read dev 2 2 e.block ≡ some super_buf
    → (ext2_mount_from_disk kmalloc dev e.block e.fs).0 ≡ minus_one
    → (copy_module_to_disk dev image e.block).0 ≡ false
    → ext2_is_mounted (sync_to_disk kmalloc dev image e).fs ≡ false
unfolding sync_to_disk
sync_to_disk-unmounts kmalloc dev image e q f c =
    rw (f, c) (ext2_mount_from_disk-fails kmalloc dev e.block e.fs q f)
