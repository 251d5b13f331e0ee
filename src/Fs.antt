-- ===== src/Fs.antt =====
-- The file system layer: kernel/fs/fs.c, over the ext2 driver and the block layer.
pub mod Sync
mod Tests
use jimir_os.Common.{
  ℕ, zero, suc, ◌+◌, ◌*◌, ◌/◌, ◌%◌, ◌^◌, Bool, true, false, ◌&&◌, not, Option, none, some, List, [],
  ◌∷◌, ltb, ◌==◌, if◌then◌else◌, length,
}
use jimir_os.Common.Bytes.{read_bytes}
use jimir_os.Common.Int.{ℤ, pos, negsuc, minus_one, eq_ℤ}
use jimir_os.Block.{Block, Drivers, block_write}
use jimir_os.Ext2.{Ext2, Env}
use jimir_os.Ext2.Mount.{ext2_mount_from_module, ext2_mount_from_disk, ext2_is_mounted}
use jimir_os.Ext2.Directory.{ext2_list}
use jimir_os.Ext2.Descriptors.{ext2_open, ext2_read, ext2_write, ext2_close}

-- The loop of `copy_module_to_disk`, with `n` sectors left, from sector `i` on; the last one is
-- filled up with 0. Whether all writes succeed, and the disk.
unfoldable pub copy_sectors : Drivers → List ℕ → ℕ → ℕ → Block → Bool × Block
copy_sectors dev bytes zero i b = (true, b)
copy_sectors dev bytes (suc n) i b = elim (block_write dev i 1 (read_bytes (i * 512) 512 bytes) b) [
  | none ↦ (false, b)
  | some b' ↦ copy_sectors dev bytes n (suc i) b'
]

unfoldable pub copy_module_to_disk : Drivers → List ℕ → Block → Bool × Block
unfolding copy_sectors
copy_module_to_disk dev bytes b =
    if length bytes == 0
    then (false, b)
    else copy_sectors dev bytes ((length bytes + 511) % 2 ^ 32 / 512) 0 b

abbrev pub ok : ℤ → Bool
ok r = eq_ℤ r (pos 0)

abbrev pub mount_disk : (ℕ → Bool) → Drivers → Env → Bool × Env
mount_disk kmalloc dev e =
    let (r, fs) = ext2_mount_from_disk kmalloc dev e.block e.fs in (ok r, record e { fs = fs })

abbrev pub mount_module : (ℕ → Bool) → List ℕ → Env → Bool × Env
mount_module kmalloc image e =
    let (r, fs) = ext2_mount_from_module kmalloc (some image) e.fs in (ok r, record e { fs = fs })

-- The loop over the modules (each with its bytes, `none` for a null pointer), up to the first one
-- that mounts.
unfoldable pub mount_first : (ℕ → Bool) → List (Option (List ℕ)) → Env → Option (List ℕ) × Env
mount_first kmalloc [] e = (none, e)
mount_first kmalloc (none ∷ ms) e = mount_first kmalloc ms e
mount_first kmalloc (some image ∷ ms) e = elim (ltb 2048 (length image)) [
  | false ↦ mount_first kmalloc ms e
  | true ↦
      let (done, e1) = mount_module kmalloc image e in
      elim done [ true ↦ (some image, e1) | false ↦ mount_first kmalloc ms e1 ]
]

-- The last part of `fs_init`, which moves a file system mounted from a module to the disk.
unfoldable pub sync_to_disk : (ℕ → Bool) → Drivers → List ℕ → Env → Env
sync_to_disk kmalloc dev image e =
    let (done, e1) = mount_disk kmalloc dev e in
    let (copied, b) = copy_module_to_disk dev image e1.block in
    let e2 = record e1 { block = b } in
    let (again, e3) = mount_disk kmalloc dev e2 in
    if done
    then e1
    else if copied
    then (if again then e3 else (mount_module kmalloc image e3).1)
    else e2

unfoldable pub fs_init : (ℕ → Bool) → Drivers → List (Option (List ℕ)) → Env → Env
unfolding mount_first sync_to_disk
fs_init kmalloc dev modules e =
    let (on_disk, e1) = if e.block.ready then mount_disk kmalloc dev e else (false, e) in
    let (image, e2) = mount_first kmalloc modules e1 in
    if on_disk then e1 else elim image [
      | none ↦ e2
      | some bytes ↦ if e2.block.ready then sync_to_disk kmalloc dev bytes e2 else e2
    ]

unfoldable pub fs_dump_list : Drivers → ℕ → Env → Option (List ℕ) × Env
fs_dump_list dev len e = if ext2_is_mounted e.fs then ext2_list dev len e else (some [], e)

unfoldable pub fs_open : Drivers → Option (List ℕ) → Env → ℤ × Env
fs_open dev name e = if ext2_is_mounted e.fs then ext2_open dev name e else (minus_one, e)

unfoldable pub fs_read : Drivers → ℤ → ℕ → Env → Option (List ℕ) × Env
fs_read dev fd len e = if ext2_is_mounted e.fs then ext2_read dev fd len e else (none, e)

unfoldable pub fs_write : Drivers → ℤ → List ℕ → Env → ℤ × Env
fs_write dev fd buf e = if ext2_is_mounted e.fs then ext2_write dev fd buf e else (minus_one, e)

unfoldable pub fs_close : ℤ → Env → ℤ × Env
fs_close fd e =
    if ext2_is_mounted e.fs
    then (let (r, fs) = ext2_close fd e.fs in (r, record e { fs = fs }))
    else (minus_one, e)
