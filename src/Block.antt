-- ===== src/Block.antt =====
-- The block layer: kernel/storage/block.c. The two drivers behind it stand for themselves in
-- `Drivers`: whether the initialisation finds a controller, and whether a transfer of `count`
-- sectors at `lba` succeeds; a transfer that succeeds moves the bytes, and one that fails moves none.
use jimir_os.Common.{ℕ, ◌*◌, Bool, true, false, Option, none, some, List, if◌then◌else◌}
use jimir_os.Common.Bytes.{read_bytes, write_bytes}
use jimir_os.Common.Int.{ℤ, pos, minus_one}

-- `BLOCK_DRIVER_NONE` and so on.
pub data BlockDriver : Type 0 where
  no_driver ahci ata : BlockDriver

pub record Drivers : Type 0 where
  pub ahci_found : Bool
  pub ata_found : Bool
  pub reads : BlockDriver → ℕ → ℕ → Bool
  pub writes : BlockDriver → ℕ → ℕ → Bool

-- `g_block_ready` and `g_block_driver`, and the bytes on the disk.
pub record Block : Type 0 where
  pub ready : Bool
  pub driver : BlockDriver
  pub disk : List ℕ

unfoldable pub block_init : Drivers → Block → ℤ × Block
block_init dev b =
    if b.ready
    then (pos 0, b)
    else if dev.ahci_found
    then (pos 0, record b { driver = ahci; ready = true })
    else if dev.ata_found
    then (pos 0, record b { driver = ata; ready = true })
    else (minus_one, b)

abbrev pub has_driver : BlockDriver → Bool
has_driver no_driver = false
has_driver ahci = true
has_driver ata = true

-- The bytes read, or `none` for -1.
unfoldable pub block_read : Drivers → ℕ → ℕ → Block → Option (List ℕ)
block_read dev lba count b =
    if b.ready
    then if has_driver b.driver
      then if dev.reads b.driver lba count
        then some (read_bytes (lba * 512) (count * 512) b.disk)
        else none
      else none
    else none

-- The buffer holds as many bytes as are written.
unfoldable pub block_write : Drivers → ℕ → ℕ → List ℕ → Block → Option Block
block_write dev lba count buffer b =
    if b.ready
    then if has_driver b.driver
      then if dev.writes b.driver lba count
        then some
            (record b { disk = write_bytes (lba * 512) (read_bytes 0 (count * 512) buffer) b.disk })
        else none
      else none
    else none
