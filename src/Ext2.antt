-- ===== src/Ext2.antt =====
-- The ext2 driver: kernel/fs/ext2.c. The static variables are the record `Ext2`; `Env` has the disk
-- beside it. Messages are left out.
pub mod Mount
pub mod Directory
pub mod Descriptors
pub mod Image
pub mod Read
pub mod Layout
pub mod Write
pub mod Names
pub mod Failures
mod Tests
use jimir_os.Common.{
  ℕ, zero, suc, ◌+◌, ◌-◌, ◌*◌, ◌/◌, ◌%◌, ◌^◌, min, Bool, true, false, ◌&&◌, ◌||◌, not, Option, none,
  some, List, [], ◌∷◌, ◌++◌, ltb, leb, ◌==◌, if◌then◌else◌, length, get_or, modify, replicate, drop,
  map,
}
use jimir_os.Common.Bytes.{read_bytes, write_bytes, le16, le32, eq_bytes}
use jimir_os.Common.Int.{ℤ, pos, negsuc, minus_one}
use jimir_os.Block.{Block, Drivers, block_read, block_write}

abbrev pub ext2_max_block_size : ℕ
ext2_max_block_size = 4096

abbrev pub ext2_max_fd : ℕ
ext2_max_fd = 16

-- The fields of `struct ext2_super_block` that are read, by their offsets in it.
pub record SuperBlock : Type 0 where
  pub s_inodes_count : ℕ
  pub s_log_block_size : ℕ
  pub s_inodes_per_group : ℕ
  pub s_magic : ℕ
  pub s_inode_size : ℕ

unfoldable pub super_block : List ℕ → SuperBlock
super_block bytes = record {
  s_inodes_count = le32 0 bytes;
  s_log_block_size = le32 24 bytes;
  s_inodes_per_group = le32 40 bytes;
  s_magic = le16 56 bytes;
  s_inode_size = le16 88 bytes;
}

-- The fields of `struct ext2_inode` that are read.
pub record Inode : Type 0 where
  pub i_mode : ℕ
  pub i_size : ℕ
  pub i_block : List ℕ

-- `n` words of 32 bits.
unfoldable pub words : ℕ → ℕ → List ℕ → List ℕ
words off zero bytes = []
words off (suc n) bytes = le32 off bytes ∷ words (off + 4) n bytes

unfoldable pub inode : List ℕ → Inode
unfolding words
inode bytes = record { i_mode = le16 0 bytes; i_size = le32 4 bytes; i_block = words 40 15 bytes }

-- `struct ext2_fd`
pub record Fd : Type 0 where
  pub used : Bool
  pub ino : ℕ
  pub pos_of : ℕ

-- `g_img` with its size, and `g_gdt` (32 bytes for each group), are `none` for null pointers.
pub record Ext2 : Type 0 where
  pub img : Option (List ℕ)
  pub sb : SuperBlock
  pub block_size : ℕ
  pub inodes_per_group : ℕ
  pub inode_size : ℕ
  pub groups : ℕ
  pub gdt : Option (List ℕ)
  pub sectors_per_block : ℕ
  pub use_disk : Bool
  pub block_cache : List ℕ
  pub block_cache_num : ℕ
  pub fds : List Fd

pub record Env : Type 0 where
  pub fs : Ext2
  pub block : Block

abbrev pub no_block : ℕ
no_block = 0xffff_ffff

unfoldable pub block_offset_bytes : ℕ → Ext2 → ℕ
block_offset_bytes blk s = blk * s.block_size % 2 ^ 32

-- The block in the image.
unfoldable pub img_block : ℕ → Ext2 → Option (List ℕ)
img_block blk s = elim s.img [
  | none ↦ none
  | some bytes ↦
      let off = block_offset_bytes blk s in
      if ltb (length bytes) ((off + s.block_size) % 2 ^ 32)
      then none
      else some (read_bytes off s.block_size bytes)
]

-- The block in the cache, which is filled from the disk first if it holds another one.
unfoldable pub cached_block : Drivers → ℕ → Env → Option (List ℕ) × Env
cached_block dev blk e =
    if e.fs.block_cache_num == blk
    then (some e.fs.block_cache, e)
    else elim (block_read dev (blk * e.fs.sectors_per_block % 2 ^ 32) (e.fs.sectors_per_block % 256)
        e.block) [
          | none ↦ (none, e)
          | some bytes ↦
              let cache = write_bytes 0 bytes e.fs.block_cache in
              (
                some cache,
                record e { fs = record (e.fs) { block_cache = cache; block_cache_num = blk } },
              )
        ]

-- The bytes that the returned pointer points to.
unfoldable pub get_block : Drivers → ℕ → Env → Option (List ℕ) × Env
get_block dev blk e =
    if blk == 0
    then (none, e)
    else if not e.fs.use_disk
    then (img_block blk e.fs, e)
    else if ltb ext2_max_block_size e.fs.block_size
    then (none, e)
    else cached_block dev blk e

-- A write into the image: `none` for -1.
unfoldable pub write_img : ℕ → ℕ → List ℕ → Env → Option Env
write_img off limit src e = elim e.fs.img [
  | none ↦ none
  | some bytes ↦
      if ltb (length bytes) limit
      then none
      else some (record e { fs = record (e.fs) { img = some (write_bytes off src bytes) } })
]

-- The write of a block to the disk, which empties the cache.
unfoldable pub write_disk : Drivers → ℕ → List ℕ → Env → Option Env
write_disk dev blk src e =
    if ltb ext2_max_block_size e.fs.block_size
    then none
    else elim (block_write dev (blk * e.fs.sectors_per_block % 2 ^ 32)
        (e.fs.sectors_per_block % 256) src e.block) [
          | none ↦ none
          | some b ↦ some (record { fs = record (e.fs) { block_cache_num = no_block }; block = b })
        ]

unfoldable pub write_block : Drivers → ℕ → List ℕ → Env → Option Env
write_block dev blk src e =
    if blk == 0
    then none
    else if not e.fs.use_disk
    then (let off = block_offset_bytes blk e.fs in
        write_img off ((off + e.fs.block_size) % 2 ^ 32) (read_bytes 0 e.fs.block_size src) e)
    else write_disk dev blk src e

unfoldable pub copy_from_block : Drivers → ℕ → ℕ → ℕ → Env → Option (List ℕ) × Env
copy_from_block dev blk offset len e =
    let (bytes, e1) = get_block dev blk e in
    (
      elim bytes [
        | none ↦ none
        | some b ↦
            if ltb e1.fs.block_size ((offset + len) % 2 ^ 32)
            then none
            else some (read_bytes offset len b)
      ],
      e1,
    )

-- The write through the cache: it is changed before the disk is, and stays so if the disk fails.
unfoldable pub copy_to_disk : Drivers → ℕ → ℕ → List ℕ → Env → Bool × Env
copy_to_disk dev blk offset src e =
    let (bytes, e1) = get_block dev blk e in
    elim bytes [
      | none ↦ (false, e1)
      | some b ↦
          let cache = write_bytes offset src b in
          let e2 = record e1 { fs = record (e1.fs) { block_cache = cache } } in
          elim (write_block dev blk cache e2) [ none ↦ (false, e2) | some e3 ↦ (true, e3) ]
    ]

-- Whether it succeeds.
unfoldable pub copy_to_block : Drivers → ℕ → ℕ → List ℕ → Env → Bool × Env
copy_to_block dev blk offset src e =
    if ltb e.fs.block_size ((offset + length src) % 2 ^ 32)
    then (false, e)
    else if not e.fs.use_disk
    then (let off = block_offset_bytes blk e.fs in
        elim (write_img ((off + offset) % 2 ^ 32) ((off + offset + length src) % 2 ^ 32) src e) [
          | none ↦ (false, e)
          | some e1 ↦ (true, e1)
        ])
    else if ltb ext2_max_block_size e.fs.block_size
    then (false, e)
    else copy_to_disk dev blk offset src e

-- The loop of `read_inode`: the bytes read so far come first. `none` for -1.
unfoldable pub read_chunks : Drivers → ℕ → ℕ → ℕ → ℕ → Env → Option (List ℕ) × Env
read_chunks dev zero cur_blk within remaining e = (none, e)
read_chunks dev (suc fuel) cur_blk within remaining e = elim (ltb 0 remaining) [
  | false ↦ (some [], e)
  | true ↦
      let chunk = min (e.fs.block_size - within) remaining in
      let (bytes, e1) = copy_from_block dev cur_blk within chunk e in
      elim bytes [
        | none ↦ (none, e1)
        | some b ↦
            let (rest, e2) =
              read_chunks dev fuel ((cur_blk + 1) % 2 ^ 32) 0 (remaining - chunk) e1 in
            (elim rest [ none ↦ none | some r ↦ some (b ++ r) ], e2)
      ]
]

-- The bytes of the record of an inode. The buffer of the source is taken to be large enough for
-- an inode's record. Each round reads a byte at least.
unfoldable pub inode_bytes : Drivers → ℕ → Env → Option (List ℕ) × Env
unfolding read_chunks
inode_bytes dev ino e =
    let idx = ino - 1 in
    let group = idx / e.fs.inodes_per_group in
    let off = idx % e.fs.inodes_per_group * e.fs.inode_size % 2 ^ 32 in
    if leb e.fs.groups group then (none, e) else elim e.fs.gdt [
      | none ↦ (none, e)
      | some gdt ↦
          read_chunks dev (e.fs.inode_size + 1)
            ((le32 (group * 32 + 8) gdt + off / e.fs.block_size) % 2 ^ 32) (off % e.fs.block_size)
            e.fs.inode_size e
    ]

unfoldable pub read_inode : Drivers → ℕ → Env → Option Inode × Env
read_inode dev ino e =
    if ino == 0
    then (none, e)
    else (let (bytes, e1) = inode_bytes dev ino e in
        (elim bytes [ none ↦ none | some b ↦ some (inode b) ], e1))

-- How many bytes the next round of the loops over a file moves.
abbrev pub span : ℕ → Inode → ℕ → ℕ → ℕ
span block_size ino offset len =
    min (min len (block_size - offset % block_size)) (ino.i_size - offset)

-- The end of a round: `n` bytes from `from` on are copied if the block was read, and `go` goes on.
abbrev pub copy_on : ℕ → ℕ → (Env → List ℕ × Env) → Option (List ℕ) × Env → List ℕ × Env
copy_on from n go (none, e) = ([], e)
copy_on from n go (some b, e) = (read_bytes from n b ++ (go e).0, (go e).1)

-- The loop of `read_file_direct`, which stops at the end of the file, behind the direct blocks, and
-- at a block that cannot be read.
unfoldable pub read_file : Drivers → ℕ → Inode → ℕ → ℕ → Env → List ℕ × Env
read_file dev zero ino offset len e = ([], e)
read_file dev (suc fuel) ino offset len e =
    let n = span e.fs.block_size ino offset len in
    elim (ltb 0 len && ltb offset ino.i_size && ltb (offset / e.fs.block_size) 12) [
      | false ↦ ([], e)
      | true ↦
          copy_on (offset % e.fs.block_size) n
            (λ e1. read_file dev fuel ino (offset + n) (len - n) e1)
            (get_block dev (get_or ino.i_block (offset / e.fs.block_size) 0) e)
    ]

-- Each round moves a byte at least.
unfoldable pub read_file_direct : Drivers → Inode → ℕ → ℕ → Env → List ℕ × Env
read_file_direct dev ino offset len e = read_file dev (len + 1) ino offset len e
