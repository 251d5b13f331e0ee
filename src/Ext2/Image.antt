-- ===== src/Ext2/Image.antt =====
-- The driver of kernel/fs/ext2.c on the image of a module: its blocks and the bytes of a file.
use jimir_os.Common.{
  ℕ, ◌/◌, ◌%◌, ◌<◌, ◌≡◌, ◌≢◌, refl, false, Option, none, some, List, get_or, ◌==◌, if◌then◌else◌,
  Bool-cases, inl, inr,
}
use jimir_os.Block.{Drivers}
use jimir_os.Ext2.{Ext2, Env, Inode, get_block, img_block}

-- The number of the direct block that holds byte `p` of a file.
abbrev pub block_of : Ext2 → Inode → ℕ → ℕ
block_of s ino p = get_or ino.i_block (p / s.block_size) 0

-- What `get_block` gives on an image.
abbrev pub image_block : Ext2 → ℕ → Option (List ℕ)
image_block s blk = if blk == 0 then none else img_block blk s

pub get_block-image :
    (dev : Drivers) (blk : ℕ) (e : Env)
    → e.fs.use_disk ≡ false
    → get_block dev blk e ≡ (image_block e.fs blk, e)
unfolding get_block
get_block-image dev blk e d = elim (Bool-cases (blk == 0)) [
  | inl z ↦ rw z refl
  | inr z ↦ rw (z, d) refl
]

abbrev pub byte_in : Option (List ℕ) → ℕ → ℕ
byte_in none i = 0
byte_in (some b) i = get_or b i 0

-- Byte `p` of a file, where its block can be read.
unfoldable pub file_byte : Ext2 → Inode → ℕ → ℕ
file_byte s ino p = byte_in (image_block s (block_of s ino p)) (p % s.block_size)

-- Whether byte `p` of a file is in a direct block that can be read.
abbrev pub IsReadable : Ext2 → Inode → ℕ → Type 0
IsReadable s ino p = (p / s.block_size < 12) × (image_block s (block_of s ino p) ≢ none)
