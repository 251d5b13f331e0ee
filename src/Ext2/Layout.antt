-- ===== src/Ext2/Layout.antt =====
-- Files of an image whose direct blocks are in the image and not shared, for kernel/fs/ext2.c.
use native.Mathlib.Nat.{mod-lt, mod-add-div'}
use jimir_os.Common.{
  ℕ, ◌+◌, ◌-◌, ◌*◌, ◌/◌, ◌%◌, ◌^◌, ◌≤◌, ◌<◌, ◌≡◌, ◌≢◌, ◌∙◌, ap, sym, true, false, ◌&&◌, Option,
  none, some, List, arith, length, get_or, ltb, leb, ◌==◌, Bool-cases, inl, inr,
}
use jimir_os.Common.Bytes.{read_bytes, write_bytes, get_or-read_bytes}
use jimir_os.Common.Divide.{within_block, block_below, lt_or}
use jimir_os.Block.{Drivers}
use jimir_os.Ext2.{Ext2, Env, Inode, img_block, block_offset_bytes, write_img, copy_to_block}
use jimir_os.Ext2.Image.{byte_in, block_of, image_block, file_byte, IsReadable}

-- The file lies in direct blocks, each of which is in the image, and no two of which are the same.
pub record Laid (s : Ext2) (ino : Inode) (image : List ℕ) : Type 0 where
  pub img_is : s.img ≡ some image
  pub short : length image < 2 ^ 32
  pub on_image : s.use_disk ≡ false
  pub size_pos : 0 < s.block_size
  pub direct : (p : ℕ) → p < ino.i_size → p / s.block_size < 12
  pub placed : (p : ℕ) → p < ino.i_size → block_of s ino p ≢ 0
  pub inside :
      (p : ℕ) → p < ino.i_size → block_of s ino p * s.block_size + s.block_size ≤ length image
  pub apart :
      (p q : ℕ)
      → p < ino.i_size
      → q < ino.i_size
      → block_of s ino p ≡ block_of s ino q
      → p / s.block_size ≡ q / s.block_size

-- Where byte `p` of the file is.
abbrev pub place : Ext2 → Inode → ℕ → ℕ
place s ino p = block_of s ino p * s.block_size + p % s.block_size

module _ (s : Ext2) (ino : Inode) (image : List ℕ) (offset n p : ℕ) (v : Laid s ino image) where
  same_block :
      p / s.block_size ≡ offset / s.block_size
      → (place s ino p ≡ block_of s ino offset * s.block_size + p % s.block_size)
        × (p ≡ p % s.block_size + offset / s.block_size * s.block_size)
  same_block q = (
    ap (λ (k : ℕ). get_or ino.i_block k 0 * s.block_size + p % s.block_size) q,
    sym (mod-add-div' p s.block_size) ∙ ap (λ (k : ℕ). p % s.block_size + k * s.block_size) q,
  )

  -- A byte of another block is in neither run.
  other_block :
      offset % s.block_size + n ≤ s.block_size
      → offset < ino.i_size
      → p < ino.i_size
      → p / s.block_size ≢ offset / s.block_size
      → (offset ≤ p → offset + n ≤ p)
        × (place s ino offset ≤ place s ino p → place s ino offset + n ≤ place s ino p)
  other_block fits ho hp d = (in_file, in_image)
    where
      in_file : offset ≤ p → offset + n ≤ p
      in_file le = elim (lt_or (offset + n) (p + 1)) [
        | inl e ↦ absurd (inside (omega (arith, e)))
        | inr (inl l) ↦ omega (arith, l)
        | inr (inr l) ↦ absurd (inside (omega (arith, l)))
      ]
        where
          inside : p < offset + n → ⊥
          inside l = d (
              ap (λ (k : ℕ). k / s.block_size) (omega arith)
              ∙ (within_block s.block_size offset (p - offset) v.size_pos (omega arith)).0)

      in_image : place s ino offset ≤ place s ino p → place s ino offset + n ≤ place s ino p
      in_image le = elim (lt_or (block_of s ino p) (block_of s ino offset)) [
        | inl e ↦ absurd (d (v.apart p offset hp ho e))
        | inr (inl l) ↦ absurd (
            omega (
              arith,
              block_below s.block_size (block_of s ino p) (block_of s ino offset) l,
              mod-lt p v.size_pos,
            ))
        | inr (inr l) ↦
            omega
              (arith, block_below s.block_size (block_of s ino offset) (block_of s ino p) l, fits)
      ]

  -- The bytes of a run inside one block, and those alone, are in the run of the same length in the
  -- image, at the same distance from its start.
  pub run_of_places :
      offset % s.block_size + n ≤ s.block_size
      → offset < ino.i_size
      → p < ino.i_size
      → (leb (place s ino offset) (place s ino p) && ltb (place s ino p) (place s ino offset + n)
          ≡ (leb offset p && ltb p (offset + n)))
        × (leb offset p && ltb p (offset + n) ≡ true
            → place s ino p - place s ino offset ≡ p - offset)
  run_of_places fits ho hp = elim (Bool-cases (p / s.block_size == offset / s.block_size)) [
    | inl q ↦
        let (a, b) = same_block (ground (arith, q)) in
        let c = mod-add-div' offset s.block_size in
        (ground (arith, a, b, c), λ w. omega (arith, a, b, c))
    | inr q ↦
        let (a, b) = other_block fits ho hp (ground (arith, q)) in
        (ground (arith, a, b), λ w. absurd (ground (arith, a, w)))
  ]

pub file_byte-place :
    (s : Ext2) (ino : Inode) (image : List ℕ) (p : ℕ)
    → Laid s ino image
    → p < ino.i_size
    → (file_byte s ino p ≡ get_or image (place s ino p) 0) × IsReadable s ino p
unfolding file_byte img_block block_offset_bytes
file_byte-place s ino image p v h = (
  ap (λ o. byte_in o (p % s.block_size)) here
      ∙ get_or-read_bytes (block_of s ino p * s.block_size) s.block_size (p % s.block_size) image
          (mod-lt p v.size_pos),
  (v.direct p h, λ e. absurd (some-ne (sym here ∙ e))),
)
  where
    some-ne : {b : List ℕ} → ◌≡◌ {A = Option (List ℕ)} (some b) none → ⊥
    some-ne q = cc

    here :
        image_block s (block_of s ino p)
        ≡ some (read_bytes (block_of s ino p * s.block_size) s.block_size image)
    here = ground (arith, v.img_is, v.placed p h, v.inside p h, v.short)

-- A write into one block of the file.
pub copy_to_block-Laid :
    (dev : Drivers) (ino : Inode) (image src : List ℕ) (offset : ℕ) (e : Env)
    → Laid e.fs ino image
    → offset < ino.i_size
    → offset % e.fs.block_size + length src ≤ e.fs.block_size
    → copy_to_block dev (block_of e.fs ino offset) (offset % e.fs.block_size) src e ≡ (
      true,
      record e {
        fs = record (e.fs) { img = some (write_bytes (place e.fs ino offset) src image) };
      },
    )
unfolding copy_to_block write_img block_offset_bytes
copy_to_block-Laid dev ino image src offset e v h fits =
    ground (arith, v.img_is, v.on_image, v.inside offset h, v.short, mod-lt offset v.size_pos)
