-- ===== src/Ext2/Read.antt =====
-- Reading a file of an image by kernel/fs/ext2.c.
use native.Mathlib.Nat.{mod-lt}
use jimir_os.Common.{
  ℕ, ◌^◌, zero, suc, ◌+◌, ◌-◌, ◌/◌, ◌%◌, ◌≤◌, ◌<◌, min, ◌≡◌, ◌∙◌, refl, ap, ap₂, sym, true, false,
  ◌&&◌, some, List, [], ◌++◌, arith, length, get_or, ltb, Bool-cases, Option-cases, inl, inr,
  length-append, get_or-append,
}
use jimir_os.Common.Bytes.{read_bytes, length-read_bytes, get_or-read_bytes}
use jimir_os.Common.Divide.{within_block}
use jimir_os.Block.{Drivers}
use jimir_os.Ext2.{block_offset_bytes, Env, Inode, read_file, read_file_direct, span}
use jimir_os.Ext2.Image.{byte_in, block_of, image_block, get_block-image, file_byte, IsReadable}

module _ (dev : Drivers) (ino : Inode) (e : Env) (d : e.fs.use_disk ≡ false)
    (pos : 0 < e.fs.block_size) where
  -- What a read of at most `len` bytes from `offset` gives.
  pub record Reads (offset len : ℕ) (r : List ℕ × Env) : Type 0 where
    pub same : r.1 ≡ e
    pub at_most : length r.0 ≤ len
    pub inside : length r.0 ≤ ino.i_size - offset
    pub bytes : (i : ℕ) → i < length r.0 → get_or r.0 i 0 ≡ file_byte e.fs ino (offset + i)
    pub all :
        ((p : ℕ) → offset ≤ p → p < offset + len → p < ino.i_size → IsReadable e.fs ino p)
        → length r.0 ≡ min len (ino.i_size - offset)

  -- The bytes of one round are those of the file.
  round :
      (offset n i : ℕ) {b : List ℕ}
      → image_block e.fs (block_of e.fs ino offset) ≡ some b
      → offset % e.fs.block_size + n ≤ e.fs.block_size
      → i < n
      → get_or (read_bytes (offset % e.fs.block_size) n b) i 0 ≡ file_byte e.fs ino (offset + i)
  unfolding file_byte
  round offset n i {b} q fits h =
      let (quot, rem) = within_block e.fs.block_size offset i pos (omega arith) in
      let found = ap (λ (k : ℕ). image_block e.fs (get_or ino.i_block k 0)) quot ∙ q in
      get_or-read_bytes (offset % e.fs.block_size) n i b h ∙ sym (ap₂ byte_in found rem)

  step-fits :
      (offset len : ℕ)
      → offset % e.fs.block_size + span e.fs.block_size ino offset len ≤ e.fs.block_size
  step-fits offset len = omega (arith, mod-lt offset pos)

  more :
      (offset len : ℕ) (b : List ℕ)
      → image_block e.fs (block_of e.fs ino offset) ≡ some b
      → ltb 0 len && ltb offset ino.i_size && ltb (offset / e.fs.block_size) 12 ≡ true
      → (r : List ℕ × Env)
      → Reads
          (offset + span e.fs.block_size ino offset len)
          (len - span e.fs.block_size ino offset len)
          r
      → Reads offset len (
        read_bytes (offset % e.fs.block_size) (span e.fs.block_size ino offset len) b ++ r.0,
        r.1,
      )
  more offset len b here go r rest = record {
    same = rest.same;
    at_most = omega (arith, total, rest.at_most);
    inside = omega (arith, total, rest.inside);
    bytes = λ i hi. get_or-append i here_bytes r.0 ∙ elim (Bool-cases (ltb i (length here_bytes))) [
      | inl u ↦ rw u (round offset n i here (step-fits offset len) (ground (arith, u, long)))
      | inr u ↦
          let low : length here_bytes ≤ i = ground (arith, u) in
          let hi' : i < length (here_bytes ++ r.0) = hi in
          rw u (
            rest.bytes (i - length here_bytes) (omega (arith, low, hi', total, long))
            ∙ ap (file_byte e.fs ino) (omega (arith, low, long)))
    ];
    all = λ read. omega (
      arith,
      total,
      rest.all (λ p h h' k. read p (omega (arith, h)) (omega (arith, h', h, taken)) k),
      taken,
      go_on,
    );
  }
    where
      n : ℕ
      n = span e.fs.block_size ino offset len

      here_bytes : List ℕ
      here_bytes = read_bytes (offset % e.fs.block_size) n b

      long : length here_bytes ≡ n
      long = length-read_bytes (offset % e.fs.block_size) n b

      total : length (here_bytes ++ r.0) ≡ n + length r.0
      total = length-append here_bytes r.0 ∙ ap (λ (k : ℕ). k + length r.0) long

      taken : n ≤ len
      taken = omega arith

      go_on : (0 < len) × (offset < ino.i_size)
      go_on = ground (arith, go)

  nothing :
      (offset len : ℕ)
      → (((p : ℕ) → offset ≤ p → p < offset + len → p < ino.i_size → IsReadable e.fs ino p)
          → 0 ≡ min len (ino.i_size - offset))
      → Reads offset len ([], e)
  nothing offset len all = record {
    same = refl;
    at_most = omega arith;
    inside = omega arith;
    bytes = λ i h. absurd (omega arith);
    all = all;
  }

  read_file-Reads :
      (fuel offset len : ℕ) → len < fuel → Reads offset len (read_file dev fuel ino offset len e)
  unfolding read_file
  read_file-Reads zero offset len h = absurd (omega arith)
  read_file-Reads (suc fuel) offset len h =
      elim (Bool-cases (ltb 0 len && ltb offset ino.i_size && ltb (offset / e.fs.block_size) 12)) [
        | inr stop ↦ rw (stop, read_file) (nothing offset len (λ r. ended stop r))
        | inl go ↦ elim (Option-cases (image_block e.fs (block_of e.fs ino offset))) [
          | inl gone ↦
              rw (go, read_file, get_block-image dev (block_of e.fs ino offset) e d, gone)
                (nothing offset len (λ r.
                  absurd
                    ((r offset (omega arith) (ground (arith, go)) (ground (arith, go))).1 gone)))
          | inr (b, here) ↦
              rw (go, read_file, get_block-image dev (block_of e.fs ino offset) e d, here)
                (more offset len b here go
                  (read_file dev fuel ino (offset + span e.fs.block_size ino offset len)
                    (len - span e.fs.block_size ino offset len) e)
                  (read_file-Reads fuel (offset + span e.fs.block_size ino offset len)
                    (len - span e.fs.block_size ino offset len)
                    (ground (arith, go, h, mod-lt offset pos))))
        ]
      ]
    where
      ended :
          ltb 0 len && ltb offset ino.i_size && ltb (offset / e.fs.block_size) 12 ≡ false
          → ((p : ℕ) → offset ≤ p → p < offset + len → p < ino.i_size → IsReadable e.fs ino p)
          → 0 ≡ min len (ino.i_size - offset)
      ended stop r = elim (Bool-cases (ltb 0 len && ltb offset ino.i_size)) [
        | inr u ↦ ground (arith, u)
        | inl u ↦ absurd (
            ground
              (arith, u, stop, (r offset (omega arith) (ground (arith, u)) (ground (arith, u))).0))
      ]

  -- Reading a file of an image, of a block size that is not 0: no more bytes than are asked for come,
  -- and none from behind the end of the file; each byte that comes is that of the file at its
  -- place; if every byte that is asked for and inside the file lies in a direct block that can be
  -- read, all of them come; and nothing changes.
  pub read_file_direct-Reads :
      (offset len : ℕ) → Reads offset len (read_file_direct dev ino offset len e)
  unfolding read_file_direct
  read_file_direct-Reads offset len = read_file-Reads (len + 1) offset len (omega arith)

-- A read of a file on an image, none of whose blocks is so far up that its end wraps round, changes
-- nothing and gives bytes of the file from the offset on, no more than asked for and none past the
-- end; if all the bytes asked for are in blocks that can be read, it gives all up to the end of the
-- file.
pub read_file_direct-in_image :
    (dev : Drivers) (ino : Inode) (e : Env) (d : e.fs.use_disk ≡ false) (pos : 0 < e.fs.block_size)
    → ((k : ℕ) → block_offset_bytes (get_or ino.i_block k 0) e.fs + e.fs.block_size < 2 ^ 32)
    → (offset len : ℕ) → Reads dev ino e d pos offset len (read_file_direct dev ino offset len e)
read_file_direct-in_image dev ino e d pos unwrapped offset len =
    read_file_direct-Reads dev ino e d pos offset len
