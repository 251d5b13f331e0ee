-- ===== src/Ext2/Directory.antt =====
-- Names and the root directory in kernel/fs/ext2.c.
use jimir_os.Common.{
  ℕ, zero, suc, ◌+◌, ◌-◌, Bool, true, false, ◌&&◌, ◌||◌, not, Option, none, some, List, [], ◌∷◌,
  ◌++◌, ltb, leb, ◌==◌, if◌then◌else◌, length, get_or, take,
}
use jimir_os.Common.Bytes.{read_bytes, le16, le32, eq_bytes}
use jimir_os.Block.{Drivers}
use jimir_os.Ext2.{Env, get_block, read_inode}
use jimir_os.Ext2.Mount.{ext2_is_mounted}

-- `/` and the backslash.
abbrev pub is_separator : ℕ → Bool
is_separator c = c == b'/' || c == 92

-- The loop of `path_basename`: `last` is the text from the last separator on, so far.
unfoldable pub base_from : List ℕ → List ℕ → List ℕ
base_from last [] = last
base_from last (c ∷ p) = base_from (if is_separator c then p else last) p

-- A C string is the list of its characters; a missing or empty path gives -1.
unfoldable pub path_basename : Option (List ℕ) → Option (List ℕ)
unfolding base_from
path_basename none = none
path_basename (some []) = none
path_basename (some (c ∷ path)) = some (base_from (c ∷ path) (c ∷ path))

-- `struct ext2_dir_entry` with its name; a name that runs past its block reads 0 there.
pub record DirEntry : Type 0 where
  pub ino : ℕ
  pub name : List ℕ

-- The walk over the entries of one block, from offset `off` on, that `ext2_list` and
-- `lookup_in_root` share: up to the first record length that does not fit, and without the entries
-- that are not used. Each round moves on by 8 bytes at least.
unfoldable pub entries_from : ℕ → ℕ → ℕ → List ℕ → List DirEntry
entries_from zero block_size off bytes = []
entries_from (suc fuel) block_size off bytes =
    let rec_len = le16 (off + 4) bytes in
    let name_len = get_or bytes (off + 6) 0 in
    elim (leb (off + 8) block_size && not (ltb rec_len 8 || ltb (block_size - off) rec_len)) [
      | false ↦ []
      | true ↦
          let rest = entries_from fuel block_size (off + rec_len) bytes in
          if le32 off bytes == 0 || name_len == 0
          then rest
          else record { ino = le32 off bytes; name = read_bytes (off + 8) name_len bytes } ∷ rest
    ]

-- The loop over the direct blocks of the directory; blocks that cannot be read are passed over.
unfoldable pub entries_of : Drivers → List ℕ → Env → List DirEntry × Env
unfolding entries_from
entries_of dev [] e = ([], e)
entries_of dev (blk ∷ blks) e =
    let (bytes, e1) = get_block dev blk e in
    let (rest, e2) = entries_of dev blks e1 in
    (
      elim bytes [
        | none ↦ rest
        | some b ↦ entries_from (e1.fs.block_size + 1) e1.fs.block_size 0 b ++ rest
      ],
      e2,
    )

-- The entries of the root directory, inode 2; `none` if that cannot be read.
unfoldable pub root_entries : Drivers → Env → Option (List DirEntry) × Env
unfolding entries_of
root_entries dev e =
    let (root, e1) = read_inode dev 2 e in
    elim root [
      | none ↦ (none, e1)
      | some r ↦ let (es, e2) = entries_of dev (take 12 r.i_block) e1 in (some es, e2)
    ]

-- One name with its line end, behind the `out` written so far, in a buffer of `len` bytes.
unfoldable pub emit : ℕ → List ℕ → List ℕ → List ℕ
emit len out [] = if ltb (length out) len then out ++ 10 ∷ [] else out
emit len out (c ∷ name) = emit len (if ltb (length out + 1) len then out ++ c ∷ [] else out) name

unfoldable pub emit_all : ℕ → List ℕ → List DirEntry → List ℕ
emit_all len out [] = out
emit_all len out (d ∷ ds) = emit_all len (emit len out d.name) ds

-- The bytes written to the buffer; their number is what the function returns.
unfoldable pub ext2_list : Drivers → ℕ → Env → Option (List ℕ) × Env
unfolding root_entries emit emit_all
ext2_list dev len e =
    if ext2_is_mounted e.fs
    then (let (es, e1) = root_entries dev e in
        (elim es [ none ↦ none | some ds ↦ some (emit_all len [] ds) ], e1))
    else (none, e)

unfoldable pub find_name : List ℕ → List DirEntry → Option ℕ
find_name name [] = none
find_name name (d ∷ ds) = if eq_bytes d.name name then some d.ino else find_name name ds

-- The first match in a block that was read.
abbrev pub block_match : ℕ → List ℕ → Option (List ℕ) → Option ℕ
block_match block_size name none = none
block_match block_size name (some b) = find_name name (entries_from (block_size + 1) block_size 0 b)

-- The loops of `lookup_in_root`, which stop at the first match.
unfoldable pub find_in : Drivers → List ℕ → List ℕ → Env → Option ℕ × Env
unfolding entries_from find_name
find_in dev name [] e = (none, e)
find_in dev name (blk ∷ blks) e =
    let (bytes, e1) = get_block dev blk e in
    let rest = find_in dev name blks e1 in
    elim (block_match e1.fs.block_size name bytes) [ some ino ↦ (some ino, e1) | none ↦ rest ]

unfoldable pub lookup_in_root : Drivers → List ℕ → Env → Option ℕ × Env
unfolding find_in
lookup_in_root dev name e =
    let (root, e1) = read_inode dev 2 e in
    elim root [ none ↦ (none, e1) | some r ↦ find_in dev name (take 12 r.i_block) e1 ]
