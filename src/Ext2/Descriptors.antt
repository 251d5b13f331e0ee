-- ===== src/Ext2/Descriptors.antt =====
-- Open files in kernel/fs/ext2.c.
use jimir_os.Common.{
  ℕ, zero, suc, ◌+◌, ◌/◌, ◌%◌, ◌^◌, Bool, true, false, ◌&&◌, not, Option, none, some, List, ltb,
  ◌==◌, if◌then◌else◌, length, get_or, modify, drop,
}
use jimir_os.Common.Bytes.{read_bytes}
use jimir_os.Common.Int.{ℤ, pos, negsuc, minus_one}
use jimir_os.Common.Search.{find_index}
use jimir_os.Block.{Drivers}
use jimir_os.Ext2.{
  Ext2, Env, Inode, Fd, read_inode, read_file_direct, copy_to_block, span, ext2_max_fd,
}
use jimir_os.Ext2.Mount.{ext2_is_mounted}
use jimir_os.Ext2.Directory.{path_basename, lookup_in_root}

abbrev pub no_fd : Fd
no_fd = record { used = false; ino = 0; pos_of = 0 }

abbrev pub fd_of : List Fd → ℕ → Fd
fd_of fds i = get_or fds i no_fd

abbrev pub is_unused : Fd → Bool
is_unused fd = not fd.used

-- `(i_mode & 0xF000) == 0x4000`
abbrev pub is_directory : Inode → Bool
is_directory ino = ino.i_mode / 4096 % 16 == 4

-- The loop over the descriptors, from 3 on.
unfoldable pub take_fd : ℕ → Env → ℤ × Env
take_fd ino e = elim (find_index is_unused 3 (drop 3 e.fs.fds)) [
  | none ↦ (minus_one, e)
  | some fd ↦ (
    pos fd,
    record e {
      fs = record (e.fs) {
        fds = modify e.fs.fds fd (λ _. record { used = true; ino = ino; pos_of = 0 });
      };
    },
  )
]

-- `ext2_open` once the name is found.
unfoldable pub open_inode : Drivers → ℕ → Env → ℤ × Env
unfolding take_fd
open_inode dev ino e =
    let (rec, e1) = read_inode dev ino e in
    elim rec [
      | none ↦ (minus_one, e1)
      | some r ↦ if is_directory r then (minus_one, e1) else take_fd ino e1
    ]

unfoldable pub open_base : Drivers → List ℕ → Env → ℤ × Env
open_base dev base e =
    let (ino, e1) = lookup_in_root dev base e in
    elim ino [ none ↦ (minus_one, e1) | some i ↦ open_inode dev i e1 ]

unfoldable pub ext2_open : Drivers → Option (List ℕ) → Env → ℤ × Env
unfolding open_base
ext2_open dev path e =
    if ext2_is_mounted e.fs
    then elim (path_basename path) [ none ↦ (minus_one, e) | some base ↦ open_base dev base e ]
    else (minus_one, e)

-- `fd < 0 || fd >= EXT2_MAX_FD || !fds[fd].used`, with the descriptor if it is open.
unfoldable pub open_fd : ℤ → Ext2 → Option ℕ
open_fd (negsuc n) s = none
open_fd (pos fd) s = if ltb fd ext2_max_fd && (fd_of s.fds fd).used then some fd else none

-- `if (r > 0) fds[fd].pos += (unsigned)r;`
abbrev pub advance : ℕ → ℕ → Env → Env
advance fd r e = record e {
  fs = record (e.fs) {
    fds = modify e.fs.fds fd (λ f. record f { pos_of = (f.pos_of + r) % 2 ^ 32 });
  };
}

-- The bytes that are read into the buffer; their number is what the function returns.
unfoldable pub read_at : Drivers → ℕ → ℕ → Env → Option (List ℕ) × Env
read_at dev fd len e =
    let (rec, e1) = read_inode dev (fd_of e.fs.fds fd).ino e in
    elim rec [
      | none ↦ (none, e1)
      | some r ↦
          let (bytes, e2) = read_file_direct dev r (fd_of e1.fs.fds fd).pos_of len e1 in
          (some bytes, advance fd (length bytes) e2)
    ]

unfoldable pub ext2_read : Drivers → ℤ → ℕ → Env → Option (List ℕ) × Env
unfolding open_fd read_at
ext2_read dev fd len e = elim (open_fd fd e.fs) [ none ↦ (none, e) | some i ↦ read_at dev i len e ]

unfoldable pub ext2_close : ℤ → Ext2 → ℤ × Ext2
unfolding open_fd
ext2_close fd s = elim (open_fd fd s) [
  | none ↦ (minus_one, s)
  | some i ↦ (pos 0, record s { fds = modify s.fds i (λ f. record f { used = false }) })
]

-- The end of a round: if its `n` bytes are written, `go` goes on.
abbrev pub write_on : ℕ → (Env → ℕ × Env) → Bool × Env → ℕ × Env
write_on n go (false, e) = (0, e)
write_on n go (true, e) = (n + (go e).0, (go e).1)

-- The loop of `write_file_direct` over the bytes that are left: how many are written.
unfoldable pub write_file : Drivers → ℕ → Inode → ℕ → List ℕ → Env → ℕ × Env
write_file dev zero ino offset buf e = (0, e)
write_file dev (suc fuel) ino offset buf e =
    let blk = get_or ino.i_block (offset / e.fs.block_size) 0 in
    let n = span e.fs.block_size ino offset (length buf) in
    elim (ltb 0 (length buf)
      && ltb offset ino.i_size
      && ltb (offset / e.fs.block_size) 12
      && not (blk == 0)) [
        | false ↦ (0, e)
        | true ↦
            write_on n (λ e1. write_file dev fuel ino (offset + n) (drop n buf) e1)
              (copy_to_block dev blk (offset % e.fs.block_size) (read_bytes 0 n buf) e)
      ]

unfoldable pub write_file_direct : Drivers → Inode → ℕ → List ℕ → Env → ℕ × Env
write_file_direct dev ino offset buf e = write_file dev (length buf + 1) ino offset buf e

unfoldable pub write_at : Drivers → ℕ → List ℕ → Env → ℤ × Env
write_at dev fd buf e =
    let (rec, e1) = read_inode dev (fd_of e.fs.fds fd).ino e in
    elim rec [
      | none ↦ (minus_one, e1)
      | some r ↦
          let (written, e2) = write_file_direct dev r (fd_of e1.fs.fds fd).pos_of buf e1 in
          (pos written, advance fd written e2)
    ]

unfoldable pub ext2_write : Drivers → ℤ → List ℕ → Env → ℤ × Env
unfolding open_fd write_at
ext2_write dev fd buf e = elim (open_fd fd e.fs) [
  | none ↦ (minus_one, e)
  | some i ↦ write_at dev i buf e
]
