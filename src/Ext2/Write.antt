-- ===== src/Ext2/Write.antt =====
-- Writing to a file of an image by kernel/fs/ext2.c, and reading it back.
use native.Mathlib.Nat.{mod-lt}
use jimir_os.Common.{
  ℕ, zero, suc, ◌+◌, ◌-◌, ◌/◌, ◌%◌, ◌≤◌, ◌<◌, ◌≡◌, ◌∙◌, refl, ap, ap₂, sym, subst, true, ◌&&◌, not,
  some, List, arith, length, get_or, drop, ltb, leb, ◌==◌, if◌then◌else◌, Bool-cases, inl, inr,
  length-drop, get_or-drop, list_ext,
}
use jimir_os.Common.Bytes.{
  read_bytes, write_bytes, length-read_bytes, get_or-read_bytes, get_or-write_bytes,
  length-write_bytes,
}
use jimir_os.Block.{Drivers}
use jimir_os.Ext2.{Env, Inode, span, read_file_direct, copy_to_block}
use jimir_os.Ext2.Image.{block_of, file_byte}
use jimir_os.Ext2.Layout.{Laid, place, run_of_places, file_byte-place, copy_to_block-Laid}
use jimir_os.Ext2.Descriptors.{write_file, write_file_direct}
use jimir_os.Ext2.Read.{read_file_direct-Reads}

abbrev pub with_image : List ℕ → Env → Env
with_image image e = record e { fs = record (e.fs) { img = some image } }

-- The image that holds `buf` at `offset` of the file, and is otherwise the same for the file.
pub record Written (e : Env) (ino : Inode) (image : List ℕ) (offset : ℕ) (buf : List ℕ)
    (r : ℕ × Env) : Type 0 where
  pub count : r.0 ≡ length buf
  pub after : List ℕ
  pub env_is : r.1 ≡ with_image after e
  pub long : length after ≡ length image
  pub bytes :
      (p : ℕ)
      → p < ino.i_size
      → get_or after (place e.fs ino p) 0 ≡ (
          if leb offset p && ltb p (offset + length buf)
          then get_or buf (p - offset) 0
          else get_or image (place e.fs ino p) 0)

Laid-with_image :
    (e : Env) (ino : Inode) (image image' : List ℕ)
    → length image' ≡ length image
    → Laid e.fs ino image
    → Laid (with_image image' e).fs ino image'
Laid-with_image e ino image image' l v = record {
  img_is = refl;
  short = omega (arith, l, v.short);
  on_image = v.on_image;
  size_pos = v.size_pos;
  direct = v.direct;
  placed = v.placed;
  inside = λ p h. omega (arith, l, v.inside p h);
  apart = v.apart;
}

-- What a write of one round does to byte `p` of the file.
one_block :
    (e : Env) (ino : Inode) (image : List ℕ) (offset n p : ℕ) (buf : List ℕ)
    → Laid e.fs ino image
    → offset < ino.i_size
    → p < ino.i_size
    → n ≤ length buf
    → offset % e.fs.block_size + n ≤ e.fs.block_size
    → get_or (write_bytes (place e.fs ino offset) (read_bytes 0 n buf) image) (place e.fs ino p) 0
      ≡ (if leb offset p && ltb p (offset + n)
          then get_or buf (p - offset) 0
          else get_or image (place e.fs ino p) 0)
one_block e ino image offset n p buf v ho hp hn fits =
    let (same, at) = run_of_places e.fs ino image offset n p v fits ho hp in
    get_or-write_bytes (place e.fs ino offset) (place e.fs ino p) (read_bytes 0 n buf) image
      (omega (arith, length-read_bytes 0 n buf, v.inside offset ho, fits))
    ∙ ap
        (λ (l : ℕ).
          if leb (place e.fs ino offset) (place e.fs ino p)
            && ltb (place e.fs ino p) (place e.fs ino offset + l)
          then get_or (read_bytes 0 n buf) (place e.fs ino p - place e.fs ino offset) 0
          else get_or image (place e.fs ino p) 0)
        (length-read_bytes 0 n buf)
    ∙ elim (Bool-cases (leb offset p && ltb p (offset + n))) [
      | inr u ↦ rw (same, u) refl
      | inl u ↦
          rw (same, u)
            (ap (λ (k : ℕ). get_or (read_bytes 0 n buf) k 0) (at u)
              ∙ get_or-read_bytes 0 n (p - offset) buf (ground (arith, u))
              ∙ ap (λ (k : ℕ). get_or buf k 0) (omega arith))
    ]

-- The bytes of the first round and those of the others.
joined :
    (buf mid image : List ℕ) (offset n p q : ℕ)
    → n ≤ length buf
    → get_or mid q 0
      ≡ (if leb offset p && ltb p (offset + n) then get_or buf (p - offset) 0 else get_or image q 0)
    → (if leb (offset + n) p && ltb p (offset + n + length (drop n buf))
        then get_or (drop n buf) (p - (offset + n)) 0
        else get_or mid q 0)
      ≡ (if leb offset p && ltb p (offset + length buf)
          then get_or buf (p - offset) 0
          else get_or image q 0)
joined buf mid image offset n p q hn m =
    ap₂
      (λ (l : ℕ) (x : ℕ).
        if leb (offset + n) p && ltb p (offset + n + l) then x else get_or mid q 0)
      (length-drop n buf) (get_or-drop n (p - (offset + n)) buf)
    ∙ elim (Bool-cases (leb (offset + n) p)) [
      | inl u ↦
          let k : n + (p - (offset + n)) ≡ p - offset = ground (arith, u) in
          ground (arith, u, m, ap (λ (i : ℕ). get_or buf i 0) k, hn)
      | inr u ↦ ground (arith, u, m, hn)
    ]

-- One round, and what the others do after it.
round :
    (e : Env) (ino : Inode) (image : List ℕ) (offset n : ℕ) (buf : List ℕ) (r : ℕ × Env)
    → Laid e.fs ino image
    → offset < ino.i_size
    → n ≤ length buf
    → offset % e.fs.block_size + n ≤ e.fs.block_size
    → Written
        (with_image (write_bytes (place e.fs ino offset) (read_bytes 0 n buf) image) e)
        ino
        (write_bytes (place e.fs ino offset) (read_bytes 0 n buf) image)
        (offset + n)
        (drop n buf)
        r
    → Written e ino image offset buf (n + r.0, r.1)
round e ino image offset n buf r v ho hn fits w = record {
  count = omega (arith, w.count, length-drop n buf);
  after = w.after;
  env_is = w.env_is;
  long = w.long ∙ length-write_bytes (place e.fs ino offset) (read_bytes 0 n buf) image;
  bytes = λ p hp.
      w.bytes p hp
      ∙ joined buf (write_bytes (place e.fs ino offset) (read_bytes 0 n buf) image) image offset n p
          (place e.fs ino p) hn (one_block e ino image offset n p buf v ho hp hn fits);
}

write_file-Written :
    (dev : Drivers) (ino : Inode) (fuel offset : ℕ) (buf image : List ℕ) (e : Env)
    → Laid e.fs ino image
    → length buf < fuel
    → offset + length buf ≤ ino.i_size
    → Written e ino image offset buf (write_file dev fuel ino offset buf e)
unfolding write_file
write_file-Written dev ino zero offset buf image e v f h = absurd (omega arith)
write_file-Written dev ino (suc fuel) offset buf image e v f h =
    elim (Bool-cases (ltb 0 (length buf))) [
      | inr stop ↦
          rw (stop, write_file)
            (record {
              count = ground (arith, stop);
              after = image;
              env_is = ap (λ o. record e { fs = record (e.fs) { img = o } }) v.img_is;
              long = refl;
              bytes = λ p hp. ground (arith, stop);
            })
      | inl go ↦
          rw (test (ground (arith, go)), write_file, written (ground (arith, go)))
            (round e ino image offset n buf
              (write_file dev fuel ino (offset + n) (drop n buf) (with_image image' e)) v
              (omega (arith, some_left (ground (arith, go)))) (omega arith)
              (omega (arith, mod-lt offset v.size_pos))
              (write_file-Written dev ino fuel (offset + n) (drop n buf) image'
                (with_image image' e)
                (Laid-with_image e ino image image'
                  (length-write_bytes (place e.fs ino offset) (read_bytes 0 n buf) image) v)
                (omega (arith, length-drop n buf, some_left (ground (arith, go))))
                (omega (arith, length-drop n buf))))
    ]
  where
    n : ℕ
    n = span e.fs.block_size ino offset (length buf)

    image' : List ℕ
    image' = write_bytes (place e.fs ino offset) (read_bytes 0 n buf) image

    some_left : 0 < length buf → (0 < n) × (offset < ino.i_size)
    some_left l = omega (arith, mod-lt offset v.size_pos)

    test :
        0 < length buf
        → ltb 0 (length buf)
            && ltb offset ino.i_size
            && ltb (offset / e.fs.block_size) 12
            && not (block_of e.fs ino offset == 0)
          ≡ true
    test l = ground (arith, v.direct offset (omega arith), v.placed offset (omega arith))

    written :
        0 < length buf
        → copy_to_block dev
            (block_of e.fs ino offset)
            (offset % e.fs.block_size)
            (read_bytes 0 n buf)
            e
          ≡ (true, with_image image' e)
    written l =
        copy_to_block-Laid dev ino image (read_bytes 0 n buf) offset e v (omega arith)
          (omega (arith, length-read_bytes 0 n buf, mod-lt offset v.size_pos))

-- Writing to a file that is laid out in direct blocks of an image, none of them shared, within the
-- file's size: every byte is written; afterwards the bytes of the file at the places written to are
-- those of the buffer and its other bytes are as they were; and the file is laid out as before.
pub write_file_direct-bytes :
    (dev : Drivers) (ino : Inode) (offset : ℕ) (buf image : List ℕ) (e : Env)
    → Laid e.fs ino image
    → offset + length buf ≤ ino.i_size
    → let (n, e') = write_file_direct dev ino offset buf e in
      (n ≡ length buf)
      × ((p : ℕ)
          → p < ino.i_size
          → file_byte e'.fs ino p ≡ (
              if leb offset p && ltb p (offset + length buf)
              then get_or buf (p - offset) 0
              else file_byte e.fs ino p))
      × ((after : List ℕ) × Laid e'.fs ino after)
unfolding write_file_direct
write_file_direct-bytes dev ino offset buf image e v h =
    let w = write_file-Written dev ino (length buf + 1) offset buf image e v (omega arith) h in
    let laid : Laid (with_image w.after e).fs ino w.after =
      Laid-with_image e ino image w.after w.long v in
    (
      w.count,
      (λ p hp.
          ap (λ (t : Env). file_byte t.fs ino p) w.env_is
          ∙ (file_byte-place (with_image w.after e).fs ino w.after p laid hp).0
          ∙ w.bytes p hp
          ∙ ap
              (λ (x : ℕ).
                if leb offset p && ltb p (offset + length buf)
                then get_or buf (p - offset) 0
                else x)
              (sym (file_byte-place e.fs ino image p v hp).0)),
      (w.after, subst (λ (t : Env). Laid t.fs ino w.after) (sym w.env_is) laid),
    )

-- What is written to such a file is read back from the same place.
pub read_file_direct-write_file_direct :
    (dev : Drivers) (ino : Inode) (offset : ℕ) (buf image : List ℕ) (e : Env)
    → Laid e.fs ino image
    → offset + length buf ≤ ino.i_size
    → (read_file_direct dev ino offset (length buf) (write_file_direct dev ino offset buf e).1).0
      ≡ buf
read_file_direct-write_file_direct dev ino offset buf image e v h =
    let (n, bytes, (after, laid)) = write_file_direct-bytes dev ino offset buf image e v h in
    let e' = (write_file_direct dev ino offset buf e).1 in
    let r = read_file_direct-Reads dev ino e' laid.on_image laid.size_pos offset (length buf) in
    let long : length (read_file_direct dev ino offset (length buf) e').0 ≡ length buf =
      r.all (λ p le lt hp. (file_byte-place e'.fs ino after p laid hp).1) ∙ omega (arith, h) in
    list_ext (read_file_direct dev ino offset (length buf) e').0 buf long (λ i hi.
      r.bytes i (omega (arith, long))
      ∙ bytes (offset + i) (omega (arith, h))
      ∙ ground (arith, hi, ap (λ (k : ℕ). get_or buf k 0) (index i)))
  where
    index : (i : ℕ) → offset + i - offset ≡ i
    index i = omega arith
