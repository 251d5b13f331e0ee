-- ===== src/Keyboard/Scancode.antt =====
-- What the handler of a scan code in kernel/drivers/keyboard.c does to the queue.
use jimir_os.Common.{
  ℕ, ◌+◌, ◌%◌, ◌<◌, ◌≡◌, ◌≢◌, ◌∙◌, refl, ap, sym, Bool, true, false, ◌||◌, List, [], ◌∷◌, ◌++◌,
  arith, length, get_or, ◌==◌, if◌then◌else◌, Bool-cases, inl, inr, ◌⊎◌, get_or-set, ltb, leb,
  subst,
}
use jimir_os.Keyboard.{
  Keyboard, keyboard_init, enqueue, extended_code, extended_release, on_extended, on_plain,
  keyboard_on_scancode, kbd_buf_size, keymap, keymap_shift,
}
use jimir_os.Keyboard.Queue.{IsValid, count, contents, contents-enqueue}

-- What may happen to the queue while a scan code is handled.
pub record Grows (k k' : Keyboard) : Type 0 where
  pub valid : IsValid k'
  pub grown :
      (contents k' ≡ contents k)
      ⊎ ((c : ℕ) × (contents k' ≡ contents k ++ c ∷ []) × (c ≢ 0) × (count k < 255))

enqueue-Grows : (code : ℕ) (k : Keyboard) → code ≢ 0 → IsValid k → Grows k (enqueue code k)
enqueue-Grows code k d v =
    let (w, e) = contents-enqueue code k v in
    record {
      valid = w;
      grown = elim (Bool-cases (ltb (count k) 255)) [
        | inl q ↦ inr (code, e ∙ rw q refl, d, ground (arith, q))
        | inr q ↦ inl (e ∙ rw q refl)
      ];
    }

record SameQueue (k k' : Keyboard) : Type 0 where
  pub buf_same : k'.buf ≡ k.buf
  pub head_same : k'.head ≡ k.head
  pub tail_same : k'.tail ≡ k.tail

same-Grows : (k k' : Keyboard) → SameQueue k k' → IsValid k → Grows k k'
same-Grows k k' q v = record {
  valid = record {
    size = ap (λ xs. length xs) q.buf_same ∙ v.size;
    head_in = omega (arith, q.head_same, v.head_in);
    tail_in = omega (arith, q.tail_same, v.tail_in);
  };
  grown = inl (rw (q.buf_same, q.head_same, q.tail_same) refl);
}

extended_code-SameQueue : (sc : ℕ) (k : Keyboard) → SameQueue k (extended_code sc k).1
unfolding extended_code
extended_code-SameQueue sc k = ground arith

extended_release-SameQueue : (sc : ℕ) (k : Keyboard) → SameQueue k (extended_release sc k)
unfolding extended_release
extended_release-SameQueue sc k = ground arith

-- How a handler leaves the queue: as it was, or with one code put in.
data Touched (k k' : Keyboard) : Type 0 where
  kept : SameQueue k k' → Touched k k'
  queued : (c : ℕ) (k1 : Keyboard) → c ≢ 0 → SameQueue k k1 → k' ≡ enqueue c k1 → Touched k k'

if-Touched :
    (b : Bool) {k x y : Keyboard}
    → Touched k x
    → (b ≡ false → Touched k y)
    → Touched k (if b then x else y)
if-Touched true p q = p
if-Touched false p q = q refl

SameQueue-refl : (k : Keyboard) → SameQueue k k
SameQueue-refl k = record { buf_same = refl; head_same = refl; tail_same = refl }

enqueue-Touched :
    (c : ℕ) (k k1 : Keyboard) → c == 0 ≡ false → SameQueue k k1 → Touched k (enqueue c k1)
enqueue-Touched c k k1 d q = queued c k1 (ground (arith, d)) q refl

on_plain-Touched : (release : Bool) (sc : ℕ) (k : Keyboard) → Touched k (on_plain release sc k)
unfolding on_plain
on_plain-Touched release sc k =
    if-Touched (sc == 42 || sc == 54)
      (kept (record { buf_same = refl; head_same = refl; tail_same = refl }))
      (λ _.
        if-Touched (sc == 29)
          (kept (record { buf_same = refl; head_same = refl; tail_same = refl }))
          (λ _.
            if-Touched (sc == 56)
              (kept (record { buf_same = refl; head_same = refl; tail_same = refl }))
              (λ _. if-Touched release (kept (SameQueue-refl k)) (λ _.
                if-Touched (get_or (if k.shift then keymap_shift else keymap) sc 0 == 0)
                  (kept (SameQueue-refl k))
                  (λ d.
                    enqueue-Touched (get_or (if k.shift then keymap_shift else keymap) sc 0) k k d
                      (SameQueue-refl k))))))

on_extended-Touched :
    (release : Bool) (sc : ℕ) (k : Keyboard) → Touched k (on_extended release sc k)
unfolding on_extended
on_extended-Touched release sc k =
    if-Touched (sc == 0x1d) (kept (record { buf_same = refl; head_same = refl; tail_same = refl }))
      (λ _.
        if-Touched (sc == 0x38)
          (kept (record { buf_same = refl; head_same = refl; tail_same = refl }))
          (λ _. if-Touched release (kept (extended_release-SameQueue sc k)) (λ _.
            if-Touched ((extended_code sc k).0 == 0) (kept (extended_code-SameQueue sc k)) (λ d.
              enqueue-Touched (extended_code sc k).0 k (extended_code sc k).1 d
                (extended_code-SameQueue sc k)))))

Touched-Grows : (k k' : Keyboard) → Touched k k' → IsValid k → Grows k k'
Touched-Grows k k' (kept q) v = same-Grows k k' q v
Touched-Grows k k' (queued c k1 d q e) v =
    let g = enqueue-Grows c k1 d (same-Grows k k1 q v).valid in
    record {
      valid = subst IsValid (sym e) g.valid;
      grown = elim g.grown [
        | inl s ↦ inl (ap (λ x. contents x) e ∙ s ∙ same)
        | inr (c', s, ne, room) ↦ inr (
          c',
          ap (λ x. contents x) e ∙ s ∙ ap (λ xs. xs ++ c' ∷ []) same,
          ne,
          omega (arith, q.head_same, q.tail_same, room),
        )
      ];
    }
  where
    same : contents k1 ≡ contents k
    same = rw (q.buf_same, q.head_same, q.tail_same) refl

-- A scan code, whichever it is, puts at most one code, not 0, behind those that wait, and only
-- where fewer than 255 wait; otherwise it leaves them. The indices stay in range.
keyboard_on_scancode-Grows :
    (sc : ℕ) (k : Keyboard) → IsValid k → Grows k (keyboard_on_scancode sc k)
unfolding keyboard_on_scancode
keyboard_on_scancode-Grows sc k v =
    Touched-Grows k (keyboard_on_scancode sc k)
      (if-Touched (sc == 0xe0)
        (kept (record { buf_same = refl; head_same = refl; tail_same = refl }))
        (λ _.
          if-Touched k.e0
            (moved (on_extended-Touched (leb 0x80 sc) (sc % 128) (record k { e0 = false })))
            (λ _. on_plain-Touched (leb 0x80 sc) (sc % 128) k)))
      v
  where
    moved : {k' : Keyboard} → Touched (record k { e0 = false }) k' → Touched k k'
    moved (kept q) =
        kept (record { buf_same = q.buf_same; head_same = q.head_same; tail_same = q.tail_same })
    moved (queued c k1 d q e) =
        queued c k1 d
          (record { buf_same = q.buf_same; head_same = q.head_same; tail_same = q.tail_same }) e

-- Codes that come in while nobody reads.
unfoldable pub enqueue_all : List ℕ → Keyboard → Keyboard
enqueue_all [] k = k
enqueue_all (c ∷ cs) k = enqueue_all cs (enqueue c k)

enqueue_all-head :
    (cs : List ℕ) (k : Keyboard)
    → IsValid k
    → k.tail ≡ 0
    → k.head + length cs < 256
    → ((enqueue_all cs k).head ≡ k.head + length cs)
      × ((enqueue_all cs k).tail ≡ 0)
      × IsValid (enqueue_all cs k)
unfolding enqueue_all enqueue
enqueue_all-head [] k v t h = (omega arith, t, v)
enqueue_all-head (c ∷ cs) k v t h =
    let (a, b, w) =
      enqueue_all-head cs (enqueue c k) (contents-enqueue c k v).0 (ground (arith, t))
        (ground (arith, t, h)) in
    (ground (arith, a, t, h), b, w)

-- With as many codes waiting as the array has cells, and none read since the start, the next one
-- is not dropped: it is written to the cell behind the array.
pub enqueue-past_end :
    (cs : List ℕ) (code : ℕ) (k : Keyboard)
    → length k.buf ≡ 256
    → length cs ≡ kbd_buf_size
    → get_or (enqueue code (enqueue_all cs (keyboard_init k))).buf kbd_buf_size 0 ≡ code
unfolding keyboard_init enqueue
enqueue-past_end cs code k s h =
    let (a, b, w) =
      enqueue_all-head cs (keyboard_init k)
        (record { size = s; head_in = omega arith; tail_in = omega arith }) refl (omega arith) in
    ground (
      arith,
      a,
      b,
      h,
      get_or-set (enqueue_all cs (keyboard_init k)).buf 128 128 code 0 (omega (arith, w.size)),
    )
