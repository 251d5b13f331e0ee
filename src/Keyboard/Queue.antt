-- ===== src/Keyboard/Queue.antt =====
-- The buffer of kernel/drivers/keyboard.c is a first-in first-out queue.
use jimir_os.Common.{
  ℕ, zero, suc, ◌+◌, ◌-◌, ◌%◌, ◌<◌, ◌≡◌, ◌≢◌, ◌∙◌, refl, ap, ap₂, true, false, List, [], ◌∷◌, ◌++◌,
  arith, length, get_or, set, if◌then◌else◌, Bool-cases, inl, inr, ◌⊎◌, get_or-set, length-set, ltb,
}
use jimir_os.Common.Int.{pos, minus_one}
use jimir_os.Keyboard.{Keyboard, buf_empty, buf_full, enqueue, kbd_getch}

pub record IsValid (k : Keyboard) : Type 0 where
  pub size : length k.buf ≡ 256
  pub head_in : k.head < 256
  pub tail_in : k.tail < 256

-- How many codes are waiting.
abbrev pub count : Keyboard → ℕ
count k = (k.head + 256 - k.tail) % 256

unfoldable pub cells : ℕ → ℕ → List ℕ → List ℕ
cells zero t buf = []
cells (suc n) t buf = get_or buf t 0 ∷ cells n ((t + 1) % 256) buf

-- The codes that are waiting, the oldest first.
abbrev pub contents : Keyboard → List ℕ
contents k = cells (count k) k.tail k.buf

cells-set :
    (n t p v : ℕ) (buf : List ℕ)
    → p < length buf
    → ((i : ℕ) → i < n → (t + i) % 256 ≢ p)
    → t < 256
    → cells n t (set buf p v) ≡ cells n t buf
unfolding cells
cells-set zero t p v buf h d l = refl
cells-set (suc n) t p v buf h d l =
    ap₂ (λ (x : ℕ) xs. x ∷ xs) (ground (arith, get_or-set buf p t v 0 h, d 0 (omega arith)))
      (cells-set n ((t + 1) % 256) p v buf h (λ i hi e. d (suc i) (omega arith) (omega arith))
        (omega arith))

cells-snoc :
    (n t : ℕ) (buf : List ℕ)
    → t < 256
    → cells (suc n) t buf ≡ cells n t buf ++ get_or buf ((t + n) % 256) 0 ∷ []
unfolding cells
cells-snoc zero t buf l = ap (λ (j : ℕ). get_or buf j 0 ∷ []) (omega arith)
cells-snoc (suc n) t buf l =
    ap (λ xs. get_or buf t 0 ∷ xs)
      (cells-snoc n ((t + 1) % 256) buf (omega arith)
        ∙ ap (λ (j : ℕ). cells n ((t + 1) % 256) buf ++ get_or buf j 0 ∷ []) (omega arith))

-- A code goes behind those that wait, if fewer than 255 do, and is dropped otherwise.
pub contents-enqueue :
    (code : ℕ) (k : Keyboard)
    → IsValid k
    → IsValid (enqueue code k)
      × (contents (enqueue code k)
          ≡ (if ltb (count k) 255 then contents k ++ code ∷ [] else contents k))
unfolding enqueue
contents-enqueue code k v = elim (Bool-cases (buf_full k)) [
  | inl e ↦ rw e (v, rw (full (ground (arith, e))) refl)
  | inr e ↦ rw e (
    record {
      size = length-set k.buf k.head code ∙ v.size;
      head_in = omega arith;
      tail_in = v.tail_in;
    },
    added (ground (arith, e)),
  )
]
  where
    full : (k.head + 1) % 256 ≡ k.tail → ltb (count k) 255 ≡ false
    full e = ground (arith, v.head_in, v.tail_in)

    added :
        (k.head + 1) % 256 ≢ k.tail
        → cells (((k.head + 1) % 256 + 256 - k.tail) % 256) k.tail (set k.buf k.head code)
          ≡ (if ltb (count k) 255 then contents k ++ code ∷ [] else contents k)
    added d =
        ap (λ (n : ℕ). cells n k.tail (set k.buf k.head code)) more
        ∙ cells-snoc (count k) k.tail (set k.buf k.head code) v.tail_in
        ∙ ap₂ (λ xs (x : ℕ). xs ++ x ∷ [])
            (cells-set (count k) k.tail k.head code k.buf (omega (arith, v.size, v.head_in))
              (λ i hi e. omega (arith, hi, e, v.head_in, v.tail_in)) v.tail_in)
            last
        ∙ rw (room) refl
      where
        more : ((k.head + 1) % 256 + 256 - k.tail) % 256 ≡ suc (count k)
        more = omega (arith, v.head_in, v.tail_in)

        room : ltb (count k) 255 ≡ true
        room = ground (arith, v.head_in, v.tail_in)

        here : (k.tail + count k) % 256 ≡ k.head
        here = omega (arith, v.head_in, v.tail_in)

        last : get_or (set k.buf k.head code) ((k.tail + count k) % 256) 0 ≡ code
        last =
            ap (λ (j : ℕ). get_or (set k.buf k.head code) j 0) here
            ∙ ground
                (arith, get_or-set k.buf k.head k.head code 0 (omega (arith, v.size, v.head_in)))

-- What a read does: with nothing waiting it returns -1 and changes nothing, and otherwise it takes
-- the oldest code that waits.
kbd_getch-contents :
    (k : Keyboard)
    → IsValid k
    → ((contents k ≡ []) × (kbd_getch k ≡ (minus_one, k)))
      ⊎ ((c : ℕ) × (rest : List ℕ) × (contents k ≡ c ∷ rest)
          × ((kbd_getch k).0 ≡ pos c)
          × (contents (kbd_getch k).1 ≡ rest)
          × IsValid (kbd_getch k).1)
unfolding kbd_getch cells
kbd_getch-contents k v = elim (Bool-cases (buf_empty k)) [
  | inl e ↦ rw e (inl (none_waits (ground (arith, e)), refl))
  | inr e ↦ rw e (
      inr (
        get_or k.buf k.tail 0,
        cells ((k.head + 256 - (k.tail + 1) % 256) % 256) ((k.tail + 1) % 256) k.buf,
        ap (λ (n : ℕ). cells n k.tail k.buf) (fewer (ground (arith, e))) ∙ shift_one,
        refl,
        refl,
        record { size = v.size; head_in = v.head_in; tail_in = omega arith },
      ))
]
  where
    none_waits : k.head ≡ k.tail → contents k ≡ []
    none_waits e =
        let z : count k ≡ 0 = omega (arith, e, v.head_in, v.tail_in) in
        ap (λ (n : ℕ). cells n k.tail k.buf) z

    fewer : k.head ≢ k.tail → count k ≡ suc ((k.head + 256 - (k.tail + 1) % 256) % 256)
    fewer d = omega (arith, v.head_in, v.tail_in)

    shift_one :
        cells (suc ((k.head + 256 - (k.tail + 1) % 256) % 256)) k.tail k.buf
        ≡ get_or k.buf k.tail 0
          ∷ cells ((k.head + 256 - (k.tail + 1) % 256) % 256) ((k.tail + 1) % 256) k.buf
    shift_one = refl
