-- ===== src/Sched/Create.antt =====
-- `sched_init`, `kthread_create` and `sched_set_priority` of kernel/sched/sched.c.
use jimir_os.Common.{
  ℕ, zero, suc, ◌+◌, ◌≤◌, ◌-◌, none-ne-some, ◌<◌, ◌≡◌, ◌≢◌, ◌∙◌, refl, ap, sym, subst, true, false,
  Option, none, some, List, [], ◌∷◌, length, modify, arith, if◌then◌else◌, leb, ◌==◌, Bool-cases,
  Option-cases, inl, inr, get_or-modify, get_or-replicate,
}
use jimir_os.Common.Int.{ℤ, pos, negsuc}
use jimir_os.Sched.{
  Sched, Thread, ThreadState, ready, running, blank, is_unused, thread, max_threads, sched_init,
  sched_set_priority, set_priority, kthread_create, start, free_slot, tail,
  new_stack_with_trampoline, sched_priority_levels, sched_priority_interactive,
}
use jimir_os.Sched.Invariant.{ThreadOk, IsTable, IsValid, modify-IsTable}

blank-ThreadOk : (cur j : ℕ) → ThreadOk cur j blank
blank-ThreadOk cur j = ground arith

init-ThreadOk : (esp j : ℕ) → j < max_threads → ThreadOk 0 j (thread (sched_init esp).threads j)
unfolding sched_init
init-ThreadOk esp zero h = ground arith
init-ThreadOk esp (suc j) h =
    subst (ThreadOk 0 (suc j)) (sym (get_or-replicate 15 j blank)) (blank-ThreadOk 0 (suc j))

-- After `sched_init` the idle thread of slot 0 runs, and the table is valid.
pub sched_init-IsValid : (esp : ℕ) → IsValid 0 (sched_init esp)
unfolding sched_init
sched_init-IsValid esp = record {
  current_is = refl;
  table = record {
    size = refl;
    current_in = omega arith;
    running_cur = refl;
    entries = init-ThreadOk esp;
  };
}

-- The slot found is the first free one.
free_slot-first :
    (i : ℕ) (ths : List Thread) {r : ℕ}
    → free_slot i ths ≡ some r
    → (k : ℕ) × (r ≡ i + k) × (k < length ths) × (is_unused (thread ths k).state ≡ true)
unfolding free_slot
free_slot-first i [] e = ground arith
free_slot-first i (t ∷ ths) e = elim (Bool-cases (is_unused t.state)) [
  | inl u ↦ (0, ground arith, omega arith, u)
  | inr u ↦
      let (k, q, h, r) = free_slot-first (suc i) ths (rw u at e) in
      (suc k, omega arith, omega arith, r)
]

start-ThreadOk :
    (cur i esp : ℕ) (name : Option (List ℕ)) (t : Thread) → ThreadOk cur i (start esp name t)
unfolding start
start-ThreadOk cur i esp name t = ground arith

set_priority-ThreadOk :
    (cur i p : ℕ) (t : Thread)
    → p < sched_priority_levels
    → ThreadOk cur i t
    → ThreadOk cur i (set_priority p t)
set_priority-ThreadOk cur i p t h v = ground arith

-- `sched_set_priority` keeps the table valid, whatever its arguments.
pub sched_set_priority-IsValid :
    (cur : ℕ) (pid priority : ℤ) (s : Sched)
    → IsValid cur s
    → IsValid cur (sched_set_priority pid priority s).1
unfolding sched_set_priority
sched_set_priority-IsValid cur (negsuc n) p s v = v
sched_set_priority-IsValid cur (pos n) (negsuc p) s v = v
sched_set_priority-IsValid cur (pos n) (pos p) s v = elim (Bool-cases (leb max_threads n)) [
  | inl a ↦ rw a v
  | inr a ↦ rw a (elim (Bool-cases (leb sched_priority_levels p)) [
    | inl b ↦ rw b v
    | inr b ↦ rw b (elim (Bool-cases (is_unused (thread s.threads n).state)) [
      | inl c ↦ rw c v
      | inr c ↦ rw c (record {
        current_is = v.current_is;
        table =
            modify-IsTable cur n (set_priority p) s.threads v.table (ground arith)
              (set_priority-ThreadOk cur n p _ (ground arith) (v.table.entries n (ground arith)))
              (λ e. ap (λ k. (thread s.threads k).state) e ∙ v.table.running_cur);
      })
    ])
  ])
]

thread-tail : (ths : List Thread) (k : ℕ) → thread (tail ths) k ≡ thread ths (suc k)
thread-tail [] k = refl
thread-tail (t ∷ ths) k = refl

length-tail : (ths : List Thread) → length (tail ths) ≡ length ths - 1
length-tail [] = omega arith
length-tail (t ∷ ths) = omega arith

free_slot-none :
    (i : ℕ) (ths : List Thread) (k : ℕ)
    → free_slot i ths ≡ none
    → k < length ths
    → is_unused (thread ths k).state ≡ false
unfolding free_slot
free_slot-none i [] k e h = elim h [ ]
free_slot-none i (t ∷ ths) zero e h = ground arith
free_slot-none i (t ∷ ths) (suc k) e h = elim (Bool-cases (is_unused t.state)) [
  | inl u ↦ absurd (none-ne-some (sym (rw u at e)))
  | inr u ↦ free_slot-none (suc i) ths k (rw u at e) (omega arith)
]

unused-ne-running : {x : ThreadState} → is_unused x ≡ true → x ≡ running → ⊥
unused-ne-running h e = ground arith

-- Where `kthread_create` finds its slot.
slot_found :
    (ths : List Thread) {i : ℕ}
    → free_slot 1 (tail ths) ≡ some i
    → (0 < i) × (i < length ths) × (is_unused (thread ths i).state ≡ true)
slot_found ths {i} e =
    let (k, q, h, r) = free_slot-first 1 (tail ths) e in
    let same : suc k ≡ i = omega arith in
    rw (← same) (
      omega arith,
      omega (arith, length-tail ths),
      ap (λ (t : Thread). is_unused t.state) (sym (thread-tail ths k)) ∙ r,
    )

-- Whether or not it finds a slot and a stack, `kthread_create` keeps the table valid.
pub kthread_create-IsValid :
    (cur stk trampoline fn arg : ℕ) (name : Option (List ℕ)) (s : Sched)
    → IsValid cur s
    → IsValid cur (kthread_create stk trampoline fn arg name s).1
unfolding kthread_create
kthread_create-IsValid cur stk trampoline fn arg name s v =
    elim (Option-cases (free_slot 1 (tail s.threads))) [
      | inl e ↦ rw (e, kthread_create) v
      | inr (i, e) ↦
          rw (e, kthread_create)
            (elim (Bool-cases ((new_stack_with_trampoline stk trampoline fn arg).0 == 0)) [
              | inl z ↦ rw z v
              | inr z ↦ rw z (record { current_is = v.current_is; table = started i e })
            ])
    ]
  where
    esp : ℕ
    esp = (new_stack_with_trampoline stk trampoline fn arg).0

    started :
        (i : ℕ)
        → free_slot 1 (tail s.threads) ≡ some i
        → IsTable cur (modify s.threads i (start esp name))
    started i e =
        let (p, below, free) = slot_found s.threads e in
        modify-IsTable cur i (start esp name) s.threads v.table (omega (arith, v.table.size))
          (start-ThreadOk cur i esp name _)
          (λ q.
            absurd (
              unused-ne-running free
                (ap (λ k. (thread s.threads k).state) q ∙ v.table.running_cur)))

-- A successful call is the start of a free slot.
create_at :
    (stk trampoline fn arg : ℕ) (name : Option (List ℕ)) (s : Sched) {i : ℕ}
    → (kthread_create stk trampoline fn arg name s).0 ≡ pos i
    → (free_slot 1 (tail s.threads) ≡ some i)
      × (kthread_create stk trampoline fn arg name s ≡ (
        pos i,
        record s {
          threads =
              modify s.threads i (start (new_stack_with_trampoline stk trampoline fn arg).0 name);
        },
      ))
unfolding kthread_create
create_at stk trampoline fn arg name s r = ground arith

-- What a successful `kthread_create` does: the thread it returns is a slot other than the idle
-- thread's that was free, and is now ready at the default priority, with a full slice and no
-- wait, on the new stack; every other slot, and the current thread, are as they were.
pub kthread_create-starts :
    (stk trampoline fn arg : ℕ) (name : Option (List ℕ)) (s : Sched) {i : ℕ} (j : ℕ)
    → (kthread_create stk trampoline fn arg name s).0 ≡ pos i
    → j ≢ i
    → let s' = (kthread_create stk trampoline fn arg name s).1 in
      let t = thread s'.threads i in
      (0 < i)
      × (i < length s.threads)
      × (is_unused (thread s.threads i).state ≡ true)
      × (t.state ≡ ready)
      × (t.priority ≡ sched_priority_interactive)
      × (t.slice_left ≡ 6)
      × (t.wait_ticks ≡ 0)
      × (t.esp ≡ (new_stack_with_trampoline stk trampoline fn arg).0)
      × (thread s'.threads j ≡ thread s.threads j)
      × (s'.current ≡ s.current)
unfolding start
kthread_create-starts stk trampoline fn arg name s {i} j r d =
    let (e, form) = create_at stk trampoline fn arg name s r in
    let (p, below, free) = slot_found s.threads e in
    rw form (
      p,
      below,
      free,
      ground (arith, at i below),
      ground (arith, at i below),
      ground (arith, at i below),
      ground (arith, at i below),
      ground (arith, at i below),
      ground (arith, at j below),
      refl,
    )
  where
    begin : Thread → Thread
    begin = start (new_stack_with_trampoline stk trampoline fn arg).0 name

    at :
        (k : ℕ)
        → i < length s.threads
        → thread (modify s.threads i begin) k
          ≡ (if i == k then begin (thread s.threads k) else thread s.threads k)
    at k h = get_or-modify s.threads i k begin blank h

free_slot-some :
    (i : ℕ) (ths : List Thread) (k : ℕ)
    → k < length ths
    → is_unused (thread ths k).state ≡ true
    → (r : ℕ) × (free_slot i ths ≡ some r) × (r ≤ i + k)
unfolding free_slot
free_slot-some i [] k h u = elim h [ ]
free_slot-some i (t ∷ ths) zero h u = (i, ground arith, omega arith)
free_slot-some i (t ∷ ths) (suc k) h u = elim (Bool-cases (is_unused t.state)) [
  | inl v ↦ (i, ground arith, omega arith)
  | inr v ↦
      let (r, e, le) = free_slot-some (suc i) ths k (omega arith) u in (r, rw v e, omega arith)
]

-- A free slot from 1 on and a stack are enough for `kthread_create` to succeed, with a slot that
-- is not above the free one.
pub kthread_create-succeeds :
    (stk trampoline fn arg : ℕ) (name : Option (List ℕ)) (s : Sched) (j : ℕ)
    → 0 < j
    → j < length s.threads
    → is_unused (thread s.threads j).state ≡ true
    → (new_stack_with_trampoline stk trampoline fn arg).0 ≢ 0
    → (i : ℕ) × ((kthread_create stk trampoline fn arg name s).0 ≡ pos i) × (i ≤ j)
unfolding kthread_create
kthread_create-succeeds stk trampoline fn arg name s zero p h u n = elim p [ ]
kthread_create-succeeds stk trampoline fn arg name s (suc j) p h u n =
    let (r, e, le) =
      free_slot-some 1 (tail s.threads) j (omega (arith, length-tail s.threads))
        (ap (λ (t : Thread). is_unused t.state) (thread-tail s.threads j) ∙ u) in
    (r, ground arith, omega arith)
