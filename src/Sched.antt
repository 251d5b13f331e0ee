-- ===== src/Sched.antt =====
-- Kernel threads: kernel/sched/sched.c, with the two moves of kernel/arch/i386/switch.S.
-- The thread table `th` and `current` are the record `Sched`; a static function on the table
-- takes and returns the table.
pub mod Selection
pub mod Table
pub mod Aging
pub mod Invariant
pub mod Preempt
pub mod Create
pub mod Progress
pub mod Priority
pub mod Calls
mod Tests
use jimir_os.Common.{
  ℕ, zero, suc, ◌+◌, ◌-◌, ◌*◌, ◌%◌, ◌^◌, ◌≡◌, Bool, true, false, ◌&&◌, ◌||◌, Option, none, some,
  List, [], ◌∷◌, ◌++◌, ltb, leb, ◌==◌, if◌then◌else◌, length, get_or, set, modify, replicate,
  map_from,
}
use jimir_os.Common.Int.{ℤ, pos, negsuc, minus_one}

-- `tstate_t`, without the prefix `T_`.
pub data ThreadState : Type 0 where
  unused ready running blocked : ThreadState

-- `struct kthread`; `name` is the array of 16 bytes.
pub record Thread : Type 0 where
  pub esp : ℕ
  pub state : ThreadState
  pub name : List ℕ
  pub priority : ℕ
  pub slice_left : ℕ
  pub wait_ticks : ℕ

abbrev pub max_threads : ℕ
max_threads = 16

abbrev pub aging_threshold : ℕ
aging_threshold = 32

abbrev pub stack_size : ℕ
stack_size = 8 * 1024

abbrev pub sched_priority_realtime : ℕ
sched_priority_realtime = 0

abbrev pub sched_priority_interactive : ℕ
sched_priority_interactive = 1

abbrev pub sched_priority_batch : ℕ
sched_priority_batch = 3

abbrev pub sched_priority_levels : ℕ
sched_priority_levels = 4

-- The quantum of each priority, in ticks.
abbrev pub priority_quantum : ℕ → ℕ
priority_quantum p = get_or (4 ∷ 6 ∷ 10 ∷ 18 ∷ []) p 0

abbrev pub is_unused : ThreadState → Bool
is_unused unused = true
is_unused _ = false

abbrev pub is_ready : ThreadState → Bool
is_ready ready = true
is_ready _ = false

-- What `memset(th, 0, …)` leaves in a slot.
abbrev pub blank : Thread
blank = record {
  esp = 0;
  state = unused;
  name = replicate 16 0;
  priority = 0;
  slice_left = 0;
  wait_ticks = 0;
}

-- The thread table, `current` (`none` is the -1 of a scheduler that is not initialised), and the
-- processor's stack pointer, which `ctx_switch` saves and loads.
pub record Sched : Type 0 where
  pub threads : List Thread
  pub current : Option ℕ
  pub cpu_esp : ℕ

abbrev pub thread : List Thread → ℕ → Thread
thread ths i = get_or ths i blank

-- The assignment of `refill_slice`.
abbrev pub refill : Thread → Thread
refill t = record t { slice_left = priority_quantum t.priority }

unfoldable pub refill_slice : ℕ → List Thread → List Thread
refill_slice tid ths = if leb max_threads tid then ths else modify ths tid refill

unfoldable pub sched_init : ℕ → Sched
unfolding refill_slice
sched_init esp = record {
  threads = refill_slice 0 (
      set (replicate max_threads blank) 0 (record blank {
        state = running;
        name = b'i' ∷ b'd' ∷ b'l' ∷ b'e' ∷ replicate 12 0;
        priority = sched_priority_batch;
      }));
  current = some 0;
  cpu_esp = esp;
}

-- The body of the loop of `apply_aging`; the loop starts at index 1.
unfoldable pub age : ℕ → Thread → Thread
age i t =
    if ltb 0 i
      && is_ready t.state
      && leb aging_threshold t.wait_ticks
      && ltb sched_priority_realtime t.priority
    then refill (record t { priority = t.priority - 1; wait_ticks = 0 })
    else t

unfoldable pub apply_aging : List Thread → List Thread
apply_aging ths = map_from age 0 ths

-- `best`, `best_prio` and `best_wait`; no `Best` yet is `best < 0`, which the code tests first.
pub record Best : Type 0 where
  pub index : ℕ
  pub prio : ℕ
  pub wait : ℕ

abbrev pub found : ℕ → Thread → Best
found i t = record { index = i; prio = t.priority; wait = t.wait_ticks }

-- The second and third alternatives of the test in `select_next`.
abbrev pub beats : Thread → Best → Bool
beats t b = ltb t.priority b.prio || t.priority == b.prio && ltb b.wait t.wait_ticks

-- A ready thread takes the place of the best one so far if it beats it.
unfoldable pub challenge : ℕ → Thread → Best → Best
challenge i t b = if is_ready t.state && beats t b then found i t else b

unfoldable pub consider : ℕ → Thread → Option Best → Option Best
unfolding challenge
consider i t none = if is_ready t.state then some (found i t) else none
consider i t (some b) = some (challenge i t b)

unfoldable pub select_from : ℕ → Option Best → List Thread → Option Best
select_from i best [] = best
select_from i best (t ∷ ths) = select_from (suc i) (consider i t best) ths

abbrev pub best_index : Option Best → Option ℕ
best_index none = none
best_index (some b) = some b.index

-- The loop starts at index 1: the first entry of the table is passed over.
unfoldable pub select_next : List Thread → Option ℕ
select_next [] = none
select_next (_ ∷ ths) = best_index (select_from 1 none ths)

-- The two moves of `ctx_switch`: the outgoing thread's stack pointer is stored and the incoming one's
-- loaded. `cpu_esp` is the stack pointer between the push before and the pops behind them, which
-- are left out; one of these pops into the stack pointer.
unfoldable pub ctx_switch : ℕ → ℕ → Sched → Sched
ctx_switch prev next s = record s {
  threads = modify s.threads prev (λ t. record t { esp = s.cpu_esp });
  cpu_esp = (thread s.threads next).esp;
}

-- `sched_yield` from the assignment to `prev` on.
unfoldable pub switch : ℕ → ℕ → Sched → Sched
switch prev next s =
    let out =
      refill_slice prev (modify s.threads prev (λ t. record t { state = ready; wait_ticks = 0 })) in
    let ths =
      refill_slice next (modify out next (λ t. record t { state = running; wait_ticks = 0 })) in
    ctx_switch prev next (record s { threads = ths; current = some next })

-- With no current thread the code would write `th[-1]`; the model then changes nothing more.
unfoldable pub yield_to : Option ℕ → Option ℕ → Sched → Sched
yield_to cur none s = s
yield_to none (some next) s = s
yield_to (some cur) (some next) s = if next == cur then s else switch cur next s

unfoldable pub sched_yield : Sched → Sched
sched_yield s =
    let ths = apply_aging s.threads in
    yield_to s.current (select_next ths) (record s { threads = ths })

-- The first loop of `sched_tick`; `wait_ticks` is a `uint16_t`.
unfoldable pub wait_one : ℕ → ℕ → Thread → Thread
wait_one cur i t =
    if ltb 0 i && not_current && is_ready t.state
    then record t { wait_ticks = (t.wait_ticks + 1) % 2 ^ 16 }
    else t
  where
    not_current : Bool
    not_current = if i == cur then false else true

abbrev pub burn : Thread → Thread
burn t = if ltb 0 t.slice_left then record t { slice_left = t.slice_left - 1 } else t

-- The thread table when `sched_tick` selects.
unfoldable pub tick_threads : ℕ → List Thread → List Thread
unfolding wait_one
tick_threads cur ths = apply_aging (modify (map_from (wait_one cur) 0 ths) cur burn)

-- The test under which `sched_tick` yields.
abbrev pub preempts : List Thread → ℕ → Option ℕ → Bool
preempts ths cur none = false
preempts ths cur (some next) =
    ltb (thread ths next).priority (thread ths cur).priority || (thread ths cur).slice_left == 0

-- `sched_tick` behind its first test, with `cur` the current thread.
unfoldable pub tick_at : ℕ → Sched → Sched
tick_at cur s =
    let ths = tick_threads cur s.threads in
    if preempts ths cur (select_next ths)
    then sched_yield (record s { threads = modify ths cur refill })
    else (if (thread ths cur).slice_left == 0
        then record s { threads = refill_slice cur ths }
        else record s { threads = ths })

unfoldable pub sched_tick : Sched → Sched
sched_tick s = elim s.current [ none ↦ s | some cur ↦ tick_at cur s ]

-- A stack for a new thread: the initial stack pointer and the words from it up, which are the
-- eight registers, the address of the trampoline, a return address and the start pack.
-- `stk` is the result of `kmalloc`.
unfoldable pub new_stack_with_trampoline : ℕ → ℕ → ℕ → ℕ → ℕ × List ℕ
new_stack_with_trampoline stk trampoline fn arg =
    if stk == 0 then (0, []) else ((stk + stack_size - 48) % 2 ^ 32, replicate 8 0 ++ words)
  where
    words : List ℕ
    words = trampoline ∷ 0 ∷ fn ∷ arg ∷ []

-- The loop over `name`; the argument list is the C string from index `j` on, without its NUL.
unfoldable pub copy_name : List ℕ → ℕ → List ℕ → List ℕ
copy_name [] j dst = set dst j 0
copy_name (c ∷ cs) j dst =
    let rest = copy_name cs (suc j) (set dst j c) in if ltb j 15 then rest else set dst j 0

-- `name` is `none` for NULL.
unfoldable pub named : Option (List ℕ) → List ℕ → List ℕ
named none dst = set dst 0 0
named (some name) dst = copy_name name 0 dst

unfoldable pub start : ℕ → Option (List ℕ) → Thread → Thread
unfolding named copy_name
start esp name t = refill (record t {
  esp = esp;
  state = ready;
  name = named name t.name;
  priority = sched_priority_interactive;
  wait_ticks = 0;
})

-- The first free slot from index `i` on.
unfoldable pub free_slot : ℕ → List Thread → Option ℕ
free_slot i [] = none
free_slot i (t ∷ ths) = if is_unused t.state then some i else free_slot (suc i) ths

abbrev pub tail : List Thread → List Thread
tail [] = []
tail (_ ∷ ths) = ths

-- The stack that `kmalloc` gives is asked for only once a slot is found.
unfoldable pub kthread_create : ℕ → ℕ → ℕ → ℕ → Option (List ℕ) → Sched → ℤ × Sched
unfolding new_stack_with_trampoline
kthread_create stk trampoline fn arg name s =
    let esp = (new_stack_with_trampoline stk trampoline fn arg).0 in
    elim (free_slot 1 (tail s.threads)) [
      | none ↦ (minus_one, s)
      | some i ↦
          if esp == 0
          then (minus_one, s)
          else (pos i, record s { threads = modify s.threads i (start esp name) })
    ]

abbrev pub set_priority : ℕ → Thread → Thread
set_priority p t = refill (record t { priority = p; wait_ticks = 0 })

unfoldable pub sched_set_priority : ℤ → ℤ → Sched → ℤ × Sched
sched_set_priority (pos pid) (pos priority) s =
    if leb max_threads pid
    then (minus_one, s)
    else if leb sched_priority_levels priority
    then (minus_one, s)
    else if is_unused (thread s.threads pid).state
    then (minus_one, s)
    else (pos 0, record s { threads = modify s.threads pid (set_priority priority) })
sched_set_priority (pos pid) (negsuc p) s = (minus_one, s)
sched_set_priority (negsuc n) priority s = (minus_one, s)
