-- ===== src/Sched/Invariant.antt =====
-- The invariant of the thread table of kernel/sched/sched.c, and that every operation keeps it.
use jimir_os.Common.{
  ℕ, ◌≤◌, ◌<◌, ◌≡◌, ◌≢◌, ◌∙◌, refl, ap, true, Option, none, some, List, length, modify, arith,
  if◌then◌else◌, ◌==◌, subst, sym, map_from, length-map_from, Bool-cases, ==_iff, inl, inr,
  length-modify, get_or-modify,
}
use jimir_os.Sched.{
  Sched, Thread, ready, running, blank, is_ready, refill, age, apply_aging, thread, aging_threshold,
  wait_one, burn, tick_threads, max_threads, priority_quantum, sched_priority_levels, switch,
  ctx_switch, sched_yield, sched_tick, tick_at, preempts, yield_to, select_next, refill_slice,
}
use jimir_os.Sched.Table.{switched, length-switch, thread-switch}
use jimir_os.Sched.Selection.{select_next-ready}
use jimir_os.Sched.Aging.{thread-apply_aging, length-tick_threads, thread-tick_threads}

-- What holds of entry `j` of the table while `cur` is the current thread.
pub record ThreadOk (cur j : ℕ) (t : Thread) : Type 0 where
  pub priority_in : t.priority < sched_priority_levels
  pub slice_in : t.slice_left ≤ priority_quantum t.priority
  pub runs : t.state ≡ running → j ≡ cur
  pub settled : 0 < j → t.state ≡ ready → 0 < t.priority → t.wait_ticks < aging_threshold

-- The table has its full length, thread `cur` runs, and every entry is as above: so `cur` is the
-- only one that runs.
pub record IsTable (cur : ℕ) (ths : List Thread) : Type 0 where
  pub size : length ths ≡ max_threads
  pub current_in : cur < max_threads
  pub running_cur : (thread ths cur).state ≡ running
  pub entries : (j : ℕ) → j < max_threads → ThreadOk cur j (thread ths j)

pub record IsValid (cur : ℕ) (s : Sched) : Type 0 where
  pub current_is : s.current ≡ some cur
  pub table : IsTable cur s.threads

pub age-ThreadOk : (cur j : ℕ) (t : Thread) → ThreadOk cur j t → ThreadOk cur j (age j t)
unfolding age
age-ThreadOk cur j t v = ground arith

waited-ThreadOk :
    (cur j : ℕ) (t : Thread)
    → ThreadOk cur j t
    → ThreadOk cur j (age j (if cur == j then burn (wait_one cur j t) else wait_one cur j t))
unfolding age wait_one
waited-ThreadOk cur j t v = record {
  priority_in = ground (arith, v.priority_in);
  slice_in = ground (arith, v.slice_in);
  runs = ground (arith, v.runs);
  settled = λ p r q. ground (arith, v.settled p, v.priority_in);
}

age-state : (j : ℕ) (t : Thread) → (age j t).state ≡ t.state
unfolding age
age-state j t = ground arith

pub apply_aging-IsTable :
    (cur : ℕ) (ths : List Thread) → IsTable cur ths → IsTable cur (apply_aging ths)
unfolding apply_aging
apply_aging-IsTable cur ths v = record {
  size = length-map_from age 0 ths ∙ v.size;
  current_in = v.current_in;
  running_cur =
      ap (λ (t : Thread). t.state) (aged cur v.current_in) ∙ age-state cur _ ∙ v.running_cur;
  entries = λ j h. subst (ThreadOk cur j) (sym (aged j h)) (age-ThreadOk cur j _ (v.entries j h));
}
  where
    aged : (j : ℕ) → j < max_threads → thread (map_from age 0 ths) j ≡ age j (thread ths j)
    aged j h = thread-apply_aging ths j (omega (arith, v.size))

waited-state :
    (cur j : ℕ) (t : Thread)
    → (age j (if cur == j then burn (wait_one cur j t) else wait_one cur j t)).state ≡ t.state
unfolding age wait_one
waited-state cur j t = ground arith

pub tick_threads-IsTable :
    (cur : ℕ) (ths : List Thread) → IsTable cur ths → IsTable cur (tick_threads cur ths)
tick_threads-IsTable cur ths v = record {
  size = length-tick_threads cur ths ∙ v.size;
  current_in = v.current_in;
  running_cur =
      ap (λ (t : Thread). t.state) (after cur v.current_in)
      ∙ waited-state cur cur _
      ∙ v.running_cur;
  entries =
      λ j h. subst (ThreadOk cur j) (sym (after j h)) (waited-ThreadOk cur j _ (v.entries j h));
}
  where
    after :
        (j : ℕ)
        → j < max_threads
        → thread (tick_threads cur ths) j
          ≡ age j (
              if cur == j
              then burn (wait_one cur j (thread ths j))
              else wait_one cur j (thread ths j))
    after j h =
        thread-tick_threads cur j ths (omega (arith, v.size, v.current_in)) (omega (arith, v.size))

-- A change of entry `i` that is sound for that entry.
pub modify-IsTable :
    (cur i : ℕ) (f : Thread → Thread) (ths : List Thread)
    → IsTable cur ths
    → i < max_threads
    → ThreadOk cur i (f (thread ths i))
    → (i ≡ cur → (f (thread ths i)).state ≡ running)
    → IsTable cur (modify ths i f)
modify-IsTable cur i f ths v h ok run = record {
  size = length-modify ths i f ∙ v.size;
  current_in = v.current_in;
  running_cur = ground (arith, after cur, v.running_cur);
  entries = λ j l. subst (ThreadOk cur j) (sym (after j)) (either j l);
}
  where
    after :
        (j : ℕ) → thread (modify ths i f) j ≡ (if i == j then f (thread ths j) else thread ths j)
    after j = get_or-modify ths i j f blank (omega (arith, v.size))

    either :
        (j : ℕ)
        → j < max_threads
        → ThreadOk cur j (if i == j then f (thread ths j) else thread ths j)
    either j l = elim (Bool-cases (i == j)) [
      | inl e ↦ rw e (subst (λ k. ThreadOk cur k (f (thread ths k))) ((==_iff i j).0 e) ok)
      | inr e ↦ rw e (v.entries j l)
    ]

-- A ready thread is not the one that runs.
pub ready-ne-cur :
    (cur i : ℕ) (ths : List Thread)
    → IsTable cur ths
    → is_ready (thread ths i).state ≡ true
    → cur ≢ i
ready-ne-cur cur i ths v r e = ground (arith, ap (λ k. (thread ths k).state) e, v.running_cur)

switched-ThreadOk :
    (cur next esp j : ℕ) (t : Thread)
    → cur ≢ next
    → ThreadOk cur j t
    → ThreadOk next j (switched cur next esp j t)
switched-ThreadOk cur next esp j t d v = record {
  priority_in = ground (arith, v.priority_in);
  slice_in = ground (arith, v.slice_in);
  runs = ground (arith, v.runs);
  settled = ground (arith, v.settled);
}

pub current-switch : (cur next : ℕ) (s : Sched) → (switch cur next s).current ≡ some next
unfolding switch ctx_switch
current-switch cur next s = refl

switch-IsValid :
    (cur next : ℕ) (s : Sched)
    → IsTable cur s.threads
    → next < max_threads
    → cur ≢ next
    → IsValid next (switch cur next s)
switch-IsValid cur next s v h d = record {
  current_is = current-switch cur next s;
  table = record {
    size = length-switch cur next s ∙ v.size;
    current_in = h;
    running_cur = ap (λ (t : Thread). t.state) (after next) ∙ ground (arith);
    entries = λ j l.
        subst (ThreadOk next j) (sym (after j))
          (switched-ThreadOk cur next s.cpu_esp j _ d (v.entries j l));
  };
}
  where
    after :
        (j : ℕ)
        → thread (switch cur next s).threads j ≡ switched cur next s.cpu_esp j (thread s.threads j)
    after j = thread-switch cur next s v.size v.current_in h j d

-- A running scheduler: some thread is the current one.
abbrev pub IsRunning : Sched → Type 0
IsRunning s = (cur : ℕ) × IsValid cur s

yield_to-IsRunning :
    (cur : ℕ) (next : Option ℕ) (s : Sched)
    → IsTable cur s.threads
    → s.current ≡ some cur
    → select_next s.threads ≡ next
    → IsRunning (yield_to (some cur) next s)
unfolding yield_to
yield_to-IsRunning cur none s v c e = (cur, record { current_is = c; table = v })
yield_to-IsRunning cur (some next) s v c e =
    let (p, below, rdy) = select_next-ready s.threads e in
    let d : cur ≢ next = ready-ne-cur cur next s.threads v rdy in
    elim (Bool-cases (next == cur)) [
      | inl q ↦ absurd (d (sym ((==_iff next cur).0 q)))
      | inr q ↦ rw q (next, switch-IsValid cur next s v (omega (arith, v.size)) d)
    ]

yield_at :
    (cur : ℕ) (s : Sched) → s.current ≡ some cur → IsTable cur s.threads → IsRunning (sched_yield s)
unfolding sched_yield
yield_at cur s c v =
    subst (λ o. IsRunning (yield_to o (select_next aged) (record s { threads = aged }))) (sym c)
      (yield_to-IsRunning cur (select_next aged) (record s { threads = aged })
        (apply_aging-IsTable cur s.threads v) c refl)
  where
    aged : List Thread
    aged = apply_aging s.threads

-- `sched_yield` keeps the table valid, whether it switches or not.
pub sched_yield-IsRunning : (s : Sched) → IsRunning s → IsRunning (sched_yield s)
sched_yield-IsRunning s (cur, v) = yield_at cur s v.current_is v.table

refill-ThreadOk : (cur j : ℕ) (t : Thread) → ThreadOk cur j t → ThreadOk cur j (refill t)
refill-ThreadOk cur j t v = ground arith

pub refill_at :
    (cur : ℕ) (ths : List Thread) → IsTable cur ths → IsTable cur (modify ths cur refill)
refill_at cur ths v =
    modify-IsTable cur cur refill ths v v.current_in
      (refill-ThreadOk cur cur _ (v.entries cur v.current_in)) (λ e. v.running_cur)

refill_slice-modify :
    (tid : ℕ) (ths : List Thread) → tid < max_threads → refill_slice tid ths ≡ modify ths tid refill
unfolding refill_slice
refill_slice-modify tid ths h = ground arith

pub sched_tick-tick_at : (cur : ℕ) (s : Sched) → s.current ≡ some cur → sched_tick s ≡ tick_at cur s
unfolding sched_tick
sched_tick-tick_at cur s c = ground arith

tick_at-IsRunning : (cur : ℕ) (s : Sched) → IsValid cur s → IsRunning (tick_at cur s)
unfolding tick_at
tick_at-IsRunning cur s v = elim (Bool-cases (preempts ths cur (select_next ths))) [
  | inl p ↦ rw p (yield_at cur _ v.current_is (refill_at cur ths ticked))
  | inr p ↦ rw p (elim (Bool-cases ((thread ths cur).slice_left == 0)) [
    | inl q ↦ rw q (
      cur,
      record {
        current_is = v.current_is;
        table =
            subst (IsTable cur) (sym (refill_slice-modify cur ths ticked.current_in))
              (refill_at cur ths ticked);
      },
    )
    | inr q ↦ rw q (cur, record { current_is = v.current_is; table = ticked })
  ])
]
  where
    ths : List Thread
    ths = tick_threads cur s.threads

    ticked : IsTable cur ths
    ticked = tick_threads-IsTable cur s.threads v.table

-- `sched_tick` keeps the table valid, on each of its branches.
pub sched_tick-IsRunning : (s : Sched) → IsRunning s → IsRunning (sched_tick s)
sched_tick-IsRunning s (cur, v) =
    rw (sched_tick-tick_at cur s v.current_is) (tick_at-IsRunning cur s v)
