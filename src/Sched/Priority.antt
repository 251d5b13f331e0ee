-- ===== src/Sched/Priority.antt =====
-- `sched_tick` of kernel/sched/sched.c gives the processor to a thread of higher priority.
use jimir_os.Common.{
  ℕ, ◌≤◌, ◌<◌, ◌≡◌, ◌≢◌, ◌∙◌, ap, sym, true, some, List, length, modify, arith, Option-cases, inl,
  inr, true-ne-false,
}
use jimir_os.Sched.{
  Sched, Thread, is_ready, age, refill, thread, max_threads, sched_yield, select_next, apply_aging,
  sched_tick, tick_at, tick_threads,
}
use jimir_os.Sched.Table.{thread-switch}
use jimir_os.Sched.Selection.{select_next-best, select_next-none}
use jimir_os.Sched.Aging.{thread-apply_aging}
use jimir_os.Sched.Invariant.{
  IsValid, apply_aging-IsTable, current-switch, tick_threads-IsTable, sched_tick-tick_at, refill_at,
}
use jimir_os.Sched.Preempt.{yield-switch, aged}
use jimir_os.Sched.Progress.{ticked, ticked-quiet, refilled}

-- Where thread `j` is ready, some thread is selected that is as high.
selects :
    (ths : List Thread) (j : ℕ)
    → 0 < j
    → j < length ths
    → is_ready (thread ths j).state ≡ true
    → (i : ℕ) × (select_next ths ≡ some i) × ((thread ths i).priority ≤ (thread ths j).priority)
selects ths j p h r = elim (Option-cases (select_next ths)) [
  | inl e ↦ absurd (true-ne-false (sym r ∙ (select_next-none ths).0 e j p h))
  | inr (i, e) ↦ (i, e, (select_next-best ths j e p h r).3.prio_le)
]

-- A yield while thread `j` is ready goes to a thread of at least its priority.
yield-high :
    (cur j : ℕ) (s : Sched)
    → IsValid cur s
    → 0 < j
    → j < max_threads
    → is_ready (age j (thread s.threads j)).state ≡ true
    → (next : ℕ) × ((sched_yield s).current ≡ some next)
      × (next ≢ cur)
      × ((thread (sched_yield s).threads next).priority ≤ (age j (thread s.threads j)).priority)
yield-high cur j s v p h r =
    let w = apply_aging-IsTable cur s.threads v.table in
    let at = thread-apply_aging s.threads j (omega (arith, v.table.size)) in
    let (next, e, le) =
      selects (apply_aging s.threads) j p (omega (arith, w.size))
        (ap (λ (t : Thread). is_ready t.state) at ∙ r) in
    let (d, hn, same) = yield-switch cur next s v e in
    (
      next,
      rw same (current-switch cur next (aged s)),
      (λ q. d (sym q)),
      rw same
          (ground (arith, thread-switch cur next (aged s) w.size v.table.current_in hn next d, at)),
    )

-- The tick yields where the selected thread is the higher one.
tick_at-yields :
    (cur i : ℕ) (s : Sched)
    → select_next (tick_threads cur s.threads) ≡ some i
    → (thread (tick_threads cur s.threads) i).priority
      < (thread (tick_threads cur s.threads) cur).priority
    → tick_at cur s
      ≡ sched_yield (record s { threads = modify (tick_threads cur s.threads) cur refill })
unfolding tick_at
tick_at-yields cur i s e lt = ground arith

-- If the priority of a ready thread other than the idle one, aged by the tick, is higher than the running thread's, a tick
-- takes the processor from the running thread and gives it to a thread whose priority is at
-- least that of the ready one.
pub sched_tick-preempts :
    (cur j : ℕ) (s : Sched)
    → IsValid cur s
    → j ≢ cur
    → 0 < j
    → j < max_threads
    → is_ready (thread (tick_threads cur s.threads) j).state ≡ true
    → (thread (tick_threads cur s.threads) j).priority
      < (thread (tick_threads cur s.threads) cur).priority
    → (next : ℕ) × ((sched_tick s).current ≡ some next)
      × (next ≢ cur)
      × ((thread (sched_tick s).threads next).priority
          ≤ (thread (tick_threads cur s.threads) j).priority)
unfolding ticked
sched_tick-preempts cur j s v d p h r high =
    let w = tick_threads-IsTable cur s.threads v.table in
    let (i, e, le) = selects (tick_threads cur s.threads) j p (omega (arith, w.size)) r in
    let same : age j (thread s1.threads j) ≡ thread (tick_threads cur s.threads) j =
      ap (age j) (refilled cur j s v d h) ∙ ticked-quiet cur j s v d h in
    let (next, c, ne, le') =
      yield-high cur j s1
        (record { current_is = v.current_is; table = refill_at cur (tick_threads cur s.threads) w })
        p h (ap (λ (t : Thread). is_ready t.state) same ∙ r) in
    rw (sched_tick-tick_at cur s v.current_is ∙ tick_at-yields cur i s e (omega arith))
      (next, c, ne, omega (arith, le', ap (λ (t : Thread). t.priority) same))
  where
    s1 : Sched
    s1 = record s { threads = modify (tick_threads cur s.threads) cur refill }
