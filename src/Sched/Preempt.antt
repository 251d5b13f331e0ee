-- ===== src/Sched/Preempt.antt =====
-- When `sched_tick` and `sched_yield` of kernel/sched/sched.c change the thread that runs.
use jimir_os.Common.{ℕ, ◌<◌, ◌≡◌, ◌≢◌, ◌∙◌, ap, sym, some, length, arith}
use jimir_os.Sched.{
  Sched, Thread, ready, running, age, thread, max_threads, sched_yield, yield_to, switch,
  select_next, apply_aging, priority_quantum,
}
use jimir_os.Sched.Table.{thread-switch, length-switch, cpu_esp-switch}
use jimir_os.Sched.Selection.{select_next-ready}
use jimir_os.Sched.Aging.{thread-apply_aging}
use jimir_os.Sched.Invariant.{IsValid, ready-ne-cur, apply_aging-IsTable, current-switch}

abbrev pub aged : Sched → Sched
aged s = record s { threads = apply_aging s.threads }

-- The switch that a yield makes.
pub yield-switch :
    (cur next : ℕ) (s : Sched)
    → IsValid cur s
    → select_next (apply_aging s.threads) ≡ some next
    → (cur ≢ next) × (next < max_threads) × (sched_yield s ≡ switch cur next (aged s))
unfolding sched_yield yield_to
yield-switch cur next s v e =
    let w = apply_aging-IsTable cur s.threads v.table in
    let (p, below, rdy) = select_next-ready (apply_aging s.threads) e in
    let d : cur ≢ next = ready-ne-cur cur next (apply_aging s.threads) w rdy in
    (d, omega (arith, w.size), ground (arith, v.current_is))

age-esp : (j : ℕ) (t : Thread) → (age j t).esp ≡ t.esp
unfolding age
age-esp j t = ground arith

-- A yield with a ready thread to go to hands the processor over: the stack pointer is loaded from
-- where the selected thread's was saved, before the pops; that thread runs, with a full slice and no wait, and the thread that yielded is ready, with a
-- full slice, no wait and its stack pointer saved.
pub sched_yield-switches :
    (cur next : ℕ) (s : Sched)
    → IsValid cur s
    → select_next (apply_aging s.threads) ≡ some next
    → let s' = sched_yield s in
      let out = thread s'.threads cur in
      let in' = thread s'.threads next in
      (s'.current ≡ some next)
      × (s'.cpu_esp ≡ (thread s.threads next).esp)
      × (out.esp ≡ s.cpu_esp)
      × (out.state ≡ ready)
      × (in'.state ≡ running)
      × (in'.slice_left ≡ priority_quantum in'.priority)
      × (out.slice_left ≡ priority_quantum out.priority)
      × (out.wait_ticks ≡ 0)
      × (in'.wait_ticks ≡ 0)
sched_yield-switches cur next s v e =
    let (d, h, same) = yield-switch cur next s v e in
    let w = apply_aging-IsTable cur s.threads v.table in
    let at = λ (j : ℕ). thread-switch cur next (aged s) w.size v.table.current_in h j d in
    rw same (
      current-switch cur next (aged s),
      cpu_esp-switch cur next (aged s) w.size v.table.current_in h d
          ∙ ap (λ (t : Thread). t.esp)
              (thread-apply_aging s.threads next (omega (arith, v.table.size)))
          ∙ age-esp next _,
      ground (arith, at cur),
      ground (arith, at cur),
      ground (arith, at next),
      ground (arith, at next),
      ground (arith, at cur),
      ground (arith, at cur),
      ground (arith, at next),
    )

-- Switching away from a thread and straight back to it restores its stack pointer.
switch-switch :
    (prev next : ℕ) (s : Sched)
    → length s.threads ≡ max_threads
    → prev < max_threads
    → next < max_threads
    → prev ≢ next
    → (switch next prev (switch prev next s)).cpu_esp ≡ s.cpu_esp
switch-switch prev next s n hp hn d =
    cpu_esp-switch next prev (switch prev next s) (length-switch prev next s ∙ n) hn hp
      (λ e. d (sym e))
    ∙ ap (λ (t : Thread). t.esp) (thread-switch prev next s n hp hn prev d)
    ∙ ground arith
