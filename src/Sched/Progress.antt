-- ===== src/Sched/Progress.antt =====
-- Ticks over time in kernel/sched/sched.c: a ready thread rises until it runs or is at the top, and
-- a ready thread of higher priority preempts.
use jimir_os.Common.{
  ℕ, zero, suc, ◌+◌, ◌≤◌, ◌<◌, ◌≡◌, ◌≢◌, ◌∙◌, ap, sym, true, some, List, modify, arith, ◌==◌,
  Bool-cases, Option-cases, inl, inr, get_or-modify, ◌⊎◌, ==_iff,
}
use native.Mathlib.Decide.{dec_lt}
use jimir_os.Sched.{
  Sched, Thread, ThreadState, ready, blank, is_ready, age, refill, thread, max_threads, sched_yield,
  yield_to, select_next, apply_aging, sched_tick, tick_at, tick_threads, preempts,
}
use jimir_os.Sched.Table.{thread-switch, thread-refill_slice}
use jimir_os.Sched.Aging.{
  thread-apply_aging, age-twice, thread-tick_threads, tick_threads-rises, ticks_to_top,
}
use jimir_os.Sched.Invariant.{
  ThreadOk, IsTable, IsValid, ready-ne-cur, apply_aging-IsTable, current-switch,
  tick_threads-IsTable, sched_tick-tick_at, refill_at, sched_tick-IsRunning,
}
use jimir_os.Sched.Preempt.{yield-switch, aged}

-- An entry that ageing leaves alone, of a thread that does not run, is left alone by a yield
-- unless the yield switches to it.
yield-entry :
    (cur j : ℕ) (s : Sched)
    → IsValid cur s
    → j ≢ cur
    → j < max_threads
    → age j (thread s.threads j) ≡ thread s.threads j
    → ((sched_yield s).current ≡ some j) ⊎ (thread (sched_yield s).threads j ≡ thread s.threads j)
unfolding sched_yield yield_to
yield-entry cur j s v d h quiet = elim (Option-cases (select_next (apply_aging s.threads))) [
  | inl e ↦
      inr
        (ground (arith, v.current_is, thread-apply_aging s.threads j (omega (arith, v.table.size))))
  | inr (next, e) ↦
      let (dn, hn, same) = yield-switch cur next s v e in
      let w = apply_aging-IsTable cur s.threads v.table in
      let at = thread-switch cur next (aged s) w.size v.table.current_in hn j dn in
      elim (Bool-cases (next == j)) [
        | inl q ↦ inl (rw same (current-switch cur next (aged s) ∙ ap some ((==_iff next j).0 q)))
        | inr q ↦ inr (
            rw same
              (ground (arith, at, thread-apply_aging s.threads j (omega (arith, v.table.size)))))
      ]
]

module _ (cur j : ℕ) (s : Sched) (v : IsValid cur s) (d : j ≢ cur) (h : j < max_threads) where
  unfoldable pub ticked : List Thread
  ticked = tick_threads cur s.threads

  pub ticked-IsTable : IsTable cur ticked
  unfolding ticked
  ticked-IsTable = tick_threads-IsTable cur s.threads v.table

  pub ticked-quiet : age j (thread ticked j) ≡ thread ticked j
  unfolding ticked
  ticked-quiet =
      rw
        (thread-tick_threads cur j s.threads (omega (arith, v.table.size, v.table.current_in))
          (omega (arith, v.table.size)))
        (age-twice j _)

  pub refilled : thread (modify ticked cur refill) j ≡ thread ticked j
  refilled = ground (
    arith,
    get_or-modify ticked cur j refill blank
        (omega (arith, ticked-IsTable.size, v.table.current_in)),
  )

  preempted :
      let s' = sched_yield (record s { threads = modify ticked cur refill }) in
      (s'.current ≡ some j) ⊎ (thread s'.threads j ≡ thread ticked j)
  preempted =
      elim (yield-entry cur j (record s { threads = modify ticked cur refill })
        (record { current_is = v.current_is; table = refill_at cur ticked ticked-IsTable }) d h
        (rw refilled ticked-quiet)) [ inl e ↦ inl e | inr e ↦ inr (e ∙ refilled) ]

  -- A tick either switches to a thread that does not run, or does to its entry what the loops of
  -- the tick do.
  tick-entry :
      ((sched_tick s).current ≡ some j)
      ⊎ (thread (sched_tick s).threads j ≡ thread (tick_threads cur s.threads) j)
  unfolding tick_at ticked
  tick-entry =
      rw (sched_tick-tick_at cur s v.current_is)
        (elim (Bool-cases (preempts ticked cur (select_next ticked))) [
          | inl p ↦ rw p preempted
          | inr p ↦ rw p (
              inr (
                ground
                  (arith, thread-refill_slice cur j ticked v.table.current_in ticked-IsTable.size)))
        ])

ready_of_is_ready : (x : ThreadState) → is_ready x ≡ true → x ≡ ready
ready_of_is_ready x h = ground arith

-- A tick of a running scheduler brings a ready thread that is not the current one, below the
-- highest priority, one tick nearer to it and leaves it ready, unless the tick switches to it.
sched_tick-rises :
    (cur j : ℕ) (s : Sched)
    → IsValid cur s
    → j ≢ cur
    → 0 < j
    → j < max_threads
    → (thread s.threads j).state ≡ ready
    → 0 < (thread s.threads j).priority
    → ((sched_tick s).current ≡ some j)
      ⊎ ((ticks_to_top (thread (sched_tick s).threads j) + 1 ≡ ticks_to_top (thread s.threads j))
          × ((thread (sched_tick s).threads j).state ≡ ready))
sched_tick-rises cur j s v d p h r q =
    let (nearer, rdy, _) =
      tick_threads-rises cur j s.threads (omega (arith, v.table.size, v.table.current_in))
        (omega (arith, v.table.size)) p d (ap is_ready r) ((v.table.entries j h).settled p r q) q in
    elim (tick-entry cur j s v d h) [
      | inl e ↦ inl e
      | inr e ↦ inr (rw e (nearer, ready_of_is_ready _ rdy))
    ]

pub ticks : ℕ → Sched → Sched
ticks zero s = s
ticks (suc n) s = ticks n (sched_tick s)

-- No ready thread starves below the highest priority: within as many ticks as it is away from the
-- top, and so within 32 for each level of its priority, it is switched to or it reaches priority 0.
pub ticks-no_starvation :
    (n cur j : ℕ) (s : Sched)
    → IsValid cur s
    → j ≢ cur
    → 0 < j
    → j < max_threads
    → (thread s.threads j).state ≡ ready
    → ticks_to_top (thread s.threads j) ≤ n
    → (k : ℕ) × (k ≤ n)
      × (((ticks k s).current ≡ some j) ⊎ ((thread (ticks k s).threads j).priority ≡ 0))
unfolding ticks
ticks-no_starvation zero cur j s v d p h r l = (0, omega arith, inr (top (v.table.entries j h)))
  where
    top : ThreadOk cur j (thread s.threads j) → (thread s.threads j).priority ≡ 0
    top ok = ground (arith, ok.settled p r)
ticks-no_starvation (suc n) cur j s v d p h r l = elim (dec_lt 0 (thread s.threads j).priority) [
  | no q ↦ (0, omega arith, inr (omega arith))
  | yes q ↦ elim (sched_tick-rises cur j s v d p h r q) [
    | inl e ↦ (1, omega arith, inl e)
    | inr (nearer, r') ↦
        let (cur', v') = sched_tick-IsRunning s (cur, v) in
        let d' : cur' ≢ j = ready-ne-cur cur' j (sched_tick s).threads v'.table (ap is_ready r') in
        let (k, le, out) =
          ticks-no_starvation n cur' j (sched_tick s) v' (λ e. d' (sym e)) p h r' (omega arith) in
        (suc k, omega arith, out)
  ]
]
