-- ===== src/Htas/Pick.antt =====
-- The picking of the next task in kernel/sched/htas.c: round robin, ageing and its limits.
use jimir_os.Common.{
  ℕ, zero, suc, ◌+◌, ◌-◌, ◌%◌, ◌≤◌, ◌<◌, ◌≡◌, ◌≢◌, ◌∙◌, ap, sym, subst, true, false, ◌&&◌, not,
  Option, none, some, ◌==◌, arith, Bool-cases, inl, inr, List, length, true-ne-false,
  get_or-map_from, length-map_from, refl, [], ◌∷◌,
}
use native.Mathlib.Nat.{zero-add}
use jimir_os.Process.{Process, HtasTaskInfo, process, no_process, is_ready, max_processes}
use jimir_os.Htas.{
  runnable, htas_select_next, task_priority, htas_get_numa_node_for_cpu, aging_priority_boost,
  htas_can_run_on_cpu,
}
use jimir_os.Htas.State.{
  rr_scan, baseline_select_next, candidate_of, cursor_of, rr_start, age_unpicked, age_after,
  age_info, htas,
}
use jimir_os.Htas.Select.{eligible, htas_select_next-best}

-- The priority of a task that has a record, from below and from above.
priority-local :
    (cpu : ℕ) (p : Process) {info : HtasTaskInfo}
    → p.htas_info ≡ some info
    → info.preferred_numa_node ≡ htas_get_numa_node_for_cpu cpu
    → info.priority_boost + 5 ≤ task_priority cpu p
unfolding task_priority
priority-local cpu p e q = ground (arith, e, q)

priority-le :
    (cpu : ℕ) (p : Process) {info : HtasTaskInfo}
    → p.htas_info ≡ some info
    → task_priority cpu p ≤ info.priority_boost + info.priority_boost_aging + 5
unfolding task_priority
priority-le cpu p e = ground (arith, e)

-- What the picks of `htas_pick_next_process` do to the table: each ages the tasks other than the
-- one it picks.
pub picks : List ℕ → List Process → List Process
picks [] ps = ps
picks (next ∷ nexts) ps = picks nexts (age_after htas next ps)

-- A task that may run on the processor, with a boost of 10 or more and local data.
pub record Urgent (cpu : ℕ) (p : Process) : Type 0 where
  pub may_run : eligible cpu p ≡ true
  pub hint : HtasTaskInfo
  pub has_hint : p.htas_info ≡ some hint
  pub boosted : 10 ≤ hint.priority_boost
  pub local : hint.preferred_numa_node ≡ htas_get_numa_node_for_cpu cpu

-- A task with no boost of its own, and none from ageing above what the boost is set to.
record Plain (p : Process) : Type 0 where
  pub info : HtasTaskInfo
  pub has_info : p.htas_info ≡ some info
  pub no_boost : info.priority_boost ≡ 0
  pub aged : info.priority_boost_aging ≤ aging_priority_boost

age_unpicked-Urgent :
    (cpu next j : ℕ) (p : Process) → Urgent cpu p → Urgent cpu (age_unpicked next j p)
unfolding age_unpicked htas_can_run_on_cpu
age_unpicked-Urgent cpu next j p u = elim (Bool-cases (is_ready p.state && not (j == next))) [
  | inr b ↦ rw b u
  | inl b ↦ rw b (record {
    may_run = ground (arith, u.may_run, u.has_hint);
    hint = age_info u.hint;
    has_hint = rw u.has_hint refl;
    boosted = ground (arith, u.boosted);
    local = ground (arith, u.local);
  })
]

age_unpicked-Plain : (next j : ℕ) (p : Process) → Plain p → Plain (age_unpicked next j p)
unfolding age_unpicked
age_unpicked-Plain next j p u = elim (Bool-cases (is_ready p.state && not (j == next))) [
  | inr b ↦ rw b u
  | inl b ↦ rw b (record {
    info = age_info u.info;
    has_info = rw u.has_info refl;
    no_boost = ground (arith, u.no_boost);
    aged = ground (arith, u.aged);
  })
]

length-age_after : (next : ℕ) (ps : List Process) → length (age_after htas next ps) ≡ length ps
unfolding age_after
length-age_after next ps = length-map_from (age_unpicked next) 0 ps

process-age_after :
    (next j : ℕ) (ps : List Process)
    → j < length ps
    → process (age_after htas next ps) j ≡ age_unpicked next (0 + j) (process ps j)
unfolding age_after
process-age_after next j ps h = get_or-map_from (age_unpicked next) 0 j ps no_process h

picks-keep :
    (cpu a b : ℕ) (nexts : List ℕ) (ps : List Process)
    → a < length ps
    → b < length ps
    → Urgent cpu (process ps a)
    → Plain (process ps b)
    → (a < length (picks nexts ps))
      × Urgent cpu (process (picks nexts ps) a)
      × Plain (process (picks nexts ps) b)
unfolding picks
picks-keep cpu a b [] ps h k u p = (h, u, p)
picks-keep cpu a b (next ∷ nexts) ps h k u p =
    picks-keep cpu a b nexts (age_after htas next ps) (omega (arith, length-age_after next ps))
      (omega (arith, length-age_after next ps))
      (subst (Urgent cpu) (sym (process-age_after next a ps h))
        (age_unpicked-Urgent cpu next (0 + a) (process ps a) u))
      (subst Plain (sym (process-age_after next b ps k))
        (age_unpicked-Plain next (0 + b) (process ps b) p))

-- A low-latency task whose data is local to the processor keeps out, for good, every task with no
-- boost of its own: while the first may run, the second, which starts with no boost from ageing, is
-- not picked, after however many picks have aged the table.
pub htas_select_next-starves :
    (cpu a b : ℕ) (nexts : List ℕ) (ps : List Process) {info : HtasTaskInfo}
    → a < length ps
    → b < length ps
    → Urgent cpu (process ps a)
    → (process ps b).htas_info ≡ some info
    → info.priority_boost ≡ 0
    → info.priority_boost_aging ≡ 0
    → htas_select_next cpu (picks nexts ps) ≢ some b
htas_select_next-starves cpu a b nexts ps {info} h k u hb none_ young picked =
    let (l, u', p) =
      picks-keep cpu a b nexts ps h k u
        (record { info = info; has_info = hb; no_boost = none_; aged = omega (arith, young) }) in
    let qs = picks nexts ps in
    let (_, _, le, _) = htas_select_next-best cpu qs a picked l u'.may_run in
    omega (
      arith,
      priority-local cpu (process qs a) u'.has_hint u'.local,
      priority-le cpu (process qs b) p.has_info,
      le,
      u'.boosted,
      p.no_boost,
      p.aged,
    )

-- The ageing of a task that is ready, has a record and was not picked: one tick more of waiting,
-- and the boost once it has waited more than the threshold.
thread-age_after :
    (next j : ℕ) (ps : List Process) {info : HtasTaskInfo}
    → j < length ps
    → j ≢ next
    → is_ready (process ps j).state ≡ true
    → (process ps j).htas_info ≡ some info
    → (process (age_after htas next ps) j).htas_info ≡ some (age_info info)
unfolding age_after age_unpicked
thread-age_after next j ps h d r e =
    ground (arith, get_or-map_from (age_unpicked next) 0 j ps no_process h, zero-add j, e, r)

-- Slot `k` steps after `start`, going round the table.
abbrev pub around : ℕ → ℕ → ℕ
around start k = (start + k) % max_processes

-- What the scan stops at.
abbrev pub Taken : Option ℕ → List Process → ℕ → Type 0
Taken candidate ps i =
    (runnable (process ps i) && not (elim candidate [ none ↦ false | some c ↦ i == c ])) ≡ true

-- A slot that the scan can stop at, `d` steps on, is found within those steps.
rr_scan-finds :
    (n start d : ℕ) (candidate : Option ℕ) (ps : List Process)
    → start < max_processes
    → d < n
    → Taken candidate ps (around start d)
    → (k : ℕ) × (k ≤ d)
      × (rr_scan n start candidate ps ≡ some (around start k))
      × Taken candidate ps (around start k)
unfolding rr_scan
rr_scan-finds zero start d candidate ps h hd t = absurd (omega arith)
rr_scan-finds (suc n) start d candidate ps h hd t =
    elim (Bool-cases (
      runnable (process ps start) && not (elim candidate [ none ↦ false | some c ↦ start == c ]))) [
        | inl now ↦ (0, omega arith, rw now (ap some here), subst (Taken candidate ps) here now)
        | inr later ↦
            let (k, le, e, tk) =
              rr_scan-finds n ((start + 1) % max_processes) (d - 1) candidate ps (omega arith)
                (omega (arith, not_here d t later))
                (subst (Taken candidate ps) (omega (arith, not_here d t later)) t) in
            (
              suc k,
              omega (arith, not_here d t later),
              rw later (e ∙ ap some (omega arith)),
              subst (Taken candidate ps) (omega arith) tk,
            )
      ]
  where
    here : start ≡ around start 0
    here = omega arith

    not_here :
        (d : ℕ)
        → Taken candidate ps (around start d)
        → (runnable (process ps start)
            && not (elim candidate [ none ↦ false | some c ↦ start == c ]))
          ≡ false
        → 0 < d
    not_here zero t later =
        absurd (true-ne-false (sym (subst (Taken candidate ps) (sym here) t) ∙ later))
    not_here (suc d) t later = omega arith

rr_start-lt : (cursor : Option ℕ) → rr_start cursor < max_processes
rr_start-lt none = omega arith
rr_start-lt (some i) = omega arith

-- The slot that a round begins with: the one after the current process; with no current process,
-- the one after the last picked; and at the very start slot 0.
abbrev pub first_slot : Option ℕ → Option ℕ → ℕ
first_slot (some i) last = i + 1
first_slot none (some i) = i + 1
first_slot none none = 0

around-rr_start :
    (current last : Option ℕ) (k : ℕ)
    → around (rr_start (cursor_of current last)) k ≡ around (first_slot current last) k
around-rr_start (some i) last k = omega arith
around-rr_start none (some i) k = omega arith
around-rr_start none none k = refl

-- Round robin: count the steps from the slot after the current process or, with no current process,
-- after the last one picked (at the very start, from slot 0). If a runnable process other than the
-- current one is `d` steps on, then a runnable process other than the current one, at most `d` steps
-- on, is picked; and the cursor is left on it.
pub baseline_select_next-round_robin :
    (current cursor : Option ℕ) (ps : List Process) (d : ℕ)
    → d < max_processes
    → Taken (candidate_of current ps) ps (around (first_slot current cursor) d)
    → (k : ℕ) × (k ≤ d)
      × (baseline_select_next current cursor ps ≡ (
        some (around (first_slot current cursor) k),
        some (around (first_slot current cursor) k),
      ))
      × Taken (candidate_of current ps) ps (around (first_slot current cursor) k)
unfolding baseline_select_next
baseline_select_next-round_robin current cursor ps d h t =
    let same = around-rr_start current cursor in
    let (k, le, e, tk) =
      rr_scan-finds max_processes (rr_start (cursor_of current cursor)) d (candidate_of current ps)
        ps (rr_start-lt (cursor_of current cursor)) h
        (subst (Taken (candidate_of current ps) ps) (sym (same d)) t) in
    (
      k,
      le,
      rw (e, baseline_select_next) (ap (λ (i : ℕ). (some i, some i)) (same k)),
      subst (Taken (candidate_of current ps) ps) (same k) tk,
    )
