-- ===== src/Process/Calls.antt =====
-- Sequences of calls into kernel/proc/process.c, from `process_init` on.
use jimir_os.Common.{
  ℕ, ◌-◌, ◌^◌, length, ◌<◌, ◌≡◌, refl, Option, none, some, List, [], ◌∷◌, arith, Bool-cases,
  Option-cases, inl, inr,
}
use jimir_os.Common.Int.{ℤ, pos, eq_ℤ}
use jimir_os.Common.Search.{find_index}
use jimir_os.Process.{
  Procs, process, max_processes, is_blocked, is_running, is_ready, process_find, zombie,
  process_create, process_init, process_set_current, process_destroy, fork_from, process_fork,
  ready, running, process_current, wake_parent, positive, exit_at, process_exit, wait_round, Waited,
  collected, childless, halted, zombie_child, live_child, unschedule, switch_into, process_switch,
  negative,
}
use jimir_os.Process.Table.{IsValid, IsLive, process-update}
use jimir_os.Process.Invariant.{
  update-IsValid, process_init-IsValid, process_create-IsValid, found_in, current_in,
  process_destroy-IsValid, fork_into-IsValid,
}

fork_from-IsValid : (parent : ℕ) (s : Procs) → IsValid s → IsValid (fork_from parent s).1
unfolding fork_from
fork_from-IsValid parent s v = elim (Bool-cases (negative pid)) [
  | inl e ↦ rw e v1
  | inr e ↦ rw e (elim (Option-cases (process_find pid s1)) [
    | inl q ↦ rw (q, fork_from) v1
    | inr (i, q) ↦
        let (h, l) = found_in pid s1 v1 q in
        rw (q, fork_from) (fork_into-IsValid parent i pid s1 h l v1)
  ])
]
  where
    pid : ℤ
    pid = (process_create (pos (process s.table parent).pid) s).0

    s1 : Procs
    s1 = (process_create (pos (process s.table parent).pid) s).1

    v1 : IsValid s1
    v1 = process_create-IsValid (pos (process s.table parent).pid) s v

pub process_fork-IsValid : (s : Procs) → IsValid s → IsValid (process_fork s).1
unfolding process_fork
process_fork-IsValid s v = elim (Option-cases (process_current s)) [
  | inl e ↦ rw (e, process_fork) v
  | inr (i, e) ↦ rw (e, process_fork) (fork_from-IsValid i s v)
]

wake_parent-IsValid : (ppid : ℤ) (s : Procs) → IsValid s → IsValid (wake_parent ppid s)
unfolding wake_parent
wake_parent-IsValid ppid s v = elim (Bool-cases (positive ppid)) [
  | inr p ↦ rw p v
  | inl p ↦ rw p (elim (Option-cases (process_find ppid s)) [
    | inl e ↦ rw (e, wake_parent) v
    | inr (i, e) ↦
        rw (e, wake_parent)
          (elim (Bool-cases (is_blocked (process s.table i).state)) [
            | inr b ↦ rw b v
            | inl b ↦
                let (h, l) = found_in ppid s v e in
                rw b (update-IsValid i (λ p. record p { state = ready }) s h refl (λ _. l) v)
          ])
  ])
]

pub process_exit-IsValid : (code : ℤ) (s : Procs) → IsValid s → IsValid (process_exit code s)
unfolding process_exit exit_at
process_exit-IsValid code s v = elim (Option-cases (process_current s)) [
  | inl e ↦ rw (e, process_exit) v
  | inr (i, e) ↦
      let (h, l) = current_in s v e in
      rw (e, process_exit)
        (wake_parent-IsValid (process s.table i).ppid _ (
          update-IsValid i (λ p. record p { exit_code = code; state = zombie }) s h refl (λ _. l)
            v))
]

unschedule-IsValid :
    (cur : Option ℕ) (s : Procs)
    → ((i : ℕ) → cur ≡ some i → (i < max_processes) × IsLive (process s.table i))
    → IsValid s
    → IsValid (unschedule cur s)
unfolding unschedule
unschedule-IsValid none s h v = v
unschedule-IsValid (some i) s h v = elim (Bool-cases (is_running (process s.table i).state)) [
  | inr e ↦ rw e v
  | inl e ↦
      let (b, l) = h i refl in
      rw e (update-IsValid i (λ p. record p { state = ready }) s b refl (λ _. l) v)
]

-- It leaves a live process live.
unschedule-IsLive :
    (cur : Option ℕ) (s : Procs) (i : ℕ)
    → ((k : ℕ) → cur ≡ some k → k < max_processes)
    → IsValid s
    → IsLive (process s.table i)
    → IsLive (process (unschedule cur s).table i)
unfolding unschedule
unschedule-IsLive none s i h v l = l
unschedule-IsLive (some k) s i h v l = ground (
  arith,
  process-update k i (λ p. record p { state = ready }) s (omega (arith, v.size, h k refl)),
)

-- The state that one round of `process_wait` leaves.
abbrev pub state_of : Waited → Procs
state_of (collected pid code s) = s
state_of (childless s) = s
state_of (halted s) = s

pub wait_round-IsValid :
    (parent : ℕ) (s : Procs) → IsValid s → IsValid (state_of (wait_round parent s))
unfolding wait_round
wait_round-IsValid parent s v = elim (Option-cases (find_index (zombie_child pid) 0 s.table)) [
  | inr (i, e) ↦ rw (e, wait_round) (process_destroy-IsValid (pos (process s.table i).pid) s v)
  | inl e ↦
      rw (e, wait_round)
        (elim (Option-cases (find_index (live_child pid) 0 s.table)) [
          | inl q ↦ rw (q, wait_round) v
          | inr (i, q) ↦ rw (q, wait_round) v
        ])
]
  where
    pid : ℕ
    pid = (process s.table parent).pid

pub process_switch-IsValid : (pid : ℤ) (s : Procs) → IsValid s → IsValid (process_switch pid s)
unfolding process_switch switch_into
process_switch-IsValid pid s v = elim (Bool-cases (eq_ℤ pid s.current_pid)) [
  | inl e ↦ rw e v
  | inr e ↦ rw e (elim (Option-cases (process_find pid s)) [
    | inl q ↦ rw (q, process_switch) v
    | inr (i, q) ↦
        rw (q, process_switch)
          (elim (Bool-cases (is_ready (process s.table i).state)) [
            | inr r ↦ rw r v
            | inl r ↦
                let (h, l) = found_in pid s v q in
                rw r (
                  update-IsValid i (λ p. record p { state = running }) s1 h refl
                    (λ _.
                      unschedule-IsLive (process_current s) s i (λ k c. (current_in s v c).0) v l)
                    v1)
          ])
  ])
]
  where
    s1 : Procs
    s1 = unschedule (process_current s) s

    v1 : IsValid s1
    v1 = unschedule-IsValid (process_current s) s (λ k c. current_in s v c) v

-- A call by some part of the kernel; `waits` is one round of `process_wait` for a parent's slot.
pub data Call : Type 0 where
  creates sets_current destroys exits switches : ℤ → Call
  forks : Call
  waits : ℕ → Call

pub call : Call → Procs → Procs
call (creates ppid) s = (process_create ppid s).1
call (sets_current pid) s = process_set_current pid s
call (destroys pid) s = process_destroy pid s
call (exits code) s = process_exit code s
call (switches pid) s = process_switch pid s
call forks s = (process_fork s).1
call (waits parent) s = state_of (wait_round parent s)

pub run : List Call → Procs → Procs
run [] s = s
run (c ∷ cs) s = run cs (call c s)

-- Every call, in any valid state and with any arguments, leaves a valid table: the pids of the
-- live processes stay distinct, positive and below the next pid to be given out.
call-IsValid : (c : Call) (s : Procs) → IsValid s → IsValid (call c s)
unfolding call process_set_current
call-IsValid (creates ppid) s v = process_create-IsValid ppid s v
call-IsValid (sets_current pid) s v = v
call-IsValid (destroys pid) s v = process_destroy-IsValid pid s v
call-IsValid (exits code) s v = process_exit-IsValid code s v
call-IsValid (switches pid) s v = process_switch-IsValid pid s v
call-IsValid forks s v = process_fork-IsValid s v
call-IsValid (waits parent) s v = wait_round-IsValid parent s v

run-IsValid : (cs : List Call) (s : Procs) → IsValid s → IsValid (run cs s)
unfolding run
run-IsValid [] s v = v
run-IsValid (c ∷ cs) s v = run-IsValid cs (call c s) (call-IsValid c s v)

-- After fewer than 2^31 - 1 calls since `process_init`, other than `process_schedule`, the pids of the
-- live processes are distinct, positive and below the next pid.
pub run-init-IsValid :
    (cs : List Call) (s : Procs) → length cs < 2 ^ 31 - 1 → IsValid (run cs (process_init s))
run-init-IsValid cs s few = run-IsValid cs (process_init s) (process_init-IsValid s)
