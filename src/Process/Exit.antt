-- ===== src/Process/Exit.antt =====
-- `process_exit` of kernel/proc/process.c, and the collection of its exit code.
use jimir_os.Common.{
  ℕ, ◌<◌, ◌≡◌, ◌≢◌, ◌∙◌, refl, ap, sym, subst, true, some, length, arith, Bool-cases, Option-cases,
  inl, inr, ◌⊎◌,
}
use jimir_os.Common.Int.{ℤ, pos}
use jimir_os.Common.Search.{find_index, find_index-some}
use jimir_os.Process.{
  Process, Procs, ProcState, process, update, max_processes, no_process, is_blocked, process_find,
  zombie, blocked, ready, process_current, wake_parent, positive, exit_at, process_exit, has_pid,
}
use jimir_os.Process.Table.{IsValid, IsLive, process-update, process_find-some, process_find_iff}
use jimir_os.Process.Invariant.{update-IsValid, current_in}

abbrev wake : Process → Process
wake p = record p { state = ready }

-- The wake-up makes one blocked process ready, if any.
wake-form :
    (ppid : ℤ) (t : Procs)
    → (wake_parent ppid t ≡ t)
      ⊎ ((k : ℕ) × (k < length t.table)
          × ((process t.table k).state ≡ blocked)
          × (wake_parent ppid t ≡ update k wake t))
unfolding wake_parent process_find
wake-form ppid t = elim (Bool-cases (positive ppid)) [
  | inr p ↦ inl (rw p refl)
  | inl p ↦ elim (Option-cases (find_index (has_pid ppid) 0 t.table)) [
    | inl e ↦ inl (ground (arith, e))
    | inr (k, e) ↦
        let (hk, pk) = find_index-some (has_pid ppid) no_process t.table e in
        elim (Bool-cases (is_blocked (process t.table k).state)) [
          | inr b ↦ inl (ground (arith, e, b))
          | inl b ↦ inr (k, hk, blocked_of (process t.table k).state b, ground (arith, e, b, p))
        ]
  ]
]
  where
    blocked_of : (x : ProcState) → is_blocked x ≡ true → x ≡ blocked
    blocked_of x b = ground arith

abbrev dying : ℤ → Process → Process
dying code p = record p { exit_code = code; state = zombie }

exit_form :
    (code : ℤ) (s : Procs) {i : ℕ}
    → process_current s ≡ some i
    → process_exit code s ≡ exit_at i code s
unfolding process_exit
exit_form code s c = ground (arith, c)

-- The process that exits is a zombie with its exit code, and otherwise as it was.
process_exit-zombie :
    (code : ℤ) (s : Procs) {i : ℕ}
    → IsValid s
    → process_current s ≡ some i
    → process (process_exit code s).table i
      ≡ record (process s.table i) { exit_code = code; state = zombie }
unfolding exit_at
process_exit-zombie code s {i} v c =
    let (h, l) = current_in s v c in
    let died = process-update i i (dying code) s (omega (arith, v.size)) in
    rw (exit_form code s c) (elim (wake-form (process s.table i).ppid (update i (dying code) s)) [
      | inl e ↦ rw e (ground (arith, died))
      | inr (k, hk, b, e) ↦
          rw e (ground (arith, died, process-update k i wake (update i (dying code) s) hk))
    ])

wake_at :
    (p : ℕ) (t : Procs) {j : ℕ}
    → 0 < p
    → process_find (pos p) t ≡ some j
    → (process t.table j).state ≡ blocked
    → wake_parent (pos p) t ≡ update j wake t
unfolding wake_parent
wake_at p t h f b = ground (arith, f, b)

-- A parent that is blocked when its child exits is ready afterwards.
process_exit-wakes :
    (code : ℤ) (s : Procs) {i : ℕ} (j p : ℕ)
    → IsValid s
    → process_current s ≡ some i
    → (process s.table i).ppid ≡ pos p
    → process_find (pos p) s ≡ some j
    → (process s.table j).state ≡ blocked
    → j ≢ i
    → (process (process_exit code s).table j).state ≡ ready
unfolding exit_at
process_exit-wakes code s {i} j p v c q f b d =
    rw (exit_form code s c, q)
      (rw
        (wake_at p t (omega (arith, positive_pid, found_s.2)) found
          (ap (λ (x : Process). x.state) same ∙ b))
        (ground (arith, process-update j j wake t (omega (arith, size.size, hj)))))
  where
    h : i < max_processes
    h = (current_in s v c).0

    found_s : (j < length s.table) × IsLive (process s.table j) × ((process s.table j).pid ≡ p)
    found_s = process_find-some p s f

    hj : j < max_processes
    hj = omega (arith, found_s.0, v.size)

    positive_pid : 0 < (process s.table j).pid
    positive_pid = (v.pid_in j hj found_s.1).0

    t : Procs
    t = update i (dying code) s

    size : IsValid t
    size = update-IsValid i (dying code) s h refl (λ _. (current_in s v c).1) v

    same : process t.table j ≡ process s.table j
    same = ground (arith, process-update i j (dying code) s (omega (arith, v.size, h)))

    found : process_find (pos p) t ≡ some j
    found =
        (process_find_iff p j t size hj).1
          (subst IsLive (sym same) found_s.1, ap (λ (x : Process). x.pid) same ∙ found_s.2)
