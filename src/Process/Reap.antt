-- ===== src/Process/Reap.antt =====
-- Exit and collection of processes in kernel/proc/process.c.
use jimir_os.Common.{
  ℕ, ◌<◌, ◌≡◌, ◌≢◌, ◌∙◌, refl, ap, sym, subst, true, false, none, some, ◌∷◌, length, arith,
  if◌then◌else◌, Bool-cases, Option-cases, inl, inr, true-ne-false, ◌==◌, ==_iff, length-modify,
  ◌↔◌,
}
use jimir_os.Common.Int.{ℤ, pos}
use jimir_os.Common.Search.{find_index, find_index-some, find_index-exists, find_index-none}
use jimir_os.Process.{
  Process, Procs, process, update, max_processes, no_process, is_unused, process_find,
  release_space, process_destroy, process_fork, unused, process_current, wait_round, collected,
  halted, zombie_child, live_child,
}
use jimir_os.Process.Table.{IsValid, IsLive, process-update, process_find-some, process_find_iff}
use jimir_os.Process.Fork.{process_fork-entry}
use jimir_os.Process.Invariant.{process_destroy-IsValid}

-- What `process_destroy` does to the process that it finds.
destroy_at :
    (pid : ℤ) (s : Procs) {i : ℕ}
    → process_find pid s ≡ some i
    → process_destroy pid s ≡ update i (λ p. record p { state = unused }) (release_space i s)
unfolding process_destroy
destroy_at pid s e = ground (arith, e)

destroyed_entry :
    (pid : ℤ) (s : Procs) {i : ℕ}
    → i < length s.table
    → process_find pid s ≡ some i
    → (j : ℕ)
    → process (process_destroy pid s).table j ≡ (
        if i == j
        then record (process s.table j) { page_dir = 0; state = unused }
        else process s.table j)
unfolding release_space
destroyed_entry pid s {i} h e j = rw (destroy_at pid s e) (
    ground (
      arith,
      process-update i j (λ p. record p { state = unused }) s h,
      process-update i j (λ p. record p { page_dir = 0 }) s h,
      process-update i j (λ p. record p { state = unused })
          (update i (λ p. record p { page_dir = 0 }) s)
          (omega (arith, length-modify s.table i (λ p. record p { page_dir = 0 }))),
    ))

-- Destroying a process gives its page directory, if it has one, to `free_user_address_space`.
destroyed_freed :
    (pid : ℤ) (s : Procs) {i : ℕ}
    → process_find pid s ≡ some i
    → (process s.table i).page_dir ≢ 0
    → (process_destroy pid s).freed ≡ (process s.table i).page_dir ∷ s.freed
unfolding release_space
destroyed_freed pid s {i} e d = ground (arith, destroy_at pid s e)

-- Reaping a forked child hands the parent's page directory to `free_user_address_space`, while the
-- parent is as it was and still names that directory: `clone_page_directory` shares it.
pub process_fork-destroy_frees_parent :
    (parent : ℕ) (s : Procs) {pid : ℕ}
    → IsValid s
    → process_current s ≡ some parent
    → (process_fork s).0 ≡ pos pid
    → let s' = process_destroy (pos pid) (process_fork s).1 in
      (s'.freed ≡ (process s.table parent).page_dir ∷ (process_fork s).1.freed)
      × (process s'.table parent ≡ process s.table parent)
      × ((process s'.table parent).page_dir ≢ 0)
process_fork-destroy_frees_parent parent s {pid} v c r =
    let (child, found, ne, kept, dir, entry) = process_fork-entry parent s v c r in
    let d : (process (process_fork s).1.table child).page_dir ≡ (process s.table parent).page_dir =
      ap (λ (p : Process). p.page_dir) entry in
    let (h, _, _) = process_find-some pid (process_fork s).1 found in
    let at : process (process_destroy (pos pid) (process_fork s).1).table parent
        ≡ process s.table parent =
      ground (arith, destroyed_entry (pos pid) (process_fork s).1 h found parent, kept) in
    (
      destroyed_freed (pos pid) (process_fork s).1 found (λ z. dir (sym d ∙ z))
          ∙ ap (λ (x : ℕ). x ∷ (process_fork s).1.freed) d,
      at,
      (λ z. dir (ap (λ (p : Process). p.page_dir) (sym at) ∙ z)),
    )

-- After its destruction a pid finds nothing.
destroy-gone :
    (pid : ℕ) (s : Procs) {k : ℕ}
    → IsValid s
    → process_find (pos pid) s ≡ some k
    → process_find (pos pid) (process_destroy (pos pid) s) ≡ none
destroy-gone pid s {k} v e = elim (Option-cases (process_find (pos pid) t)) [
  | inl q ↦ q
  | inr (m, q) ↦
      let (hm, lm, pm) = process_find-some pid t q in
      let (hk, lk, pk) = process_find-some pid s e in
      let at = destroyed_entry (pos pid) s hk e m in
      elim (Bool-cases (k == m)) [
        | inl b ↦ absurd (true-ne-false (sym (dead m at b) ∙ lm))
        | inr b ↦
            let same = kept m at b in
            let size = process_destroy-IsValid (pos pid) s v in
            let j =
              v.distinct m k (omega (arith, size.size)) (omega (arith, v.size))
                (subst IsLive same lm) lk (ap (λ (p : Process). p.pid) (sym same) ∙ pm ∙ sym pk) in
            absurd (true-ne-false (sym ((==_iff k m).1 (sym j)) ∙ b))
      ]
]
  where
    t : Procs
    t = process_destroy (pos pid) s

    dead :
        (m : ℕ)
        → process t.table m ≡ (
            if k == m
            then record (process s.table m) { page_dir = 0; state = unused }
            else process s.table m)
        → (k == m) ≡ true
        → is_unused (process t.table m).state ≡ true
    dead m at b = ground (arith, at, b)

    kept :
        (m : ℕ)
        → process t.table m ≡ (
            if k == m
            then record (process s.table m) { page_dir = 0; state = unused }
            else process s.table m)
        → (k == m) ≡ false
        → process t.table m ≡ process s.table m
    kept m at b = ground (arith, at, b)

zombie-IsLive : (pid : ℕ) (p : Process) → zombie_child pid p ≡ true → IsLive p
zombie-IsLive pid p z = ground arith

-- A zombie child is collected in one round of `process_wait`, whatever the order of the table:
-- the round returns the pid and the exit code of a zombie child of the caller, and after it no
-- process has that pid.
pub wait_round-collects :
    (parent i : ℕ) (s : Procs)
    → IsValid s
    → i < max_processes
    → zombie_child (process s.table parent).pid (process s.table i) ≡ true
    → (k : ℕ) × (zombie_child (process s.table parent).pid (process s.table k) ≡ true)
      × (wait_round parent s
          ≡ collected
              (process s.table k).pid
              (process s.table k).exit_code
              (process_destroy (pos (process s.table k).pid) s))
      × (process_find
            (pos (process s.table k).pid)
            (process_destroy (pos (process s.table k).pid) s)
          ≡ none)
unfolding wait_round
wait_round-collects parent i s v h z =
    let test = zombie_child (process s.table parent).pid in
    let (k, e, le) = find_index-exists test no_process s.table i (omega (arith, v.size)) z in
    let (below, zk) = find_index-some test no_process s.table e in
    let hk : k < max_processes = omega (arith, v.size) in
    let found =
      (process_find_iff (process s.table k).pid k s v hk).1
        (zombie-IsLive (process s.table parent).pid (process s.table k) zk, refl) in
    (k, zk, ground (arith, e), destroy-gone (process s.table k).pid s v found)

-- The two searches that a round makes before it sleeps.
halted_at :
    (parent : ℕ) (s : Procs)
    → wait_round parent s ≡ halted s
    → (find_index (zombie_child (process s.table parent).pid) 0 s.table ≡ none)
      × ((i : ℕ) × (find_index (live_child (process s.table parent).pid) 0 s.table ≡ some i))
unfolding wait_round
halted_at parent s e = elim (Option-cases (find_index (zombie_child pid) 0 s.table)) [
  | inr (i, q) ↦ absurd (ground (arith, q))
  | inl q ↦ elim (Option-cases (find_index (live_child pid) 0 s.table)) [
    | inl r ↦ absurd (ground (arith, q, r))
    | inr (i, r) ↦ (q, (i, r))
  ]
]
  where
    pid : ℕ
    pid = (process s.table parent).pid

-- A round of `process_wait` goes to sleep exactly when the caller has a child, and none that is a
-- zombie.
pub wait_round-halts_iff :
    (parent : ℕ) (s : Procs)
    → (wait_round parent s ≡ halted s) ↔ (
        ((i : ℕ)
          → i < length s.table
          → zombie_child (process s.table parent).pid (process s.table i) ≡ false)
        × ((i : ℕ) × (i < length s.table)
            × (live_child (process s.table parent).pid (process s.table i) ≡ true)))
unfolding wait_round
wait_round-halts_iff parent s = (sleeps, slept)
  where
    pid : ℕ
    pid = (process s.table parent).pid

    Sleepy : Type 0
    Sleepy =
        ((i : ℕ) → i < length s.table → zombie_child pid (process s.table i) ≡ false)
        × ((i : ℕ) × (i < length s.table) × (live_child pid (process s.table i) ≡ true))

    sleeps : wait_round parent s ≡ halted s → Sleepy
    sleeps e =
        let (q, (i, r)) = halted_at parent s e in
        let (h, l) = find_index-some (live_child pid) no_process s.table r in
        ((λ j hj. find_index-none (zombie_child pid) no_process s.table j q hj), (i, h, l))

    slept : Sleepy → wait_round parent s ≡ halted s
    slept (quiet, (i, h, l)) = elim (Option-cases (find_index (zombie_child pid) 0 s.table)) [
      | inr (k, q) ↦
          let (hk, zk) = find_index-some (zombie_child pid) no_process s.table q in
          absurd (true-ne-false (sym zk ∙ quiet k hk))
      | inl q ↦
          let (r, e, le) = find_index-exists (live_child pid) no_process s.table i h l in
          ground (arith, q, e)
    ]
