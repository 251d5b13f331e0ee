-- ===== src/Process/Create.antt =====
-- `process_create` of kernel/proc/process.c.
use jimir_os.Common.{
  ℕ, ◌+◌, ◌<◌, ◌≡◌, ap, subst, true, none, some, length, modify, arith, if◌then◌else◌, Option-cases,
  inl, inr, ◌==◌, ◌⊎◌,
}
use jimir_os.Common.Int.{ℤ, pos}
use jimir_os.Common.Search.{find_index, find_index-some}
use jimir_os.Process.{
  ready, Process, Procs, ProcState, process, max_processes, no_process, is_unused, is_free,
  process_find, process_create, created, unused,
}
use jimir_os.Process.Table.{IsValid, process-update, process_find-some, process_find_iff}
use jimir_os.Process.Invariant.{process_create-IsValid}

-- A successful creation is the filling of a free slot.
create_at :
    (ppid : ℤ) (s : Procs) {pid : ℕ}
    → (process_create ppid s).0 ≡ pos pid
    → (i : ℕ) × (find_index is_free 0 s.table ≡ some i)
      × (pid ≡ s.next_pid)
      × ((process_create ppid s).1 ≡ record s {
        table = modify s.table i (created s.next_pid ppid);
        next_pid = s.next_pid + 1;
      })
unfolding process_create
create_at ppid s {pid} e = elim (Option-cases (find_index is_free 0 s.table)) [
  | inl q ↦ absurd (ground arith)
  | inr (i, q) ↦ (i, q, ground arith, ground arith)
]

create_entry :
    (i j next : ℕ) (ppid : ℤ) (s : Procs)
    → i < length s.table
    → process (modify s.table i (created next ppid)) j
      ≡ (if i == j then created next ppid (process s.table j) else process s.table j)
create_entry i j next ppid s h = process-update i j (created next ppid) s h

free_state : (x : ProcState) → is_unused x ≡ true → x ≡ unused
free_state x h = ground arith

-- A pid that is still to be given out finds nothing.
next_pid-unused : (s : Procs) → IsValid s → process_find (pos s.next_pid) s ≡ none
next_pid-unused s v = elim (Option-cases (process_find (pos s.next_pid) s)) [
  | inl e ↦ e
  | inr (k, e) ↦
      let (h, l, q) = process_find-some s.next_pid s e in
      absurd (omega (arith, v.pid_in k (omega (arith, v.size)) l))
]

-- Where `process_create` puts the new process, and what the entry is.
pub process_create-entry :
    (ppid : ℤ) (s : Procs) {pid : ℕ} (j : ℕ)
    → IsValid s
    → (process_create ppid s).0 ≡ pos pid
    → let s' = (process_create ppid s).1 in
      (i : ℕ) × (i < max_processes)
      × (process_find (pos pid) s ≡ none)
      × (process_find (pos pid) s' ≡ some i)
      × ((process s.table i).state ≡ unused)
      × (process s'.table i ≡ created pid ppid (process s.table i))
      × ((j ≡ i) ⊎ (process s'.table j ≡ process s.table j))
process_create-entry ppid s {pid} j v r =
    let (i, e, q, form) = create_at ppid s r in
    let (below, free) = find_index-some is_free no_process s.table e in
    let h : i < max_processes = omega (arith, v.size) in
    let s' = record s {
      table = modify s.table i (created s.next_pid ppid);
      next_pid = s.next_pid + 1;
    } in
    let v' : IsValid s' = subst IsValid form (process_create-IsValid ppid s v) in
    let here : process s'.table i ≡ created s.next_pid ppid (process s.table i) =
      ground (arith, create_entry i i s.next_pid ppid s below) in
    rw (form, q)
      (
        i,
        h,
        next_pid-unused s v,
        (process_find_iff s.next_pid i s' v' h).1
            (ap (λ (p : Process). is_unused p.state) here, ap (λ (p : Process). p.pid) here),
        free_state (process s.table i).state free,
        here,
        others i below,
      )
  where
    others :
        (i : ℕ)
        → i < length s.table
        → (j ≡ i) ⊎ (process (modify s.table i (created s.next_pid ppid)) j ≡ process s.table j)
    others i h = ground (arith, create_entry i j s.next_pid ppid s h)

-- A process that `process_create` makes takes a slot that was free and a pid that no process has;
-- it is ready, a child of the given parent, with no address space, program break or task record;
-- `process_find` finds it, and every other slot is as it was.
pub process_create-fresh :
    (ppid : ℤ) (s : Procs) {pid : ℕ} (j : ℕ)
    → IsValid s
    → (process_create ppid s).0 ≡ pos pid
    → let s' = (process_create ppid s).1 in
      (i : ℕ) × (i < max_processes)
      × (process_find (pos pid) s ≡ none)
      × (process_find (pos pid) s' ≡ some i)
      × ((process s.table i).state ≡ unused)
      × ((process s'.table i).pid ≡ pid)
      × ((process s'.table i).ppid ≡ ppid)
      × ((process s'.table i).state ≡ ready)
      × ((process s'.table i).page_dir ≡ 0)
      × ((process s'.table i).brk ≡ 0)
      × ((process s'.table i).htas_info ≡ none)
      × ((j ≡ i) ⊎ (process s'.table j ≡ process s.table j))
process_create-fresh ppid s {pid} j v r =
    let (i, h, gone, found, free, entry, other) = process_create-entry ppid s j v r in
    (
      i,
      h,
      gone,
      found,
      free,
      ap (λ (q : Process). q.pid) entry,
      ap (λ (q : Process). q.ppid) entry,
      ap (λ (q : Process). q.state) entry,
      ap (λ (q : Process). q.page_dir) entry,
      ap (λ (q : Process). q.brk) entry,
      ap (λ (q : Process). q.htas_info) entry,
      other,
    )
