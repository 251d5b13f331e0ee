-- ===== src/Process/Table.antt =====
-- What the operations of kernel/proc/process.c do to the entries of the process table.
use jimir_os.Common.{
  ℕ, ◌<◌, ◌≡◌, ◌∙◌, sym, true, false, some, List, length, arith, if◌then◌else◌, ◌==◌, get_or-modify,
  ◌↔◌,
}
use jimir_os.Common.Int.{pos}
use jimir_os.Common.Search.{find_index, find_index-some, find_index_unique}
use jimir_os.Process.{
  Process, Procs, process, update, max_processes, no_process, is_unused, has_pid, process_find,
}

abbrev pub IsLive : Process → Type 0
IsLive p = is_unused p.state ≡ false

-- Live processes have distinct pids, each positive and below `next_pid`.
pub record ValidTable (ps : List Process) (next_pid : ℕ) : Type 0 where
  pub size : length ps ≡ max_processes
  pub next_pos : 0 < next_pid
  pub pid_in :
      (i : ℕ)
      → i < max_processes
      → IsLive (process ps i)
      → (0 < (process ps i).pid) × ((process ps i).pid < next_pid)
  pub distinct :
      (i j : ℕ)
      → i < max_processes
      → j < max_processes
      → IsLive (process ps i)
      → IsLive (process ps j)
      → (process ps i).pid ≡ (process ps j).pid
      → i ≡ j

abbrev pub IsValid : Procs → Type 0
IsValid s = ValidTable s.table s.next_pid

pub process-update :
    (i j : ℕ) (f : Process → Process) (s : Procs)
    → i < length s.table
    → process (update i f s).table j ≡ (if i == j then f (process s.table j) else process s.table j)
process-update i j f s h = get_or-modify s.table i j f no_process h

has_pid_of : (pid : ℕ) (p : Process) → has_pid (pos pid) p ≡ true → IsLive p × (p.pid ≡ pid)
has_pid_of pid p h = ground arith

has_pid-live : (pid : ℕ) (p : Process) → IsLive p → p.pid ≡ pid → has_pid (pos pid) p ≡ true
has_pid-live pid p h e = ground arith

-- `process_find` on a pid gives a live process of that pid.
pub process_find-some :
    (pid : ℕ) (s : Procs) {i : ℕ}
    → process_find (pos pid) s ≡ some i
    → (i < length s.table) × IsLive (process s.table i) × ((process s.table i).pid ≡ pid)
unfolding process_find
process_find-some pid s {i} e =
    let (h, p) = find_index-some (has_pid (pos pid)) no_process s.table e in
    let (l, q) = has_pid_of pid (process s.table i) p in (h, l, q)

-- In a valid table `process_find` finds slot `i` exactly if a live process of that pid is there.
pub process_find_iff :
    (pid i : ℕ) (s : Procs)
    → IsValid s
    → i < max_processes
    → (process_find (pos pid) s ≡ some i)
      ↔ (IsLive (process s.table i) × ((process s.table i).pid ≡ pid))
unfolding process_find
process_find_iff pid i s v h =
    (λ e. ((process_find-some pid s e).1, (process_find-some pid s e).2), found)
  where
    found :
        IsLive (process s.table i) × ((process s.table i).pid ≡ pid)
        → find_index (has_pid (pos pid)) 0 s.table ≡ some i
    found (l, q) =
        find_index_unique (has_pid (pos pid)) no_process s.table i (omega (arith, v.size))
          (has_pid-live pid (process s.table i) l q)
          (λ j hj u.
            let (lj, qj) = has_pid_of pid (process s.table j) u in
            v.distinct j i (omega (arith, v.size)) h lj l (qj ∙ sym q))
