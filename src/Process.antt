-- ===== src/Process.antt =====
-- User processes: kernel/proc/process.c and kernel/include/kernel/process.h, with the task record
-- that kernel/include/kernel/htas.h hangs on a process.
-- A `process_t *` into the table is the index of its slot. `cr3` is the register of that name.
-- `freed` logs the page directories given to `free_user_address_space`, the last one first: what
-- that function does to memory is not part of this component.
pub mod Table
pub mod Invariant
pub mod Calls
pub mod Create
pub mod Fork
pub mod Reap
pub mod Exit
mod Tests
use jimir_os.Common.{
  ℕ, zero, suc, ◌+◌, ◌≡◌, Bool, true, false, ◌&&◌, ◌||◌, not, Option, none, some, List, [], ◌∷◌,
  ltb, ◌==◌, if◌then◌else◌, length, get_or, modify, replicate,
}
use jimir_os.Common.Search.{find_index}
use jimir_os.Common.Int.{ℤ, pos, negsuc, minus_one, eq_ℤ}

abbrev pub max_processes : ℕ
max_processes = 32

-- `proc_state_t`, without the prefix `PROC_`.
pub data ProcState : Type 0 where
  unused ready running blocked zombie : ProcState

-- `proc_context_t`
pub record ProcContext : Type 0 where
  pub eax : ℕ
  pub ebx : ℕ
  pub ecx : ℕ
  pub edx : ℕ
  pub esi : ℕ
  pub edi : ℕ
  pub ebp : ℕ
  pub esp : ℕ
  pub eip : ℕ
  pub eflags : ℕ
  pub cs : ℕ
  pub ds : ℕ
  pub ss : ℕ
  pub es : ℕ
  pub fs : ℕ
  pub gs : ℕ

-- `task_profile_t`; `intent` is the number that the enumeration stores, which need not be one of
-- its four values.
pub record TaskProfile : Type 0 where
  pub intent : ℕ
  pub primary_data_region : ℕ
  pub data_size : ℕ

-- `htas_task_info_t`
pub record HtasTaskInfo : Type 0 where
  pub profile : TaskProfile
  pub cpu_affinity_mask : ℕ
  pub priority_boost : ℕ
  pub preferred_numa_node : ℕ
  pub wait_time : ℕ
  pub priority_boost_aging : ℕ
  pub total_runtime_us : ℕ
  pub total_switches : ℕ
  pub numa_penalties : ℕ

-- `process_t`. The record behind `htas_info` belongs to one process at most, so it is a part of it;
-- `none` is a null pointer.
pub record Process : Type 0 where
  pub pid : ℕ
  pub ppid : ℤ
  pub state : ProcState
  pub page_dir : ℕ
  pub context : ProcContext
  pub exit_code : ℤ
  pub brk : ℕ
  pub htas_info : Option HtasTaskInfo
  pub user_data : ℕ

-- The static variables. `next_pid` starts at 1 and only grows; it is taken not to pass `INT_MAX`.
pub record Procs : Type 0 where
  pub table : List Process
  pub current_pid : ℤ
  pub next_pid : ℕ
  pub cr3 : ℕ
  pub freed : List ℕ

abbrev pub zero_context : ProcContext
zero_context = record {
  eax = 0;
  ebx = 0;
  ecx = 0;
  edx = 0;
  esi = 0;
  edi = 0;
  ebp = 0;
  esp = 0;
  eip = 0;
  eflags = 0;
  cs = 0;
  ds = 0;
  ss = 0;
  es = 0;
  fs = 0;
  gs = 0;
}

-- What `memset(process_table, 0, …)` leaves in a slot.
abbrev pub no_process : Process
no_process = record {
  pid = 0;
  ppid = pos 0;
  state = unused;
  page_dir = 0;
  context = zero_context;
  exit_code = pos 0;
  brk = 0;
  htas_info = none;
  user_data = 0;
}

abbrev pub is_unused : ProcState → Bool
is_unused unused = true
is_unused _ = false

abbrev pub is_ready : ProcState → Bool
is_ready ready = true
is_ready _ = false

abbrev pub is_running : ProcState → Bool
is_running running = true
is_running _ = false

abbrev pub is_blocked : ProcState → Bool
is_blocked blocked = true
is_blocked _ = false

abbrev pub is_zombie : ProcState → Bool
is_zombie zombie = true
is_zombie _ = false

abbrev pub process : List Process → ℕ → Process
process ps i = get_or ps i no_process

-- An assignment to fields of `process_table[i]`.
abbrev pub update : ℕ → (Process → Process) → Procs → Procs
update i f s = record s { table = modify s.table i f }

unfoldable pub process_init : Procs → Procs
process_init s = record s {
  table = replicate max_processes no_process;
  current_pid = minus_one;
  next_pid = 1;
}

abbrev pub is_free : Process → Bool
is_free p = is_unused p.state

abbrev pub created : ℕ → ℤ → Process → Process
created pid ppid p = record p {
  pid = pid;
  ppid = ppid;
  state = ready;
  page_dir = 0;
  exit_code = pos 0;
  brk = 0;
  htas_info = none;
  user_data = 0;
  context = zero_context;
}

unfoldable pub process_create : ℤ → Procs → ℤ × Procs
process_create ppid s = elim (find_index is_free 0 s.table) [
  | none ↦ (minus_one, s)
  | some i ↦ (
    pos s.next_pid,
    record s { table = modify s.table i (created s.next_pid ppid); next_pid = s.next_pid + 1 },
  )
]

-- The test of `process_find`.
abbrev pub has_pid : ℤ → Process → Bool
has_pid pid p = not (is_unused p.state) && eq_ℤ (pos p.pid) pid

unfoldable pub process_find : ℤ → Procs → Option ℕ
process_find pid s = find_index (has_pid pid) 0 s.table

unfoldable pub current_of : ℤ → Procs → Option ℕ
current_of (pos pid) s = process_find (pos pid) s
current_of (negsuc n) s = none

unfoldable pub process_current : Procs → Option ℕ
process_current s = current_of s.current_pid s

unfoldable pub process_set_current : ℤ → Procs → Procs
process_set_current pid s = record s { current_pid = pid }

-- The call of `free_user_address_space` under its test.
unfoldable pub release_space : ℕ → Procs → Procs
release_space i s = if (process s.table i).page_dir == 0 then s else record s {
  freed = (process s.table i).page_dir ∷ s.freed;
  table = modify s.table i (λ p. record p { page_dir = 0 });
}

unfoldable pub process_destroy : ℤ → Procs → Procs
unfolding release_space
process_destroy pid s = elim (process_find pid s) [
  | none ↦ s
  | some i ↦ update i (λ p. record p { state = unused }) (release_space i s)
]

abbrev pub negative : ℤ → Bool
negative (pos n) = false
negative (negsuc n) = true

-- The directory is shared, not copied.
abbrev pub clone_page_directory : ℕ → ℕ
clone_page_directory src_pd_phys = src_pd_phys

abbrev pub forked : Process → Process → Process
forked parent p = record p {
  context = record (parent.context) { eax = 0 };
  brk = parent.brk;
  state = ready;
}

-- `process_fork` once the child is found, in slot `child`, for the parent in slot `parent`.
unfoldable pub fork_into : ℕ → ℕ → ℤ → Procs → ℤ × Procs
fork_into parent child child_pid s =
    let dir = clone_page_directory (process s.table parent).page_dir in
    let s1 = update child (λ p. record p { page_dir = dir }) s in
    if dir == 0
    then (minus_one, process_destroy child_pid s1)
    else (child_pid, update child (forked (process s1.table parent)) s1)

unfoldable pub fork_from : ℕ → Procs → ℤ × Procs
fork_from parent s =
    let (child_pid, s1) = process_create (pos (process s.table parent).pid) s in
    if negative child_pid then (minus_one, s1) else elim (process_find child_pid s1) [
      | none ↦ (minus_one, s1)
      | some child ↦ fork_into parent child child_pid s1
    ]

unfoldable pub process_fork : Procs → ℤ × Procs
process_fork s = elim (process_current s) [
  | none ↦ (minus_one, s)
  | some parent ↦ fork_from parent s
]

abbrev pub positive : ℤ → Bool
positive (pos n) = ltb 0 n
positive (negsuc n) = false

-- The wake-up of a parent that is blocked.
unfoldable pub wake_parent : ℤ → Procs → Procs
wake_parent ppid s =
    if positive ppid
    then elim (process_find ppid s) [
      | none ↦ s
      | some i ↦
          if is_blocked (process s.table i).state
          then update i (λ p. record p { state = ready }) s
          else s
    ]
    else s

unfoldable pub exit_at : ℕ → ℤ → Procs → Procs
exit_at i code s =
    wake_parent (process s.table i).ppid
      (update i (λ p. record p { exit_code = code; state = zombie }) s)

unfoldable pub process_exit : ℤ → Procs → Procs
process_exit code s = elim (process_current s) [ none ↦ s | some i ↦ exit_at i code s ]

-- The two tests of `process_wait`, for the parent whose pid is `pid`.
abbrev pub zombie_child : ℕ → Process → Bool
zombie_child pid p = is_zombie p.state && eq_ℤ p.ppid (pos pid)

abbrev pub live_child : ℕ → Process → Bool
live_child pid p = not (is_unused p.state) && not (is_zombie p.state) && eq_ℤ p.ppid (pos pid)

-- How one round of the loop of `process_wait` ends: with the zombie child collected (its pid, its
-- exit code and the new state), with -1 since there is no child, or at the `hlt`.
pub data Waited : Type 0 where
  collected : ℕ → ℤ → Procs → Waited
  childless : Procs → Waited
  halted : Procs → Waited

unfoldable pub wait_round : ℕ → Procs → Waited
wait_round parent s =
    let pid = (process s.table parent).pid in
    elim (find_index (zombie_child pid) 0 s.table) [
      | some i ↦
          let p = process s.table i in collected p.pid p.exit_code (process_destroy (pos p.pid) s)
      | none ↦ elim (find_index (live_child pid) 0 s.table) [
        | none ↦ childless s
        | some i ↦ halted s
      ]
    ]

-- The loop: at each `hlt` the rest of the system runs until an interrupt resumes this process, and
-- the list holds what it does to the state each time. `halted` is a loop that has not ended.
unfoldable pub wait_loop : ℕ → List (Procs → Procs) → Procs → Waited
wait_loop parent [] s = wait_round parent s
wait_loop parent (others ∷ rest) s = elim (wait_round parent s) [
  | collected pid code t ↦ collected pid code t
  | childless t ↦ childless t
  | halted t ↦ wait_loop parent rest (others t)
]

unfoldable pub process_wait : List (Procs → Procs) → Procs → Waited
process_wait interrupts s = elim (process_current s) [
  | none ↦ childless s
  | some parent ↦ wait_loop parent interrupts s
]

-- The old process goes back to ready if it was running.
unfoldable pub unschedule : Option ℕ → Procs → Procs
unschedule none s = s
unschedule (some i) s =
    if is_running (process s.table i).state then update i (λ p. record p { state = ready }) s else s

unfoldable pub switch_into : ℕ → ℤ → Procs → Procs
unfolding unschedule
switch_into i new_pid s =
    let s1 = unschedule (process_current s) s in
    record s1 {
      table = modify s1.table i (λ p. record p { state = running });
      current_pid = new_pid;
      cr3 = (process s1.table i).page_dir;
    }

unfoldable pub process_switch : ℤ → Procs → Procs
process_switch new_pid s = if eq_ℤ new_pid s.current_pid then s else elim (process_find new_pid s) [
  | none ↦ s
  | some i ↦ if is_ready (process s.table i).state then switch_into i new_pid s else s
]
