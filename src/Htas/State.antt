-- ===== src/Htas/State.antt =====
-- The static state of kernel/sched/htas.c with its statistics, and the operations on it.
use jimir_os.Common.{
  ℕ, zero, suc, ◌+◌, ◌%◌, ◌^◌, Bool, true, false, ◌&&◌, not, Option, none, some, List, ltb, ◌==◌,
  if◌then◌else◌, modify, map_from, replicate,
}
use jimir_os.Process.{
  Process, Procs, HtasTaskInfo, process, max_processes, is_ready, process_current, update,
}
use jimir_os.Htas.{
  is_pcore, num_cpus, htas_get_cpu_type, htas_get_numa_node_for_cpu, htas_get_numa_node_for_address,
  runnable, htas_select_next, aging_threshold, aging_priority_boost, profile_default,
}

-- `scheduler_type_t`, without the prefix `SCHED_`.
pub data SchedulerType : Type 0 where
  baseline htas dynamic : SchedulerType

abbrev pub is_baseline : SchedulerType → Bool
is_baseline baseline = true
is_baseline _ = false

abbrev pub is_htas : SchedulerType → Bool
is_htas htas = true
is_htas _ = false

pub record IntentStats : Type 0 where
  pub runtime_us : ℕ
  pub switches : ℕ
  pub avg_latency_us : ℕ
  pub max_jitter_us : ℕ

-- `scheduler_stats_t`; every counter is a `uint64_t`.
pub record Stats : Type 0 where
  pub total_ticks : ℕ
  pub context_switches : ℕ
  pub numa_penalties : ℕ
  pub ecore_time_us : ℕ
  pub pcore_time_us : ℕ
  pub intent_stats : List IntentStats
  pub total_power_consumption : ℕ

-- `rr_cursor` is the static variable of `baseline_select_next`, `none` for -1.
pub record Htas : Type 0 where
  pub current_scheduler : SchedulerType
  pub current_cpu : ℕ
  pub tick_counter : ℕ
  pub rr_cursor : Option ℕ
  pub baseline_stats : Stats
  pub htas_stats : Stats

abbrev pub add64 : ℕ → ℕ → ℕ
add64 a b = (a + b) % 2 ^ 64

abbrev pub no_intent_stats : IntentStats
no_intent_stats = record { runtime_us = 0; switches = 0; avg_latency_us = 0; max_jitter_us = 0 }

-- What `memset` leaves of the statistics.
abbrev pub no_stats : Stats
no_stats = record {
  total_ticks = 0;
  context_switches = 0;
  numa_penalties = 0;
  ecore_time_us = 0;
  pcore_time_us = 0;
  intent_stats = replicate 4 no_intent_stats;
  total_power_consumption = 0;
}

-- Only these three are set; `g_current_cpu`, the ticks and the cursor keep their values.
unfoldable pub htas_init : Htas → Htas
htas_init h = record h {
  baseline_stats = no_stats;
  htas_stats = no_stats;
  current_scheduler = baseline;
}

unfoldable pub htas_set_scheduler : SchedulerType → Htas → Htas
htas_set_scheduler type h = record h { current_scheduler = type }

unfoldable pub htas_reset_stats : Htas → Htas
htas_reset_stats h = record h { baseline_stats = no_stats; htas_stats = no_stats }

unfoldable pub htas_get_stats : Htas → Stats
htas_get_stats h = if is_baseline h.current_scheduler then h.baseline_stats else h.htas_stats

-- An assignment through `active_stats()`.
unfoldable pub on_active : (Stats → Stats) → Htas → Htas
on_active f h =
    if is_baseline h.current_scheduler
    then record h { baseline_stats = f h.baseline_stats }
    else record h { htas_stats = f h.htas_stats }

-- The kernel's process table beside the scheduler's state.
pub record Kernel : Type 0 where
  pub procs : Procs
  pub sched : Htas

-- The second loop of `baseline_select_next`: `n` rounds are left, from slot `idx` on.
unfoldable pub rr_scan : ℕ → ℕ → Option ℕ → List Process → Option ℕ
rr_scan zero idx candidate ps = none
rr_scan (suc n) idx candidate ps =
    let rest = rr_scan n ((idx + 1) % max_processes) candidate ps in
    if runnable (process ps idx) && not (elim candidate [ none ↦ false | some c ↦ idx == c ])
    then some idx
    else rest

-- The current process, if it can go on.
abbrev pub candidate_of : Option ℕ → List Process → Option ℕ
candidate_of none ps = none
candidate_of (some i) ps = if runnable (process ps i) then some i else none

abbrev pub cursor_of : Option ℕ → Option ℕ → Option ℕ
cursor_of none cursor = cursor
cursor_of (some i) cursor = some i

abbrev pub rr_start : Option ℕ → ℕ
rr_start none = 0
rr_start (some i) = (i + 1) % max_processes

-- The selected slot and the cursor that it leaves. The first loop only finds the slot of the
-- current process.
unfoldable pub baseline_select_next : Option ℕ → Option ℕ → List Process → Option ℕ × Option ℕ
baseline_select_next current cursor ps =
    let candidate = candidate_of current ps in
    let cursor' = cursor_of current cursor in
    elim (rr_scan max_processes (rr_start cursor') candidate ps) [
      | some i ↦ (some i, some i)
      | none ↦ elim candidate [ some i ↦ (some i, cursor') | none ↦ (none, none) ]
    ]

-- The body of the ageing loop for a task that was not picked.
abbrev pub age_info : HtasTaskInfo → HtasTaskInfo
age_info info =
    let waited = (info.wait_time + 1) % 2 ^ 32 in
    if ltb aging_threshold waited
    then record info { wait_time = waited; priority_boost_aging = aging_priority_boost }
    else record info { wait_time = waited }

unfoldable pub age_unpicked : ℕ → ℕ → Process → Process
age_unpicked next i p =
    if is_ready p.state && not (i == next)
    then record p {
      htas_info = elim p.htas_info [ none ↦ none | some info ↦ some (age_info info) ];
    }
    else p

unfoldable pub tick_stats : Htas → Htas
unfolding on_active
tick_stats h =
    on_active (λ s. record s { total_ticks = add64 s.total_ticks 1 })
      (record h { tick_counter = add64 h.tick_counter 1 })

-- The selection of `htas_pick_next_process`, with the cursor that it leaves.
unfoldable pub select_next : Kernel → Option ℕ × Option ℕ
select_next k =
    if is_baseline k.sched.current_scheduler
    then baseline_select_next (process_current k.procs) k.sched.rr_cursor k.procs.table
    else (htas_select_next k.sched.current_cpu k.procs.table, k.sched.rr_cursor)

unfoldable pub age_after : SchedulerType → ℕ → List Process → List Process
age_after type next ps = if is_htas type then map_from (age_unpicked next) 0 ps else ps

-- The slot to run next: the caller's `current` where nothing can run.
unfoldable pub htas_pick_next_process : Option ℕ → Kernel → Option ℕ × Kernel
unfolding tick_stats select_next
htas_pick_next_process current k =
    let (next, cursor) = select_next k in
    let h = record (tick_stats k.sched) { rr_cursor = cursor } in
    elim next [
      | none ↦ (current, record k { sched = h })
      | some i ↦ (
        some i,
        record k {
          procs = record (k.procs) { table = age_after k.sched.current_scheduler i k.procs.table };
          sched = h;
        },
      )
    ]

-- The assignments of `htas_record_switch` to the task that gets the processor.
abbrev pub reset_age : HtasTaskInfo → HtasTaskInfo
reset_age info = record info {
  wait_time = 0;
  priority_boost_aging = 0;
  total_switches = add64 info.total_switches 1;
}

abbrev pub count_switch : IntentStats → IntentStats
count_switch s = record s { switches = add64 s.switches 1 }

abbrev pub clamp_intent : ℕ → ℕ
clamp_intent intent = if ltb profile_default intent then profile_default else intent

unfoldable pub intent_switch : Process → Stats → Stats
intent_switch p s = elim p.htas_info [
  | none ↦ s
  | some info ↦ record s {
    intent_stats = modify s.intent_stats (clamp_intent info.profile.intent) count_switch;
  }
]

unfoldable pub cpu_cost : ℕ → Stats → Stats
cpu_cost cpu_id s =
    if is_pcore (htas_get_cpu_type cpu_id)
    then record s {
      total_power_consumption = add64 s.total_power_consumption 100;
      pcore_time_us = add64 s.pcore_time_us 10;
    }
    else record s {
      total_power_consumption = add64 s.total_power_consumption 40;
      ecore_time_us = add64 s.ecore_time_us 10;
    }

abbrev pub reset_task : Process → Process
reset_task p = record p {
  htas_info = elim p.htas_info [ none ↦ none | some info ↦ some (reset_age info) ];
}

-- The switch to slot `next`, once it is known to be another one than the current.
unfoldable pub switch_to : ℕ → Kernel → Kernel
unfolding on_active intent_switch cpu_cost
switch_to next k =
    let h =
      on_active
        (λ s. cpu_cost k.sched.current_cpu (
          intent_switch (process k.procs.table next)
            (record s { context_switches = add64 s.context_switches 1 })))
        k.sched in
    record k {
      procs = update next reset_task k.procs;
      sched = record h { current_cpu = (h.current_cpu + 1) % num_cpus };
    }

unfoldable pub htas_record_switch : Option ℕ → Option ℕ → Kernel → Kernel
htas_record_switch current none k = k
htas_record_switch none (some next) k = switch_to next k
htas_record_switch (some cur) (some next) k = if next == cur then k else switch_to next k

-- The simulated access to `addr` by the process in slot `i`.
unfoldable pub htas_simulate_memory_access : Option ℕ → ℕ → Kernel → Kernel
unfolding on_active
htas_simulate_memory_access none addr k = k
htas_simulate_memory_access (some i) addr k = elim (process k.procs.table i).htas_info [
  | none ↦ k
  | some info ↦
      if htas_get_numa_node_for_address addr == htas_get_numa_node_for_cpu k.sched.current_cpu
      then k
      else record k {
        procs =
            update i
              (λ p. record p {
                htas_info = some (record info { numa_penalties = add64 info.numa_penalties 1 });
              })
              k.procs;
        sched = on_active (λ s. record s { numa_penalties = add64 s.numa_penalties 1 }) k.sched;
      }
]
