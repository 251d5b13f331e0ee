-- ===== src/Htas.antt =====
-- The topology-aware scheduler: kernel/sched/htas.c and kernel/include/kernel/htas.h.
-- The static variables are the record `Htas`; `printf` and the delay loops are left out.
pub mod State
pub mod Affinity
pub mod Select
pub mod Pick
mod Tests
use Prim.Native.Nat.{bit_and, bit_or}
use jimir_os.Common.{
  ℕ, zero, suc, ◌+◌, ◌-◌, ◌*◌, ◌%◌, ◌^◌, ◌≡◌, Bool, true, false, ◌&&◌, ◌||◌, not, Option, none,
  some, List, [], ◌∷◌, ltb, leb, ◌==◌, if◌then◌else◌, length, get_or, modify, map_from,
}
use jimir_os.Common.Int.{ℤ, pos, negsuc, minus_one}
use jimir_os.Process.{
  Process, Procs, TaskProfile, HtasTaskInfo, process, max_processes, is_ready, is_running,
  is_unused, process_find, process_current, update,
}

abbrev pub num_cpus : ℕ
num_cpus = 4

-- `cpu_type_t`
pub data CpuType : Type 0 where
  pcore ecore : CpuType

abbrev pub is_pcore : CpuType → Bool
is_pcore pcore = true
is_pcore ecore = false

-- `cpu_info_t`; the index in the table is the `cpu_id`.
pub record CpuInfo : Type 0 where
  pub cpu_type : CpuType
  pub numa_node : ℕ

abbrev pub cpu : CpuType → ℕ → CpuInfo
cpu t n = record { cpu_type = t; numa_node = n }

-- `g_cpu_topology`, all on line and never written.
abbrev pub g_cpu_topology : List CpuInfo
g_cpu_topology = cpu pcore 0 ∷ cpu pcore 0 ∷ cpu ecore 1 ∷ cpu ecore 1 ∷ []

-- `g_numa_regions`: base and size.
abbrev pub g_numa_regions : List (ℕ × ℕ)
g_numa_regions = (0x0000_0000, 0x0800_0000) ∷ (0x0800_0000, 0x0800_0000) ∷ []

abbrev pub profile_performance : ℕ
profile_performance = 0

abbrev pub profile_efficiency : ℕ
profile_efficiency = 1

abbrev pub profile_low_latency : ℕ
profile_low_latency = 2

abbrev pub profile_default : ℕ
profile_default = 3

abbrev pub low_latency_priority_boost : ℕ
low_latency_priority_boost = 10

abbrev pub aging_threshold : ℕ
aging_threshold = 100

abbrev pub aging_priority_boost : ℕ
aging_priority_boost = 5

unfoldable pub htas_get_cpu_type : ℕ → CpuType
htas_get_cpu_type cpu_id =
    if leb num_cpus cpu_id then pcore else (get_or g_cpu_topology cpu_id (cpu pcore 0)).cpu_type

unfoldable pub htas_get_numa_node_for_cpu : ℕ → ℕ
htas_get_numa_node_for_cpu cpu_id =
    if leb num_cpus cpu_id then 0 else (get_or g_cpu_topology cpu_id (cpu pcore 0)).numa_node

-- The loop over the regions, from region `i` on; `end` is computed in 32 bits.
unfoldable pub node_from : ℕ → ℕ → List (ℕ × ℕ) → ℕ
node_from address i [] = 0
node_from address i ((base, size) ∷ regions) =
    let rest = node_from address (suc i) regions in
    if leb base address && ltb address ((base + size) % 2 ^ 32) then i else rest

unfoldable pub htas_get_numa_node_for_address : ℕ → ℕ
unfolding node_from
htas_get_numa_node_for_address addr = node_from addr 0 g_numa_regions

-- `for (i = 0; i < NUM_CPUS; i++) if (…) mask |= (1 << i);`, from processor `i` on.
unfoldable pub mask_of : (CpuInfo → Bool) → ℕ → ℕ → List CpuInfo → ℕ
mask_of test i mask [] = mask
mask_of test i mask (c ∷ cs) =
    mask_of test (suc i) (if test c then bit_or mask (2 ^ i) else mask) cs

-- The `switch` over the intent; another number than the four leaves the mask 0.
unfoldable pub intent_mask : ℕ → ℕ
unfolding mask_of
intent_mask intent =
    if intent == profile_performance || intent == profile_low_latency
    then mask_of (λ c. is_pcore c.cpu_type) 0 0 g_cpu_topology
    else if intent == profile_efficiency
    then mask_of (λ c. not (is_pcore c.cpu_type)) 0 0 g_cpu_topology
    else if intent == profile_default
    then 2 ^ num_cpus - 1
    else 0

unfoldable pub numa_mask : ℕ → ℕ
unfolding mask_of
numa_mask node = mask_of (λ c. c.numa_node == node) 0 0 g_cpu_topology

-- The recursive call of the source, with no data region, gives the mask of the intent.
unfoldable pub htas_calculate_affinity : TaskProfile → ℕ
unfolding intent_mask numa_mask htas_get_numa_node_for_address
htas_calculate_affinity profile =
    if profile.primary_data_region == 0
    then intent_mask profile.intent
    else (let mask =
          bit_and (intent_mask profile.intent)
            (numa_mask (htas_get_numa_node_for_address profile.primary_data_region)) in
        if mask == 0 then intent_mask profile.intent else mask)

unfoldable pub htas_can_run_on_cpu : Process → ℕ → Bool
htas_can_run_on_cpu proc cpu_id = if leb num_cpus cpu_id then false else elim proc.htas_info [
  | none ↦ true
  | some info ↦ not (bit_and info.cpu_affinity_mask (2 ^ cpu_id) == 0)
]

-- The record that `memset` clears.
abbrev pub no_info : HtasTaskInfo
no_info = record {
  profile = record { intent = 0; primary_data_region = 0; data_size = 0 };
  cpu_affinity_mask = 0;
  priority_boost = 0;
  preferred_numa_node = 0;
  wait_time = 0;
  priority_boost_aging = 0;
  total_runtime_us = 0;
  total_switches = 0;
  numa_penalties = 0;
}

-- The assignments of `sys_sched_set_profile` to the record.
unfoldable pub with_profile : TaskProfile → HtasTaskInfo → HtasTaskInfo
with_profile profile info = record info {
  profile = profile;
  cpu_affinity_mask = htas_calculate_affinity profile;
  priority_boost = if profile.intent == profile_low_latency then low_latency_priority_boost else 0;
  preferred_numa_node =
      if profile.primary_data_region == 0
      then 0
      else htas_get_numa_node_for_address profile.primary_data_region;
}

abbrev pub set_profile : TaskProfile → Process → Process
set_profile profile proc = record proc {
  htas_info =
      some (with_profile profile (elim proc.htas_info [ none ↦ no_info | some info ↦ info ]));
}

abbrev pub has_info : Process → Bool
has_info proc = elim proc.htas_info [ none ↦ false | some _ ↦ true ]

-- `allocated` is whether `kmalloc` gives memory. `pid` is the `uint32_t` read as an `int`.
unfoldable pub sys_sched_set_profile : Bool → ℤ → TaskProfile → Procs → ℤ × Procs
sys_sched_set_profile allocated pid profile s = elim (process_find pid s) [
  | none ↦ (minus_one, s)
  | some i ↦
      if has_info (process s.table i) || allocated
      then (pos 0, update i (set_profile profile) s)
      else (minus_one, s)
]

abbrev pub runnable : Process → Bool
runnable p = is_ready p.state || is_running p.state

-- The priority that `htas_select_next` computes.
unfoldable pub task_priority : ℕ → Process → ℕ
task_priority cpu_id proc = elim proc.htas_info [
  | none ↦ 0
  | some info ↦
      info.priority_boost
      + info.priority_boost_aging
      + (if info.preferred_numa_node == htas_get_numa_node_for_cpu cpu_id then 5 else 0)
]

-- `best` and `best_priority`: the slot and its priority. With no best yet any candidate is taken,
-- since -1000 is below every priority.
unfoldable pub consider : ℕ → ℕ → Process → Option (ℕ × ℕ) → Option (ℕ × ℕ)
consider cpu_id i p best =
    if runnable p && htas_can_run_on_cpu p cpu_id
    then elim best [
      | none ↦ some (i, task_priority cpu_id p)
      | some (b, priority) ↦
          if ltb priority (task_priority cpu_id p)
          then some (i, task_priority cpu_id p)
          else some (b, priority)
    ]
    else best

unfoldable pub select_from : ℕ → ℕ → Option (ℕ × ℕ) → List Process → Option (ℕ × ℕ)
select_from cpu_id i best [] = best
select_from cpu_id i best (p ∷ ps) = select_from cpu_id (suc i) (consider cpu_id i p best) ps

abbrev pub best_slot : Option (ℕ × ℕ) → Option ℕ
best_slot none = none
best_slot (some (i, priority)) = some i

unfoldable pub htas_select_next : ℕ → List Process → Option ℕ
htas_select_next cpu_id ps = best_slot (select_from cpu_id 0 none ps)
