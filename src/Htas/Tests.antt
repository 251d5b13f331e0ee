-- ===== src/Htas/Tests.antt =====
-- Runs of kernel/sched/htas.c on small process tables.
use jimir_os.Common.{
  ℕ, ◌≤◌, ◌<◌, ◌≡◌, ◌≢◌, refl, true, none, some, List, [], ◌∷◌, length, replicate, arith,
}
use jimir_os.Process.{Process, TaskProfile, process, no_process, ready}
use jimir_os.Htas.{
  num_cpus, htas_get_numa_node_for_cpu, htas_calculate_affinity, htas_can_run_on_cpu, set_profile,
  no_info, task_priority, consider, select_from, htas_select_next,
}
use jimir_os.Htas.State.{baseline_select_next, candidate_of}
use jimir_os.Htas.Affinity.{expected_mask, suits, htas_calculate_affinity_lem, set_profile-suits}
use jimir_os.Htas.Select.{eligible, htas_select_next-best}
use jimir_os.Htas.Pick.{
  Taken, around, first_slot, picks, Urgent, htas_select_next-starves,
  baseline_select_next-round_robin,
}

-- A ready process that may run everywhere, with a boost of its own and one from ageing.
abbrev task : ℕ → ℕ → Process
task boost aged = record no_process {
  pid = 1;
  state = ready;
  htas_info = some (record no_info {
    cpu_affinity_mask = 15;
    priority_boost = boost;
    priority_boost_aging = aged;
    wait_time = 100;
  });
}

abbrev tasks : List Process
tasks = no_process ∷ task 0 0 ∷ task 10 0 ∷ task 10 0 ∷ replicate 28 no_process

abbrev strict : TaskProfile
strict = record { intent = 1; primary_data_region = 0x100; data_size = 64 }

abbrev odd : TaskProfile
odd = record { intent = 9; primary_data_region = 0; data_size = 0 }

tasks-pick : htas_select_next 0 tasks ≡ some 2
unfolding htas_select_next select_from consider htas_can_run_on_cpu task_priority
    htas_get_numa_node_for_cpu
tasks-pick = refl

tasks-eligible :
    (eligible 0 (process tasks 1) ≡ true)
    × (eligible 0 (process tasks 2) ≡ true)
    × (eligible 0 (process tasks 3) ≡ true)
unfolding htas_can_run_on_cpu
tasks-eligible = (refl, refl, refl)

htas_calculate_affinity_lem_example : htas_calculate_affinity strict ≡ expected_mask 1 0x100
htas_calculate_affinity_lem_example = htas_calculate_affinity_lem strict

set_profile-suits_example :
    (htas_can_run_on_cpu (set_profile strict (task 0 0)) 2 ≡ true → suits 1 2 ≡ true)
    × ((c : ℕ) × (c < num_cpus) × (htas_can_run_on_cpu (set_profile strict (task 0 0)) c ≡ true))
set_profile-suits_example = set_profile-suits strict (task 0 0) 2 (omega arith)

htas_select_next-best_example :
    (2 < length tasks)
    × (eligible 0 (process tasks 2) ≡ true)
    × (task_priority 0 (process tasks 3) ≤ task_priority 0 (process tasks 2))
    × (task_priority 0 (process tasks 3) ≡ task_priority 0 (process tasks 2) → 2 ≤ 3)
htas_select_next-best_example =
    htas_select_next-best 0 tasks 3 tasks-pick (omega arith) tasks-eligible.2

cpu_0-local : 0 ≡ htas_get_numa_node_for_cpu 0
unfolding htas_get_numa_node_for_cpu
cpu_0-local = refl

second-Urgent : Urgent 0 (process tasks 2)
second-Urgent = record {
  may_run = tasks-eligible.1;
  hint = elim (process tasks 2).htas_info [ none ↦ no_info | some info ↦ info ];
  has_hint = refl;
  boosted = omega arith;
  local = cpu_0-local;
}

htas_select_next-starves_example : htas_select_next 0 (picks (2 ∷ 3 ∷ []) tasks) ≢ some 1
htas_select_next-starves_example =
    htas_select_next-starves 0 2 1 (2 ∷ 3 ∷ []) tasks (omega arith) (omega arith) second-Urgent refl
      refl refl

baseline_select_next-round_robin_example :
    (k : ℕ) × (k ≤ 1)
    × (baseline_select_next (some 1) none tasks
        ≡ (some (around (first_slot (some 1) none) k), some (around (first_slot (some 1) none) k)))
    × Taken (candidate_of (some 1) tasks) tasks (around (first_slot (some 1) none) k)
baseline_select_next-round_robin_example =
    baseline_select_next-round_robin (some 1) none tasks 1 (omega arith) (ground arith)
