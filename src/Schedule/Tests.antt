-- ===== src/Schedule/Tests.antt =====
-- Runs of `process_schedule` with two processes.
use jimir_os.Common.{ℕ, ◌+◌, ◌≡◌, refl, true, none, some, [], arith}
use jimir_os.Common.Int.{pos}
use jimir_os.Common.Search.{find_index}
use jimir_os.Process.{
  Procs, process, update, running, ready, process_current, current_of, process_find, process_init,
  process_create, process_set_current,
}
use jimir_os.Process.Table.{IsValid}
use jimir_os.Process.Invariant.{process_init-IsValid, process_create-IsValid, update-IsValid}
use jimir_os.Htas.{runnable}
use jimir_os.Htas.State.{
  Kernel, no_stats, baseline, htas_pick_next_process, tick_stats, on_active, select_next,
  baseline_select_next, rr_scan, age_after, htas_record_switch, switch_to, intent_switch, cpu_cost,
}
use jimir_os.Schedule.{
  Registers, save_context, load_context, save_current, on_procs, process_schedule, schedule_from,
  run_next, dispatch,
}
use jimir_os.Schedule.Context.{process_schedule-switches, process_schedule-resumes}

abbrev frame : ℕ → Registers
frame n = record {
  ds = 35;
  edi = 1;
  esi = 2;
  ebp = 3;
  ebx = 4;
  edx = 5;
  ecx = 6;
  eax = n;
  eip = 4096 + n;
  cs = 27;
  eflags = 514;
  useresp = 8000;
  ss = 35;
}

abbrev zeroed : Procs
zeroed = record { table = []; current_pid = pos 0; next_pid = 0; cr3 = 0; freed = [] }

-- Processes 1 and 2; process 1 runs.
abbrev pair : Procs
pair = (process_create (pos 1) (process_create (pos 0) (process_init zeroed)).1).1

abbrev procs0 : Procs
procs0 =
    process_set_current (pos 1) (update 0 (λ p. record p { state = running; page_dir = 4096 }) pair)

abbrev kernel0 : Kernel
kernel0 = record {
  procs = procs0;
  sched = record {
    current_scheduler = baseline;
    current_cpu = 0;
    tick_counter = 0;
    rr_cursor = none;
    baseline_stats = no_stats;
    htas_stats = no_stats;
  };
}

kernel0-IsValid : IsValid kernel0.procs
unfolding process_create process_init process_set_current find_index
kernel0-IsValid =
    update-IsValid 0 (λ p. record p { state = running; page_dir = 4096 }) pair (omega arith) refl
      (λ _. refl)
      (process_create-IsValid (pos 1) (process_create (pos 0) (process_init zeroed)).1
        (process_create-IsValid (pos 0) (process_init zeroed) (process_init-IsValid zeroed)))

kernel0-current : process_current kernel0.procs ≡ some 0
unfolding process_current current_of process_find process_create process_init process_set_current
    find_index
kernel0-current = refl

kernel0-running : (process kernel0.procs.table 0).state ≡ running
unfolding process_create process_init process_set_current find_index
kernel0-running = refl

kernel0-runnable : runnable (process kernel0.procs.table 1) ≡ true
unfolding process_create process_init process_set_current find_index
kernel0-runnable = refl

kernel0-picks :
    (htas_pick_next_process (some 0) (on_procs (save_current 0 (frame 7)) kernel0)).0 ≡ some 1
unfolding htas_pick_next_process tick_stats on_active select_next baseline_select_next rr_scan
    process_current current_of process_find process_create process_init process_set_current
    find_index save_current
kernel0-picks = refl

kernel1-picks :
    (htas_pick_next_process
      (some 1)
      (on_procs (save_current 1 (frame 9)) (process_schedule (frame 7) kernel0).1)).0
    ≡ some 0
unfolding htas_pick_next_process tick_stats on_active select_next baseline_select_next rr_scan
    process_current current_of process_find process_create process_init process_set_current
    find_index save_current process_schedule schedule_from run_next dispatch htas_record_switch
    switch_to intent_switch cpu_cost age_after
kernel1-picks = refl

process_schedule-switches_example :
    ((process_schedule (frame 7) kernel0).0 ≡ load_context (process kernel0.procs.table 1).context)
    × (process_current (process_schedule (frame 7) kernel0).1.procs ≡ some 1)
    × ((process (process_schedule (frame 7) kernel0).1.procs.table 1).state ≡ running)
    × ((process_schedule (frame 7) kernel0).1.procs.cr3 ≡ (process kernel0.procs.table 1).page_dir)
    × ((process (process_schedule (frame 7) kernel0).1.procs.table 0).state ≡ ready)
    × ((process (process_schedule (frame 7) kernel0).1.procs.table 0).context
        ≡ save_context (frame 7) (process kernel0.procs.table 0).context)
    × IsValid (process_schedule (frame 7) kernel0).1.procs
process_schedule-switches_example =
    process_schedule-switches 0 1 (frame 7) kernel0 kernel0-IsValid kernel0-current kernel0-running
      kernel0-picks (omega arith) (ground arith) kernel0-runnable

process_schedule-resumes_example :
    (process_schedule (frame 9) (process_schedule (frame 7) kernel0).1).0 ≡ frame 7
process_schedule-resumes_example =
    process_schedule-resumes 0 1 (frame 7) (frame 9) kernel0 kernel0-IsValid kernel0-current
      kernel0-running kernel0-picks (omega arith) (ground arith) kernel0-runnable kernel1-picks
