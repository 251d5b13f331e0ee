-- ===== src/Schedule.antt =====
-- `process_schedule` of kernel/proc/process.c, which the timer interrupt calls, over the processes
-- and the task scheduler.
mod Context
mod Tests
use jimir_os.Common.{
  ℕ, ◌≡◌, Bool, true, false, Option, none, some, List, ◌==◌, if◌then◌else◌, modify,
}
use jimir_os.Common.Int.{ℤ, pos}
use jimir_os.Process.{
  Process, Procs, ProcContext, process, update, process_current, is_running, ready, running,
  ProcState,
}
use jimir_os.Htas.{runnable}
use jimir_os.Htas.State.{Kernel, htas_pick_next_process, htas_record_switch}

-- The fields of `struct registers` (kernel/include/kernel/idt.h) that a switch saves and loads.
-- `useresp` is the stack pointer of the interrupted code. `process_schedule` does not touch the
-- others.
pub record Registers : Type 0 where
  pub ds : ℕ
  pub edi : ℕ
  pub esi : ℕ
  pub ebp : ℕ
  pub ebx : ℕ
  pub edx : ℕ
  pub ecx : ℕ
  pub eax : ℕ
  pub eip : ℕ
  pub cs : ℕ
  pub eflags : ℕ
  pub useresp : ℕ
  pub ss : ℕ

-- The assignments from the interrupt frame; `es`, `fs` and `gs` stay.
abbrev pub save_context : Registers → ProcContext → ProcContext
save_context regs c = record c {
  eax = regs.eax;
  ebx = regs.ebx;
  ecx = regs.ecx;
  edx = regs.edx;
  esi = regs.esi;
  edi = regs.edi;
  ebp = regs.ebp;
  esp = regs.useresp;
  eip = regs.eip;
  eflags = regs.eflags;
  cs = regs.cs;
  ss = regs.ss;
  ds = regs.ds;
}

-- The assignments to the interrupt frame.
abbrev pub load_context : ProcContext → Registers
load_context c = record {
  ds = c.ds;
  edi = c.edi;
  esi = c.esi;
  ebp = c.ebp;
  ebx = c.ebx;
  edx = c.edx;
  ecx = c.ecx;
  eax = c.eax;
  eip = c.eip;
  cs = c.cs;
  eflags = c.eflags;
  useresp = c.esp;
  ss = c.ss;
}

abbrev pub on_procs : (Procs → Procs) → Kernel → Kernel
on_procs f k = record k { procs = f k.procs }

abbrev pub set_state : ProcState → Process → Process
set_state st p = record p { state = st }

-- The save of a current process that was running.
unfoldable pub save_current : ℕ → Registers → Procs → Procs
save_current cur regs s =
    if is_running (process s.table cur).state
    then update cur (λ p. record p { context = save_context regs p.context; state = ready }) s
    else s

-- `if (was_running) current->state = PROC_RUNNING;`
abbrev pub resume_if : Bool → ℕ → Procs → Procs
resume_if was_running cur s = if was_running then update cur (set_state running) s else s

-- The end of `process_schedule`, for the switch to slot `next`.
unfoldable pub dispatch : ℕ → ℕ → Kernel → Registers × Kernel
dispatch cur next k =
    let k1 = htas_record_switch (some cur) (some next) k in
    let p = process k1.procs.table next in
    (
      load_context p.context,
      record k1 {
        procs = record (k1.procs) {
          table = modify k1.procs.table next (set_state running);
          current_pid = pos p.pid;
          cr3 = p.page_dir;
        };
      },
    )

-- What follows the pick of `next`.
unfoldable pub run_next : Bool → ℕ → Option ℕ → Registers → Kernel → Registers × Kernel
run_next was_running cur none regs k = (regs, on_procs (resume_if was_running cur) k)
run_next was_running cur (some next) regs k =
    if next == cur
    then (regs, on_procs (update cur (set_state running)) k)
    else if runnable (process k.procs.table next)
    then dispatch cur next k
    else (regs, on_procs (resume_if was_running cur) k)

unfoldable pub schedule_from : ℕ → Registers → Kernel → Registers × Kernel
schedule_from cur regs k =
    let was_running = is_running (process k.procs.table cur).state in
    let (next, k1) = htas_pick_next_process (some cur) (on_procs (save_current cur regs) k) in
    run_next was_running cur next regs k1

unfoldable pub process_schedule : Registers → Kernel → Registers × Kernel
process_schedule regs k = elim (process_current k.procs) [
  | none ↦ (regs, k)
  | some cur ↦ schedule_from cur regs k
]
