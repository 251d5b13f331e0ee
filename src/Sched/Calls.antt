-- ===== src/Sched/Calls.antt =====
-- Sequences of calls into kernel/sched/sched.c, from `sched_init` on.
use jimir_os.Common.{ℕ, Option, List, [], ◌∷◌}
use jimir_os.Common.Int.{ℤ}
use jimir_os.Sched.{Sched, sched_init, sched_tick, sched_yield, kthread_create, sched_set_priority}
use jimir_os.Sched.Invariant.{IsRunning, sched_tick-IsRunning, sched_yield-IsRunning}
use jimir_os.Sched.Create.{sched_init-IsValid, kthread_create-IsValid, sched_set_priority-IsValid}

-- A call with its arguments; those of `creates` are the memory that the allocator gives, the
-- address of the trampoline, the function, its argument and the name.
pub data Call : Type 0 where
  timer_ticks yields : Call
  creates : ℕ → ℕ → ℕ → ℕ → Option (List ℕ) → Call
  sets_priority : ℤ → ℤ → Call

unfoldable pub call : Call → Sched → Sched
call timer_ticks s = sched_tick s
call yields s = sched_yield s
call (creates stk trampoline fn arg name) s = (kthread_create stk trampoline fn arg name s).1
call (sets_priority pid priority) s = (sched_set_priority pid priority s).1

unfoldable pub run : List Call → Sched → Sched
run [] s = s
run (c ∷ cs) s = run cs (call c s)

call-IsRunning : (c : Call) (s : Sched) → IsRunning s → IsRunning (call c s)
unfolding call
call-IsRunning timer_ticks s v = sched_tick-IsRunning s v
call-IsRunning yields s v = sched_yield-IsRunning s v
call-IsRunning (creates stk trampoline fn arg name) s (cur, v) =
    (cur, kthread_create-IsValid cur stk trampoline fn arg name s v)
call-IsRunning (sets_priority pid priority) s (cur, v) =
    (cur, sched_set_priority-IsValid cur pid priority s v)

run-IsRunning : (cs : List Call) (s : Sched) → IsRunning s → IsRunning (run cs s)
unfolding run
run-IsRunning [] s v = v
run-IsRunning (c ∷ cs) s v = run-IsRunning cs (call c s) (call-IsRunning c s v)

-- After `sched_init` and any sequence of ticks, yields, creations and changes of priority, with any
-- arguments, whether they succeed or not, the thread table is valid: exactly the current thread
-- runs, priorities and slices are in range, and below the highest priority a ready thread other
-- than the idle one has waited less than the threshold of ageing.
pub run-init-IsRunning : (cs : List Call) (esp : ℕ) → IsRunning (run cs (sched_init esp))
run-init-IsRunning cs esp = run-IsRunning cs (sched_init esp) (0, sched_init-IsValid esp)
