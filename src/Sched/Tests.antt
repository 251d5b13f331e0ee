-- ===== src/Sched/Tests.antt =====
-- Runs of kernel/sched/sched.c on small thread tables.
use jimir_os.Common.{
  ℕ, ◌+◌, ◌≤◌, ◌<◌, ◌≡◌, ◌≢◌, refl, true, none, some, List, [], ◌∷◌, length, replicate, arith, ◌⊎◌,
}
use jimir_os.Common.Int.{pos}
use jimir_os.Sched.{
  Thread, Sched, ready, running, blank, is_ready, is_unused, thread, found, select_next,
  select_from, consider, challenge, age, apply_aging, sched_init, refill_slice, kthread_create,
  new_stack_with_trampoline, start, named, copy_name, free_slot, sched_yield, sched_tick,
  tick_threads, wait_one, sched_priority_interactive, priority_quantum,
}
use jimir_os.Sched.Selection.{Preferred, select_next-best}
use jimir_os.Sched.Aging.{ticks_to_top}
use jimir_os.Sched.Invariant.{IsValid, IsRunning}
use jimir_os.Sched.Create.{
  sched_init-IsValid, kthread_create-IsValid, kthread_create-starts, kthread_create-succeeds,
}
use jimir_os.Sched.Calls.{timer_ticks, yields, creates, sets_priority, run, run-init-IsRunning}
use jimir_os.Sched.Preempt.{sched_yield-switches}
use jimir_os.Sched.Progress.{ticks, ticks-no_starvation}
use jimir_os.Sched.Priority.{sched_tick-preempts}

abbrev idle : Thread
idle = record {
  esp = 100;
  state = running;
  name = replicate 16 0;
  priority = 3;
  slice_left = 18;
  wait_ticks = 0;
}

abbrev waiting : ℕ → ℕ → Thread
waiting prio ticks = record {
  esp = 200 + prio;
  state = ready;
  name = replicate 16 0;
  priority = prio;
  slice_left = 4;
  wait_ticks = ticks;
}

-- Three ready threads behind the idle one.
abbrev crowd : List Thread
crowd = idle ∷ waiting 2 0 ∷ waiting 1 0 ∷ waiting 1 9 ∷ replicate 12 blank

abbrev crowded : Sched
crowded = record { threads = crowd; current = some 0; cpu_esp = 5000 }

-- The scheduler at its start, and with one thread made.
abbrev fresh : Sched
fresh = sched_init 5000

abbrev created : Sched
created = (kthread_create 4096 7 8 9 none fresh).1

fresh-IsValid : IsValid 0 fresh
fresh-IsValid = sched_init-IsValid 5000

created-IsValid : IsValid 0 created
created-IsValid = kthread_create-IsValid 0 4096 7 8 9 none fresh fresh-IsValid

created-picks : select_next (apply_aging created.threads) ≡ some 1
unfolding kthread_create new_stack_with_trampoline start named copy_name free_slot sched_init
    refill_slice apply_aging age select_next select_from consider challenge
created-picks = refl

created-ready : (thread created.threads 1).state ≡ ready
unfolding kthread_create new_stack_with_trampoline start named copy_name free_slot sched_init
    refill_slice
created-ready = refl

created-priority : (thread created.threads 1).priority ≡ 1
unfolding kthread_create new_stack_with_trampoline start named copy_name free_slot sched_init
    refill_slice
created-priority = refl

created-to_top : ticks_to_top (thread created.threads 1) ≡ 32
unfolding kthread_create new_stack_with_trampoline start named copy_name free_slot sched_init
    refill_slice
created-to_top = refl

created-returns : (kthread_create 4096 7 8 9 none fresh).0 ≡ pos 1
unfolding kthread_create new_stack_with_trampoline start named copy_name free_slot sched_init
    refill_slice
created-returns = refl

crowd-picks : select_next crowd ≡ some 3
unfolding select_next select_from consider challenge
crowd-picks = refl

select_next-best_example :
    (0 < 3)
    × (3 < length crowd)
    × (is_ready (thread crowd 3).state ≡ true)
    × Preferred (found 3 (thread crowd 3)) (found 2 (thread crowd 2))
select_next-best_example = select_next-best crowd 2 crowd-picks (omega arith) (omega arith) refl

kthread_create-starts_example :
    (0 < 1)
    × (1 < length fresh.threads)
    × (is_unused (thread fresh.threads 1).state ≡ true)
    × ((thread created.threads 1).state ≡ ready)
    × ((thread created.threads 1).priority ≡ sched_priority_interactive)
    × ((thread created.threads 1).slice_left ≡ 6)
    × ((thread created.threads 1).wait_ticks ≡ 0)
    × ((thread created.threads 1).esp ≡ (new_stack_with_trampoline 4096 7 8 9).0)
    × (thread created.threads 0 ≡ thread fresh.threads 0)
    × (created.current ≡ fresh.current)
kthread_create-starts_example =
    kthread_create-starts 4096 7 8 9 none fresh 0 created-returns (ground arith)

fresh-unused : is_unused (thread fresh.threads 2).state ≡ true
unfolding sched_init refill_slice
fresh-unused = refl

fresh-size : 2 < length fresh.threads
unfolding sched_init refill_slice
fresh-size = omega arith

stack_made : (new_stack_with_trampoline 4096 7 8 9).0 ≢ 0
unfolding new_stack_with_trampoline
stack_made = ground arith

kthread_create-succeeds_example :
    (i : ℕ) × ((kthread_create 4096 7 8 9 none fresh).0 ≡ pos i) × (i ≤ 2)
kthread_create-succeeds_example =
    kthread_create-succeeds 4096 7 8 9 none fresh 2 (omega arith) fresh-size fresh-unused stack_made

sched_yield-switches_example :
    ((sched_yield created).current ≡ some 1)
    × ((sched_yield created).cpu_esp ≡ (thread created.threads 1).esp)
    × ((thread (sched_yield created).threads 0).esp ≡ created.cpu_esp)
    × ((thread (sched_yield created).threads 0).state ≡ ready)
    × ((thread (sched_yield created).threads 1).state ≡ running)
    × ((thread (sched_yield created).threads 1).slice_left
        ≡ priority_quantum (thread (sched_yield created).threads 1).priority)
    × ((thread (sched_yield created).threads 0).slice_left
        ≡ priority_quantum (thread (sched_yield created).threads 0).priority)
    × ((thread (sched_yield created).threads 0).wait_ticks ≡ 0)
    × ((thread (sched_yield created).threads 1).wait_ticks ≡ 0)
sched_yield-switches_example = sched_yield-switches 0 1 created created-IsValid created-picks

ticks-no_starvation_example :
    (k : ℕ) × (k ≤ 32)
    × (((ticks k created).current ≡ some 1) ⊎ ((thread (ticks k created).threads 1).priority ≡ 0))
ticks-no_starvation_example =
    ticks-no_starvation 32 0 1 created created-IsValid (ground arith) (omega arith) (omega arith)
      created-ready (omega (arith, created-to_top))

created-ticked :
    (is_ready (thread (tick_threads 0 created.threads) 1).state ≡ true)
    × ((thread (tick_threads 0 created.threads) 1).priority ≡ 1)
    × ((thread (tick_threads 0 created.threads) 0).priority ≡ 3)
unfolding kthread_create new_stack_with_trampoline start named copy_name free_slot sched_init
    refill_slice tick_threads wait_one apply_aging age
created-ticked = (refl, refl, refl)

sched_tick-preempts_example :
    (next : ℕ) × ((sched_tick created).current ≡ some next)
    × (next ≢ 0)
    × ((thread (sched_tick created).threads next).priority
        ≤ (thread (tick_threads 0 created.threads) 1).priority)
sched_tick-preempts_example =
    sched_tick-preempts 0 1 created created-IsValid (ground arith) (omega arith) (omega arith)
      created-ticked.0 (omega (arith, created-ticked))

run-init-IsRunning_example : IsRunning (
    run
      (creates 8192 7 8 9 (some (b'x' ∷ []))
        ∷ sets_priority (pos 1) (pos 0)
        ∷ timer_ticks
        ∷ yields
        ∷ [])
      (sched_init 5000))
run-init-IsRunning_example =
    run-init-IsRunning
      (creates 8192 7 8 9 (some (b'x' ∷ []))
        ∷ sets_priority (pos 1) (pos 0)
        ∷ timer_ticks
        ∷ yields
        ∷ [])
      5000
