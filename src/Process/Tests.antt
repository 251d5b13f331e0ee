-- ===== src/Process/Tests.antt =====
-- Runs of kernel/proc/process.c on small process tables.
use jimir_os.Common.{
  ℕ, ◌<◌, ◌≡◌, ◌≢◌, ◌↔◌, ◌⊎◌, refl, true, false, none, some, [], ◌∷◌, length, arith,
}
use jimir_os.Common.Int.{pos}
use jimir_os.Common.Search.{find_index}
use jimir_os.Process.{
  Procs, process, update, max_processes, unused, ready, running, blocked, zombie, process_init,
  process_create, process_find, process_set_current, process_current, current_of, process_fork,
  fork_from, fork_into, process_destroy, zombie_child, live_child, wait_round, collected, halted,
}
use jimir_os.Process.Table.{IsValid}
use jimir_os.Process.Invariant.{process_init-IsValid, process_create-IsValid, update-IsValid}
use jimir_os.Process.Calls.{run, creates, sets_current, forks, exits, run-init-IsValid}
use jimir_os.Process.Create.{process_create-fresh}
use jimir_os.Process.Fork.{process_fork-child}
use jimir_os.Process.Reap.{
  process_fork-destroy_frees_parent, wait_round-collects, wait_round-halts_iff,
}

abbrev zeroed : Procs
zeroed = record { table = []; current_pid = pos 0; next_pid = 0; cr3 = 0; freed = [] }

abbrev boot : Procs
boot = process_init zeroed

-- One process, with an address space, that runs.
abbrev one : Procs
one = (process_create (pos 0) boot).1

abbrev loaded : Procs
loaded =
    update 0 (λ p. record p { page_dir = 4096; state = running }) (process_set_current (pos 1) one)

-- The same with a child.
abbrev two : Procs
two = (process_create (pos 1) loaded).1

boot-IsValid : IsValid boot
boot-IsValid = process_init-IsValid zeroed

one-IsValid : IsValid one
one-IsValid = process_create-IsValid (pos 0) boot boot-IsValid

loaded-IsValid : IsValid loaded
unfolding process_create process_init process_set_current find_index
loaded-IsValid =
    update-IsValid 0 (λ p. record p { page_dir = 4096; state = running })
      (process_set_current (pos 1) one) (omega arith) refl (λ _. refl) one-IsValid

two-IsValid : IsValid two
two-IsValid = process_create-IsValid (pos 1) loaded loaded-IsValid

-- Slot 0 is blocked, and slot 1 is the child that runs.
abbrev nap : Procs
nap = process_set_current (pos 2) (
    update 1 (λ p. record p { state = running }) (update 0 (λ p. record p { state = blocked }) two))

nap-IsValid : IsValid nap
unfolding process_create process_init process_set_current find_index
nap-IsValid =
    update-IsValid 1 (λ p. record p { state = running })
      (update 0 (λ p. record p { state = blocked }) two) (omega arith) refl (λ _. refl)
      (update-IsValid 0 (λ p. record p { state = blocked }) two (omega arith) refl (λ _. refl)
        two-IsValid)

nap-current : process_current nap ≡ some 1
unfolding process_current current_of process_find process_create process_init process_set_current
    find_index
nap-current = refl

nap-parent : process_find (pos 1) nap ≡ some 0
unfolding process_find process_create process_init process_set_current find_index
nap-parent = refl

nap-ppid : (process nap.table 1).ppid ≡ pos 1
unfolding process_create process_init process_set_current find_index
nap-ppid = refl

nap-blocked : (process nap.table 0).state ≡ blocked
unfolding process_create process_init process_set_current find_index
nap-blocked = refl

-- The child has exited with code 7.
abbrev left : Procs
left = update 1 (λ p. record p { state = zombie; exit_code = pos 7 }) two

left-IsValid : IsValid left
unfolding process_create process_init process_set_current find_index
left-IsValid =
    update-IsValid 1 (λ p. record p { state = zombie; exit_code = pos 7 }) two (omega arith) refl
      (λ _. refl) two-IsValid

left-zombie : zombie_child (process left.table 0).pid (process left.table 1) ≡ true
unfolding process_create process_init process_set_current find_index
left-zombie = refl

loaded-current : process_current loaded ≡ some 0
unfolding process_current current_of process_find process_create process_init process_set_current
    find_index
loaded-current = refl

loaded-found : process_find (pos 1) loaded ≡ some 0
unfolding process_find process_create process_init process_set_current find_index
loaded-found = refl

loaded-forks : (process_fork loaded).0 ≡ pos 2
unfolding process_fork fork_from fork_into process_current current_of process_find process_create
    process_init process_set_current find_index
loaded-forks = refl

made-pid : (process_create (pos 1) loaded).0 ≡ pos 2
unfolding process_create process_init process_set_current find_index
made-pid = refl

run-init-IsValid_example : IsValid (
    run (creates (pos 0) ∷ sets_current (pos 1) ∷ forks ∷ exits (pos 3) ∷ []) (process_init zeroed))
run-init-IsValid_example =
    run-init-IsValid (creates (pos 0) ∷ sets_current (pos 1) ∷ forks ∷ exits (pos 3) ∷ []) zeroed
      (omega arith)

process_create-fresh_example :
    (i : ℕ) × (i < max_processes)
    × (process_find (pos 2) loaded ≡ none)
    × (process_find (pos 2) two ≡ some i)
    × ((process loaded.table i).state ≡ unused)
    × ((process two.table i).pid ≡ 2)
    × ((process two.table i).ppid ≡ pos 1)
    × ((process two.table i).state ≡ ready)
    × ((process two.table i).page_dir ≡ 0)
    × ((process two.table i).brk ≡ 0)
    × ((process two.table i).htas_info ≡ none)
    × ((0 ≡ i) ⊎ (process two.table 0 ≡ process loaded.table 0))
process_create-fresh_example = process_create-fresh (pos 1) loaded 0 loaded-IsValid made-pid

abbrev after_fork : Procs
after_fork = (process_fork loaded).1

process_fork-child_example :
    (child : ℕ) × (process_find (pos 2) after_fork ≡ some child)
    × (child ≢ 0)
    × (process after_fork.table 0 ≡ process loaded.table 0)
    × ((process after_fork.table child).pid ≡ 2)
    × ((process after_fork.table child).ppid ≡ pos (process loaded.table 0).pid)
    × ((process after_fork.table child).state ≡ ready)
    × ((process after_fork.table child).context
        ≡ record ((process loaded.table 0).context) { eax = 0 })
    × ((process after_fork.table child).brk ≡ (process loaded.table 0).brk)
    × ((process after_fork.table child).page_dir ≡ (process loaded.table 0).page_dir)
    × ((process loaded.table 0).page_dir ≢ 0)
process_fork-child_example = process_fork-child 0 loaded loaded-IsValid loaded-current loaded-forks

process_fork-destroy_frees_parent_example :
    let s' = process_destroy (pos 2) (process_fork loaded).1 in
    (s'.freed ≡ (process loaded.table 0).page_dir ∷ (process_fork loaded).1.freed)
    × (process s'.table 0 ≡ process loaded.table 0)
    × ((process s'.table 0).page_dir ≢ 0)
process_fork-destroy_frees_parent_example =
    process_fork-destroy_frees_parent 0 loaded loaded-IsValid loaded-current loaded-forks

wait_round-collects_example :
    (k : ℕ) × (zombie_child (process left.table 0).pid (process left.table k) ≡ true)
    × (wait_round 0 left
        ≡ collected
            (process left.table k).pid
            (process left.table k).exit_code
            (process_destroy (pos (process left.table k).pid) left))
    × (process_find
          (pos (process left.table k).pid)
          (process_destroy (pos (process left.table k).pid) left)
        ≡ none)
wait_round-collects_example = wait_round-collects 0 1 left left-IsValid (omega arith) left-zombie

wait_round-halts_iff_example : (wait_round 0 left ≡ halted left) ↔ (
    ((i : ℕ)
      → i < length left.table
      → zombie_child (process left.table 0).pid (process left.table i) ≡ false)
    × ((i : ℕ) × (i < length left.table)
        × (live_child (process left.table 0).pid (process left.table i) ≡ true)))
wait_round-halts_iff_example = wait_round-halts_iff 0 left
