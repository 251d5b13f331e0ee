-- ===== src/Schedule/Context.antt =====
-- The switch of kernel/proc/process.c between two user processes: whose registers the interrupt
-- returns to, and what it leaves of the others.
use jimir_os.Common.{
  ℕ, ◌+◌, ◌<◌, ◌≡◌, ◌≢◌, ◌∙◌, refl, ap, sym, subst, true, false, Option, some, length, modify,
  map_from, arith, if◌then◌else◌, ◌==◌, Bool-cases, Option-cases, inl, inr, length-modify,
  length-map_from, get_or-map_from, ==_refl,
}
use jimir_os.Common.Int.{pos}
use jimir_os.Process.{
  Process, Procs, process, update, max_processes, is_unused, ready, running, process_current,
  current_of, no_process,
}
use jimir_os.Process.Table.{IsValid, IsLive, process_find_iff, process-update}
use jimir_os.Process.Invariant.{update-IsValid, current_in}
use jimir_os.Htas.{runnable}
use jimir_os.Htas.State.{
  Kernel, htas_pick_next_process, htas_record_switch, select_next, switch_to, age_after,
  age_unpicked, is_htas, reset_task,
}
use jimir_os.Schedule.{
  Registers, save_context, load_context, on_procs, set_state, save_current, dispatch, run_next,
  schedule_from, process_schedule,
}

-- What the task scheduler leaves alone of a process.
pub record Kept (p q : Process) : Type 0 where
  pub pid_kept : q.pid ≡ p.pid
  pub state_kept : q.state ≡ p.state
  pub context_kept : q.context ≡ p.context
  pub dir_kept : q.page_dir ≡ p.page_dir

-- The same of a whole table and of the process that is current.
pub record KeptAll (s t : Procs) : Type 0 where
  pub length_kept : length t.table ≡ length s.table
  pub entries_kept : (j : ℕ) → j < length s.table → Kept (process s.table j) (process t.table j)
  pub current_kept : t.current_pid ≡ s.current_pid
  pub next_kept : t.next_pid ≡ s.next_pid

Kept-refl : (p : Process) → Kept p p
Kept-refl p = record { pid_kept = refl; state_kept = refl; context_kept = refl; dir_kept = refl }

KeptAll-refl : (s : Procs) → KeptAll s s
KeptAll-refl s = record {
  length_kept = refl;
  entries_kept = λ j _. Kept-refl (process s.table j);
  current_kept = refl;
  next_kept = refl;
}

age_unpicked-Kept : (next j : ℕ) (p : Process) → Kept p (age_unpicked next j p)
unfolding age_unpicked
age_unpicked-Kept next j p = ground arith

aged-KeptAll :
    (next : ℕ) (s : Procs) → KeptAll s (record s { table = map_from (age_unpicked next) 0 s.table })
aged-KeptAll next s = record {
  length_kept = length-map_from (age_unpicked next) 0 s.table;
  entries_kept = λ j h.
      subst (Kept (process s.table j))
        (sym (get_or-map_from (age_unpicked next) 0 j s.table no_process h))
        (age_unpicked-Kept next (0 + j) (process s.table j));
  current_kept = refl;
  next_kept = refl;
}

picked-KeptAll :
    (cur : Option ℕ) (k : Kernel) → KeptAll k.procs (htas_pick_next_process cur k).1.procs
unfolding htas_pick_next_process age_after
picked-KeptAll cur k = elim (Option-cases (select_next k).0) [
  | inl e ↦ rw (e, htas_pick_next_process) (KeptAll-refl k.procs)
  | inr (i, e) ↦ elim (Bool-cases (is_htas k.sched.current_scheduler)) [
    | inl b ↦ rw (e, htas_pick_next_process, b, age_after) (aged-KeptAll i k.procs)
    | inr b ↦ rw (e, htas_pick_next_process, b, age_after) (KeptAll-refl k.procs)
  ]
]

reset-KeptAll :
    (next : ℕ) (s : Procs) → next < length s.table → KeptAll s (update next reset_task s)
reset-KeptAll next s h = record {
  length_kept = length-modify s.table next reset_task;
  entries_kept = λ j _.
      subst (Kept (process s.table j)) (sym (process-update next j reset_task s h)) (entry j);
  current_kept = refl;
  next_kept = refl;
}
  where
    entry :
        (j : ℕ)
        → Kept
            (process s.table j)
            (if next == j then reset_task (process s.table j) else process s.table j)
    entry j = ground arith

recorded-KeptAll :
    (cur next : ℕ) (k : Kernel)
    → next < length k.procs.table
    → KeptAll k.procs (htas_record_switch (some cur) (some next) k).procs
unfolding htas_record_switch switch_to
recorded-KeptAll cur next k h = elim (Bool-cases (next == cur)) [
  | inl e ↦ rw (e, htas_record_switch) (KeptAll-refl k.procs)
  | inr e ↦ rw (e, htas_record_switch) (reset-KeptAll next k.procs h)
]

KeptAll-IsValid : (s t : Procs) → KeptAll s t → IsValid s → IsValid t
KeptAll-IsValid s t u v = record {
  size = u.length_kept ∙ v.size;
  next_pos = subst (λ n. 0 < n) (sym u.next_kept) v.next_pos;
  pid_in = λ j h l.
      let e = u.entries_kept j (omega (arith, v.size)) in
      rw (e.pid_kept, u.next_kept) (v.pid_in j h (live j h l));
  distinct = λ i j hi hj li lj q. v.distinct i j hi hj (live i hi li) (live j hj lj) (
      sym (u.entries_kept i (omega (arith, v.size))).pid_kept
      ∙ q
      ∙ (u.entries_kept j (omega (arith, v.size))).pid_kept);
}
  where
    live : (j : ℕ) → j < max_processes → IsLive (process t.table j) → IsLive (process s.table j)
    live j h l =
        subst (λ st. is_unused st ≡ false) (u.entries_kept j (omega (arith, v.size))).state_kept l

-- One call that switches from slot `cur`, which runs, to slot `next`.
module _ (cur next : ℕ) (regs : Registers) (k : Kernel) (v : IsValid k.procs)
    (c : process_current k.procs ≡ some cur) (st : (process k.procs.table cur).state ≡ running)
    (pick : (htas_pick_next_process (some cur) (on_procs (save_current cur regs) k)).0 ≡ some next)
    (h : next < max_processes) (d : next ≢ cur)
    (r : runnable (process k.procs.table next) ≡ true) where
  abbrev saved : Procs
  saved =
      update cur (λ p. record p { context = save_context regs p.context; state = ready }) k.procs

  abbrev picked : Kernel
  picked = (htas_pick_next_process (some cur) (record k { procs = saved })).1

  cur_in : cur < max_processes
  cur_in = (current_in k.procs v c).0

  saved-entry :
      (j : ℕ)
      → process saved.table j ≡ (
          if cur == j
          then record (process k.procs.table j) {
            context = save_context regs (process k.procs.table j).context;
            state = ready;
          }
          else process k.procs.table j)
  saved-entry j =
      process-update cur j (λ p. record p { context = save_context regs p.context; state = ready })
        k.procs (omega (arith, v.size, cur_in))

  saved-is : save_current cur regs k.procs ≡ saved
  unfolding save_current
  saved-is = rw st refl

  saved-IsValid : IsValid saved
  saved-IsValid =
      update-IsValid cur (λ p. record p { context = save_context regs p.context; state = ready })
        k.procs cur_in refl (λ _. (current_in k.procs v c).1) v

  abbrev recorded : Kernel
  recorded = htas_record_switch (some cur) (some next) picked

  picked-kept : KeptAll saved picked.procs
  picked-kept = picked-KeptAll (some cur) (record k { procs = saved })

  recorded-kept : KeptAll picked.procs recorded.procs
  recorded-kept =
      recorded-KeptAll cur next picked (omega (arith, picked-kept.length_kept, saved-IsValid.size))

  recorded-IsValid : IsValid recorded.procs
  recorded-IsValid =
      KeptAll-IsValid picked.procs recorded.procs recorded-kept
        (KeptAll-IsValid saved picked.procs picked-kept saved-IsValid)

  recorded-entry :
      (j : ℕ) → j < max_processes → Kept (process saved.table j) (process recorded.procs.table j)
  recorded-entry j hj =
      let a = picked-kept.entries_kept j (omega (arith, saved-IsValid.size)) in
      let b =
        recorded-kept.entries_kept j (omega (arith, saved-IsValid.size, picked-kept.length_kept)) in
      record {
        pid_kept = b.pid_kept ∙ a.pid_kept;
        state_kept = b.state_kept ∙ a.state_kept;
        context_kept = b.context_kept ∙ a.context_kept;
        dir_kept = b.dir_kept ∙ a.dir_kept;
      }

  abbrev left : Procs
  left = record (recorded.procs) {
    table = modify recorded.procs.table next (set_state running);
    current_pid = pos (process recorded.procs.table next).pid;
    cr3 = (process recorded.procs.table next).page_dir;
  }

  picked-runnable : runnable (process picked.procs.table next) ≡ true
  picked-runnable =
      let a = picked-kept.entries_kept next (omega (arith, saved-IsValid.size)) in
      ground (arith, a.state_kept, saved-entry next, r, d)

  dispatched :
      process_schedule regs k
      ≡ (load_context (process recorded.procs.table next).context, record recorded { procs = left })
  unfolding process_schedule schedule_from run_next dispatch
  dispatched =
      rw
        (
          c, process_schedule, schedule_from, saved-is, pick', run_next, ne, picked-runnable,
          dispatch,
        )
        refl
    where
      ne : next == cur ≡ false
      ne = ground (arith, d)

      pick' : (htas_pick_next_process (some cur) (record k { procs = saved })).0 ≡ some next
      pick' =
          subst (λ s. (htas_pick_next_process (some cur) (record k { procs = s })).0 ≡ some next)
            saved-is pick

  left-entry :
      (j : ℕ)
      → process left.table j ≡ (
          if next == j
          then set_state running (process recorded.procs.table j)
          else process recorded.procs.table j)
  left-entry j =
      process-update next j (set_state running) recorded.procs
        (omega (arith, recorded-IsValid.size, h))

  next-entry : process left.table next ≡ set_state running (process recorded.procs.table next)
  next-entry = ground (arith, left-entry next)

  cur-entry : process left.table cur ≡ process recorded.procs.table cur
  cur-entry = ground (arith, left-entry cur, d)

  next-IsLive : IsLive (process recorded.procs.table next)
  next-IsLive =
      let a = recorded-entry next h in ground (arith, a.state_kept, saved-entry next, r, d)

  left-IsValid : IsValid left
  left-IsValid =
      update-IsValid next (set_state running) recorded.procs h refl (λ _. next-IsLive)
        recorded-IsValid

  left-current : process_current left ≡ some next
  unfolding process_current current_of
  left-current =
      (process_find_iff (process recorded.procs.table next).pid next left left-IsValid h).1
        (ap (λ (p : Process). is_unused p.state) next-entry, ap (λ (p : Process). p.pid) next-entry)

  cur-state : (process left.table cur).state ≡ ready
  cur-state =
      ap (λ (p : Process). p.state) cur-entry
      ∙ (recorded-entry cur cur_in).state_kept
      ∙ ground (arith, saved-entry cur, ==_refl cur)

  cur-context :
      (process left.table cur).context ≡ save_context regs (process k.procs.table cur).context
  cur-context =
      ap (λ (p : Process). p.context) cur-entry
      ∙ (recorded-entry cur cur_in).context_kept
      ∙ ground (arith, saved-entry cur, ==_refl cur)

  next-saved : process saved.table next ≡ process k.procs.table next
  next-saved = ground (arith, saved-entry next, d)

  -- A switch from a running process to another runnable one, which the task scheduler picks. The
  -- frame that the interrupt returns to holds the saved registers of the picked process; that one
  -- is now the current process, runs, and has its page directory in `cr3`; the old one is ready,
  -- with the interrupted registers in its context; and the table is valid.
  pub process_schedule-switches :
      let k' = (process_schedule regs k).1 in
      ((process_schedule regs k).0 ≡ load_context (process k.procs.table next).context)
      × (process_current k'.procs ≡ some next)
      × ((process k'.procs.table next).state ≡ running)
      × (k'.procs.cr3 ≡ (process k.procs.table next).page_dir)
      × ((process k'.procs.table cur).state ≡ ready)
      × ((process k'.procs.table cur).context
          ≡ save_context regs (process k.procs.table cur).context)
      × IsValid k'.procs
  process_schedule-switches = rw dispatched (
    ap load_context
        ((recorded-entry next h).context_kept ∙ ap (λ (p : Process). p.context) next-saved),
    left-current,
    ap (λ (p : Process). p.state) next-entry,
    (recorded-entry next h).dir_kept ∙ ap (λ (p : Process). p.page_dir) next-saved,
    cur-state,
    cur-context,
    left-IsValid,
  )

-- A process that the timer takes the processor from and later, at the next switch, gets it back
-- goes on with the registers that it was interrupted with, whatever the process in between did to
-- its own.
pub process_schedule-resumes :
    (cur next : ℕ) (regs regs' : Registers) (k : Kernel)
    → IsValid k.procs
    → process_current k.procs ≡ some cur
    → (process k.procs.table cur).state ≡ running
    → (htas_pick_next_process (some cur) (on_procs (save_current cur regs) k)).0 ≡ some next
    → next < max_processes
    → next ≢ cur
    → runnable (process k.procs.table next) ≡ true
    → let k' = (process_schedule regs k).1 in
      (htas_pick_next_process (some next) (on_procs (save_current next regs') k')).0 ≡ some cur
      → (process_schedule regs' k').0 ≡ regs
process_schedule-resumes cur next regs regs' k v c st pick h d r pick' =
    let (out, c1, st1, dir, ready1, ctx, v1) =
      process_schedule-switches cur next regs k v c st pick h d r in
    let k' = (process_schedule regs k).1 in
    (process_schedule-switches next cur regs' k' v1 c1 st1 pick' (current_in k.procs v c).0
      (λ e. d (sym e))
      (ap (λ x. runnable (record (process k'.procs.table cur) { state = x })) ready1)).0
    ∙ ap load_context ctx
