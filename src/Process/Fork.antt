-- ===== src/Process/Fork.antt =====
-- `process_fork` of kernel/proc/process.c.
use jimir_os.Common.{
  ℕ, ◌<◌, ◌≡◌, ◌≢◌, ◌∙◌, refl, ap, ap₂, sym, false, some, length, arith, if◌then◌else◌, Bool-cases,
  Option-cases, inl, inr, some_inj, ◌==◌, ◌⊎◌, length-modify,
}
use jimir_os.Common.Int.{ℤ, pos, minus_one}
use jimir_os.Process.{
  ready, Process, Procs, ProcState, process, update, max_processes, is_unused, process_find,
  process_create, created, forked, fork_into, fork_from, process_fork, unused, clone_page_directory,
  process_current,
}
use jimir_os.Process.Table.{IsValid, process-update, process_find_iff}
use jimir_os.Process.Create.{process_create-entry}
use jimir_os.Process.Calls.{process_fork-IsValid}
use jimir_os.Process.Invariant.{process_create-IsValid, current_in}

minus_one-ne-pos : {n : ℕ} → minus_one ≡ pos n → ⊥
minus_one-ne-pos e = cc

abbrev pub shared : Process → Process → Process
shared parent p = record p { page_dir = clone_page_directory parent.page_dir }

-- What a successful `fork_into` leaves.
abbrev pub forked_state : ℕ → ℕ → Procs → Procs
forked_state parent child s =
    let s1 = update child (shared (process s.table parent)) s in
    update child (forked (process s1.table parent)) s1

fork_into_at :
    (parent child : ℕ) (child_pid : ℤ) (s : Procs) {pid : ℕ}
    → (fork_into parent child child_pid s).0 ≡ pos pid
    → (child_pid ≡ pos pid)
      × ((process s.table parent).page_dir ≢ 0)
      × ((fork_into parent child child_pid s).1 ≡ forked_state parent child s)
unfolding fork_into
fork_into_at parent child child_pid s r =
    elim (Bool-cases ((process s.table parent).page_dir == 0)) [
      | inl e ↦ absurd (minus_one-ne-pos (rw e at r))
      | inr e ↦ rw e (rw e at r, (λ z. ground arith), refl)
    ]

-- A successful fork is a creation and a copy into the new slot.
fork_at :
    (parent : ℕ) (s : Procs) {pid : ℕ}
    → process_current s ≡ some parent
    → (process_fork s).0 ≡ pos pid
    → let s1 = (process_create (pos (process s.table parent).pid) s).1 in
      (child : ℕ) × ((process_create (pos (process s.table parent).pid) s).0 ≡ pos pid)
      × (process_find (pos pid) s1 ≡ some child)
      × ((process_fork s).1 ≡ forked_state parent child s1)
      × ((process s1.table parent).page_dir ≢ 0)
unfolding process_fork fork_from
fork_at parent s {pid} c r = elim (Option-cases (process_find made.0 made.1)) [
  | inl e ↦ absurd (ground (arith, same))
  | inr (child, e) ↦
      let into : fork_from parent s ≡ fork_into parent child made.0 made.1 =
        ground (arith, e, r, same) in
      let (q, dir, left) =
        fork_into_at parent child made.0 made.1
          (ap (λ (x : ℤ × Procs). x.0) (sym into ∙ sym same) ∙ r) in
      (
        child,
        q,
        ap (λ (x : ℤ). process_find x made.1) (sym q) ∙ e,
        ap (λ (x : ℤ × Procs). x.1) (same ∙ into) ∙ left,
        dir,
      )
]
  where
    made : ℤ × Procs
    made = process_create (pos (process s.table parent).pid) s

    same : process_fork s ≡ fork_from parent s
    same = ground arith

module _ (parent child : ℕ) (s : Procs) (h : child < length s.table) (d : child ≢ parent) where
  abbrev mid : Procs
  mid = update child (shared (process s.table parent)) s

  mid-entry :
      (j : ℕ)
      → process mid.table j ≡ (
          if child == j
          then shared (process s.table parent) (process s.table j)
          else process s.table j)
  mid-entry j = process-update child j (shared (process s.table parent)) s h

  end-entry :
      (j : ℕ)
      → process (forked_state parent child s).table j ≡ (
          if child == j
          then forked (process mid.table parent) (process mid.table j)
          else process mid.table j)
  end-entry j =
      process-update child j (forked (process mid.table parent)) mid
        (omega (arith, length-modify s.table child (shared (process s.table parent))))

  mid-parent : process mid.table parent ≡ process s.table parent
  mid-parent = ground (arith, mid-entry parent)

  end-parent : process (forked_state parent child s).table parent ≡ process s.table parent
  end-parent = ground (arith, end-entry parent, mid-parent)

  end-child :
      process (forked_state parent child s).table child
      ≡ forked (process s.table parent) (shared (process s.table parent) (process s.table child))
  end-child = ground (arith, end-entry child, mid-entry child, mid-parent)

live-ne-unused : (x : ProcState) → is_unused x ≡ false → x ≢ unused
live-ne-unused x h e = ground arith

-- Where a successful fork puts the child, and what the entry is.
pub process_fork-entry :
    (parent : ℕ) (s : Procs) {pid : ℕ}
    → IsValid s
    → process_current s ≡ some parent
    → (process_fork s).0 ≡ pos pid
    → let s' = (process_fork s).1 in
      let p = process s.table parent in
      (child : ℕ) × (process_find (pos pid) s' ≡ some child)
      × (child ≢ parent)
      × (process s'.table parent ≡ p)
      × (p.page_dir ≢ 0)
      × (process s'.table child
          ≡ forked p (shared p (created pid (pos p.pid) (process s.table child))))
process_fork-entry parent s {pid} v c r =
    let (child, cr, found, form, dir) = fork_at parent s c r in
    let (i, h, _, found', free, here, other) =
      process_create-entry (pos (process s.table parent).pid) s parent v cr in
    let same : i ≡ child = some_inj (sym found' ∙ found) in
    let (hp, lp) = current_in s v c in
    let ne : i ≢ parent = λ e.
      live-ne-unused (process s.table parent).state lp
        (ap (λ k. (process s.table k).state) (sym e) ∙ free) in
    let kept : process made.table parent ≡ process s.table parent =
      other_entry i parent _ _ ne other in
    let long : i < length made.table = omega (arith, made-IsValid.size) in
    let form' : (process_fork s).1 ≡ forked_state parent i made =
      form ∙ ap (λ k. forked_state parent k made) (sym same) in
    let at = end-child parent i made long ne in
    let copied = ap₂ (λ (a b : Process). forked a (shared a b)) kept here in
    let entry = ap (λ (t : Procs). process t.table i) form' ∙ at in
    (
      i,
      find i h (entry ∙ copied),
      ne,
      ap (λ (t : Procs). process t.table parent) form' ∙ end-parent parent i made long ne ∙ kept,
      (λ z. dir (ap (λ (p : Process). p.page_dir) kept ∙ z)),
      entry ∙ copied,
    )
  where
    made : Procs
    made = (process_create (pos (process s.table parent).pid) s).1

    made-IsValid : IsValid made
    made-IsValid = process_create-IsValid (pos (process s.table parent).pid) s v

    other_entry : (i j : ℕ) (a b : Process) → i ≢ j → (j ≡ i) ⊎ (a ≡ b) → a ≡ b
    other_entry i j a b d (inl e) = absurd (d (sym e))
    other_entry i j a b d (inr e) = e

    find :
        (i : ℕ)
        → i < max_processes
        → process (process_fork s).1.table i
          ≡ forked (process s.table parent) (
              shared
                (process s.table parent)
                (created pid (pos (process s.table parent).pid) (process s.table i)))
        → process_find (pos pid) (process_fork s).1 ≡ some i
    find i h w =
        (process_find_iff pid i (process_fork s).1 (process_fork-IsValid s v) h).1
          (ap (λ (p : Process). is_unused p.state) w, ap (λ (p : Process). p.pid) w)

-- What a successful fork from a valid state does. The child, which is found under the returned
-- pid, is ready and a child of the parent, with the parent's saved registers but for `eax`, which
-- is 0, with its program break and with its page directory itself, which is not 0; the parent is as
-- it was, and keeps its slot.
pub process_fork-child :
    (parent : ℕ) (s : Procs) {pid : ℕ}
    → IsValid s
    → process_current s ≡ some parent
    → (process_fork s).0 ≡ pos pid
    → let s' = (process_fork s).1 in
      let p = process s.table parent in
      (child : ℕ) × (process_find (pos pid) s' ≡ some child)
      × (child ≢ parent)
      × (process s'.table parent ≡ p)
      × ((process s'.table child).pid ≡ pid)
      × ((process s'.table child).ppid ≡ pos p.pid)
      × ((process s'.table child).state ≡ ready)
      × ((process s'.table child).context ≡ record (p.context) { eax = 0 })
      × ((process s'.table child).brk ≡ p.brk)
      × ((process s'.table child).page_dir ≡ p.page_dir)
      × (p.page_dir ≢ 0)
process_fork-child parent s {pid} v c r =
    let (child, found, ne, same, dir, entry) = process_fork-entry parent s v c r in
    (
      child,
      found,
      ne,
      same,
      ap (λ (q : Process). q.pid) entry,
      ap (λ (q : Process). q.ppid) entry,
      ap (λ (q : Process). q.state) entry,
      ap (λ (q : Process). q.context) entry,
      ap (λ (q : Process). q.brk) entry,
      ap (λ (q : Process). q.page_dir) entry,
      dir,
    )
