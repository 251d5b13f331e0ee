-- ===== src/Process/Invariant.antt =====
-- Every operation of kernel/proc/process.c keeps the pids of the live processes distinct.
use jimir_os.Common.{
  ℕ, ◌+◌, ◌<◌, ◌≡◌, ◌∙◌, refl, ap, sym, subst, some, modify, replicate, arith, if◌then◌else◌, ◌==◌,
  Bool-cases, Option-cases, inl, inr, length-modify, get_or-replicate, length-replicate, ==_iff,
  true-ne-false, none-ne-some, ◌⊎◌,
}
use jimir_os.Common.Int.{ℤ, pos, negsuc}
use jimir_os.Common.Search.{find_index, find_index-some}
use jimir_os.Process.{
  Process, Procs, process, update, max_processes, no_process, is_unused, is_free, has_pid,
  current_of, process_find, process_create, created, process_init, release_space, process_destroy,
  forked, fork_into, process_current, unused,
}
use jimir_os.Process.Table.{IsValid, IsLive, process-update}

-- A change of one entry that keeps its pid and brings no free entry to life.
pub update-IsValid :
    (i : ℕ) (f : Process → Process) (s : Procs)
    → i < max_processes
    → (f (process s.table i)).pid ≡ (process s.table i).pid
    → (IsLive (f (process s.table i)) → IsLive (process s.table i))
    → IsValid s
    → IsValid (update i f s)
update-IsValid i f s h p l v = record {
  size = length-modify s.table i f ∙ v.size;
  next_pos = v.next_pos;
  pid_in = λ j hj lj. let (lj', e) = back j lj in rw e (v.pid_in j hj lj');
  distinct = λ j k hj hk lj lk q.
      let (lj', ej) = back j lj in
      let (lk', ek) = back k lk in v.distinct j k hj hk lj' lk' (sym ej ∙ q ∙ ek);
}
  where
    at :
        (j : ℕ)
        → process (modify s.table i f) j
          ≡ (if i == j then f (process s.table j) else process s.table j)
    at j = process-update i j f s (omega (arith, v.size))

    back :
        (j : ℕ)
        → IsLive (process (modify s.table i f) j)
        → IsLive (process s.table j)
          × ((process (modify s.table i f) j).pid ≡ (process s.table j).pid)
    back j lj = elim (Bool-cases (i == j)) [
      | inl e ↦
          let same : i ≡ j = (==_iff i j).0 e in
          subst
            (λ k.
              IsLive (process (modify s.table i f) k)
              → IsLive (process s.table k)
                × ((process (modify s.table i f) k).pid ≡ (process s.table k).pid))
            same self lj
      | inr e ↦ ground (arith, at j)
    ]
      where
        here : process (modify s.table i f) i ≡ f (process s.table i)
        here = ground (arith, at i)

        self :
            IsLive (process (modify s.table i f) i)
            → IsLive (process s.table i)
              × ((process (modify s.table i f) i).pid ≡ (process s.table i).pid)
        self li = (l (subst IsLive here li), ap (λ (q : Process). q.pid) here ∙ p)

-- The table that `process_create` leaves when slot `i` was free.
module _ (i : ℕ) (ppid : ℤ) (s : Procs) (h : i < max_processes) (v : IsValid s) where
  filled : Procs
  filled = record s {
    table = modify s.table i (created s.next_pid ppid);
    next_pid = s.next_pid + 1;
  }

  filled-entry :
      (j : ℕ)
      → process (modify s.table i (created s.next_pid ppid)) j
        ≡ (if i == j then created s.next_pid ppid (process s.table j) else process s.table j)
  filled-entry j = process-update i j (created s.next_pid ppid) s (omega (arith, v.size))

  -- A live process of the new table is the new one or an old one.
  filled-cases :
      (j : ℕ)
      → j < max_processes
      → IsLive (process (modify s.table i (created s.next_pid ppid)) j)
      → ((i ≡ j) × ((process (modify s.table i (created s.next_pid ppid)) j).pid ≡ s.next_pid))
        ⊎ (IsLive (process s.table j)
            × ((process (modify s.table i (created s.next_pid ppid)) j).pid
                ≡ (process s.table j).pid)
            × ((process s.table j).pid < s.next_pid)
            × (0 < (process s.table j).pid))
  filled-cases j hj l = elim (Bool-cases (i == j)) [
    | inl e ↦ inl ((==_iff i j).0 e, ground (arith, filled-entry j))
    | inr e ↦
        let same : process (modify s.table i (created s.next_pid ppid)) j ≡ process s.table j =
          ground (arith, filled-entry j) in
        let l' = subst IsLive same l in
        let (p, q) = v.pid_in j hj l' in inr (l', ap (λ (q : Process). q.pid) same, q, p)
  ]

  filled-IsValid : IsValid filled
  unfolding filled
  filled-IsValid = record {
    size = length-modify s.table i (created s.next_pid ppid) ∙ v.size;
    next_pos = omega (arith, v.next_pos);
    pid_in = λ j hj l. elim (filled-cases j hj l) [
      | inl (e, p) ↦ omega arith
      | inr (l', p, q, r) ↦ omega arith
    ];
    distinct = λ j k hj hk lj lk e. elim (filled-cases j hj lj) [
      | inl (a, p) ↦ elim (filled-cases k hk lk) [
        | inl (b, q) ↦ sym a ∙ b
        | inr (lk', q, lt, _) ↦ absurd (omega arith)
      ]
      | inr (lj', p, lt, _) ↦ elim (filled-cases k hk lk) [
        | inl (b, q) ↦ absurd (omega arith)
        | inr (lk', q, lt', _) ↦ v.distinct j k hj hk lj' lk' (sym p ∙ e ∙ q)
      ]
    ];
  }

pub process_init-IsValid : (s : Procs) → IsValid (process_init s)
unfolding process_init
process_init-IsValid s = record {
  size = length-replicate max_processes no_process;
  next_pos = omega arith;
  pid_in = λ i h l. absurd (dead i l);
  distinct = λ i j hi hj l. absurd (dead i l);
}
  where
    dead : (i : ℕ) → IsLive (process (replicate max_processes no_process) i) → ⊥
    dead i l = true-ne-false (
        sym (ap (λ (p : Process). is_unused p.state) (get_or-replicate max_processes i no_process))
        ∙ l)

pub process_create-IsValid : (ppid : ℤ) (s : Procs) → IsValid s → IsValid (process_create ppid s).1
unfolding process_create filled
process_create-IsValid ppid s v = elim (Option-cases (find_index is_free 0 s.table)) [
  | inl e ↦ rw (e, process_create) v
  | inr (i, e) ↦
      let (h, free) = find_index-some is_free no_process s.table e in
      rw (e, process_create) (filled-IsValid i ppid s (omega (arith, v.size)) v)
]

pub found_in :
    (pid : ℤ) (s : Procs) {i : ℕ}
    → IsValid s
    → process_find pid s ≡ some i
    → (i < max_processes) × IsLive (process s.table i)
unfolding process_find
found_in pid s {i} v e =
    let (h, p) = find_index-some (has_pid pid) no_process s.table e in
    (omega (arith, v.size), ground arith)

pub current_of_in :
    (pid : ℤ) (s : Procs) {i : ℕ}
    → IsValid s
    → current_of pid s ≡ some i
    → (i < max_processes) × IsLive (process s.table i)
unfolding current_of
current_of_in (pos n) s v e = found_in (pos n) s v e
current_of_in (negsuc n) s v e = absurd (none-ne-some e)

-- The slot of the current process.
pub current_in :
    (s : Procs) {i : ℕ}
    → IsValid s
    → process_current s ≡ some i
    → (i < max_processes) × IsLive (process s.table i)
unfolding process_current
current_in s v e = current_of_in s.current_pid s v e

pub release_space-IsValid :
    (i : ℕ) (s : Procs) → i < max_processes → IsValid s → IsValid (release_space i s)
unfolding release_space
release_space-IsValid i s h v = elim (Bool-cases ((process s.table i).page_dir == 0)) [
  | inl e ↦ rw e v
  | inr e ↦ rw e (update-IsValid i (λ p. record p { page_dir = 0 }) s h refl (λ l. l) v)
]

pub process_destroy-IsValid : (pid : ℤ) (s : Procs) → IsValid s → IsValid (process_destroy pid s)
unfolding process_destroy
process_destroy-IsValid pid s v = elim (Option-cases (process_find pid s)) [
  | inl e ↦ rw (e, process_destroy) v
  | inr (i, e) ↦
      let (h, l) = found_in pid s v e in
      rw (e, process_destroy)
        (update-IsValid i (λ p. record p { state = unused }) (release_space i s) h refl
          (λ l. absurd (true-ne-false l)) (release_space-IsValid i s h v))
]

pub fork_into-IsValid :
    (parent child : ℕ) (child_pid : ℤ) (s : Procs)
    → child < max_processes
    → IsLive (process s.table child)
    → IsValid s
    → IsValid (fork_into parent child child_pid s).1
unfolding fork_into
fork_into-IsValid parent child child_pid s h l v =
    elim (Bool-cases ((process s.table parent).page_dir == 0)) [
      | inl e ↦ rw e (process_destroy-IsValid child_pid s1 v1)
      | inr e ↦ rw e (
          update-IsValid child (forked (process s1.table parent)) s1 h refl
            (λ _. ground (arith, process-update child child dir s (omega (arith, v.size)))) v1)
    ]
  where
    dir : Process → Process
    dir p = record p { page_dir = (process s.table parent).page_dir }

    s1 : Procs
    s1 = update child dir s

    v1 : IsValid s1
    v1 = update-IsValid child dir s h refl (λ l. l) v
