-- ===== src/Htas/Select.antt =====
-- What `htas_select_next` of kernel/sched/htas.c picks.
use jimir_os.Common.{
  ℕ, zero, suc, ◌+◌, ◌≤◌, ◌<◌, ◌≡◌, ◌≢◌, ◌∙◌, refl, ap, sym, subst, Bool, true, false, ◌&&◌, Option,
  none, some, List, [], ◌∷◌, length, arith, if◌then◌else◌, ltb, Bool-cases, Option-cases, inl, inr,
  true-ne-false, none-ne-some, some_inj, ◌⊎◌, ◌↔◌,
}
use jimir_os.Process.{Process, process}
use jimir_os.Htas.{
  runnable, htas_can_run_on_cpu, task_priority, consider, select_from, best_slot, htas_select_next,
}

-- A task that may run on the processor now.
abbrev pub eligible : ℕ → Process → Bool
eligible cpu p = runnable p && htas_can_run_on_cpu p cpu

module _ (cpu : ℕ) where
  -- The best task so far, (slot, priority), stands for a slot below `i`.
  abbrev Below : ℕ → Option (ℕ × ℕ) → Type 0
  Below i none = Unit
  Below i (some (b, priority)) = b < i

  -- The slot and priority `b` are at least as good as `c`.
  abbrev Good : ℕ × ℕ → ℕ × ℕ → Type 0
  Good (b, pb) (c, pc) = (pc ≤ pb) × (pc ≡ pb → b ≤ c)

  Good-trans : (a b c : ℕ × ℕ) → Good a b → Good b c → Good a c
  Good-trans (a, pa) (b, pb) (c, pc) (p, q) (r, s) = (omega arith, λ e. grind arith)

  abbrev candidate : ℕ → Process → ℕ × ℕ
  candidate i p = (i, task_priority cpu p)

  abbrev challenge : ℕ → Process → ℕ × ℕ → ℕ × ℕ
  challenge i p (b, priority) =
      if eligible cpu p && ltb priority (task_priority cpu p) then candidate i p else (b, priority)

  consider-some :
      (i : ℕ) (p : Process) (c : ℕ × ℕ) → consider cpu i p (some c) ≡ some (challenge i p c)
  unfolding consider
  consider-some i p (b, priority) = ground arith

  challenge-Good :
      (i : ℕ) (p : Process) (c : ℕ × ℕ)
      → c.0 < i
      → Good (challenge i p c) c
        × ((challenge i p c).0 < suc i)
        × (eligible cpu p ≡ true → Good (challenge i p c) (candidate i p))
  challenge-Good i p (b, priority) h = ground arith

  kept :
      (i : ℕ) (c : ℕ × ℕ) (ps : List Process) {b : ℕ × ℕ}
      → c.0 < i
      → select_from cpu i (some c) ps ≡ some b
      → Good b c
  unfolding select_from
  kept i (c, pc) [] {b = (b, pb)} h e = ground arith
  kept i c (p ∷ ps) {b} h e =
      let (g, below, _) = challenge-Good i p c h in
      Good-trans b (challenge i p c) c
        (kept (suc i) (challenge i p c) ps below
          (subst (λ x. select_from cpu (suc i) x ps ≡ some b) (consider-some i p c) e))
        g

  consider-none :
      (i : ℕ) (p : Process) → eligible cpu p ≡ true → consider cpu i p none ≡ some (candidate i p)
  unfolding consider
  consider-none i p r = rw r refl

  consider-none_skip : (i : ℕ) (p : Process) → eligible cpu p ≡ false → consider cpu i p none ≡ none
  unfolding consider
  consider-none_skip i p r = rw r refl

  -- An eligible task leaves a best one that is at least as good.
  met :
      (i : ℕ) (p : Process) (best : Option (ℕ × ℕ))
      → Below i best
      → eligible cpu p ≡ true
      → (c : ℕ × ℕ) × (consider cpu i p best ≡ some c) × (c.0 < suc i) × Good c (candidate i p)
  met i p none h r =
      (candidate i p, consider-none i p r, omega arith, (omega arith, λ e. omega arith))
  met i p (some c) h r =
      let (_, below, good) = challenge-Good i p c h in
      (challenge i p c, consider-some i p c, below, good r)

  consider-Below :
      (i : ℕ) (p : Process) (best : Option (ℕ × ℕ))
      → Below i best
      → Below (suc i) (consider cpu i p best)
  consider-Below i p none h = elim (Bool-cases (eligible cpu p)) [
    | inl e ↦ subst (Below (suc i)) (sym (consider-none i p e)) (omega arith)
    | inr e ↦ subst (Below (suc i)) (sym (consider-none_skip i p e)) tt
  ]
  consider-Below i p (some c) h =
      subst (Below (suc i)) (sym (consider-some i p c)) (challenge-Good i p c h).1

  dominates :
      (i : ℕ) (best : Option (ℕ × ℕ)) (ps : List Process) (k j : ℕ) {b : ℕ × ℕ}
      → Below i best
      → k < length ps
      → j ≡ i + k
      → eligible cpu (process ps k) ≡ true
      → select_from cpu i best ps ≡ some b
      → Good b (candidate j (process ps k))
  unfolding select_from
  dominates i best [] k j w h q r e = elim h [ ]
  dominates i best (p ∷ ps) zero j {b} w h q r e =
      let (c, eq, below, good) = met i p best w r in
      let same : j ≡ i = omega arith in
      rw same (
        Good-trans b c (candidate i p)
          (kept (suc i) c ps below (subst (λ x. select_from cpu (suc i) x ps ≡ some b) eq e)) good)
  dominates i best (p ∷ ps) (suc k) j w h q r e =
      dominates (suc i) (consider cpu i p best) ps k j (consider-Below i p best w) (omega arith)
        (omega arith) r e

  some-stays : (i : ℕ) (c : ℕ × ℕ) (ps : List Process) → select_from cpu i (some c) ps ≢ none
  unfolding select_from
  some-stays i c [] = ground arith
  some-stays i c (p ∷ ps) = λ e.
      some-stays (suc i) (challenge i p c) ps
        (subst (λ x. select_from cpu (suc i) x ps ≡ none) (consider-some i p c) e)

  exists :
      (i : ℕ) (best : Option (ℕ × ℕ)) (ps : List Process) (k : ℕ)
      → Below i best
      → k < length ps
      → eligible cpu (process ps k) ≡ true
      → select_from cpu i best ps ≢ none
  unfolding select_from
  exists i best [] k w h r e = elim h [ ]
  exists i best (p ∷ ps) zero w h r e =
      let (c, eq, below, good) = met i p best w r in
      some-stays (suc i) c ps (subst (λ x. select_from cpu (suc i) x ps ≡ none) eq e)
  exists i best (p ∷ ps) (suc k) w h r e =
      exists (suc i) (consider cpu i p best) ps k (consider-Below i p best w) (omega arith) r e

  FromTable : ℕ → List Process → ℕ × ℕ → Type 0
  FromTable i ps b =
      (k : ℕ) × (k < length ps)
      × (eligible cpu (process ps k) ≡ true)
      × (b ≡ candidate (i + k) (process ps k))

  consider-origin :
      (i : ℕ) (p : Process) (best : Option (ℕ × ℕ)) {c : ℕ × ℕ}
      → consider cpu i p best ≡ some c
      → (best ≡ some c) ⊎ ((eligible cpu p ≡ true) × (c ≡ candidate i p))
  unfolding consider
  consider-origin i p none {c = (c, pc)} e = ground arith
  consider-origin i p (some (b, pb)) {c = (c, pc)} e = ground arith

  origin :
      (i : ℕ) (best : Option (ℕ × ℕ)) (ps : List Process) {b : ℕ × ℕ}
      → select_from cpu i best ps ≡ some b
      → (best ≡ some b) ⊎ FromTable i ps b
  unfolding select_from FromTable
  origin i best [] e = inl e
  origin i best (p ∷ ps) {b} e = elim (origin (suc i) (consider cpu i p best) ps e) [
    | inr (k, h, r, q) ↦
        inr (suc k, omega arith, r, q ∙ ap (λ n. candidate n (process ps k)) (omega arith))
    | inl q ↦ elim (consider-origin i p best q) [
      | inl s ↦ inl s
      | inr (r, s) ↦ inr (zero, omega arith, r, s ∙ ap (λ n. candidate n p) (omega arith))
    ]
  ]

best_slot-some :
    (o : Option (ℕ × ℕ)) {i : ℕ} → best_slot o ≡ some i → (b : ℕ × ℕ) × (o ≡ some b) × (b.0 ≡ i)
best_slot-some none e = absurd (none-ne-some e)
best_slot-some (some (b, priority)) e = ((b, priority), refl, some_inj e)

best_slot-none : (o : Option (ℕ × ℕ)) → best_slot o ≡ none → o ≡ none
best_slot-none none e = refl
best_slot-none (some (b, priority)) e = ground arith

-- The task that `htas_select_next` picks is ready or running, may run on the processor, and has
-- the highest priority of such tasks; among those with that priority it has the lowest slot. `j` is
-- any such task.
pub htas_select_next-best :
    (cpu : ℕ) (ps : List Process) {i : ℕ} (j : ℕ)
    → htas_select_next cpu ps ≡ some i
    → j < length ps
    → eligible cpu (process ps j) ≡ true
    → (i < length ps)
      × (eligible cpu (process ps i) ≡ true)
      × (task_priority cpu (process ps j) ≤ task_priority cpu (process ps i))
      × (task_priority cpu (process ps j) ≡ task_priority cpu (process ps i) → i ≤ j)
unfolding htas_select_next FromTable
htas_select_next-best cpu ps {i} j e h r =
    let (b, q, same) = best_slot-some (select_from cpu 0 none ps) e in
    elim (origin cpu 0 none ps q) [
      | inl n ↦ absurd (none-ne-some n)
      | inr (k, hk, rk, form) ↦
          let at : i ≡ k = sym same ∙ ap (λ (x : ℕ × ℕ). x.0) form ∙ omega arith in
          let good =
            dominates cpu 0 none ps j j tt h (omega arith) r
              (q ∙ ap some (form ∙ ap (λ n. candidate cpu n (process ps k)) (omega arith))) in
          rw at (hk, rk, good.0, good.1)
    ]

-- `htas_select_next` finds no task exactly when there is none that may run on the processor.
pub htas_select_next-none :
    (cpu : ℕ) (ps : List Process)
    → (htas_select_next cpu ps ≡ none)
      ↔ ((j : ℕ) → j < length ps → eligible cpu (process ps j) ≡ false)
unfolding htas_select_next FromTable
htas_select_next-none cpu ps = (quiet, idle)
  where
    quiet :
        best_slot (select_from cpu 0 none ps) ≡ none
        → (j : ℕ) → j < length ps
        → eligible cpu (process ps j) ≡ false
    quiet e j h = elim (Bool-cases (eligible cpu (process ps j))) [
      | inl r ↦
          absurd (exists cpu 0 none ps j tt h r (best_slot-none (select_from cpu 0 none ps) e))
      | inr r ↦ r
    ]

    idle :
        ((j : ℕ) → j < length ps → eligible cpu (process ps j) ≡ false)
        → best_slot (select_from cpu 0 none ps) ≡ none
    idle q = elim (Option-cases (select_from cpu 0 none ps)) [
      | inl e ↦ ap best_slot e
      | inr (b, e) ↦ elim (origin cpu 0 none ps e) [
        | inl n ↦ absurd (none-ne-some n)
        | inr (k, hk, rk, form) ↦ absurd (true-ne-false (sym rk ∙ q k hk))
      ]
    ]
