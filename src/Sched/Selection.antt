-- ===== src/Sched/Selection.antt =====
-- What `select_next` of kernel/sched/sched.c picks.
use jimir_os.Common.{
  ℕ, zero, suc, ◌+◌, ◌≤◌, ◌<◌, ◌≡◌, refl, ap, ◌≢◌, ◌↔◌, subst, true, false, ◌⊎◌, inl, inr, Option,
  none, some, List, [], ◌∷◌, length, arith, Bool-cases, Option-cases, none-ne-some, some_inj,
  true-ne-false, ◌∙◌, sym,
}
use jimir_os.Sched.{
  Thread, Best, found, is_ready, challenge, consider, select_from, select_next, thread, best_index,
}

-- `b` is at least as good as `c`: a smaller number for the priority, then a longer wait, then the
-- lower index.
pub record Preferred (b c : Best) : Type 0 where
  pub prio_le : b.prio ≤ c.prio
  pub wait_le : b.prio ≡ c.prio → c.wait ≤ b.wait
  pub index_le : b.prio ≡ c.prio → b.wait ≡ c.wait → b.index ≤ c.index

Preferred-trans : (a b c : Best) → Preferred a b → Preferred b c → Preferred a c
Preferred-trans a b c p q = record {
  prio_le = omega arith;
  wait_le = λ e. grind arith;
  index_le = λ e f. grind arith;
}

abbrev Below : ℕ → Option Best → Type 0
Below i none = Unit
Below i (some b) = b.index < i

challenge-Preferred : (i : ℕ) (t : Thread) (b : Best) → b.index < i → Preferred (challenge i t b) b
unfolding challenge
challenge-Preferred i t b h = ground arith

challenge-Preferred_self :
    (i : ℕ) (t : Thread) (b : Best)
    → b.index < i
    → is_ready t.state ≡ true
    → Preferred (challenge i t b) (found i t)
unfolding challenge
challenge-Preferred_self i t b h r = ground arith

consider-Below :
    (i : ℕ) (t : Thread) (best : Option Best) → Below i best → Below (suc i) (consider i t best)
unfolding consider
consider-Below i t none h = elim (Bool-cases (is_ready t.state)) [
  | inl e ↦ rw e (omega arith)
  | inr e ↦ rw e tt
]
consider-Below i t (some b) h = ground arith

-- A ready thread leaves a best one that is at least as good.
met :
    (i : ℕ) (t : Thread) (best : Option Best)
    → Below i best
    → is_ready t.state ≡ true
    → (c : Best) × (consider i t best ≡ some c) × (c.index < suc i) × Preferred c (found i t)
unfolding consider
met i t none h r = (found i t, ground arith, omega arith, omega arith)
met i t (some b) h r =
    (challenge i t b, refl, consider-Below i t (some b) h, challenge-Preferred_self i t b h r)

kept :
    (i : ℕ) (c : Best) (ths : List Thread) {b : Best}
    → c.index < i
    → select_from i (some c) ths ≡ some b
    → Preferred b c
unfolding select_from consider
kept i c [] h e = ground arith
kept i c (t ∷ ths) {b} h e =
    Preferred-trans b (challenge i t c) c
      (kept (suc i) (challenge i t c) ths (consider-Below i t (some c) h) e)
      (challenge-Preferred i t c h)

dominates :
    (i : ℕ) (best : Option Best) (ths : List Thread) (k j : ℕ) {b : Best}
    → Below i best
    → k < length ths
    → j ≡ i + k
    → is_ready (thread ths k).state ≡ true
    → select_from i best ths ≡ some b
    → Preferred b (found j (thread ths k))
unfolding select_from
dominates i best [] k j w h q r e = elim h [ ]
dominates i best (t ∷ ths) zero j {b} w h q r e =
    let (c, eq, below, pref) = met i t best w r in
    let same : j ≡ i = omega arith in
    rw same (
      Preferred-trans b c (found i t)
        (kept (suc i) c ths below (subst (λ x. select_from (suc i) x ths ≡ some b) eq e)) pref)
dominates i best (t ∷ ths) (suc k) j w h q r e =
    dominates (suc i) (consider i t best) ths k j (consider-Below i t best w) (omega arith)
      (omega arith) r e

some-stays : (i : ℕ) (c : Best) (ths : List Thread) → select_from i (some c) ths ≢ none
unfolding select_from consider
some-stays i c [] = ground arith
some-stays i c (t ∷ ths) = some-stays (suc i) (challenge i t c) ths

exhausted :
    (i : ℕ) (best : Option Best) (ths : List Thread) (k : ℕ)
    → Below i best
    → k < length ths
    → select_from i best ths ≡ none
    → is_ready (thread ths k).state ≡ false
unfolding select_from
exhausted i best [] k w h e = elim h [ ]
exhausted i best (t ∷ ths) zero w h e = elim (Bool-cases (is_ready t.state)) [
  | inl r ↦
      let (c, eq, below, pref) = met i t best w r in
      absurd (some-stays (suc i) c ths (subst (λ x. select_from (suc i) x ths ≡ none) eq e))
  | inr r ↦ r
]
exhausted i best (t ∷ ths) (suc k) w h e =
    exhausted (suc i) (consider i t best) ths k (consider-Below i t best w) (omega arith) e

-- The result is the best so far or a ready entry of the table.
abbrev FromTable : ℕ → List Thread → Best → Type 0
FromTable i ths b =
    (k : ℕ) × (k < length ths)
    × (is_ready (thread ths k).state ≡ true)
    × (b ≡ found (i + k) (thread ths k))

consider-origin :
    (i : ℕ) (t : Thread) (best : Option Best) {c : Best}
    → consider i t best ≡ some c
    → (best ≡ some c) ⊎ ((is_ready t.state ≡ true) × (c ≡ found i t))
unfolding consider challenge
consider-origin i t none e = ground arith
consider-origin i t (some b) e = ground arith

origin :
    (i : ℕ) (best : Option Best) (ths : List Thread) {b : Best}
    → select_from i best ths ≡ some b
    → (best ≡ some b) ⊎ FromTable i ths b
unfolding select_from
origin i best [] e = inl e
origin i best (t ∷ ths) {b} e = elim (origin (suc i) (consider i t best) ths e) [
  | inr (k, h, r, q) ↦
      inr (suc k, omega arith, r, q ∙ ap (λ n. found n (thread ths k)) (omega arith))
  | inl q ↦ elim (consider-origin i t best q) [
    | inl p ↦ inl p
    | inr (r, p) ↦ inr (zero, omega arith, r, p ∙ ap (λ n. found n t) (omega arith))
  ]
]

best_index-none : (o : Option Best) → best_index o ≡ none → o ≡ none
best_index-none none e = refl
best_index-none (some b) e = ground arith

selected :
    (ths : List Thread) {i : ℕ}
    → best_index (select_from 1 none ths) ≡ some i
    → (k : ℕ) × (i ≡ suc k)
      × (k < length ths)
      × (is_ready (thread ths k).state ≡ true)
      × (select_from 1 none ths ≡ some (found (suc k) (thread ths k)))
selected ths {i} e = elim (Option-cases (select_from 1 none ths)) [
  | inl q ↦ absurd (none-ne-some (ap best_index (sym q) ∙ e))
  | inr (b, q) ↦ elim (origin 1 none ths q) [
    | inl p ↦ absurd (none-ne-some p)
    | inr (k, h, r, p) ↦
        let s : b ≡ found (suc k) (thread ths k) =
          p ∙ ap (λ n. found n (thread ths k)) (omega arith) in
        (k, some_inj (sym e ∙ ap best_index (q ∙ ap some s)), h, r, q ∙ ap some s)
  ]
]

-- What `select_next` picks is ready, and not the idle thread of slot 0.
pub select_next-ready :
    (ths : List Thread) {i : ℕ}
    → select_next ths ≡ some i
    → (0 < i) × (i < length ths) × (is_ready (thread ths i).state ≡ true)
unfolding select_next
select_next-ready [] e = absurd (none-ne-some e)
select_next-ready (t ∷ ths) e =
    let (k, same, below, rdy, q) = selected ths e in rw same (omega arith, omega arith, rdy)

-- If `select_next` picks a thread while thread `j`, from slot 1 on, is ready, the one picked is
-- ready, is not the idle thread of slot 0, and `j` has no higher priority, nor the same priority
-- and a longer wait, nor the same of both and a lower slot.
pub select_next-best :
    (ths : List Thread) {i : ℕ} (j : ℕ)
    → select_next ths ≡ some i
    → 0 < j
    → j < length ths
    → is_ready (thread ths j).state ≡ true
    → (0 < i)
      × (i < length ths)
      × (is_ready (thread ths i).state ≡ true)
      × Preferred (found i (thread ths i)) (found j (thread ths j))
unfolding select_next
select_next-best [] j e p h r = elim h [ ]
select_next-best (t ∷ ths) zero e p h r = elim p [ ]
select_next-best (t ∷ ths) {i} (suc j) e p h r =
    let (k, same, below, rdy, q) = selected ths e in
    rw same (
      omega arith,
      omega arith,
      rdy,
      dominates 1 none ths j (suc j) tt (omega arith) (omega arith) r q,
    )

-- `select_next` finds nothing exactly when no thread from slot 1 on is ready.
pub select_next-none :
    (ths : List Thread)
    → (select_next ths ≡ none)
      ↔ ((j : ℕ) → 0 < j → j < length ths → is_ready (thread ths j).state ≡ false)
unfolding select_next
select_next-none [] = (λ e j p h. elim h [ ], λ h. refl)
select_next-none (t ∷ ths) = (quiet, found_none)
  where
    quiet :
        best_index (select_from 1 none ths) ≡ none
        → (j : ℕ) → 0 < j
        → j < suc (length ths)
        → is_ready (thread (t ∷ ths) j).state ≡ false
    quiet e zero p h = elim p [ ]
    quiet e (suc j) p h =
        exhausted 1 none ths j tt (omega arith) (best_index-none (select_from 1 none ths) e)

    found_none :
        ((j : ℕ) → 0 < j → j < suc (length ths) → is_ready (thread (t ∷ ths) j).state ≡ false)
        → best_index (select_from 1 none ths) ≡ none
    found_none h = elim (Option-cases (best_index (select_from 1 none ths))) [
      | inl e ↦ e
      | inr (i, e) ↦
          let (k, same, below, rdy, q) = selected ths e in
          absurd (true-ne-false (sym rdy ∙ h (suc k) (omega arith) (omega arith)))
    ]
