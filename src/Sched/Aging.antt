-- ===== src/Sched/Aging.antt =====
-- `apply_aging` of kernel/sched/sched.c: a ready thread that waits rises to the highest priority.
use jimir_os.Common.{
  ℕ, suc, ◌+◌, ◌-◌, ◌*◌, ◌<◌, ◌≡◌, ◌≢◌, ◌∙◌, refl, ap, length-modify, get_or-modify, true, List, [],
  ◌∷◌, length, map_from, modify, arith, if◌then◌else◌, ◌==◌, ap₂, length-map_from, get_or-map_from,
}
use native.Mathlib.Nat.{zero-add}
use jimir_os.Sched.{
  Thread, blank, is_ready, age, apply_aging, thread, aging_threshold, wait_one, burn, tick_threads,
}

pub age-twice : (i : ℕ) (t : Thread) → age i (age i t) ≡ age i t
unfolding age
age-twice i t = ground arith

map_from-twice :
    (i : ℕ) (ths : List Thread) → map_from age i (map_from age i ths) ≡ map_from age i ths
map_from-twice i [] = refl
map_from-twice i (t ∷ ths) = ap₂ ◌∷◌ (age-twice i t) (map_from-twice (suc i) ths)

-- Ageing the table a second time, as `sched_yield` does when `sched_tick` calls it, changes
-- nothing more.
apply_aging-apply_aging : (ths : List Thread) → apply_aging (apply_aging ths) ≡ apply_aging ths
unfolding apply_aging
apply_aging-apply_aging ths = map_from-twice 0 ths

-- Entry `j` of the table, after ageing.
pub thread-apply_aging :
    (ths : List Thread) (j : ℕ) → j < length ths → thread (apply_aging ths) j ≡ age j (thread ths j)
unfolding apply_aging
thread-apply_aging ths j h =
    get_or-map_from age 0 j ths blank h ∙ ap (λ k. age k (thread ths j)) (zero-add j)

-- How many ticks a waiting thread is away from the highest priority.
abbrev pub ticks_to_top : Thread → ℕ
ticks_to_top t = aging_threshold * t.priority - t.wait_ticks

pub length-tick_threads : (cur : ℕ) (ths : List Thread) → length (tick_threads cur ths) ≡ length ths
unfolding tick_threads apply_aging
length-tick_threads cur ths =
    length-map_from age 0 (modify (map_from (wait_one cur) 0 ths) cur burn)
    ∙ length-modify (map_from (wait_one cur) 0 ths) cur burn
    ∙ length-map_from (wait_one cur) 0 ths

-- Entry `j` of the table, after one tick.
pub thread-tick_threads :
    (cur j : ℕ) (ths : List Thread)
    → cur < length ths
    → j < length ths
    → thread (tick_threads cur ths) j
      ≡ age j
          (if cur == j then burn (wait_one cur j (thread ths j)) else wait_one cur j (thread ths j))
unfolding tick_threads apply_aging
thread-tick_threads cur j ths hc hj =
    rw
      (get_or-map_from age 0 j burnt blank
        (omega (arith, length-modify waited cur burn, length-map_from (wait_one cur) 0 ths)))
      (rw
        (get_or-modify waited cur j burn blank
          (omega (arith, length-map_from (wait_one cur) 0 ths)))
        (rw (get_or-map_from (wait_one cur) 0 j ths blank hj) (rw zero-add refl)))
  where
    waited : List Thread
    waited = map_from (wait_one cur) 0 ths

    burnt : List Thread
    burnt = modify waited cur burn

-- One tick brings a ready thread that waits below the highest priority one tick nearer to it,
-- if it has waited less than the threshold; and it stays ready.
pub tick_threads-rises :
    (cur j : ℕ) (ths : List Thread)
    → cur < length ths
    → j < length ths
    → 0 < j
    → j ≢ cur
    → is_ready (thread ths j).state ≡ true
    → (thread ths j).wait_ticks < aging_threshold
    → 0 < (thread ths j).priority
    → (ticks_to_top (thread (tick_threads cur ths) j) + 1 ≡ ticks_to_top (thread ths j))
      × (is_ready (thread (tick_threads cur ths) j).state ≡ true)
      × ((thread (tick_threads cur ths) j).wait_ticks < aging_threshold)
unfolding age wait_one
tick_threads-rises cur j ths hc hj p n r w q = ground (arith, thread-tick_threads cur j ths hc hj)
