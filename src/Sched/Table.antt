-- ===== src/Sched/Table.antt =====
-- The entries of the thread table after the operations of kernel/sched/sched.c that write two
-- entries: `refill_slice` and the switch of `sched_yield`.
use jimir_os.Common.{
  ℕ, ◌<◌, ◌≡◌, ◌≢◌, ◌∙◌, List, length, modify, arith, if◌then◌else◌, ◌==◌, length-modify,
  get_or-modify,
}
use jimir_os.Sched.{
  Sched, Thread, ready, running, blank, refill, refill_slice, thread, max_threads, switch,
  ctx_switch,
}

pub length-refill_slice : (tid : ℕ) (ths : List Thread) → length (refill_slice tid ths) ≡ length ths
unfolding refill_slice
length-refill_slice tid ths = ground (arith, length-modify ths tid refill)

pub thread-refill_slice :
    (tid j : ℕ) (ths : List Thread)
    → tid < max_threads
    → length ths ≡ max_threads
    → thread (refill_slice tid ths) j ≡ (if tid == j then refill (thread ths j) else thread ths j)
unfolding refill_slice
thread-refill_slice tid j ths h n =
    ground (arith, get_or-modify ths tid j refill blank (omega arith))

-- What the switch from `prev` to `next` makes of entry `j`; `esp` is the stack pointer saved.
abbrev pub switched : ℕ → ℕ → ℕ → ℕ → Thread → Thread
switched prev next esp j t =
    if prev == j
    then record (refill (record t { state = ready; wait_ticks = 0 })) { esp = esp }
    else (if next == j then refill (record t { state = running; wait_ticks = 0 }) else t)

abbrev park : Thread → Thread
park t = record t { state = ready; wait_ticks = 0 }

abbrev resume : Thread → Thread
resume t = record t { state = running; wait_ticks = 0 }

module _ (prev next : ℕ) (s : Sched) where
  parked : List Thread
  parked = refill_slice prev (modify s.threads prev park)

  resumed : List Thread
  unfolding parked
  resumed = refill_slice next (modify parked next resume)

  length-parked : length parked ≡ length s.threads
  unfolding parked
  length-parked =
      length-refill_slice prev (modify s.threads prev park) ∙ length-modify s.threads prev park

  length-resumed : length resumed ≡ length s.threads
  unfolding resumed
  length-resumed =
      length-refill_slice next (modify parked next resume)
      ∙ length-modify parked next resume
      ∙ length-parked

  pub length-switch : length (switch prev next s).threads ≡ length s.threads
  unfolding switch ctx_switch resumed
  length-switch = length-modify resumed prev (λ t. record t { esp = s.cpu_esp }) ∙ length-resumed

  module _ (small : length s.threads ≡ max_threads) (hp : prev < max_threads)
      (hn : next < max_threads) where
    thread-parked :
        (j : ℕ)
        → thread parked j
          ≡ (if prev == j then refill (park (thread s.threads j)) else thread s.threads j)
    unfolding parked
    thread-parked j = ground (
      arith,
      thread-refill_slice prev j (modify s.threads prev park) hp
          (omega (arith, length-modify s.threads prev park)),
      get_or-modify s.threads prev j park blank (omega arith),
    )

    thread-resumed :
        (j : ℕ)
        → thread resumed j
          ≡ (if next == j then refill (resume (thread parked j)) else thread parked j)
    unfolding resumed
    thread-resumed j = ground (
      arith,
      thread-refill_slice next j (modify parked next resume) hn
          (omega (arith, length-modify parked next resume, length-parked)),
      get_or-modify parked next j resume blank (omega (arith, length-parked)),
    )

    -- The switch parks the outgoing thread, ready, with a full slice and its stack pointer saved;
    -- it runs the incoming one with a full slice, and leaves the others alone.
    pub thread-switch :
        (j : ℕ)
        → prev ≢ next
        → thread (switch prev next s).threads j
          ≡ switched prev next s.cpu_esp j (thread s.threads j)
    unfolding switch ctx_switch resumed
    thread-switch j d = ground (
      arith,
      thread-parked j,
      thread-resumed j,
      get_or-modify resumed prev j (λ t. record t { esp = s.cpu_esp }) blank
          (omega (arith, length-resumed)),
    )

    -- The processor goes on with the stack pointer that was saved for the incoming thread.
    pub cpu_esp-switch : prev ≢ next → (switch prev next s).cpu_esp ≡ (thread s.threads next).esp
    unfolding switch ctx_switch resumed
    cpu_esp-switch d = ground (arith, thread-parked next, thread-resumed next)
