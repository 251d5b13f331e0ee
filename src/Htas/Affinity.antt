-- ===== src/Htas/Affinity.antt =====
-- Which processors a profile allows: `htas_calculate_affinity` and `htas_can_run_on_cpu` of
-- kernel/sched/htas.c.
use Prim.Native.Nat.{bit_and}
use jimir_os.Common.{
  ℕ, zero, suc, ◌^◌, ◌<◌, ◌≡◌, ◌∙◌, refl, sym, Bool, true, false, ◌||◌, not, ◌==◌, ltb, leb,
  if◌then◌else◌, arith, Bool-cases, inl, inr, ◌⊎◌,
}
use jimir_os.Common.Bits.{zero-bit_and}
use jimir_os.Process.{Process, TaskProfile}
use jimir_os.Htas.{
  htas_calculate_affinity, intent_mask, numa_mask, htas_get_numa_node_for_address,
  profile_performance, profile_low_latency, profile_efficiency, profile_default, num_cpus,
  with_profile, set_profile, htas_can_run_on_cpu, htas_get_cpu_type, is_pcore,
}

-- The node of an address: 1 for the second 128 MB, and 0 elsewhere.
pub node_lem :
    (addr : ℕ)
    → htas_get_numa_node_for_address addr
      ≡ (if ltb addr 0x0800_0000 then 0 else if ltb addr 0x1000_0000 then 1 else 0)
unfolding htas_get_numa_node_for_address
node_lem addr = ground arith

-- The mask of each intent, for a data region at `region`.
abbrev pub expected_mask : ℕ → ℕ → ℕ
expected_mask intent region =
    if intent == profile_performance || intent == profile_low_latency
    then 3
    else if intent == profile_efficiency
    then 12
    else if intent == profile_default
    then (if region == 0 then 15 else if htas_get_numa_node_for_address region == 1 then 12 else 3)
    else 0

-- The mask that a node leaves of an intent's mask, or the intent's mask where it leaves none.
restrict : ℕ → ℕ → ℕ
restrict mask node = let both = bit_and mask (numa_mask node) in if both == 0 then mask else both

restrict-one :
    (node : ℕ)
    → node ≡ 1
    → (restrict 3 node ≡ 3)
      × (restrict 12 node ≡ 12)
      × (restrict 15 node ≡ 12)
      × (restrict 0 node ≡ 0)
unfolding restrict numa_mask
restrict-one node e = rw e (refl, refl, refl, refl)

restrict-zero :
    (node : ℕ)
    → node ≡ 0
    → (restrict 3 node ≡ 3)
      × (restrict 12 node ≡ 12)
      × (restrict 15 node ≡ 3)
      × (restrict 0 node ≡ 0)
unfolding restrict numa_mask
restrict-zero node e = rw e (refl, refl, refl, refl)

intent_mask_lem :
    (intent : ℕ)
    → intent_mask intent ≡ (
        if intent == profile_performance || intent == profile_low_latency
        then 3
        else if intent == profile_efficiency
        then 12
        else if intent == profile_default
        then 15
        else 0)
unfolding intent_mask
intent_mask_lem intent = refl

affinity-restrict :
    (profile : TaskProfile)
    → htas_calculate_affinity profile ≡ (
        if profile.primary_data_region == 0
        then intent_mask profile.intent
        else restrict
            (intent_mask profile.intent)
            (htas_get_numa_node_for_address profile.primary_data_region))
unfolding htas_calculate_affinity restrict
affinity-restrict profile = refl

node-cases :
    (addr : ℕ)
    → (htas_get_numa_node_for_address addr ≡ 0) ⊎ (htas_get_numa_node_for_address addr ≡ 1)
node-cases addr = ground (arith, node_lem addr)

-- The mask in closed form: the P-cores for the performance and low-latency intents and the E-cores
-- for the efficiency intent, wherever the data lies; for the default intent all processors, or
-- those of the node of its data; none for another intent.
pub htas_calculate_affinity_lem :
    (profile : TaskProfile)
    → htas_calculate_affinity profile ≡ expected_mask profile.intent profile.primary_data_region
htas_calculate_affinity_lem profile =
    rw (affinity-restrict profile) (elim (node-cases profile.primary_data_region) [
      | inl e ↦ ground (
        arith,
        intent_mask_lem profile.intent,
        restrict-zero (htas_get_numa_node_for_address profile.primary_data_region) e,
      )
      | inr e ↦ ground (
        arith,
        intent_mask_lem profile.intent,
        restrict-one (htas_get_numa_node_for_address profile.primary_data_region) e,
      )
    ])

-- Whether a processor suits an intent.
abbrev pub suits : ℕ → ℕ → Bool
suits intent cpu =
    if intent == profile_performance || intent == profile_low_latency
    then is_pcore (htas_get_cpu_type cpu)
    else if intent == profile_efficiency
    then not (is_pcore (htas_get_cpu_type cpu))
    else true

-- The test of `htas_can_run_on_cpu` on a mask.
allowed : ℕ → ℕ → Bool
allowed mask cpu = if leb num_cpus cpu then false else not (bit_and mask (2 ^ cpu) == 0)

allowed-pcores : (cpu : ℕ) → allowed 3 cpu ≡ true → is_pcore (htas_get_cpu_type cpu) ≡ true
unfolding allowed htas_get_cpu_type
allowed-pcores zero h = refl
allowed-pcores (suc zero) h = refl
allowed-pcores (suc (suc zero)) h = h
allowed-pcores (suc (suc (suc zero))) h = h
allowed-pcores (suc (suc (suc (suc n)))) h = ground arith

allowed-ecores : (cpu : ℕ) → allowed 12 cpu ≡ true → not (is_pcore (htas_get_cpu_type cpu)) ≡ true
unfolding allowed htas_get_cpu_type
allowed-ecores zero h = h
allowed-ecores (suc zero) h = h
allowed-ecores (suc (suc zero)) h = refl
allowed-ecores (suc (suc (suc zero))) h = refl
allowed-ecores (suc (suc (suc (suc n)))) h = ground arith

can_run-set_profile :
    (profile : TaskProfile) (proc : Process) (cpu : ℕ)
    → htas_can_run_on_cpu (set_profile profile proc) cpu
      ≡ allowed (expected_mask profile.intent profile.primary_data_region) cpu
unfolding htas_can_run_on_cpu with_profile allowed
can_run-set_profile profile proc cpu = rw (htas_calculate_affinity_lem profile) refl

expected-suits :
    (intent region cpu : ℕ)
    → intent < 4
    → allowed (expected_mask intent region) cpu ≡ true
    → suits intent cpu ≡ true
expected-suits zero region cpu h a = allowed-pcores cpu a
expected-suits (suc zero) region cpu h a = allowed-ecores cpu a
expected-suits (suc (suc zero)) region cpu h a = allowed-pcores cpu a
expected-suits (suc (suc (suc n))) region cpu h a = ground arith

-- A processor that the mask allows.
some_cpu : ℕ → ℕ → ℕ
some_cpu intent region = if expected_mask intent region == 12 then 2 else 0

expected-some :
    (intent region : ℕ)
    → intent < 4
    → (some_cpu intent region < num_cpus)
      × (allowed (expected_mask intent region) (some_cpu intent region) ≡ true)
unfolding some_cpu allowed
expected-some zero region h = (omega arith, refl)
expected-some (suc zero) region h = (omega arith, refl)
expected-some (suc (suc zero)) region h = (omega arith, refl)
expected-some (suc (suc (suc zero))) region h = elim (Bool-cases (region == 0)) [
  | inl e ↦ rw e (omega arith, refl)
  | inr e ↦ elim (Bool-cases (htas_get_numa_node_for_address region == 1)) [
    | inl q ↦ rw (e, q) (omega arith, refl)
    | inr q ↦ rw (e, q) (omega arith, refl)
  ]
]
expected-some (suc (suc (suc (suc n)))) region h = absurd (omega arith)

-- A task whose profile has one of the four intents may run on some processor, and only on those
-- that suit the intent; it is never left without one by the place of its data.
pub set_profile-suits :
    (profile : TaskProfile) (proc : Process) (cpu : ℕ)
    → profile.intent < 4
    → (htas_can_run_on_cpu (set_profile profile proc) cpu ≡ true → suits profile.intent cpu ≡ true)
      × ((c : ℕ) × (c < num_cpus) × (htas_can_run_on_cpu (set_profile profile proc) c ≡ true))
set_profile-suits profile proc cpu h = (
  (λ a.
      expected-suits profile.intent profile.primary_data_region cpu h
        (sym (can_run-set_profile profile proc cpu) ∙ a)),
  (
    some_cpu profile.intent profile.primary_data_region,
    runs.0,
    can_run-set_profile profile proc (some_cpu profile.intent profile.primary_data_region) ∙ runs.1,
  ),
)
  where
    runs :
        (some_cpu profile.intent profile.primary_data_region < num_cpus)
        × (allowed
              (expected_mask profile.intent profile.primary_data_region)
              (some_cpu profile.intent profile.primary_data_region)
            ≡ true)
    runs = expected-some profile.intent profile.primary_data_region h

-- A task whose profile has another intent may run on no processor.
set_profile-stranded :
    (profile : TaskProfile) (proc : Process) (cpu : ℕ)
    → 3 < profile.intent
    → htas_can_run_on_cpu (set_profile profile proc) cpu ≡ false
unfolding allowed
set_profile-stranded profile proc cpu h =
    can_run-set_profile profile proc cpu
    ∙ rw (none-expected profile.intent profile.primary_data_region h)
        (ground (arith, zero-bit_and (2 ^ cpu)))
  where
    none-expected : (intent region : ℕ) → 3 < intent → expected_mask intent region ≡ 0
    none-expected intent region h = ground arith
