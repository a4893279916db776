-- ===== src/Scheduler/Fallback.antt =====
-- apps/controller/src/scheduler/index.ts: whether a job may run on the Controller's own host.
use remote_build_orchestrato.Common.{
  ℕ, ◌*◌, ◌≤◌, ◌<◌, ◌≡◌, refl, ◌↔◌, ◌⊎◌, Bool, true, false, not, ◌||◌, Option, none, some, List, [],
  ◌∷◌, arith, leb, ◌==◌, if◌then◌else◌, min,
}
use remote_build_orchestrato.Fraction.{Fraction, whole, lt_frac, le_frac, times, over, min_frac}
use remote_build_orchestrato.HostLoad.{default_reference_capacity_score}
use remote_build_orchestrato.Scheduler.Request.{
  RiskLevel, safe, normal, destructive, hardware, HostLoadSnapshot, or_else,
}

abbrev pub default_max_host_cpu_busy_fraction : Fraction
default_max_host_cpu_busy_fraction = record { num = 8; den = 10 }

abbrev pub max_effective_host_cpu_busy_fraction : Fraction
max_effective_host_cpu_busy_fraction = record { num = 97; den = 100 }

unfoldable pub compute_effective_max_host_cpu_busy_fraction : Fraction → Fraction → ℕ → Fraction
compute_effective_max_host_cpu_busy_fraction capacity_score base_max_fraction reference =
    if reference == 0 || le_frac capacity_score (whole reference)
    then base_max_fraction
    else min_frac max_effective_host_cpu_busy_fraction
        (times base_max_fraction (over capacity_score (whole reference)))

abbrev pub is_risky : RiskLevel → Bool
is_risky safe = false
is_risky normal = false
is_risky destructive = true
is_risky hardware = true

pub record FallbackInput : Type 0 where
  pub allow_local_fallback : Bool
  pub risk_level : RiskLevel
  pub host : HostLoadSnapshot
  pub max_host_cpu_busy_fraction : Fraction
  pub busy_agent_running_jobs : List ℕ
  pub reference_capacity_score : Option ℕ

-- Whether it is eligible, and whether the reason is `host_busy`.
pub record LocalFallbackDecision : Type 0 where
  pub eligible : Bool
  pub host_busy : Bool

-- `Math.min(...list)` of a list that is not empty.
unfoldable pub least : List ℕ → Option ℕ
least [] = none
least (n ∷ ns) = elim (least ns) [ none ↦ some n | some m ↦ some (min n m) ]

abbrev no_busier : ℕ → Option ℕ → Bool
no_busier running none = true
no_busier running (some other) = leb running other

abbrev effective : FallbackInput → Fraction
effective i =
    compute_effective_max_host_cpu_busy_fraction i.host.capacity_score i.max_host_cpu_busy_fraction
      (or_else i.reference_capacity_score default_reference_capacity_score)

unfoldable pub decide_local_fallback : FallbackInput → LocalFallbackDecision
decide_local_fallback i =
    if not i.allow_local_fallback || is_risky i.risk_level
    then record { eligible = false; host_busy = false }
    else if lt_frac i.host.cpu_busy_fraction (effective i)
    then record { eligible = true; host_busy = false }
    else if no_busier i.host.running_jobs (least i.busy_agent_running_jobs)
    then record { eligible = true; host_busy = true }
    else record { eligible = false; host_busy = true }

abbrev pub NoneBelow : ℕ → List ℕ → Type 0
NoneBelow n [] = Unit
NoneBelow n (m ∷ ms) = (n ≤ m) × NoneBelow n ms

no_busier-NoneBelow : (n : ℕ) (ms : List ℕ) → no_busier n (least ms) ≡ true → NoneBelow n ms
unfolding least
no_busier-NoneBelow n [] h = tt
no_busier-NoneBelow n (m ∷ ms) h = ground (arith, no_busier-NoneBelow n ms)

NoneBelow-no_busier : (n : ℕ) (ms : List ℕ) → NoneBelow n ms → no_busier n (least ms) ≡ true
unfolding least
NoneBelow-no_busier n [] h = refl
NoneBelow-no_busier n (m ∷ ms) h = ground (arith, NoneBelow-no_busier n ms h.1)

-- A job may run locally exactly when fallback is allowed, it is neither destructive nor a hardware
-- job, and the host is below its effective threshold or runs no more jobs than any Agent that is
-- only at capacity.
pub decide_local_fallback_iff :
    (i : FallbackInput)
    → (decide_local_fallback i).eligible ≡ true
      ↔ (i.allow_local_fallback ≡ true)
        × (is_risky i.risk_level ≡ false)
        × ((lt_frac i.host.cpu_busy_fraction (effective i) ≡ true)
            ⊎ NoneBelow i.host.running_jobs i.busy_agent_running_jobs)
unfolding decide_local_fallback
decide_local_fallback_iff i =
    let jobs = i.host.running_jobs in
    let others = i.busy_agent_running_jobs in
    (
      λ h. ground (arith, no_busier-NoneBelow jobs others),
      λ h. ground (arith, NoneBelow-no_busier jobs others),
    )

boost_grows : (n d a b : ℕ) → a ≤ b → n * (d * a) ≤ n * b * d
boost_grows n d a b h = grind arith

-- A base threshold of at most 97% is never lowered by the boost, and a boosted one is at most 97%.
pub effective_threshold_bounds :
    (capacity base : Fraction) (reference : ℕ)
    → le_frac base max_effective_host_cpu_busy_fraction ≡ true
    → let boosted = compute_effective_max_host_cpu_busy_fraction capacity base reference in
      (le_frac base boosted ≡ true) × (le_frac boosted max_effective_host_cpu_busy_fraction ≡ true)
unfolding compute_effective_max_host_cpu_busy_fraction
effective_threshold_bounds capacity base reference h =
    ground (arith, boost_grows base.num base.den (reference * capacity.den) capacity.num)

scaled : (x y m : ℕ) → x ≤ y → x * m ≤ y * m
scaled x y m h = grind arith

capped_boost : (n d m b : ℕ) → 97 * d < n * 100 → m ≤ b → 97 * (d * m) ≤ n * b * 100
capped_boost n d m b h k = omega (arith, scaled (97 * d) (n * 100) m (omega arith), scaled m b n k)

-- A base threshold above 97% is lowered to 97% on every host that is stronger than the reference,
-- though a weaker host keeps it.
strong_host_lowers :
    (capacity base : Fraction) (reference : ℕ)
    → 0 < reference
    → lt_frac (whole reference) capacity ≡ true
    → lt_frac max_effective_host_cpu_busy_fraction base ≡ true
    → lt_frac (compute_effective_max_host_cpu_busy_fraction capacity base reference) base ≡ true
unfolding compute_effective_max_host_cpu_busy_fraction
strong_host_lowers capacity base reference r h k =
    let tested : (reference == 0 || le_frac capacity (whole reference)) ≡ false = ground arith in
    let capped : leb (97 * (base.den * (capacity.den * reference)))
          (base.num * (capacity.num * 1) * 100)
        ≡ true =
      ground (arith, capped_boost base.num base.den (reference * capacity.den) capacity.num) in
    rw tested (rw capped (ground arith))
