-- ===== src/HostLoad.antt =====
-- packages/shared/src/host-load.ts: the CPU busy fraction between two samples, the capacity score
-- of a machine, and the rolling average of samples. Times and speeds are whole
-- numbers.
use remote_build_orchestrato.Common.{
  ℕ, ◌+◌, ◌-◌, ◌*◌, ◌≤◌, ◌≡◌, true, Option, none, some, List, [], ◌∷◌, ◌++◌, arith, ltb, ◌==◌,
  if◌then◌else◌, length, length-append, Bool-cases, min, inl, inr,
}
use remote_build_orchestrato.Common.Int.{ℤ, pos, negsuc, sub_ℕ, ◌+ℤ◌}
use remote_build_orchestrato.Fraction.{Fraction, whole, le_frac}

pub record CpuTimes : Type 0 where
  pub user : ℕ
  pub nice : ℕ
  pub sys : ℕ
  pub idle : ℕ
  pub irq : ℕ

abbrev total : CpuTimes → ℕ
total t = t.user + t.nice + t.sys + t.idle + t.irq

-- The sums of the loop over the cores that both snapshots have; a counter may also fall.
unfoldable pub deltas : List CpuTimes → List CpuTimes → ℤ × ℤ
deltas [] after = (pos 0, pos 0)
deltas (b ∷ before) [] = (pos 0, pos 0)
deltas (b ∷ before) (a ∷ after) =
    let (idle_delta, total_delta) = deltas before after in
    (sub_ℕ a.idle b.idle +ℤ idle_delta, sub_ℕ (total a) (total b) +ℤ total_delta)

-- 1 - idle / total clamped to [0, 1], for a positive total.
clamped : ℕ → ℤ → Fraction
clamped total_delta (negsuc idle) = whole 1
clamped total_delta (pos idle) = record { num = total_delta - idle; den = total_delta }

busy_of : ℤ → ℤ → Fraction
unfolding clamped
busy_of idle_delta (negsuc t) = whole 0
busy_of idle_delta (pos t) = if t == 0 then whole 0 else clamped t idle_delta

unfoldable pub compute_cpu_busy_fraction : List CpuTimes → List CpuTimes → Fraction
unfolding deltas busy_of
compute_cpu_busy_fraction before after =
    let (idle_delta, total_delta) = deltas before after in busy_of idle_delta total_delta

abbrev pub default_capacity_memory_reference_mb : ℕ
default_capacity_memory_reference_mb = 4096

abbrev pub default_reference_capacity_score : ℕ
default_reference_capacity_score = 8 * 3000

pub record Machine : Type 0 where
  pub cpu_logical : ℕ
  pub cpu_speed_mhz : ℕ
  pub memory_free_mb : Option ℕ
  pub memory_reference_mb : Option ℕ

abbrev or_else : Option ℕ → ℕ → ℕ
or_else none d = d
or_else (some a) d = a

abbrev raw_power : Machine → ℕ
raw_power m = m.cpu_logical * m.cpu_speed_mhz

score_of : ℕ → ℕ → ℕ → Fraction
score_of raw reference free =
    if reference == 0 then whole raw else record { num = raw * min free reference; den = reference }

unfoldable pub compute_capacity_score : Machine → Fraction
unfolding score_of
compute_capacity_score m = elim m.memory_free_mb [
  | none ↦ whole (raw_power m)
  | some free ↦
      score_of (raw_power m) (or_else m.memory_reference_mb default_capacity_memory_reference_mb)
        free
]

-- The monitor keeps the last samples, here in equal parts of 1.
pub record HostCpuMonitor : Type 0 where
  pub samples : List ℕ
  pub history_size : ℕ

abbrev pub default_history_size : ℕ
default_history_size = 3

abbrev shift : List ℕ → List ℕ
shift [] = []
shift (s ∷ samples) = samples

-- A failed probe is `none`, and changes nothing.
unfoldable pub sample_once : HostCpuMonitor → Option ℕ → HostCpuMonitor
sample_once m none = m
sample_once m (some value) =
    let pushed = m.samples ++ value ∷ [] in
    record m { samples = if ltb m.history_size (length pushed) then shift pushed else pushed }

unfoldable pub sum : List ℕ → ℕ
sum [] = 0
sum (s ∷ samples) = s + sum samples

-- The mean of the samples, each a number of `unit`-ths; 1 before the first.
unfoldable pub current_busy_fraction : ℕ → HostCpuMonitor → Fraction
unfolding sum
current_busy_fraction unit m =
    if length m.samples == 0
    then whole 1
    else record { num = sum m.samples; den = length m.samples * unit }

scaled_mono : (raw x y r : ℕ) → x ≤ y → raw * x * r ≤ raw * y * r
scaled_mono raw x y r h = grind arith

score_of_mono :
    (raw reference free more : ℕ)
    → free ≤ more
    → (le_frac (score_of raw reference free) (score_of raw reference more) ≡ true)
      × (le_frac (score_of raw reference more) (whole raw) ≡ true)
unfolding score_of
score_of_mono raw reference free more h = elim (Bool-cases (reference == 0)) [
  | inl zero_reference ↦ rw zero_reference (ground arith)
  | inr positive ↦ rw positive (
      ground (
        arith,
        scaled_mono raw (min free reference) (min more reference) reference,
        scaled_mono raw (min more reference) reference 1,
      ))
]

-- More free memory never lowers the score, and the score never passes the raw power.
pub capacity_score_mono :
    (m : Machine) (free more : ℕ)
    → free ≤ more
    → let less = compute_capacity_score (record m { memory_free_mb = some free }) in
      let greater = compute_capacity_score (record m { memory_free_mb = some more }) in
      (le_frac less greater ≡ true) × (le_frac greater (whole (raw_power m)) ≡ true)
unfolding compute_capacity_score
capacity_score_mono m free more h =
    score_of_mono (raw_power m) (or_else m.memory_reference_mb default_capacity_memory_reference_mb)
      free more h

length-shift : (xs : List ℕ) → length (shift xs) ≡ length xs - 1
length-shift [] = omega arith
length-shift (x ∷ xs) = omega arith

-- A probe, failed or not, keeps the samples within the history size.
pub sample_once-bounded :
    (m : HostCpuMonitor) (probe : Option ℕ)
    → length m.samples ≤ m.history_size
    → length (sample_once m probe).samples ≤ m.history_size
unfolding sample_once
sample_once-bounded m none b = b
sample_once-bounded m (some value) b =
    ground (arith, length-append m.samples (value ∷ []), length-shift (m.samples ++ value ∷ []))

busy_of-in_range : (idle total_delta : ℤ) → le_frac (busy_of idle total_delta) (whole 1) ≡ true
unfolding busy_of
busy_of-in_range idle total_delta = ground arith

-- The busy fraction is at most 1, whatever the counters do.
pub busy-le-one :
    (before after : List CpuTimes)
    → le_frac (compute_cpu_busy_fraction before after) (whole 1) ≡ true
unfolding compute_cpu_busy_fraction
busy-le-one before after = busy_of-in_range (deltas before after).0 (deltas before after).1
