-- ===== src/Fraction.antt =====
-- Exact fractions in place of the floating-point numbers that the program compares: CPU busy
-- fractions, thresholds and capacity scores.
use remote_build_orchestrato.Common.{ℕ, ◌*◌, Bool, ltb, leb, if◌then◌else◌}

-- A denominator of 0 stands for no number that the program computes.
pub record Fraction : Type 0 where
  pub num : ℕ
  pub den : ℕ

abbrev pub whole : ℕ → Fraction
whole n = record { num = n; den = 1 }

abbrev pub lt_frac : Fraction → Fraction → Bool
lt_frac a b = ltb (a.num * b.den) (b.num * a.den)

abbrev pub le_frac : Fraction → Fraction → Bool
le_frac a b = leb (a.num * b.den) (b.num * a.den)

abbrev pub times : Fraction → Fraction → Fraction
times a b = record { num = a.num * b.num; den = a.den * b.den }

abbrev pub over : Fraction → Fraction → Fraction
over a b = record { num = a.num * b.den; den = a.den * b.num }

-- `Math.min`.
abbrev pub min_frac : Fraction → Fraction → Fraction
min_frac a b = if leb (a.num * b.den) (b.num * a.den) then a else b
