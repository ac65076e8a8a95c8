-- ===== src/Providers/Cooldown/Backoff.antt =====
-- The two backoff functions of pkg/providers/cooldown.go against the tables of their comments.
use native.Mathlib.Nat.{pow-suc}
use nook_claw.Prelude.{◌^◌, ℕ, zero, suc, ◌-◌, ◌*◌, ◌≤◌, min, max, ◌≡◌, refl, arith}
use nook_claw.Providers.Cooldown.{
  millisecond, calculate_standard_cooldown, calculate_billing_cooldown, base_ms, max_ms,
}

abbrev pub minute : ℕ
minute = 60_000 * millisecond

-- "1 error: 1 min, 2 errors: 5 min, 3 errors: 25 min, 4+ errors: 1 hour"
abbrev pub standard_minutes : ℕ → ℕ
standard_minutes zero = 1
standard_minutes (suc zero) = 1
standard_minutes (suc (suc zero)) = 5
standard_minutes (suc (suc (suc zero))) = 25
standard_minutes (suc (suc (suc (suc n)))) = 60

-- "1 error: 5 hours, 2 errors: 10 hours, 3 errors: 20 hours, 4+ errors: 24 hours"
abbrev pub billing_hours : ℕ → ℕ
billing_hours zero = 5
billing_hours (suc zero) = 5
billing_hours (suc (suc zero)) = 10
billing_hours (suc (suc (suc zero))) = 20
billing_hours (suc (suc (suc (suc n)))) = 24

standard_capped : (n : ℕ) → min (max 1 (suc (suc (suc (suc n)))) - 1) 3 ≡ 3
standard_capped n = omega arith

-- The standard cooldown is the documented table, for every error count.
pub standard_cooldown-table : (n : ℕ) → calculate_standard_cooldown n ≡ standard_minutes n * minute
unfolding calculate_standard_cooldown
standard_cooldown-table zero = refl
standard_cooldown-table (suc zero) = refl
standard_cooldown-table (suc (suc zero)) = refl
standard_cooldown-table (suc (suc (suc zero))) = refl
standard_cooldown-table (suc (suc (suc (suc n)))) = rw (standard_capped n)

eight-le-pow : (k : ℕ) → 8 ≤ 2 ^ suc (suc (suc k))
eight-le-pow zero = omega arith
eight-le-pow (suc k) = rw pow-suc (omega (arith, eight-le-pow k))

billing_cap : (k : ℕ) → min max_ms (base_ms * 2 ^ suc (suc (suc k))) ≡ max_ms
billing_cap k = omega (arith, eight-le-pow k)

billing_exp : (n : ℕ) → min (max 1 (suc (suc (suc (suc n)))) - 1) 10 ≡ suc (suc (suc (min n 7)))
billing_exp n = omega arith

-- The billing cooldown is the documented table, for every count of billing errors.
pub billing_cooldown-table :
    (n : ℕ) → calculate_billing_cooldown n ≡ billing_hours n * (60 * minute)
unfolding calculate_billing_cooldown
billing_cooldown-table zero = refl
billing_cooldown-table (suc zero) = refl
billing_cooldown-table (suc (suc zero)) = refl
billing_cooldown-table (suc (suc (suc zero))) = refl
billing_cooldown-table (suc (suc (suc (suc n)))) = rw (billing_exp n, billing_cap (min n 7))

pub standard_cooldown_bounds :
    (n : ℕ)
    → (minute ≤ calculate_standard_cooldown n) × (calculate_standard_cooldown n ≤ 60 * minute)
standard_cooldown_bounds n = rw standard_cooldown-table (bounds n)
  where
    bounds :
        (n : ℕ)
        → (minute ≤ standard_minutes n * minute) × (standard_minutes n * minute ≤ 60 * minute)
    bounds zero = omega arith
    bounds (suc zero) = omega arith
    bounds (suc (suc zero)) = omega arith
    bounds (suc (suc (suc zero))) = omega arith
    bounds (suc (suc (suc (suc n)))) = omega arith

pub billing_cooldown_bounds :
    (n : ℕ)
    → (300 * minute ≤ calculate_billing_cooldown n) × (calculate_billing_cooldown n ≤ 1440 * minute)
billing_cooldown_bounds n = rw billing_cooldown-table (bounds n)
  where
    bounds :
        (n : ℕ)
        → (300 * minute ≤ billing_hours n * (60 * minute))
          × (billing_hours n * (60 * minute) ≤ 1440 * minute)
    bounds zero = omega arith
    bounds (suc zero) = omega arith
    bounds (suc (suc zero)) = omega arith
    bounds (suc (suc (suc zero))) = omega arith
    bounds (suc (suc (suc (suc n)))) = omega arith
