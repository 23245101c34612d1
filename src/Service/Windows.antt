-- ===== src/Service/Windows.antt =====
-- The heartbeat is shorter than the lease, and the registry outlives it.
use anchora.Prelude.{
  ℕ, suc, ◌/◌, ◌<◌, ◌≤◌, ◌≡◌, refl, ap, ◌∙◌, true, false, ◌&&◌, if◌then◌else◌, arith, Bool-cases,
  inl, inr, ltb,
}
use anchora.Prelude.Int.{ℤ, pos, positive_cases, ltb_ℤ}
use anchora.Config.{is_positive, quotient}
use anchora.Service.{Settings, lease, heartbeat}

lease-positive : (c : Settings) → (n : ℕ) × (lease c ≡ pos (suc n))
unfolding lease
lease-positive c = elim (positive_cases c.lease_setting) [
  | inl e ↦ (29999999999, rw (e, lease) refl)
  | inr (k, e) ↦ (k, rw (e, lease) refl)
]

third : (n : ℕ) → suc n / 3 < suc n
third n = omega arith

abbrev pub chosen : ℤ → ℤ → ℤ
chosen beat window = if is_positive beat && ltb_ℤ beat window then beat else quotient window 3

pub heartbeat-chosen : (c : Settings) → heartbeat c ≡ chosen c.heartbeat_setting (lease c)
unfolding heartbeat
heartbeat-chosen c = refl

chosen-lt :
    (beat : ℤ) (n : ℕ)
    → (h : ℕ) × (chosen beat (pos (suc n)) ≡ pos h) × (h < suc n) × (3 ≤ suc n → 0 < h)
chosen-lt beat n = elim (positive_cases beat) [
  | inl unset ↦ (suc n / 3, rw (chosen, unset) refl, third n, λ large. omega arith)
  | inr (k, set) ↦ elim (Bool-cases (ltb k n)) [
    | inl less ↦
        let fits : ltb_ℤ (pos (suc k)) (pos (suc n)) ≡ true = ground (arith, less) in
        (suc k, rw (set, chosen, fits) refl, ground (arith, less), λ large. omega arith)
    | inr more ↦
        let long : ltb_ℤ (pos (suc k)) (pos (suc n)) ≡ false = ground (arith, more) in
        (suc n / 3, rw (set, chosen, long) refl, third n, λ large. omega arith)
  ]
]

-- For all settings, the lease is positive and the heartbeat is shorter than it and not negative; it
-- is positive for every lease of at least three nanoseconds.
pub heartbeat-lt-lease :
    (c : Settings)
    → (l h : ℕ) × (lease c ≡ pos l) × (heartbeat c ≡ pos h) × (h < l) × (3 ≤ l → 0 < h)
heartbeat-lt-lease c =
    let (n, window) = lease-positive c in
    let (h, beat, less, positive) = chosen-lt c.heartbeat_setting n in
    (
      suc n,
      h,
      window,
      heartbeat-chosen c ∙ ap (chosen c.heartbeat_setting) window ∙ beat,
      less,
      positive,
    )
