-- ===== src/Service/Waits.antt =====
-- internal/jobs/jobs.go, nextBackoff: how long a worker waits while the queue is broken.
use anchora.Prelude.{
  ℕ, zero, suc, ◌*◌, ◌^◌, ◌<◌, ◌≡◌, refl, ap, sym, ◌∙◌, leb, if◌then◌else◌, arith,
}
use anchora.Prelude.Int.{ℤ, pos}
use anchora.Workflow.Retry.{backoff}
use anchora.Service.Backend.{next_backoff}

-- The wait after n failed claims in a row.
abbrev pub wait_after : ℕ → ℤ
wait_after zero = pos 0
wait_after (suc n) = next_backoff (wait_after n)

-- Its doubles from 100 ms, and 5 s once that is reached.
abbrev pub doubled : ℕ → ℤ
doubled n = if leb n 5 then pos (100000000 * 2 ^ n) else pos 5000000000

program : Unit {0}
unfolding next_backoff backoff
program = tt

next-capped : next_backoff (pos 5000000000) ≡ pos 5000000000
unfolding program
next-capped = refl

seventh : wait_after 7 ≡ pos 5000000000
unfolding program
seventh = refl

capped : (k : ℕ) → wait_after (suc (suc (suc (suc (suc (suc (suc k))))))) ≡ pos 5000000000
capped zero = seventh
capped (suc k) = ap next_backoff (capped k) ∙ next-capped

below : (n : ℕ) → n < 6 → wait_after (suc n) ≡ doubled n
unfolding program
below zero l = refl
below (suc zero) l = refl
below (suc (suc zero)) l = refl
below (suc (suc (suc zero))) l = refl
below (suc (suc (suc (suc zero)))) l = refl
below (suc (suc (suc (suc (suc zero))))) l = refl
below (suc (suc (suc (suc (suc (suc k)))))) l = absurd (omega arith)

doubled-capped : (k : ℕ) → doubled (suc (suc (suc (suc (suc (suc k)))))) ≡ pos 5000000000
doubled-capped k = ground arith

-- After each failed claim in a row the wait is twice the last, from 100 ms on, and 5 s from the
-- seventh on.
pub wait_after-doubled : (n : ℕ) → wait_after (suc n) ≡ doubled n
wait_after-doubled zero = below 0 (omega arith)
wait_after-doubled (suc zero) = below 1 (omega arith)
wait_after-doubled (suc (suc zero)) = below 2 (omega arith)
wait_after-doubled (suc (suc (suc zero))) = below 3 (omega arith)
wait_after-doubled (suc (suc (suc (suc zero)))) = below 4 (omega arith)
wait_after-doubled (suc (suc (suc (suc (suc zero))))) = below 5 (omega arith)
wait_after-doubled (suc (suc (suc (suc (suc (suc k)))))) = capped k ∙ sym (doubled-capped k)
