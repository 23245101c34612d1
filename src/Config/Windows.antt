-- ===== src/Config/Windows.antt =====
-- The heartbeat and the lease of a configuration that passes validation.
use anchora.Prelude.{ℕ, suc, ◌*◌, ◌/◌, ◌^◌, ◌<◌, String, ◌≡◌, ap, arith, inl, inr, ok}
use anchora.Prelude.Int.{pos, positive_cases}
use anchora.Workflow.Retry.{backoff}
use anchora.Config.{Async, validate_async, lease, heartbeat, quotient, milliseconds}

milliseconds-small : (k : ℕ) → 1000000 * k < 2 ^ 63 → milliseconds (pos k) ≡ pos (1000000 * k)
unfolding backoff
milliseconds-small k h = ground arith

shorter :
    (getenv : String → String) (a : Async) (k m : ℕ)
    → a.heartbeat_ms ≡ pos (suc k)
    → a.lease_ms ≡ pos (suc m)
    → validate_async getenv a ≡ ok tt
    → k < m
unfolding validate_async
shorter getenv a k m beat window h = ground (arith, h, beat, window)

-- If the asynchronous section passes validation and its lease is set, to at most what an int64 of
-- nanoseconds holds, then the lease is that many milliseconds and the heartbeat is positive and
-- shorter.
pub heartbeat-lt-lease_ms :
    (getenv : String → String) (a : Async) (m : ℕ)
    → validate_async getenv a ≡ ok tt
    → a.lease_ms ≡ pos (suc m)
    → 1000000 * suc m < 2 ^ 63
    → (h : ℕ) × (lease a ≡ pos (1000000 * suc m))
      × (heartbeat a ≡ pos h)
      × (0 < h)
      × (h < 1000000 * suc m)
unfolding lease heartbeat
heartbeat-lt-lease_ms getenv a m valid window small =
    let set : lease a ≡ pos (1000000 * suc m) =
      rw (window, lease) (milliseconds-small (suc m) small) in
    elim (positive_cases a.heartbeat_ms) [
      | inl unset ↦ (
        1000000 * suc m / 3,
        set,
        rw (heartbeat, unset) (ap (λ n. quotient n 3) set),
        omega arith,
        omega arith,
      )
      | inr (k, beat) ↦
          let less = shorter getenv a k m beat window valid in
          (
            1000000 * suc k,
            set,
            rw (heartbeat, beat) (milliseconds-small (suc k) (omega (arith, less))),
            omega arith,
            omega (arith, less),
          )
    ]
