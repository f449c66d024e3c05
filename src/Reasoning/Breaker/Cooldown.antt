-- ===== src/Reasoning/Breaker/Cooldown.antt =====
-- An open breaker blocks until its cool-down has passed, and what the probe after it decides.
use tread_agent.Base.{ℕ, ◌+◌, ◌≤◌, ◌<◌, ◌≡◌, refl, some, List, [], ◌∷◌, All, leb, arith}
use tread_agent.Reasoning.Breaker.{
  CircuitBreaker, opened, half_open, maybe_half_open, allows, trip, record_success, record_failure,
  new_breaker, Call, polled, step, run,
}

abbrev pub polls : List ℕ → List Call
polls [] = []
polls (now ∷ ts) = polled now ∷ polls ts

module _ (b : CircuitBreaker) (t : ℕ) (is_open : b.state ≡ opened)
    (since : b.opened_at ≡ some t) where
  maybe_half_open_early :
      (now : ℕ) → now < t + b.half_open_after_seconds → maybe_half_open now b ≡ b
  unfolding maybe_half_open
  maybe_half_open_early now h = ground arith

  polls_early :
      (ts : List ℕ) → All (λ now. now < t + b.half_open_after_seconds) ts → run b (polls ts) ≡ b
  unfolding run step
  polls_early [] h = refl
  polls_early (now ∷ ts) h = rw (run, maybe_half_open_early now h.0) (polls_early ts h.1)

  -- A breaker that opened at `t` stays as it is, however often it is asked before
  -- `t + half_open_after_seconds`. Asked at any time after that, it allows a call exactly if the
  -- cool-down has passed by then, and is half open in that case.
  pub cooldown_blocks :
      (ts : List ℕ) (now : ℕ)
      → All (λ u. u < t + b.half_open_after_seconds) ts
      → (run b (polls ts) ≡ b)
        × ((allows now (run b (polls ts))).0 ≡ leb (t + b.half_open_after_seconds) now)
        × (t + b.half_open_after_seconds ≤ now
            → (allows now (run b (polls ts))).1 ≡ record b { state = half_open })
  unfolding allows
  cooldown_blocks ts now h = (
    polls_early ts h,
    rw (polls_early ts h) (ground arith),
    λ p. rw (polls_early ts h) (ground arith),
  )

  -- A breaker that opened at `t` and is asked again after the cool-down is decided by the next
  -- result. A success makes it as new. A failure opens it again, with no failures kept, for a whole
  -- cool-down from the time of that failure.
  pub probe_decides :
      (u v later w : ℕ)
      → t + b.half_open_after_seconds ≤ u
      → (record_success (maybe_half_open u b) ≡ new_breaker b.cfg)
        × (record_failure v later (maybe_half_open u b)
            ≡ record b { failures = []; state = opened; opened_at = some v })
        × ((allows w (record_failure v later (maybe_half_open u b))).0
            ≡ leb (v + b.half_open_after_seconds) w)
  unfolding allows record_success record_failure maybe_half_open new_breaker trip
  probe_decides u v later w h = (ground arith, ground arith, ground arith)
