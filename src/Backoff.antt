-- ===== src/Backoff.antt =====
-- The reconnect delays that both WebSocket hooks share: BACKOFF_STEPS_MS of
-- web/src/features/overlay/useOverlayWebSocket.ts and of
-- web/src/features/scoring/useMatchWebSocket.ts, and the index into it.
use native.Mathlib.Nat.{pow-suc}
use court_command.Prelude.{
  ℕ, zero, suc, ◌*◌, ◌-◌, ◌^◌, ◌≤◌, ◌≡◌, refl, List, [], ◌∷◌, length, get_elem?, or_else, min,
  arith,
}

abbrev pub backoff_steps_ms : List ℕ
backoff_steps_ms = 1000 ∷ 2000 ∷ 4000 ∷ 8000 ∷ 16000 ∷ 30000 ∷ []

-- `BACKOFF_STEPS_MS[Math.min(attempts, BACKOFF_STEPS_MS.length - 1)]`.
unfoldable pub backoff_delay : ℕ → ℕ
backoff_delay attempts =
    or_else (get_elem? backoff_steps_ms (min attempts (length backoff_steps_ms - 1))) 0

last_step : (n : ℕ) → min (suc (suc (suc (suc (suc n))))) 5 ≡ 5
last_step n = omega arith

pow_positive : (n : ℕ) → 1 ≤ 2 ^ n
pow_positive zero = omega arith
pow_positive (suc n) = rw pow-suc (omega (arith, pow_positive n))

five_doublings : (n : ℕ) → 2 ^ suc (suc (suc (suc (suc n)))) ≡ 32 * 2 ^ n
five_doublings n = simp pow-suc (omega arith)

-- The delay doubles from one second with each attempt and stops at thirty seconds.
pub backoff_delay_lem : (attempts : ℕ) → backoff_delay attempts ≡ min (1000 * 2 ^ attempts) 30000
unfolding backoff_delay
backoff_delay_lem zero = refl
backoff_delay_lem (suc zero) = refl
backoff_delay_lem (suc (suc zero)) = refl
backoff_delay_lem (suc (suc (suc zero))) = refl
backoff_delay_lem (suc (suc (suc (suc zero)))) = refl
backoff_delay_lem (suc (suc (suc (suc (suc n))))) =
    rw (last_step n) (omega (arith, five_doublings n, pow_positive n))
