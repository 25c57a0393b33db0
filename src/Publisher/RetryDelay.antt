-- ===== src/Publisher/RetryDelay.antt =====
-- `calculateRetryDelayMs` of apps/outbox-publisher/src/publisher.service.ts, and
-- `calculateIndexRetryDelayMs` of apps/search-indexer/src/message-created.consumer.ts, which
-- differs in its two constants. `Math.random()` is n / 2 ^ 53 for an n below 2 ^ 53; the product
-- with the factor 0.8 + 0.4 * random is taken exactly and rounded to the nearest, halves upwards.
use message_management_api.Prelude.{zero, suc, ℕ, ◌+◌, ◌-◌, ◌*◌, ◌/◌, ◌^◌, ◌≤◌, ◌<◌, min, arith}

abbrev pub random_scale : ℕ
random_scale = 9007199254740992

unfoldable pub exponential_delay : ℕ → ℕ → ℕ → ℕ
exponential_delay base maximum attempts = min (base * 2 ^ (attempts - 1)) maximum

-- round(delay * (0.8 + 0.4 * n / scale)), over the denominator 5 * scale.
unfoldable pub jittered : ℕ → ℕ → ℕ
jittered delay n =
    (2 * (delay * (4 * random_scale + 2 * n)) + 5 * random_scale) / (10 * random_scale)

abbrev pub base_retry_delay_ms : ℕ
base_retry_delay_ms = 1000

abbrev pub max_retry_delay_ms : ℕ
max_retry_delay_ms = 300000

unfoldable pub calculate_retry_delay_ms : ℕ → ℕ → ℕ
unfolding exponential_delay jittered
calculate_retry_delay_ms attempts random =
    jittered (exponential_delay base_retry_delay_ms max_retry_delay_ms attempts) random

abbrev pub base_index_retry_delay_ms : ℕ
base_index_retry_delay_ms = 250

abbrev pub max_index_retry_delay_ms : ℕ
max_index_retry_delay_ms = 8000

unfoldable pub calculate_index_retry_delay_ms : ℕ → ℕ → ℕ
unfolding exponential_delay jittered
calculate_index_retry_delay_ms attempt random =
    jittered (exponential_delay base_index_retry_delay_ms max_index_retry_delay_ms attempt) random

product_le : (d n : ℕ) → n < random_scale → d * n ≤ d * random_scale
product_le d n h = grind arith

-- The jitter keeps a delay within four and six fifths of itself, up to the rounding.
jittered_bounds :
    (d n : ℕ)
    → n < random_scale
    → (8 * d ≤ 10 * jittered d n + 5) × (10 * jittered d n ≤ 12 * d + 5)
unfolding jittered
jittered_bounds d n h = (omega (arith, product_le d n h), omega (arith, product_le d n h))

power_pos : (k : ℕ) → 1 ≤ 2 ^ k
power_pos zero = omega arith
power_pos (suc k) = omega (arith, power_pos k)

exponential_delay_bounds :
    (base maximum attempts : ℕ)
    → base ≤ maximum
    → (base ≤ exponential_delay base maximum attempts)
      × (exponential_delay base maximum attempts ≤ maximum)
unfolding exponential_delay
exponential_delay_bounds base maximum attempts h =
    (omega (arith, at_least_base (2 ^ (attempts - 1)) (power_pos (attempts - 1))), omega arith)
  where
    at_least_base : (x : ℕ) → 1 ≤ x → base ≤ base * x
    at_least_base x k = grind arith

delay_bounds :
    (base maximum attempts n : ℕ)
    → base ≤ maximum
    → n < random_scale
    → (8 * base ≤ 10 * jittered (exponential_delay base maximum attempts) n + 5)
      × (10 * jittered (exponential_delay base maximum attempts) n ≤ 12 * maximum + 5)
delay_bounds base maximum attempts n h k =
    let (low, high) = exponential_delay_bounds base maximum attempts h in
    let (least, most) = jittered_bounds (exponential_delay base maximum attempts) n k in
    (omega arith, omega arith)

-- However many attempts there were, a failed publication is tried again after at least 0.8 and at
-- most 360 seconds, and a failed indexing after at least 0.2 and at most 9.6 seconds. The random
-- number is below 1.
pub retry_delays-bounded :
    (attempts n : ℕ)
    → n < random_scale
    → ((800 ≤ calculate_retry_delay_ms attempts n) × (calculate_retry_delay_ms attempts n ≤ 360000))
      × ((200 ≤ calculate_index_retry_delay_ms attempts n)
          × (calculate_index_retry_delay_ms attempts n ≤ 9600))
unfolding calculate_retry_delay_ms calculate_index_retry_delay_ms
retry_delays-bounded attempts n h =
    let (low, high) =
      delay_bounds base_retry_delay_ms max_retry_delay_ms attempts n (omega arith) h in
    let (low', high') =
      delay_bounds base_index_retry_delay_ms max_index_retry_delay_ms attempts n (omega arith) h in
    ((omega arith, omega arith), (omega arith, omega arith))
