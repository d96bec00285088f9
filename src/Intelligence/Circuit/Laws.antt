-- ===== src/Intelligence/Circuit/Laws.antt =====
-- What a circuit breaker does over any history of outcomes.
use kris_ai.Intelligence.Circuit.{should_open, after_cooldown, is_open}
use kris_ai.Base.{
  ℕ, ◌+◌, ◌*◌, ◌≤◌, ◌<◌, ℤ, pos, ◌+ℤ◌, ◌≤ℤ◌, String, ◌≡◌, ◌↔◌, ◌≢◌, refl, Bool, true, false,
  if◌then◌else◌, Option, none, some, List, [], ◌∷◌, arith, ◌==◌,
}
use mathlib.Core.Path.{subst}
use mathlib.Core.Option.{some-injective}
use kris_ai.Intelligence.Circuit.{
  closed, opened, half_open, ProviderHealth, CircuitBreaker, new_health, new_breaker, parse_time,
  permits_request, record_success, record_failure, normal_class, one_if, stamp,
}

-- One recorded outcome: the time given to the call, and the clock's.
pub data Event : Type 0 where
  success : Option String → String → Event
  failure : String → Option String → String → Event

unfoldable pub apply : CircuitBreaker → ProviderHealth → Event → ProviderHealth
apply b h (success at now) = record_success b h at now
apply b h (failure c at now) = record_failure b h c at now

unfoldable pub run : CircuitBreaker → ProviderHealth → List Event → ProviderHealth
run b h [] = h
run b h (e ∷ es) = run b (apply b h e) es

-- The failures since the last success, after `n` earlier ones.
unfoldable pub trailing : ℕ → List Event → ℕ
trailing n [] = n
trailing n (success at now ∷ es) = trailing 0 es
trailing n (failure c at now ∷ es) = trailing (n + 1) es

-- The failures that were timeouts.
unfoldable pub timeouts : List Event → ℕ
timeouts [] = 0
timeouts (success at now ∷ es) = timeouts es
timeouts (failure c at now ∷ es) = one_if (normal_class c == "timeout") + timeouts es

-- A health record between two outcomes: it is open exactly when the failures reach the threshold,
-- it is not half open, and an open one has the time of its opening.
pub record IsSettled (b : CircuitBreaker) (h : ProviderHealth) : Type 0 where
  pub threshold : 0 < b.failure_threshold
  pub opened_at_threshold : h.state ≡ opened → b.failure_threshold ≤ h.consecutive_failures
  pub closed_below : h.state ≡ closed → h.consecutive_failures < b.failure_threshold
  pub never_half : h.state ≢ half_open
  pub dated : h.state ≡ opened → (t : String) × (h.opened_at ≡ some t)

pub new_health-IsSettled :
    (provider model : String) (threshold cooldown : ℕ)
    → IsSettled (new_breaker threshold cooldown) (new_health provider model)
unfolding new_breaker
new_health-IsSettled provider model threshold cooldown = ground arith

pub apply-IsSettled :
    (b : CircuitBreaker) (h : ProviderHealth) (e : Event)
    → IsSettled b h
    → IsSettled b (apply b h e)
unfolding apply record_success record_failure
apply-IsSettled b h (success at now) s = ground (arith, s.threshold)
apply-IsSettled b h (failure c at now) s = record {
  threshold = s.threshold;
  opened_at_threshold = ground arith;
  closed_below = ground arith;
  never_half = ground arith;
  dated = λ o. stays (should_open b h) (ground arith);
}
  where
    stays :
        (x : Bool)
        → x ≡ true
        → (t : String) × ((if x then some (stamp at now) else h.opened_at) ≡ some t)
    stays true e = (stamp at now, refl)
    stays false e = cc

run-IsSettled :
    (b : CircuitBreaker) (h : ProviderHealth) (es : List Event)
    → IsSettled b h
    → IsSettled b (run b h es)
unfolding run
run-IsSettled b h [] s = s
run-IsSettled b h (e ∷ es) s = run-IsSettled b (apply b h e) es (apply-IsSettled b h e s)

consecutive-run :
    (b : CircuitBreaker) (h : ProviderHealth) (es : List Event)
    → (run b h es).consecutive_failures ≡ trailing h.consecutive_failures es
unfolding run trailing apply record_success record_failure
consecutive-run b h [] = refl
consecutive-run b h (success at now ∷ es) = consecutive-run b (record_success b h at now) es
consecutive-run b h (failure c at now ∷ es) = consecutive-run b (record_failure b h c at now) es

state-trailing :
    (b : CircuitBreaker) (h : ProviderHealth)
    → IsSettled b h
    → (h.state ≡ opened) ↔ (b.failure_threshold ≤ h.consecutive_failures)
state-trailing b h s = (s.opened_at_threshold, λ over. ground arith)

-- Whatever the outcomes of a new provider, its circuit is open exactly when the failures since the
-- last success have reached the threshold.
pub opened-run :
    (provider model : String) (threshold cooldown : ℕ) (es : List Event)
    → let b = new_breaker threshold cooldown in
      ((run b (new_health provider model) es).state ≡ opened)
      ↔ (b.failure_threshold ≤ trailing 0 es)
opened-run provider model threshold cooldown es =
    let b = new_breaker threshold cooldown in
    let h = new_health provider model in
    rw (← consecutive-run b h es) (
      state-trailing b (run b h es)
        (run-IsSettled b h es (new_health-IsSettled provider model threshold cooldown)))

-- The counter of timeouts grows by the failures whose class is a timeout, and no success resets it.
pub timeouts-run :
    (b : CircuitBreaker) (h : ProviderHealth) (es : List Event)
    → (run b h es).timeout_failures ≡ h.timeout_failures + timeouts es
unfolding run timeouts apply record_success record_failure
timeouts-run b h [] = omega arith
timeouts-run b h (success at now ∷ es) = timeouts-run b (record_success b h at now) es
timeouts-run b h (failure c at now ∷ es) =
    omega (arith, timeouts-run b (record_failure b h c at now) es)

module _ (from_iso : String → Option ℤ) where
  -- The cooldown of a record is not over, or its start cannot be read.
  abbrev pub IsCooling : ProviderHealth → ℤ → Type 0
  IsCooling h now =
      (t : ℤ)
      → parse_time from_iso h.opened_at ≡ some t
      → ¬ (t +ℤ pos (h.cooldown_seconds * 1000000) ≤ℤ now)

  cooling-after :
      (h : ProviderHealth) (now : ℤ) (o : Option ℤ)
      → (is_open (after_cooldown from_iso h now o) ≡ true)
        ↔ ((t : ℤ) → o ≡ some t → ¬ (t +ℤ pos (h.cooldown_seconds * 1000000) ≤ℤ now))
  unfolding after_cooldown
  cooling-after h now none = (λ e t p. cc, λ f. refl)
  cooling-after h now (some start) = (
    λ e t p.
        subst (λ (u : ℤ). ¬ (u +ℤ pos (h.cooldown_seconds * 1000000) ≤ℤ now))
          (some-injective start t p) (λ q. ground arith),
    λ f. let g = f start refl in ground arith,
  )

  -- A request is refused exactly when the circuit is open and its cooldown is not over; a start
  -- that cannot be read keeps it refused.
  pub permits_request-IsCooling :
      (h : ProviderHealth) (now : ℤ)
      → (permits_request from_iso h now ≡ false) ↔ ((h.state ≡ opened) × IsCooling h now)
  unfolding permits_request
  permits_request-IsCooling h now =
      let cooling = cooling-after h now (parse_time from_iso h.opened_at) in
      (λ r. (ground arith, cooling.0 (ground arith)), λ (o, f). let c = cooling.1 f in ground arith)
