-- ===== src/Intelligence/Circuit.antt =====
-- `CircuitState`, `ProviderHealth` and `CircuitBreaker`. An instant is a number of microseconds in
-- UTC. The counters are at least 0, as `ProviderHealth.from_json` demands of them.
pub mod Laws
use kris_ai.Base.{
  ℕ, ◌+◌, ◌*◌, ℤ, pos, ◌+ℤ◌, leb_ℤ, leb, max, String, Bool, true, false, not, ◌||◌, ◌==◌, Option,
  none, some, [], ◌∷◌, elem, strip, lower, replace_char, if◌then◌else◌,
}

pub data CircuitState : Type 0 where
  closed opened half_open : CircuitState

pub record ProviderHealth : Type 0 where
  pub provider : String
  pub model : String
  pub state : CircuitState
  pub consecutive_failures : ℕ
  pub timeout_failures : ℕ
  pub malformed_failures : ℕ
  pub opened_at : Option String
  pub cooldown_seconds : ℕ
  pub last_success_at : Option String
  pub last_failure_at : Option String

-- `ProviderHealth(provider, model)`
abbrev pub new_health : String → String → ProviderHealth
new_health provider model = record {
  provider = provider;
  model = model;
  state = closed;
  consecutive_failures = 0;
  timeout_failures = 0;
  malformed_failures = 0;
  opened_at = none;
  cooldown_seconds = 120;
  last_success_at = none;
  last_failure_at = none;
}

pub record CircuitBreaker : Type 0 where
  pub failure_threshold : ℕ
  pub cooldown_seconds : ℕ

-- `CircuitBreaker.__init__`; a negative argument is at most 1 like 0.
unfoldable pub new_breaker : ℕ → ℕ → CircuitBreaker
new_breaker threshold cooldown = record {
  failure_threshold = max 1 threshold;
  cooldown_seconds = max 1 cooldown;
}

abbrev pub is_open : CircuitState → Bool
is_open opened = true
is_open _ = false

abbrev pub is_half_open : CircuitState → Bool
is_half_open half_open = true
is_half_open _ = false

-- `at or _utc_now()`
unfoldable pub stamp : Option String → String → String
stamp none now = now
stamp (some at) now = if at == "" then now else at

-- The parameter reads an ISO 8601 text as an instant, one without a zone as UTC, and answers nothing
-- where `datetime.fromisoformat` raises `ValueError`.
module _ (from_iso : String → Option ℤ) where
  unfoldable pub parse_time : Option String → Option ℤ
  unfolding replace_char
  parse_time none = none
  parse_time (some text) = if text == "" then none else from_iso (replace_char b'Z' "+00:00" text)

  after_cooldown : ProviderHealth → ℤ → Option ℤ → CircuitState
  after_cooldown health now none = opened
  after_cooldown health now (some start) =
      if leb_ℤ (start +ℤ pos (health.cooldown_seconds * 1000000)) now then half_open else opened

  unfoldable pub effective_state : ProviderHealth → ℤ → CircuitState
  unfolding after_cooldown
  effective_state health now =
      if not (is_open health.state)
      then health.state
      else after_cooldown health now (parse_time health.opened_at)

  unfoldable pub permits_request : ProviderHealth → ℤ → Bool
  unfolding effective_state
  permits_request health now = not (is_open (effective_state health now))

unfoldable pub record_success :
    CircuitBreaker → ProviderHealth → Option String → String → ProviderHealth
unfolding stamp
record_success breaker health at now = record health {
  state = closed;
  consecutive_failures = 0;
  opened_at = none;
  cooldown_seconds = breaker.cooldown_seconds;
  last_success_at = some (stamp at now);
}

-- `1 if test else 0`
abbrev pub one_if : Bool → ℕ
one_if true = 1
one_if false = 0

-- `failure_class.strip().lower()`
unfoldable pub normal_class : String → String
unfolding strip lower
normal_class failure_class = lower (strip failure_class)

unfoldable pub should_open : CircuitBreaker → ProviderHealth → Bool
should_open breaker health =
    leb breaker.failure_threshold (health.consecutive_failures + 1) || is_half_open health.state

unfoldable pub record_failure :
    CircuitBreaker → ProviderHealth → String → Option String → String → ProviderHealth
unfolding stamp should_open
record_failure breaker health failure_class at now = record health {
  state = if should_open breaker health then opened else closed;
  consecutive_failures = health.consecutive_failures + 1;
  timeout_failures = health.timeout_failures + one_if (normal_class failure_class == "timeout");
  malformed_failures =
      health.malformed_failures
      + one_if (elem (normal_class failure_class) ("malformed" ∷ "protocol" ∷ []));
  opened_at = if should_open breaker health then some (stamp at now) else health.opened_at;
  cooldown_seconds = breaker.cooldown_seconds;
  last_failure_at = some (stamp at now);
}
