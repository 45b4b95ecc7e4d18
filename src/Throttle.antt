-- ===== src/Throttle.antt =====
-- `LoginThrottle` of src/auth.rs: failed sign-ins of each client address. The hash map is an
-- association list with one entry for each address, the semaphore its free permits, and an instant a
-- number of nanoseconds.
pub mod Laws
use rustblocker.Base.{
  ℕ, zero, suc, ◌+◌, ◌-◌, ◌*◌, ◌/◌, ◌^◌, Bool, true, false, not, ◌&&◌, Option, none, some, List, [],
  ◌∷◌, length, ltb, leb, ◌==◌, if◌then◌else◌, min, max,
}

abbrev pub login_max_concurrent : ℕ
login_max_concurrent = 2

abbrev pub login_max_failures : ℕ
login_max_failures = 5

abbrev pub login_failure_window : ℕ
login_failure_window = 60_000_000_000

abbrev pub login_max_tracked_clients : ℕ
login_max_tracked_clients = 4096

pub record FailedLogins : Type 0 where
  pub count : ℕ
  pub window_started : ℕ

pub record LoginThrottle : Type 0 where
  pub failures : List (ℕ × FailedLogins)
  pub bcrypt_slots : ℕ

abbrev pub new_throttle : LoginThrottle
new_throttle = record { failures = []; bcrypt_slots = login_max_concurrent }

unfoldable pub find_client : ℕ → List (ℕ × FailedLogins) → Option FailedLogins
find_client ip [] = none
find_client ip ((key, attempt) ∷ rest) = if key == ip then some attempt else find_client ip rest

unfoldable pub drop_client : ℕ → List (ℕ × FailedLogins) → List (ℕ × FailedLogins)
drop_client ip [] = []
drop_client ip ((key, attempt) ∷ rest) =
    let others = drop_client ip rest in if key == ip then others else (key, attempt) ∷ others

-- `now.saturating_duration_since(window_started) < LOGIN_FAILURE_WINDOW`.
abbrev pub in_window : ℕ → FailedLogins → Bool
in_window now attempt = ltb (now - attempt.window_started) login_failure_window

unfoldable pub retain_window : ℕ → List (ℕ × FailedLogins) → List (ℕ × FailedLogins)
retain_window now [] = []
retain_window now ((key, attempt) ∷ rest) =
    let others = retain_window now rest in
    if in_window now attempt then (key, attempt) ∷ others else others

unfoldable pub pruned : ℕ → List (ℕ × FailedLogins) → List (ℕ × FailedLogins)
pruned now failures =
    if leb login_max_tracked_clients (length failures) then retain_window now failures else failures

-- The last test: a client that is not tracked waits while the table is full.
unfoldable pub table_full : Option FailedLogins → List (ℕ × FailedLogins) → Option ℕ
table_full (some attempt) failures = none
table_full none failures =
    if leb login_max_tracked_clients (length failures)
    then some (login_failure_window / 1_000_000_000)
    else none

-- The throttle, since expired entries go, and the seconds to wait if the client must.
unfoldable pub retry_after_at : LoginThrottle → ℕ → ℕ → LoginThrottle × Option ℕ
retry_after_at t client_ip now =
    let failures = pruned now t.failures in
    elim (find_client client_ip failures) [
      | none ↦ (record t { failures = failures }, table_full none failures)
      | some attempt ↦
          let others = drop_client client_ip failures in
          if not (in_window now attempt)
          then (record t { failures = others }, table_full none others)
          else (
            record t { failures = failures },
            if leb login_max_failures attempt.count
                then some (
                    max ((login_failure_window - (now - attempt.window_started)) / 1_000_000_000) 1)
                else none,
          )
    ]

-- The attempt with one more failure, in its window or in a new one.
unfoldable pub failed_again : ℕ → Option FailedLogins → FailedLogins
failed_again now none = record { count = 1; window_started = now }
failed_again now (some attempt) =
    if in_window now attempt
    then record attempt { count = min (attempt.count + 1) 255 }
    else record { count = 1; window_started = now }

unfoldable pub record_failure_at : LoginThrottle → ℕ → ℕ → LoginThrottle
record_failure_at t client_ip now = record t {
  failures =
      (client_ip, failed_again now (find_client client_ip t.failures))
      ∷ drop_client client_ip t.failures;
}

unfoldable pub record_login : LoginThrottle → ℕ → LoginThrottle
record_login t client_ip = record t { failures = drop_client client_ip t.failures }

-- A permit, or the seconds to wait.
pub data Begin : Type 0 where
  granted : Begin
  retry_after : ℕ → Begin

unfoldable pub begin : LoginThrottle → ℕ → ℕ → LoginThrottle × Begin
begin t client_ip now =
    let r = retry_after_at t client_ip now in
    elim r.1 [ some seconds ↦ (r.0, retry_after seconds) | none ↦ take_slot r.0 r.0.bcrypt_slots ]
  where
    take_slot : LoginThrottle → ℕ → LoginThrottle × Begin
    take_slot s zero = (s, retry_after 1)
    take_slot s (suc left) = (record s { bcrypt_slots = left }, granted)
