-- ===== src/Checks/Login.antt =====
-- The theorems on sign-in at concrete inputs.
use rustblocker.Base.{
  ℕ, zero, suc, ◌≤◌, ◌≡◌, refl, ap, arith, ◌⊎◌, ◌↔◌, true, false, ◌==◌, any, none, some, List, [],
  ◌∷◌, Bytes, codes, length, bytes_eq, bytes_eq_refl,
}
use rustblocker.Session.{
  Signing, AuthState, is_public_path, create_session, validate_session, lets_through,
}
use rustblocker.Session.Laws.{IsSession, validate_session-create_session, lets_through-IsSession}
use rustblocker.Throttle.{
  LoginThrottle, new_throttle, find_client, retry_after_at, record_failure_at,
}
use rustblocker.Throttle.Laws.{
  fail_all, wait, retry_after_at-fail_all, retry_after_at-find_client,
  find_client-record_failure_at_other,
}

-- A toy signature that is the payload, and numbers that are as many strokes.
abbrev strokes : ℕ → Bytes
strokes zero = []
strokes (suc n) = b'1' ∷ strokes n

length-strokes : (n : ℕ) → length (strokes n) ≡ n
length-strokes zero = refl
length-strokes (suc n) = ap suc (length-strokes n)

strokes_plain : (n : ℕ) → any (λ c. c == b'|') (strokes n) ≡ false
strokes_plain zero = refl
strokes_plain (suc n) = strokes_plain n

abbrev toy : Signing
toy = record {
  sign = λ secret payload. payload;
  verify_signature = λ secret payload signature. bytes_eq payload signature;
  base64_encode = λ b. b;
  base64_decode = λ b. some b;
  print_u64 = strokes;
  parse_u64 = λ s. some (length s);
  verify-sign = λ secret payload. bytes_eq_refl payload;
  decode-encode = λ b. refl;
  parse-print = λ n. ap some (length-strokes n);
  print_plain = strokes_plain;
}

abbrev auth : AuthState
auth = record { session_secret = codes "secret" }

validate_session-create_session_example :
    (validate_session toy auth 5 (create_session toy auth 2 4) ≡ true) ↔ (5 ≤ 6)
validate_session-create_session_example =
    validate_session-create_session toy auth 2 4 5 (omega arith)

-- A cookie whose signature is the payload, six strokes before the bar.
lets_through-IsSession_example :
    (lets_through toy auth 5 (codes "/api/stats") (some (codes "111111|admin|111111")) ≡ true) ↔ (
      (is_public_path (codes "/api/stats") ≡ true)
      ⊎ IsSession toy auth 5 (some (codes "111111|admin|111111")))
lets_through-IsSession_example =
    lets_through-IsSession toy auth 5 (codes "/api/stats") (some (codes "111111|admin|111111"))

-- Five failures, one second apart.
abbrev later : List ℕ
later = 101_000_000_000 ∷ 102_000_000_000 ∷ 103_000_000_000 ∷ 104_000_000_000 ∷ []

retry_after_at-fail_all_example :
    ((retry_after_at (fail_all new_throttle 7 (100_000_000_000 ∷ later)) 7 130_000_000_000).1
      ≡ some (wait 100_000_000_000 130_000_000_000))
    × (1 ≤ wait 100_000_000_000 130_000_000_000)
    × (wait 100_000_000_000 130_000_000_000 ≤ 60)
unfolding find_client
retry_after_at-fail_all_example =
    retry_after_at-fail_all new_throttle 7 100_000_000_000 later 130_000_000_000 refl
      (omega arith, (omega arith, (omega arith, (omega arith, tt)))) (omega arith)

abbrev locked : LoginThrottle
locked = record {
  failures = (7, record { count = 5; window_started = 100_000_000_000 }) ∷ [];
  bcrypt_slots = 2;
}

retry_after_at-find_client_example :
    ((retry_after_at locked 7 160_000_000_000).1 ≡ none)
    × (find_client 7 (retry_after_at locked 7 160_000_000_000).0.failures ≡ none)
unfolding find_client
retry_after_at-find_client_example =
    retry_after_at-find_client locked 7 160_000_000_000
      (record { count = 5; window_started = 100_000_000_000 }) (omega arith) refl (omega arith)

find_client-record_failure_at_other_example :
    find_client 7 (record_failure_at locked 8 101_000_000_000).failures
    ≡ find_client 7 locked.failures
find_client-record_failure_at_other_example =
    find_client-record_failure_at_other locked 8 7 101_000_000_000 refl
