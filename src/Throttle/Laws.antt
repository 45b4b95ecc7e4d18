-- ===== src/Throttle/Laws.antt =====
-- Laws of the sign-in throttle of src/auth.rs.
use mathlib.Core.Option.{some-injective}
use rustblocker.Base.{
  ℕ, ◌+◌, ◌-◌, ◌/◌, ◌≤◌, ◌<◌, ◌≡◌, refl, ap, ◌∙◌, inl, inr, true, false, none, some, List, [], ◌∷◌,
  arith, length, All, leb, ◌==◌, ==_refl, if◌then◌else◌, min, max, Bool-cases,
}
use rustblocker.Throttle.{
  FailedLogins, LoginThrottle, find_client, drop_client, in_window, retain_window, pruned,
  table_full, retry_after_at, failed_again, record_failure_at, login_failure_window,
  login_max_failures, login_max_tracked_clients,
}

-- Who is tracked after a failure: this client with one more, and all others as before.
find_client-drop_client :
    (ip key : ℕ) (fs : List (ℕ × FailedLogins))
    → find_client ip (drop_client key fs) ≡ (if key == ip then none else find_client ip fs)
unfolding find_client drop_client
find_client-drop_client ip key [] = ground arith
find_client-drop_client ip key ((k, attempt) ∷ rest) = elim (Bool-cases (k == key)) [
  | inl same ↦ rw (same, find_client-drop_client ip key rest) (ground arith)
  | inr other ↦ elim (Bool-cases (k == ip)) [
    | inl here ↦ rw (other, here) (ground arith)
    | inr elsewhere ↦ rw (other, elsewhere) (find_client-drop_client ip key rest)
  ]
]

-- A client's failures, at these times.
abbrev pub fail_all : LoginThrottle → ℕ → List ℕ → LoginThrottle
fail_all t ip [] = t
fail_all t ip (now ∷ nows) = fail_all (record_failure_at t ip now) ip nows

find_client-record_failure_at :
    (t : LoginThrottle) (ip now : ℕ)
    → find_client ip (record_failure_at t ip now).failures
      ≡ some (failed_again now (find_client ip t.failures))
unfolding find_client record_failure_at
find_client-record_failure_at t ip now = rw (==_refl ip) refl

in_window-true :
    (now : ℕ) (a : FailedLogins)
    → now < a.window_started + login_failure_window
    → in_window now a ≡ true
in_window-true now a s = ground arith

module _ (ip start : ℕ) where
  again :
      (n now : ℕ)
      → now < start + login_failure_window
      → failed_again now (some (record { count = min n 255; window_started = start }))
        ≡ record { count = min (n + 1) 255; window_started = start }
  unfolding failed_again
  again n now s =
      rw (in_window-true now (record { count = min n 255; window_started = start }) s)
        (ap (λ c. record { count = c; window_started = start }) (omega arith))

  find_client-fail_all :
      (t : LoginThrottle) (n : ℕ) (nows : List ℕ)
      → find_client ip t.failures ≡ some (record { count = min n 255; window_started = start })
      → All (λ now. now < start + login_failure_window) nows
      → find_client ip (fail_all t ip nows).failures
        ≡ some (record { count = min (n + length nows) 255; window_started = start })
  find_client-fail_all t n [] e soon =
      e ∙ ap (λ c. some (record { count = min c 255; window_started = start })) (omega arith)
  find_client-fail_all t n (now ∷ nows) e (s, soon) =
      find_client-fail_all (record_failure_at t ip now) (n + 1) nows
        (find_client-record_failure_at t ip now
          ∙ ap (λ o. some (failed_again now o)) e
          ∙ ap some (again n now s))
        soon
      ∙ ap (λ c. some (record { count = min c 255; window_started = start })) (omega arith)

find_client-retain_window :
    (ip now : ℕ) (a : FailedLogins) (fs : List (ℕ × FailedLogins))
    → find_client ip fs ≡ some a
    → in_window now a ≡ true
    → find_client ip (retain_window now fs) ≡ some a
unfolding find_client retain_window
find_client-retain_window ip now a [] e w = cc
find_client-retain_window ip now a ((k, attempt) ∷ rest) e w = elim (Bool-cases (k == ip)) [
  | inl here ↦ rw (ap (in_window now) (some-injective _ _ (rw here at e)) ∙ w, here) (rw here at e)
  | inr elsewhere ↦ elim (Bool-cases (in_window now attempt)) [
    | inl fresh ↦
        rw (fresh, elsewhere) (find_client-retain_window ip now a rest (rw elsewhere at e) w)
    | inr stale ↦ rw stale (find_client-retain_window ip now a rest (rw elsewhere at e) w)
  ]
]

-- A tracked client that is in its window stays tracked when the table is pruned.
find_client-pruned :
    (ip now : ℕ) (a : FailedLogins) (fs : List (ℕ × FailedLogins))
    → find_client ip fs ≡ some a
    → in_window now a ≡ true
    → find_client ip (pruned now fs) ≡ some a
unfolding pruned
find_client-pruned ip now a fs e w = elim (Bool-cases (leb login_max_tracked_clients (length fs))) [
  | inl many ↦ rw many (find_client-retain_window ip now a fs e w)
  | inr few ↦ rw few e
]

-- The seconds for which a client waits whose window started then.
abbrev pub wait : ℕ → ℕ → ℕ
wait start now = max ((login_failure_window - (now - start)) / 1_000_000_000) 1

retry_after_at-in_window :
    (t : LoginThrottle) (ip now : ℕ) (a : FailedLogins)
    → find_client ip (pruned now t.failures) ≡ some a
    → in_window now a ≡ true
    → (retry_after_at t ip now).1
      ≡ (if leb login_max_failures a.count then some (wait a.window_started now) else none)
unfolding retry_after_at
retry_after_at-in_window t ip now a e w = rw (e, retry_after_at) (rw w refl)

leb_saturated : (n : ℕ) → leb 5 (min n 255) ≡ leb 5 n
leb_saturated n = ground arith

-- A client that was not tracked and fails at `start` and then at these times, all within 60 seconds
-- of `start`, is at any time in that window told to wait exactly when it failed five times or more:
-- for what is left of the window, between 1 and 60 seconds. So four failures never lock a client out,
-- and five always do, however many other clients are tracked.
pub retry_after_at-fail_all :
    (t : LoginThrottle) (ip start : ℕ) (nows : List ℕ) (now : ℕ)
    → find_client ip t.failures ≡ none
    → All (λ n. n < start + login_failure_window) nows
    → now < start + login_failure_window
    → ((retry_after_at (fail_all t ip (start ∷ nows)) ip now).1
        ≡ (if leb login_max_failures (1 + length nows) then some (wait start now) else none))
      × (1 ≤ wait start now)
      × (wait start now ≤ 60)
retry_after_at-fail_all t ip start nows now fresh soon s =
    let a : FailedLogins = record { count = min (1 + length nows) 255; window_started = start } in
    let w = in_window-true now a s in
    let e =
      find_client-pruned ip now a (fail_all t ip (start ∷ nows)).failures
        (find_client-fail_all ip start (record_failure_at t ip start) 1 nows
          (find_client-record_failure_at t ip start
            ∙ ap (λ o. some (failed_again start o)) fresh
            ∙ unfold failed_again in refl)
          soon)
        w in
    (
      retry_after_at-in_window (fail_all t ip (start ∷ nows)) ip now a e w
          ∙ ap (λ b. if b then some (wait start now) else none) (leb_saturated (1 + length nows)),
      omega arith,
      omega arith,
    )

-- A failure of one client changes nothing that is known of another.
pub find_client-record_failure_at_other :
    (t : LoginThrottle) (ip other now : ℕ)
    → (ip == other) ≡ false
    → find_client other (record_failure_at t ip now).failures ≡ find_client other t.failures
unfolding find_client record_failure_at
find_client-record_failure_at_other t ip other now apart =
    rw apart (find_client-drop_client other ip t.failures ∙ rw apart refl)

length-drop_client_le :
    (ip : ℕ) (fs : List (ℕ × FailedLogins)) → length (drop_client ip fs) ≤ length fs
unfolding drop_client
length-drop_client_le ip [] = omega arith
length-drop_client_le ip ((k, attempt) ∷ rest) = elim (Bool-cases (k == ip)) [
  | inl here ↦ rw here (omega (arith, length-drop_client_le ip rest))
  | inr elsewhere ↦ rw elsewhere (omega (arith, length-drop_client_le ip rest))
]

not_many : (n : ℕ) → n < login_max_tracked_clients → leb login_max_tracked_clients n ≡ false
not_many n h = ground arith

out_of_window :
    (now : ℕ) (a : FailedLogins)
    → a.window_started + login_failure_window ≤ now
    → in_window now a ≡ false
out_of_window now a h = ground arith

retry_after_at_late :
    (t : LoginThrottle) (ip now : ℕ) (a : FailedLogins)
    → pruned now t.failures ≡ t.failures
    → find_client ip t.failures ≡ some a
    → in_window now a ≡ false
    → retry_after_at t ip now ≡ (
      record t { failures = drop_client ip t.failures },
      table_full none (drop_client ip t.failures),
    )
unfolding retry_after_at
retry_after_at_late t ip now a p e out =
    rw (ap (find_client ip) p ∙ e, retry_after_at) (rw out (rw p refl))

module _ (fs : List (ℕ × FailedLogins)) (few : length fs < login_max_tracked_clients) where
  pruned_few : (now : ℕ) → pruned now fs ≡ fs
  unfolding pruned
  pruned_few now = rw (not_many (length fs) few) refl

  table_full_few : (ip : ℕ) → table_full none (drop_client ip fs) ≡ none
  unfolding table_full
  table_full_few ip =
      rw (not_many (length (drop_client ip fs)) (omega (arith, few, length-drop_client_le ip fs)))
        refl

-- While fewer than 4096 clients are tracked, a client whose window is over is let in, and is no
-- longer tracked.
pub retry_after_at-find_client :
    (t : LoginThrottle) (ip now : ℕ) (a : FailedLogins)
    → length t.failures < login_max_tracked_clients
    → find_client ip t.failures ≡ some a
    → a.window_started + login_failure_window ≤ now
    → ((retry_after_at t ip now).1 ≡ none)
      × (find_client ip (retry_after_at t ip now).0.failures ≡ none)
retry_after_at-find_client t ip now a few e late =
    let out = out_of_window now a late in
    rw (retry_after_at_late t ip now a (pruned_few t.failures few now) e out) (
      table_full_few t.failures few ip,
      find_client-drop_client ip ip t.failures ∙ rw (==_refl ip) refl,
    )
