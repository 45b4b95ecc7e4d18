-- ===== src/QueryLog/Laws.antt =====
-- Laws of the query log of src/stats.rs.
pub mod Writer
pub mod Trend
mod Checks
use mathlib.Core.List.{append_assoc, append-nil}
use rustblocker.Base.{
  ℕ, zero, suc, ◌+◌, ◌%◌, ◌^◌, ◌<◌, ◌≡◌, refl, sym, ap, subst, ◌∙◌, Bool, true, false, List, [],
  ◌∷◌, ◌++◌, arith, length, length-append, take, ltb, if◌then◌else◌,
}
use rustblocker.QueryLog.{
  QueryAction, allowed, blocked, rewritten, forwarded, QueryEntry, QueryLog, channel_size, new_log,
  fetch_add_1, count_action, try_send, record_query, counters,
}

abbrev pub one_if : QueryAction → QueryAction → ℕ
one_if blocked blocked = 1
one_if allowed allowed = 1
one_if rewritten rewritten = 1
one_if forwarded forwarded = 1
one_if x y = 0

-- How many entries have an action.
abbrev pub count_of : QueryAction → List QueryEntry → ℕ
count_of action [] = 0
count_of action (entry ∷ entries) = one_if action entry.action + count_of action entries

abbrev pub record_all : QueryLog → List QueryEntry → QueryLog
record_all log [] = log
record_all log (entry ∷ entries) = record_all (record_query log entry) entries

-- The log after these entries: each counter is a number of them, as a 64-bit word, and the first 4096
-- wait in the channel, while the writer takes none.
pub record IsLogOf (log : QueryLog) (entries : List QueryEntry) : Type 0 where
  pub all_counted : log.total ≡ length entries % 2 ^ 64
  pub blocked_counted : log.blocked_count ≡ count_of blocked entries % 2 ^ 64
  pub allowed_counted : log.allowed_count ≡ count_of allowed entries % 2 ^ 64
  pub rewritten_counted : log.rewritten_count ≡ count_of rewritten entries % 2 ^ 64
  pub forwarded_counted : log.forwarded_count ≡ count_of forwarded entries % 2 ^ 64
  pub first_queued : log.queued ≡ take channel_size entries

count_of-append :
    (action : QueryAction) (xs : List QueryEntry) (e : QueryEntry)
    → count_of action (xs ++ e ∷ []) ≡ count_of action xs + one_if action e.action
count_of-append action [] e = omega arith
count_of-append action (x ∷ xs) e = omega (arith, count_of-append action xs e)

take-nil : (n : ℕ) → take {A = QueryEntry} n [] ≡ []
take-nil zero = refl
take-nil (suc n) = refl

ltb-suc : (a b : ℕ) → ltb (suc a) (suc b) ≡ ltb a b
ltb-suc a b = ground arith

cons_if :
    (x : QueryEntry) (b : Bool) (us vs : List QueryEntry)
    → (if b then x ∷ us else x ∷ vs) ≡ x ∷ (if b then us else vs)
cons_if x true us vs = refl
cons_if x false us vs = refl

push-take :
    (n : ℕ) (xs : List QueryEntry) (e : QueryEntry)
    → (if ltb (length (take n xs)) n then take n xs ++ e ∷ [] else take n xs)
      ≡ take n (xs ++ e ∷ [])
push-take zero xs e = ground arith
push-take (suc n) [] e = rw (take-nil n) (ground arith)
push-take (suc n) (x ∷ xs) e = rw (ltb-suc (length (take n xs)) n) (
    cons_if x (ltb (length (take n xs)) n) (take n xs ++ e ∷ []) (take n xs)
    ∙ ap (λ t. x ∷ t) (push-take n xs e))

module _ (seen : List QueryEntry) (e : QueryEntry) (x : QueryAction) (n : ℕ)
    (h : n ≡ count_of x seen % 2 ^ 64) where
  bumped : one_if x e.action ≡ 1 → (n + 1) % 2 ^ 64 ≡ count_of x (seen ++ e ∷ []) % 2 ^ 64
  bumped one = omega (arith, h, one, count_of-append x seen e)

  kept : one_if x e.action ≡ 0 → n ≡ count_of x (seen ++ e ∷ []) % 2 ^ 64
  kept none_more = omega (arith, h, none_more, count_of-append x seen e)

all_of :
    (n : ℕ) (seen : List QueryEntry) (e : QueryEntry)
    → n ≡ length seen % 2 ^ 64
    → (n + 1) % 2 ^ 64 ≡ length (seen ++ e ∷ []) % 2 ^ 64
all_of n seen e h = omega (arith, h, length-append seen (e ∷ []))

module _ (log : QueryLog) (seen : List QueryEntry) (k : IsLogOf log seen) where
  queue_of : (e : QueryEntry) → try_send log.queued e ≡ take channel_size (seen ++ e ∷ [])
  unfolding try_send
  queue_of e = rw k.first_queued (push-take channel_size seen e)

  by_action :
      (x : QueryAction) (e : QueryEntry)
      → e.action ≡ x
      → (let counted = count_action (record log { total = fetch_add_1 log.total }) x in
          (live : List QueryEntry)
          → IsLogOf
              (record counted { live = live; queued = try_send log.queued e })
              (seen ++ e ∷ []))
  unfolding count_action
  by_action blocked e f live = record {
    all_counted = all_of log.total seen e k.all_counted;
    blocked_counted =
        bumped seen e blocked log.blocked_count k.blocked_counted (ap (one_if blocked) f);
    allowed_counted =
        kept seen e allowed log.allowed_count k.allowed_counted (ap (one_if allowed) f);
    rewritten_counted =
        kept seen e rewritten log.rewritten_count k.rewritten_counted (ap (one_if rewritten) f);
    forwarded_counted =
        kept seen e forwarded log.forwarded_count k.forwarded_counted (ap (one_if forwarded) f);
    first_queued = queue_of e;
  }
  by_action allowed e f live = record {
    all_counted = all_of log.total seen e k.all_counted;
    blocked_counted =
        kept seen e blocked log.blocked_count k.blocked_counted (ap (one_if blocked) f);
    allowed_counted =
        bumped seen e allowed log.allowed_count k.allowed_counted (ap (one_if allowed) f);
    rewritten_counted =
        kept seen e rewritten log.rewritten_count k.rewritten_counted (ap (one_if rewritten) f);
    forwarded_counted =
        kept seen e forwarded log.forwarded_count k.forwarded_counted (ap (one_if forwarded) f);
    first_queued = queue_of e;
  }
  by_action rewritten e f live = record {
    all_counted = all_of log.total seen e k.all_counted;
    blocked_counted =
        kept seen e blocked log.blocked_count k.blocked_counted (ap (one_if blocked) f);
    allowed_counted =
        kept seen e allowed log.allowed_count k.allowed_counted (ap (one_if allowed) f);
    rewritten_counted =
        bumped seen e rewritten log.rewritten_count k.rewritten_counted (ap (one_if rewritten) f);
    forwarded_counted =
        kept seen e forwarded log.forwarded_count k.forwarded_counted (ap (one_if forwarded) f);
    first_queued = queue_of e;
  }
  by_action forwarded e f live = record {
    all_counted = all_of log.total seen e k.all_counted;
    blocked_counted =
        kept seen e blocked log.blocked_count k.blocked_counted (ap (one_if blocked) f);
    allowed_counted =
        kept seen e allowed log.allowed_count k.allowed_counted (ap (one_if allowed) f);
    rewritten_counted =
        kept seen e rewritten log.rewritten_count k.rewritten_counted (ap (one_if rewritten) f);
    forwarded_counted =
        bumped seen e forwarded log.forwarded_count k.forwarded_counted (ap (one_if forwarded) f);
    first_queued = queue_of e;
  }

  record_query-IsLogOf : (e : QueryEntry) → IsLogOf (record_query log e) (seen ++ e ∷ [])
  unfolding record_query
  record_query-IsLogOf e = by_action e.action e refl _

record_all-IsLogOf :
    (log : QueryLog) (seen entries : List QueryEntry)
    → IsLogOf log seen
    → IsLogOf (record_all log entries) (seen ++ entries)
record_all-IsLogOf log seen [] k = rw (append-nil seen) k
record_all-IsLogOf log seen (e ∷ entries) k =
    subst (IsLogOf (record_all (record_query log e) entries)) (append_assoc seen (e ∷ []) entries) (
      record_all-IsLogOf (record_query log e) (seen ++ e ∷ []) entries
        (record_query-IsLogOf log seen k e))

count_of-sum :
    (es : List QueryEntry)
    → length es
      ≡ count_of blocked es + count_of allowed es + count_of rewritten es + count_of forwarded es
count_of-sum [] = refl
count_of-sum (e ∷ es) = omega (arith, count_of-sum es, one_action e.action)
  where
    one_action :
        (x : QueryAction)
        → one_if blocked x + one_if allowed x + one_if rewritten x + one_if forwarded x ≡ 1
    one_action allowed = refl
    one_action blocked = refl
    one_action rewritten = refl
    one_action forwarded = refl

tuple_eq :
    {a b c d e a' b' c' d' e' : ℕ}
    → a ≡ a'
    → b ≡ b'
    → c ≡ c'
    → d ≡ d'
    → e ≡ e'
    → ◌≡◌ {A = ℕ × ℕ × ℕ × ℕ × ℕ} (a, b, c, d, e) (a', b', c', d', e')
tuple_eq p q r s t = rw (p, q, r, s, t) refl

-- A new log, after recording fewer than 2^64 queries, counts each action exactly; its total is the sum
-- of the four; and the first 4096 entries, in their order, are what waits while the writer takes none.
pub counters-count_of :
    (retention : ℕ) (es : List QueryEntry)
    → length es < 2 ^ 64
    → (let log = record_all (new_log retention) es in
        (counters log ≡ (
          length es,
          count_of blocked es,
          count_of allowed es,
          count_of rewritten es,
          count_of forwarded es,
        ))
        × (length es
            ≡ count_of blocked es
              + count_of allowed es
              + count_of rewritten es
              + count_of forwarded es)
        × (log.queued ≡ take channel_size es))
unfolding counters
counters-count_of retention es few =
    let k = record_all-IsLogOf (new_log retention) [] es (record {
      all_counted = refl;
      blocked_counted = refl;
      allowed_counted = refl;
      rewritten_counted = refl;
      forwarded_counted = refl;
      first_queued = sym (take-nil channel_size);
    }) in
    let total = count_of-sum es in
    (
      tuple_eq (omega (arith, k.all_counted, few)) (omega (arith, k.blocked_counted, few, total))
          (omega (arith, k.allowed_counted, few, total))
          (omega (arith, k.rewritten_counted, few, total))
          (omega (arith, k.forwarded_counted, few, total)),
      total,
      k.first_queued,
    )
