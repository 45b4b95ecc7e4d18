-- ===== src/QueryLog/Trend.antt =====
-- `get_query_trend` and the counts of `get_stats` of src/stats.rs. A time is an i64 raised by 2^63, so
-- that the least one is 0; a sum that wraps in the source wraps here.
use rustblocker.Base.{
  ℕ, zero, suc, ◌+◌, ◌-◌, ◌*◌, ◌/◌, ◌%◌, ◌^◌, min, max, Bool, true, false, ◌&&◌, Option, none, some,
  List, [], ◌∷◌, length, retain, ltb, leb, ◌==◌, if◌then◌else◌,
}
use rustblocker.QueryLog.{QueryAction, allowed, blocked, rewritten, forwarded}
use rustblocker.QueryLog.Writer.{LogRow}

abbrev pub points : ℕ
points = 40

abbrev pub day_secs : ℕ
day_secs = 86400

pub record QueryTrendPoint : Type 0 where
  pub timestamp : ℕ
  pub total : ℕ
  pub blocked_count : ℕ
  pub forwarded_count : ℕ

abbrev pub is_action : QueryAction → QueryAction → Bool
is_action allowed allowed = true
is_action blocked blocked = true
is_action rewritten rewritten = true
is_action forwarded forwarded = true
is_action _ _ = false

abbrev pub count : (LogRow → Bool) → List LogRow → ℕ
count p rows = length (retain p rows)

-- `end_unix.saturating_sub((days as i64).saturating_mul(DAY_SECS))`: from 2^63 on the cast is negative.
unfoldable pub days_before : ℕ → ℕ → ℕ
days_before end_unix days =
    if ltb days (2 ^ 63)
    then end_unix - min (days * day_secs) (2 ^ 63 - 1)
    else min (end_unix + min ((2 ^ 64 - days) * day_secs) (2 ^ 63)) (2 ^ 64 - 1)

-- `SELECT MIN(unixepoch(timestamp))`: none on an empty table.
unfoldable pub earliest : List LogRow → Option ℕ
earliest [] = none
earliest (r ∷ rows) = elim (earliest rows) [
  | none ↦ some r.timestamp
  | some t ↦ some (min r.timestamp t)
]

unfoldable pub retained_start : List LogRow → ℕ → ℕ → ℕ
retained_start rows end_unix retention_days =
    let oldest : ℕ = elim (earliest rows) [ none ↦ end_unix - points | some t ↦ t ] in
    if retention_days == 0 then oldest else days_before end_unix retention_days

unfoldable pub start_unix : List LogRow → ℕ → ℕ → ℕ → ℕ
start_unix rows end_unix requested_days retention_days =
    let retained = retained_start rows end_unix retention_days in
    max (if requested_days == 0 then retained else days_before end_unix requested_days) retained

-- `(span_secs.saturating_add(POINTS - 1) / POINTS).max(1)`; the span is negative only if the start lies
-- behind the end, and 1 comes out then too.
unfoldable pub bucket_secs : ℕ → ℕ → ℕ
bucket_secs start end_unix =
    max (min (min (end_unix - start) (2 ^ 63 - 1) + (points - 1)) (2 ^ 63 - 1) / points) 1

-- `MIN((unixepoch(timestamp) - ?1) / ?2, ?4)`.
unfoldable pub bucket_of : ℕ → ℕ → LogRow → ℕ
bucket_of start secs row = min ((row.timestamp - start) / secs) (points - 1)

abbrev pub in_range : ℕ → ℕ → LogRow → Bool
in_range start end_unix row = leb start row.timestamp && leb row.timestamp end_unix

-- The point with this index. A group without rows has no line in the result, and its counts are 0.
unfoldable pub trend_point : List LogRow → ℕ → ℕ → ℕ → ℕ → QueryTrendPoint
trend_point selected start end_unix secs index =
    let group = retain (λ r. bucket_of start secs r == index) selected in
    record {
      timestamp = min ((start + (index + 1) * secs) % 2 ^ 64) end_unix;
      total = length group;
      blocked_count = count (λ r. is_action r.entry.action blocked) group;
      forwarded_count = count (λ r. is_action r.entry.action forwarded) group;
    }

unfoldable pub trend_points : List LogRow → ℕ → ℕ → ℕ → ℕ → ℕ → List QueryTrendPoint
trend_points selected start end_unix secs index zero = []
trend_points selected start end_unix secs index (suc n) =
    trend_point selected start end_unix secs index
    ∷ trend_points selected start end_unix secs (suc index) n

-- Whether the pool has a connection. SQLite gives a date, and not NULL, for the two times.
unfoldable pub get_query_trend : Bool → List LogRow → ℕ → ℕ → ℕ → List QueryTrendPoint
get_query_trend connects rows end_unix requested_days retention_days =
    let start = start_unix rows end_unix requested_days retention_days in
    let selected = retain (in_range start end_unix) rows in
    if connects
    then trend_points selected start end_unix (bucket_secs start end_unix) 0 points
    else []

-- The counts of `get_stats`, in one pass over the table.
unfoldable pub get_stats : Bool → List LogRow → ℕ × ℕ × ℕ × ℕ × ℕ
get_stats connects rows =
    if connects
    then (
      length rows,
      count (λ r. is_action r.entry.action blocked) rows,
      count (λ r. is_action r.entry.action allowed) rows,
      count (λ r. is_action r.entry.action rewritten) rows,
      count (λ r. is_action r.entry.action forwarded) rows,
    )
    else (0, 0, 0, 0, 0)
