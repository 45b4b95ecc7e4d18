-- ===== src/QueryLog/Laws/Trend.antt =====
-- `get_query_trend` of src/stats.rs: every row of the range is counted at one point.
use rustblocker.Base.{
  get_elem?, ℕ, zero, suc, ◌+◌, ◌*◌, ◌≤◌, ◌≡◌, Bool, true, ◌&&◌, some, List, [], ◌∷◌, map, length,
  retain, All, ltb, leb, ◌==◌,
}
use rustblocker.QueryLog.{blocked, forwarded}
use rustblocker.QueryLog.Writer.{LogRow}
use rustblocker.QueryLog.Trend.{
  QueryTrendPoint, is_action, count, bucket_secs, bucket_of, in_range, trend_points,
}

abbrev pub sum : List ℕ → ℕ
sum [] = 0
sum (n ∷ ns) = n + sum ns

-- The rows of these groups, `n` of them from the first one on.
abbrev grouped : (LogRow → ℕ) → ℕ → ℕ → LogRow → Bool
grouped f a n r = leb a (f r) && ltb (f r) (a + n)

-- The numbers of rows that pass a test, group by group.
abbrev counts : (LogRow → ℕ) → (LogRow → Bool) → List LogRow → ℕ → ℕ → List ℕ
counts f p rows a zero = []
counts f p rows a (suc n) = count p (retain (λ r. f r == a) rows) ∷ counts f p rows (suc a) n

module _ (selected : List LogRow) (start end_unix secs : ℕ) where
  abbrev all_rows : LogRow → Bool
  all_rows r = true

-- The row is at a point whose time it does not pass, in a bucket that starts no later than it.
abbrev pub IsPlaced : List QueryTrendPoint → ℕ → ℕ → LogRow → Type 0
IsPlaced ps start secs r =
    (p : QueryTrendPoint) × (get_elem? ps (bucket_of start secs r) ≡ some p)
    × (start + bucket_of start secs r * secs ≤ r.timestamp)
    × (r.timestamp ≤ p.timestamp)

pub record IsTrend (rows : List LogRow) (start end_unix : ℕ) (ps : List QueryTrendPoint)
    : Type 0 where
  pub size : length ps ≡ 40
  pub total_sum : sum (map (λ p. p.total) ps) ≡ length (retain (in_range start end_unix) rows)
  pub blocked_sum :
      sum (map (λ p. p.blocked_count) ps)
      ≡ count (λ r. is_action r.entry.action blocked) (retain (in_range start end_unix) rows)
  pub forwarded_sum :
      sum (map (λ p. p.forwarded_count) ps)
      ≡ count (λ r. is_action r.entry.action forwarded) (retain (in_range start end_unix) rows)
  pub placed :
      All (IsPlaced ps start (bucket_secs start end_unix)) (retain (in_range start end_unix) rows)

module _ (rows : List LogRow) (start end_unix : ℕ) where
  abbrev selected_rows : List LogRow
  selected_rows = retain (in_range start end_unix) rows

  abbrev its_points : List QueryTrendPoint
  its_points = trend_points selected_rows start end_unix (bucket_secs start end_unix) 0 40
