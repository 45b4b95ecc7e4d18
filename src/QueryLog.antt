-- ===== src/QueryLog.antt =====
-- `QueryLog` of src/stats.rs on the hot path: its counters, its bounded channel to the writer and the
-- live feed. The channels are lists, in the order of sending; each `record` is one step.
pub mod Writer
pub mod Trend
pub mod Laws
use rustblocker.Base.{
  ℕ, zero, suc, ◌+◌, ◌%◌, ◌^◌, Bool, true, false, Option, none, some, List, [], ◌∷◌, ◌++◌, Bytes,
  length, ltb, if◌then◌else◌,
}
use rustblocker.Message.{RecordType}

pub data QueryAction : Type 0 where
  allowed blocked rewritten forwarded : QueryAction

pub record QueryEntry : Type 0 where
  pub client_ip : ℕ
  pub domain : Bytes
  pub query_type : RecordType
  pub action : QueryAction
  pub resolver : Option Bytes
  pub latency_us : Option ℕ

pub record QueryLog : Type 0 where
  pub total : ℕ
  pub blocked_count : ℕ
  pub allowed_count : ℕ
  pub rewritten_count : ℕ
  pub forwarded_count : ℕ
  -- What waits for the writer, and what was sent to the live feed, which has this many subscribers.
  pub queued : List QueryEntry
  pub live : List QueryEntry
  pub receivers : ℕ
  pub retention_days : ℕ

abbrev pub channel_size : ℕ
channel_size = 4096

abbrev pub new_log : ℕ → QueryLog
new_log retention = record {
  total = 0;
  blocked_count = 0;
  allowed_count = 0;
  rewritten_count = 0;
  forwarded_count = 0;
  queued = [];
  live = [];
  receivers = 0;
  retention_days = retention;
}

-- `fetch_add(1)` on an `AtomicU64`.
abbrev pub fetch_add_1 : ℕ → ℕ
fetch_add_1 n = (n + 1) % 2 ^ 64

unfoldable pub count_action : QueryLog → QueryAction → QueryLog
count_action log blocked = record log { blocked_count = fetch_add_1 log.blocked_count }
count_action log allowed = record log { allowed_count = fetch_add_1 log.allowed_count }
count_action log rewritten = record log { rewritten_count = fetch_add_1 log.rewritten_count }
count_action log forwarded = record log { forwarded_count = fetch_add_1 log.forwarded_count }

-- `tx.try_send(entry)`: an entry that does not fit is dropped.
unfoldable pub try_send : List QueryEntry → QueryEntry → List QueryEntry
try_send queued entry = if ltb (length queued) channel_size then queued ++ entry ∷ [] else queued

unfoldable pub record_query : QueryLog → QueryEntry → QueryLog
record_query log entry =
    let counted = count_action (record log { total = fetch_add_1 log.total }) entry.action in
    record counted {
      live = if ltb 0 log.receivers then log.live ++ entry ∷ [] else log.live;
      queued = try_send log.queued entry;
    }

unfoldable pub counters : QueryLog → ℕ × ℕ × ℕ × ℕ × ℕ
counters log =
    (log.total, log.blocked_count, log.allowed_count, log.rewritten_count, log.forwarded_count)

unfoldable pub set_retention : QueryLog → ℕ → QueryLog
set_retention log days = record log { retention_days = days }

unfoldable pub subscribe : QueryLog → QueryLog
subscribe log = record log { receivers = suc log.receivers }
