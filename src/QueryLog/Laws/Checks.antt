-- ===== src/QueryLog/Laws/Checks.antt =====
-- The theorems on the query log of src/stats.rs at a run of the writer, and at the table of its test of
-- the trend.
use rustblocker.Base.{ℕ, ◌+◌, ◌^◌, refl, true, none, some, List, [], ◌∷◌, Bytes, codes, arith}
use rustblocker.Message.{a}
use rustblocker.QueryLog.{QueryAction, allowed, blocked, forwarded, QueryEntry}
use rustblocker.QueryLog.Writer.{
  LogRow, FlushWeather, WriterEvent, received, closed, ticked, Writer, Turn, writer_task,
}
use rustblocker.QueryLog.Laws.Writer.{IsWritten, writer_task-IsWritten}

abbrev entry : Bytes → QueryAction → QueryEntry
entry domain action = record {
  client_ip = 1;
  domain = domain;
  query_type = a;
  action = action;
  resolver = none;
  latency_us = some 10;
}

abbrev fair : FlushWeather
fair = record {
  runs = true;
  connects = true;
  begins = true;
  inserts = λ e. true;
  commits = true;
  prunes = true;
  now = 10;
}

abbrev turn : WriterEvent → Turn
turn event = record { event = event; weather = fair; retention = 0 }

abbrev turns : List Turn
turns =
    turn (received (entry (codes "a.test") blocked))
    ∷ turn ticked
    ∷ turn (received (entry (codes "b.test") forwarded))
    ∷ turn closed
    ∷ []

abbrev idle : Writer
idle = record { batch = []; table = record { rows = []; maintenance = [] }; running = true }

writer_task-IsWritten_example : IsWritten turns idle (writer_task turns idle)
writer_task-IsWritten_example = writer_task-IsWritten turns idle refl (omega arith)

abbrev row_at : ℕ → QueryAction → LogRow
row_at t action = record { timestamp = 2 ^ 63 + t; entry = entry (codes "trend.test") action }

abbrev rows : List LogRow
rows = row_at 1703980799 allowed ∷ row_at 1703980921 blocked ∷ row_at 1704067318 forwarded ∷ []
