-- ===== src/QueryLog/Writer.antt =====
-- The background writer of src/stats.rs: `writer_task`, `flush`, `flush_entries` and the pruning of the
-- table. Times are seconds. What the world decides is an argument: which event comes next, and which
-- calls of the database succeed.
use rustblocker.Base.{
  ℕ, ◌-◌, ◌*◌, Bool, false, not, List, [], ◌∷◌, ◌++◌, length, is_empty, retain, ltb, leb, ◌==◌,
  if◌then◌else◌,
}
use rustblocker.QueryLog.{QueryEntry}

abbrev pub batch_size : ℕ
batch_size = 100

abbrev pub vacuum_after_deleted_rows : ℕ
vacuum_after_deleted_rows = 1000

-- A row of `query_log`; its other columns are those of the entry.
pub record LogRow : Type 0 where
  pub timestamp : ℕ
  pub entry : QueryEntry

pub data Maintenance : Type 0 where
  vacuum checkpoint : Maintenance

-- The table in the order of its ids, and the maintenance that was run.
pub record LogTable : Type 0 where
  pub rows : List LogRow
  pub maintenance : List Maintenance

-- How the calls of one flush end, and when it takes place.
pub record FlushWeather : Type 0 where
  pub runs : Bool
  pub connects : Bool
  pub begins : Bool
  pub inserts : QueryEntry → Bool
  pub commits : Bool
  pub prunes : Bool
  pub now : ℕ

unfoldable pub compact_after_delete : ℕ → LogTable → LogTable
compact_after_delete deleted table =
    let vacuums = if leb vacuum_after_deleted_rows deleted then vacuum ∷ [] else [] in
    if deleted == 0
    then table
    else record table { maintenance = table.maintenance ++ (vacuums ++ checkpoint ∷ []) }

-- The loop of inserts: an entry whose insert fails is left out.
unfoldable pub insert_entries : (QueryEntry → Bool) → ℕ → List QueryEntry → List LogRow
insert_entries inserts now [] = []
insert_entries inserts now (entry ∷ rest) =
    let others = insert_entries inserts now rest in
    if inserts entry then record { timestamp = now; entry = entry } ∷ others else others

-- `timestamp < datetime('now', '-… days')`.
abbrev pub is_expired : ℕ → ℕ → LogRow → Bool
is_expired now days row = ltb row.timestamp (now - days * 86400)

unfoldable pub prune_log : FlushWeather → ℕ → LogTable → LogTable
prune_log w days table =
    let kept = retain (λ r. not (is_expired w.now days r)) table.rows in
    if w.prunes
    then compact_after_delete (length table.rows - length kept) (record table { rows = kept })
    else table

unfoldable pub flush_entries : FlushWeather → LogTable → List QueryEntry → ℕ → LogTable
flush_entries w table entries retention_days =
    let inserted = record table { rows = table.rows ++ insert_entries w.inserts w.now entries } in
    let written = if w.commits then inserted else table in
    let pruned = prune_log w retention_days written in
    if not w.connects
    then table
    else if not w.begins
    then table
    else if ltb 0 retention_days
    then pruned
    else written

-- The batch is taken, whatever becomes of it.
unfoldable pub flush : FlushWeather → LogTable → List QueryEntry → ℕ → LogTable
flush w table batch retention_days =
    if is_empty batch
    then table
    else if w.runs
    then flush_entries w table batch retention_days
    else table

unfoldable pub clear_log : Bool → Bool → LogTable → LogTable
clear_log connects deletes table =
    let cleared = compact_after_delete (length table.rows) (record table { rows = [] }) in
    if connects then if deletes then cleared else table else table

pub data WriterEvent : Type 0 where
  received : QueryEntry → WriterEvent
  closed ticked : WriterEvent

pub record Writer : Type 0 where
  pub batch : List QueryEntry
  pub table : LogTable
  pub running : Bool

abbrev pub emptied : FlushWeather → ℕ → Writer → Writer
emptied w days s = record s { batch = []; table = flush w s.table s.batch days }

-- One turn of the loop: an event, the weather of a flush that it starts, and the retention at the time.
unfoldable pub writer_step : Writer → WriterEvent → FlushWeather → ℕ → Writer
writer_step s (received entry) w days =
    let pushed = record s { batch = s.batch ++ entry ∷ [] } in
    if leb batch_size (length pushed.batch) then emptied w days pushed else pushed
writer_step s closed w days = record (if is_empty s.batch then s else emptied w days s) {
  running = false;
}
writer_step s ticked w days = if is_empty s.batch then s else emptied w days s

pub record Turn : Type 0 where
  pub event : WriterEvent
  pub weather : FlushWeather
  pub retention : ℕ

unfoldable pub writer_task : List Turn → Writer → Writer
writer_task [] s = s
writer_task (t ∷ turns) s =
    if s.running then writer_task turns (writer_step s t.event t.weather t.retention) else s
