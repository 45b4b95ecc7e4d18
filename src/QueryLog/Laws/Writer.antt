-- ===== src/QueryLog/Laws/Writer.antt =====
-- The background writer of src/stats.rs: nothing is lost or reordered while the database answers.
use mathlib.Core.List.{append_assoc, append-nil, map-append}
use rustblocker.Base.{
  ℕ, ◌≤◌, ◌≡◌, refl, sym, ap, subst, ◌∙◌, Bool, true, false, List, [], ◌∷◌, ◌++◌, map, arith,
  length, is_empty, any, ◌||◌, leb, if◌then◌else◌, All, Bool-cases, inl, inr,
}
use rustblocker.QueryLog.{QueryEntry}
use rustblocker.QueryLog.Writer.{
  LogTable, FlushWeather, insert_entries, flush_entries, flush, WriterEvent, received, closed,
  ticked, Writer, emptied, writer_step, Turn, writer_task,
}

-- Every call of the database succeeds, and rows are kept for ever.
abbrev pub IsFair : Turn → Type 0
IsFair t =
    (t.weather.runs ≡ true)
    × (t.weather.connects ≡ true)
    × (t.weather.begins ≡ true)
    × ((e : QueryEntry) → t.weather.inserts e ≡ true)
    × (t.weather.commits ≡ true)
    × (t.retention ≡ 0)

abbrev pub is_closed : WriterEvent → Bool
is_closed closed = true
is_closed ticked = false
is_closed (received e) = false

abbrev arrival : WriterEvent → List QueryEntry → List QueryEntry
arrival (received e) rest = e ∷ rest
arrival ticked rest = rest
arrival closed rest = []

-- What arrives before the channel closes.
abbrev pub arrivals : List Turn → List QueryEntry
arrivals [] = []
arrivals (t ∷ turns) = arrival t.event (arrivals turns)

-- What was written, and what waits, in order.
abbrev pub kept : Writer → List QueryEntry
kept s = map (λ r. r.entry) s.table.rows ++ s.batch

insert_entries-map :
    (inserts : QueryEntry → Bool) (now : ℕ) (es : List QueryEntry)
    → ((e : QueryEntry) → inserts e ≡ true)
    → map (λ r. r.entry) (insert_entries inserts now es) ≡ es
unfolding insert_entries
insert_entries-map inserts now [] h = refl
insert_entries-map inserts now (e ∷ es) h =
    rw (h e) (ap (◌∷◌ e) (insert_entries-map inserts now es h))

flush-map :
    (t : Turn) (table : LogTable) (batch : List QueryEntry)
    → IsFair t
    → map (λ r. r.entry) (flush t.weather table batch t.retention).rows
      ≡ map (λ r. r.entry) table.rows ++ batch
unfolding flush flush_entries
flush-map t table [] h = sym (append-nil _)
flush-map t table (e ∷ batch) (runs, connects, begins, inserts, commits, forever) =
    rw (runs, connects, begins, commits, forever)
      (map-append (λ r. r.entry) table.rows
          (insert_entries t.weather.inserts t.weather.now (e ∷ batch))
        ∙ ap (λ es. map (λ r. r.entry) table.rows ++ es)
            (insert_entries-map t.weather.inserts t.weather.now (e ∷ batch) inserts))

-- One turn keeps the order, and loses nothing if it is fair.
emptied-kept : (s : Writer) (t : Turn) → IsFair t → kept (emptied t.weather t.retention s) ≡ kept s
emptied-kept s t h = append-nil _ ∙ flush-map t s.table s.batch h

writer_step-kept :
    (s : Writer) (t : Turn)
    → IsFair t
    → kept (writer_step s t.event t.weather t.retention) ≡ kept s ++ arrival t.event []
unfolding writer_step
writer_step-kept s t h = by_event t.event
  where
    by_event :
        (event : WriterEvent)
        → kept (writer_step s event t.weather t.retention) ≡ kept s ++ arrival event []
    by_event (received e) = elim (Bool-cases (leb 100 (length (s.batch ++ e ∷ [])))) [
      | inl full ↦ rw full (
          emptied-kept (record s { batch = s.batch ++ e ∷ [] }) t h
          ∙ sym (append_assoc (map (λ r. r.entry) s.table.rows) s.batch (e ∷ [])))
      | inr room ↦ rw room (sym (append_assoc (map (λ r. r.entry) s.table.rows) s.batch (e ∷ [])))
    ]
    by_event ticked = elim (Bool-cases (is_empty s.batch)) [
      | inl nothing ↦ rw nothing (sym (append-nil _))
      | inr some_left ↦ rw some_left (emptied-kept s t h ∙ sym (append-nil _))
    ]
    by_event closed = elim (Bool-cases (is_empty s.batch)) [
      | inl nothing ↦ rw nothing (sym (append-nil _))
      | inr some_left ↦ rw some_left (emptied-kept s t h ∙ sym (append-nil _))
    ]

empty-eq : (es : List QueryEntry) → is_empty es ≡ true → es ≡ []
empty-eq [] h = refl
empty-eq (e ∷ es) h = cc

-- After one turn: whether the writer runs on, and what waits.
abbrev After : WriterEvent → Writer → Type 0
After closed s = (s.running ≡ false) × (s.batch ≡ [])
After ticked s = (s.running ≡ true) × (s.batch ≡ [])
After (received e) s = (s.running ≡ true) × (length s.batch ≤ 99)

writer_step-After :
    (s : Writer) (event : WriterEvent) (w : FlushWeather) (days : ℕ)
    → s.running ≡ true
    → length s.batch ≤ 99
    → After event (writer_step s event w days)
unfolding writer_step
writer_step-After s (received e) w days r h =
    elim (Bool-cases (leb 100 (length (s.batch ++ e ∷ [])))) [
      | inl full ↦ rw full (r, omega arith)
      | inr room ↦ rw room (r, ground (arith, room))
    ]
writer_step-After s ticked w days r h = elim (Bool-cases (is_empty s.batch)) [
  | inl nothing ↦ rw nothing (r, empty-eq s.batch nothing)
  | inr some_left ↦ rw some_left (r, refl)
]
writer_step-After s closed w days r h = elim (Bool-cases (is_empty s.batch)) [
  | inl nothing ↦ rw nothing (refl, empty-eq s.batch nothing)
  | inr some_left ↦ rw some_left (refl, refl)
]

writer_task-stopped : (turns : List Turn) (s : Writer) → s.running ≡ false → writer_task turns s ≡ s
unfolding writer_task
writer_task-stopped [] s h = refl
writer_task-stopped (t ∷ turns) s h = rw h refl

writer_task-running :
    (t : Turn) (turns : List Turn) (s : Writer)
    → s.running ≡ true
    → writer_task (t ∷ turns) s ≡ writer_task turns (writer_step s t.event t.weather t.retention)
unfolding writer_task
writer_task-running t turns s h =
    ap (λ b. if b then writer_task turns (writer_step s t.event t.weather t.retention) else s) h

abbrev pub closes : List Turn → Bool
closes turns = any (λ t. is_closed t.event) turns

-- What a writer has come to, from a start.
abbrev pub IsWritten : List Turn → Writer → Writer → Type 0
IsWritten turns s final =
    (length final.batch ≤ 99)
    × (closes turns ≡ true → (final.running ≡ false) × (final.batch ≡ []))
    × (All IsFair turns → kept final ≡ kept s ++ arrivals turns)

first_turn :
    (event : WriterEvent) (turns : List Turn) (s next : Writer)
    → After event next
    → (next.running ≡ true → length next.batch ≤ 99 → IsWritten turns next (writer_task turns next))
    → (length (writer_task turns next).batch ≤ 99)
      × ((is_closed event || closes turns) ≡ true
          → ((writer_task turns next).running ≡ false) × ((writer_task turns next).batch ≡ []))
      × (All IsFair turns
          → kept next ≡ kept s ++ arrival event []
          → kept (writer_task turns next) ≡ kept s ++ arrival event (arrivals turns))
first_turn closed turns s next (stopped, nothing) rest =
    rw (writer_task-stopped turns next stopped)
      (rw nothing (omega arith), λ h. (stopped, nothing), λ fair same. same)
first_turn ticked turns s next (runs, nothing) rest =
    let (few, ends, order) = rest runs (rw nothing (omega arith)) in
    (few, ends, λ fair same. order fair ∙ rw same (append_assoc (kept s) [] (arrivals turns)))
first_turn (received e) turns s next (runs, few_before) rest =
    let (few, ends, order) = rest runs few_before in
    (few, ends, λ fair same. order fair ∙ rw same (append_assoc (kept s) (e ∷ []) (arrivals turns)))

-- A running writer whose batch is below a hundred keeps it so, however the database behaves; once the
-- channel is closed it has stopped, with an empty batch. While the database answers and rows are kept
-- for ever, the table and the batch together are what they were and all that arrived before the
-- close, in order.
pub writer_task-IsWritten :
    (turns : List Turn) (s : Writer)
    → s.running ≡ true
    → length s.batch ≤ 99
    → IsWritten turns s (writer_task turns s)
writer_task-IsWritten [] s r h = unfold writer_task in (h, λ c. cc, λ fair. sym (append-nil _))
writer_task-IsWritten (t ∷ turns) s r h =
    let next = writer_step s t.event t.weather t.retention in
    let (few, ends, order) =
      first_turn t.event turns s next (writer_step-After s t.event t.weather t.retention r h)
        (λ r' h'. writer_task-IsWritten turns next r' h') in
    subst (λ x. IsWritten (t ∷ turns) s x) (sym (writer_task-running t turns s r))
      (few, ends, λ (fair, later). order later (writer_step-kept s t fair))
