-- ===== src/Substrate/Events.antt =====
-- `PostgresControlEventRepository` of src/storage/postgres_substrate.py. Events that were created at
-- the same time are taken in the order of the table.
use financial_control_engine.Base.{
  ℕ, ◌+◌, String, ◌==◌, Bool, true, false, ◌&&◌, List, [], ◌∷◌, ◌++◌, any, keep, length, map,
  Option, none, some, if◌then◌else◌, leb, ltb, write_first,
}
use financial_control_engine.Base.Sorting.{sort_by, take}
use financial_control_engine.Incidents.Repository.{seconds}

-- `class ControlEventType`
pub data ControlEventType : Type 0 where
  observation_ingested discrepancy_detected verification_succeeded : ControlEventType

-- The keys of a payload that the worker reads.
pub record EventPayload : Type 0 where
  pub observation_id : Option String
  pub reconciliation_id : Option String

-- The status column.
pub data EventStatus : Type 0 where
  pending in_progress processed failed : EventStatus

-- `class V2ControlEventRecord`
pub record EventRow : Type 0 where
  pub event_id : String
  pub event_type : ControlEventType
  pub payload : EventPayload
  pub status : EventStatus
  pub created_at : ℕ
  pub leased_at : Option ℕ
  pub processed_at : Option ℕ

abbrev pub is_pending : EventStatus → Bool
is_pending pending = true
is_pending _ = false

abbrev pub is_running : EventStatus → Bool
is_running in_progress = true
is_running _ = false

abbrev pub has_event_id : String → EventRow → Bool
has_event_id id r = r.event_id == id

abbrev pub waits : EventRow → Bool
waits r = is_pending r.status

-- `count_pending`
unfoldable pub count_pending : List EventRow → ℕ
count_pending rows = length (keep waits rows)

-- `publish`, with the fresh id and the time
unfoldable pub publish :
    ControlEventType → EventPayload → String → ℕ → List EventRow → List EventRow
publish type payload event_id now rows =
    rows
    ++ record {
      event_id = event_id;
      event_type = type;
      payload = payload;
      status = pending;
      created_at = now;
      leased_at = none;
      processed_at = none;
    }
      ∷ []

-- `ORDER BY created_at ASC`
abbrev pub oldest_first : EventRow → EventRow → Bool
oldest_first x y = leb x.created_at y.created_at

abbrev pub started : ℕ → EventRow → EventRow
started now r = record r { status = in_progress; leased_at = some now }

-- The rows that the query selects.
abbrev pub selected : ℕ → List EventRow → List EventRow
selected limit rows = take limit (sort_by oldest_first (keep waits rows))

abbrev pub start_row : List EventRow → ℕ → EventRow → EventRow
start_row chosen now r =
    if any (λ (x : EventRow). has_event_id x.event_id r) chosen then started now r else r

-- `poll_pending_events`
unfoldable pub poll_pending_events : ℕ → ℕ → List EventRow → List EventRow × List EventRow
poll_pending_events limit now rows =
    let chosen = selected limit rows in (map (started now) chosen, map (start_row chosen now) rows)

-- `leased_at < stale_cutoff`, which is `threshold` seconds ago
abbrev is_stale : Option ℕ → ℕ → ℕ → Bool
is_stale none threshold now = false
is_stale (some t) threshold now = ltb (t + seconds threshold) now

abbrev pub is_abandoned : ℕ → ℕ → EventRow → Bool
is_abandoned threshold now r = is_running r.status && is_stale r.leased_at threshold now

abbrev pub recover_row : ℕ → ℕ → EventRow → EventRow
recover_row threshold now r =
    if is_abandoned threshold now r then record r { status = pending; leased_at = none } else r

-- `recover_stale_events`
unfoldable pub recover_stale_events : ℕ → ℕ → List EventRow → ℕ × List EventRow
recover_stale_events threshold now rows =
    (length (keep (is_abandoned threshold now) rows), map (recover_row threshold now) rows)

-- `mark_processed`
unfoldable pub mark_processed : String → ℕ → List EventRow → List EventRow
mark_processed id now rows =
    write_first (has_event_id id)
      (λ (r : EventRow). record r { status = processed; processed_at = some now }) rows

-- `mark_failed`
unfoldable pub mark_failed : String → ℕ → List EventRow → List EventRow
mark_failed id now rows =
    write_first (has_event_id id)
      (λ (r : EventRow). record r { status = failed; processed_at = some now }) rows
