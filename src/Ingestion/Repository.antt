-- ===== src/Ingestion/Repository.antt =====
-- `PostgresIngestionRepository` of src/storage/postgres_ingestion.py. A method is a function of the
-- tables that it writes. The query of the claim has no ORDER BY and skips rows that are locked: which of
-- the rows that pass its filter it selects is an argument.
use financial_control_engine.Base.{
  ℕ, zero, suc, ◌+◌, String, ◌==◌, is_empty, Bool, true, false, ◌&&◌, ◌||◌, List, [], ◌∷◌, ◌++◌,
  any, find, Option, none, some, Result, ok, err, if◌then◌else◌, ltb, write_first,
}
use financial_control_engine.Core.Models.{Evidence, Observation}
use financial_control_engine.Incidents.Repository.{seconds}
use financial_control_engine.Substrate.Rows.{EvidenceRow, ObservationRow}
use financial_control_engine.Substrate.Observations.{
  IntegrityError, unique_violation, save_observation, save_evidence,
}
use financial_control_engine.Ingestion.Payloads.{
  PayloadProcessingStatus, pending, processing, processed, failed, IngestionPayload,
}

abbrev pub Payloads : Type 0
Payloads = List IngestionPayload

-- `uq_ingestion_provider_idempotency`
abbrev pub same_delivery : IngestionPayload → IngestionPayload → Bool
same_delivery p r = r.provider == p.provider && r.idempotency_key == p.idempotency_key

abbrev pub has_payload_id : String → IngestionPayload → Bool
has_payload_id id r = r.payload_id == id

-- The unique columns of the table.
abbrev pub collides : IngestionPayload → IngestionPayload → Bool
collides p r = has_payload_id p.payload_id r || same_delivery p r

abbrev existing :
    Payloads → Option IngestionPayload → Result IntegrityError (IngestionPayload × Bool × Payloads)
existing rows none = err unique_violation
existing rows (some r) = ok (r, false, rows)

-- `save_payload`: a payload that was delivered before is answered with its row, and False.
unfoldable pub save_payload :
    IngestionPayload → Payloads → Result IntegrityError (IngestionPayload × Bool × Payloads)
save_payload p rows =
    if any (collides p) rows
    then existing rows (find (same_delivery p) rows)
    else ok (p, true, rows ++ p ∷ [])

abbrev pub is_expired : Option ℕ → ℕ → Bool
is_expired none now = false
is_expired (some t) now = ltb t now

abbrev pub claimable_in : PayloadProcessingStatus → Option ℕ → ℕ → Bool
claimable_in pending expires now = true
claimable_in processing expires now = is_expired expires now
claimable_in _ expires now = false

-- The filter of the query: PENDING, or PROCESSING under a lease that has expired.
abbrev pub is_claimable : ℕ → IngestionPayload → Bool
is_claimable now r = claimable_in r.status r.lease_expires_at now

-- The rows that the query selects.
abbrev pub selected : (IngestionPayload → Bool) → ℕ → IngestionPayload → Bool
selected picks now r = picks r && is_claimable now r

abbrev pub held : String → ℕ → IngestionPayload → IngestionPayload
held worker expires r = record r {
  status = processing;
  lease_owner = some worker;
  lease_expires_at = some expires;
}

abbrev pub both_onto : IngestionPayload → Payloads × Payloads → Payloads × Payloads
both_onto r (claimed, rows) = (r ∷ claimed, r ∷ rows)

abbrev pub row_onto : IngestionPayload → Payloads × Payloads → Payloads × Payloads
row_onto r (claimed, rows) = (claimed, r ∷ rows)

-- The rows that are selected, at most `limit`, are held.
unfoldable pub claim_first :
    (IngestionPayload → Bool)
    → (IngestionPayload → IngestionPayload)
    → ℕ
    → Payloads
    → Payloads × Payloads
claim_first p f zero rows = ([], rows)
claim_first p f (suc n) [] = ([], [])
claim_first p f (suc n) (r ∷ rows) = elim (p r) [
  | true ↦ both_onto (f r) (claim_first p f n rows)
  | false ↦ row_onto r (claim_first p f (suc n) rows)
]

-- `claim_pending_payloads`, which selects of the rows that `picks` leaves
unfoldable pub claim_pending_payloads :
    String → (IngestionPayload → Bool) → ℕ → ℕ → ℕ → Payloads → Payloads × Payloads
unfolding claim_first
claim_pending_payloads worker picks limit lease_seconds now rows =
    claim_first (selected picks now) (held worker (now + seconds lease_seconds)) limit rows

-- `if error`: the empty text is no error.
abbrev pub status_for : Option String → PayloadProcessingStatus
status_for none = processed
status_for (some message) = if is_empty message then processed else failed

abbrev pub finished : Option String → ℕ → IngestionPayload → IngestionPayload
finished error now r = record r {
  status = status_for error;
  processed_at = some now;
  error_message = error;
  lease_owner = none;
  lease_expires_at = none;
}

-- `mark_processed`
unfoldable pub mark_payload : String → Option String → ℕ → Payloads → Payloads
mark_payload id error now rows = write_first (has_payload_id id) (finished error now) rows

abbrev pub normalized_row : ℕ → IngestionPayload → IngestionPayload
normalized_row now r = record r { status = processed; processed_at = some now }

-- The tables that the ingestion writes.
pub record Ingress : Type 0 where
  pub payloads : Payloads
  pub evidence : List EvidenceRow
  pub observations : List ObservationRow

abbrev pub with_observations :
    String
    → Evidence
    → ℕ
    → Ingress
    → Result IntegrityError (List ObservationRow)
    → Result IntegrityError Ingress
with_observations id evidence now g (err e) = err e
with_observations id evidence now g (ok rows) = ok (record {
  payloads = write_first (has_payload_id id) (normalized_row now) g.payloads;
  evidence = save_evidence evidence g.evidence;
  observations = rows;
})

-- `save_normalized_payload`, one transaction: the lease is left as it was.
unfoldable pub save_normalized_payload :
    String → Evidence → Observation → ℕ → Ingress → Result IntegrityError Ingress
unfolding save_evidence save_observation
save_normalized_payload id evidence observation now g =
    with_observations id evidence now g (save_observation observation g.observations)
