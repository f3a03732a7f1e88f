-- ===== src/Ingestion/Memory.antt =====
-- `MemoryIngestionRepository` of src/storage/postgres_ingestion.py. Its dictionaries are lists in the
-- order of insertion; the lock makes the methods follow one another. What is returned is a value: that
-- the store holds the same object is left out.
use financial_control_engine.Base.{
  ℕ, ◌+◌, String, ◌==◌, Bool, true, false, ◌&&◌, List, [], ◌∷◌, ◌++◌, find, any, Option, none, some,
  Result, ok, err, if◌then◌else◌, leb, write_first,
}
use financial_control_engine.Incidents.Repository.{seconds}
use financial_control_engine.Ingestion.Payloads.{IngestionPayload}
use financial_control_engine.Ingestion.Repository.{
  Payloads, has_payload_id, is_claimable, held, both_onto, row_onto, finished,
}

-- An entry of `_idempotency_map`.
pub record Delivered : Type 0 where
  pub provider : String
  pub idempotency_key : String
  pub payload_id : String

pub record MemoryStore : Type 0 where
  pub store : Payloads
  pub idempotency_map : List Delivered

-- `class KeyError`
pub data KeyError : Type 0 where
  no_payload : KeyError

abbrev pub entry_of : IngestionPayload → Delivered
entry_of p = record {
  provider = p.provider;
  idempotency_key = p.idempotency_key;
  payload_id = p.payload_id;
}

abbrev pub delivered_as : IngestionPayload → Delivered → Bool
delivered_as p d = d.provider == p.provider && d.idempotency_key == p.idempotency_key

-- `self._store[payload.payload_id] = payload`
abbrev pub put_payload : IngestionPayload → Payloads → Payloads
put_payload p rows =
    if any (has_payload_id p.payload_id) rows
    then write_first (has_payload_id p.payload_id) (λ _. p) rows
    else rows ++ p ∷ []

abbrev pub looked_up :
    MemoryStore → Option IngestionPayload → Result KeyError (IngestionPayload × Bool × MemoryStore)
looked_up m none = err no_payload
looked_up m (some r) = ok (r, false, m)

abbrev pub remembered :
    IngestionPayload
    → MemoryStore
    → Option Delivered
    → Result KeyError (IngestionPayload × Bool × MemoryStore)
remembered p m none = ok (
  p,
  true,
  record { store = put_payload p m.store; idempotency_map = m.idempotency_map ++ entry_of p ∷ [] },
)
remembered p m (some d) = looked_up m (find (has_payload_id d.payload_id) m.store)

-- `save_payload`
unfoldable pub remember :
    IngestionPayload → MemoryStore → Result KeyError (IngestionPayload × Bool × MemoryStore)
remember p m = remembered p m (find (delivered_as p) m.idempotency_map)

-- The loop, which counts what it has claimed and breaks once the limit is reached.
unfoldable pub claim_loop :
    (IngestionPayload → Bool)
    → (IngestionPayload → IngestionPayload)
    → ℕ
    → ℕ
    → Payloads
    → Payloads × Payloads
claim_loop p f limit count [] = ([], [])
claim_loop p f limit count (r ∷ rows) = elim (p r) [
  | true ↦
      let rest = claim_loop p f limit (count + 1) rows in
      if leb limit (count + 1) then (f r ∷ [], f r ∷ rows) else both_onto (f r) rest
  | false ↦ row_onto r (claim_loop p f limit count rows)
]

abbrev with_store : MemoryStore → Payloads × Payloads → Payloads × MemoryStore
with_store m (claimed, rows) = (claimed, record m { store = rows })

-- `claim_pending_payloads`
unfoldable pub claim_remembered : String → ℕ → ℕ → ℕ → MemoryStore → Payloads × MemoryStore
unfolding claim_loop
claim_remembered worker limit lease_seconds now m =
    with_store m
      (claim_loop (is_claimable now) (held worker (now + seconds lease_seconds)) limit 0 m.store)

-- `mark_processed`
unfoldable pub mark_remembered : String → Option String → ℕ → MemoryStore → MemoryStore
mark_remembered id error now m = record m {
  store = write_first (has_payload_id id) (finished error now) m.store;
}
