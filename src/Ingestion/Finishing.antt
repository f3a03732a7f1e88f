-- ===== src/Ingestion/Finishing.antt =====
-- What a batch of src/ingestion/worker.py leaves of the payloads that it claimed.
use financial_control_engine.Base.{
  ℕ, ◌+◌, String, ◌==◌, lower, is_empty, ◌≡◌, refl, ap, ◌∙◌, Bool, true, false, List, [], ◌∷◌, any,
  find, Option, none, some, Result, ok, err, inl, inr, Bool-cases, subst, write_first,
}
use financial_control_engine.Core.Models.{Observation, Evidence}
use financial_control_engine.Incidents.Repository.{seconds}
use financial_control_engine.Substrate.Rows.{ObservationRow}
use financial_control_engine.Substrate.Observations.{IntegrityError, save_observation}
use financial_control_engine.Ingestion.Payloads.{
  PayloadProcessingStatus, pending, processing, processed, failed, duplicate, IngestionPayload,
}
use financial_control_engine.Ingestion.Adapter.{ValueError, normalize_payload}
use financial_control_engine.Ingestion.Repository.{
  Payloads, has_payload_id, claim_first, selected, held, finished, status_for, normalized_row,
  claim_pending_payloads, mark_payload, save_normalized_payload, with_observations,
}
use financial_control_engine.Ingestion.Claims.{equal_ids, taken-present}
use financial_control_engine.Ingestion.Batches.{
  Store, IngestionWorker, Outcome, after_save, after_normalize, ingest_payload, with_payloads,
  concluded, process_payloads, process_batch,
}

-- PROCESSED or FAILED.
abbrev is_final : PayloadProcessingStatus → Bool
is_final processed = true
is_final failed = true
is_final pending = false
is_final processing = false
is_final duplicate = false

abbrev final_row : Option IngestionPayload → Bool
final_row none = false
final_row (some r) = is_final r.status

-- The row of an id is there and final.
abbrev pub is_finished : String → Payloads → Bool
is_finished id rows = final_row (find (has_payload_id id) rows)

-- A function of a row that keeps its id and makes it final.
record Finishes (f : IngestionPayload → IngestionPayload) : Type 0 where
  same_id : (r : IngestionPayload) → (f r).payload_id ≡ r.payload_id
  final : (r : IngestionPayload) → is_final (f r).status ≡ true

status_for-final : (error : Option String) → is_final (status_for error) ≡ true
status_for-final none = refl
status_for-final (some message) = elim (Bool-cases (is_empty message)) [
  | inl e ↦ rw e refl
  | inr e ↦ rw e refl
]

finished-Finishes : (error : Option String) (now : ℕ) → Finishes (finished error now)
finished-Finishes error now = record { same_id = λ r. refl; final = λ r. status_for-final error }

write_first-finished :
    (id j : String) (f : IngestionPayload → IngestionPayload) (rows : Payloads)
    → Finishes f
    → is_finished id rows ≡ true
    → is_finished id (write_first (has_payload_id j) f rows) ≡ true
write_first-finished id j f [] F h = h
write_first-finished id j f (r ∷ rows) F h = elim (Bool-cases (has_payload_id j r)) [
  | inl e ↦ elim (Bool-cases (has_payload_id id r)) [
    | inl k ↦ rw (e, F.same_id r, k) (F.final r)
    | inr k ↦ rw (e, F.same_id r, k) (rw k at h)
  ]
  | inr e ↦ elim (Bool-cases (has_payload_id id r)) [
    | inl k ↦ rw (e, k) (rw k at h)
    | inr k ↦ rw (e, k) (write_first-finished id j f rows F (rw k at h))
  ]
]

write_first_ends :
    (id : String) (f : IngestionPayload → IngestionPayload) (rows : Payloads)
    → Finishes f
    → any (has_payload_id id) rows ≡ true
    → is_finished id (write_first (has_payload_id id) f rows) ≡ true
write_first_ends id f [] F h = cc
write_first_ends id f (r ∷ rows) F h = elim (Bool-cases (has_payload_id id r)) [
  | inl e ↦ rw (e, F.same_id r, e) (F.final r)
  | inr e ↦ rw (e, e) (write_first_ends id f rows F (rw e at h))
]

write_first-any :
    (id j : String) (f : IngestionPayload → IngestionPayload) (rows : Payloads)
    → Finishes f
    → any (has_payload_id id) (write_first (has_payload_id j) f rows) ≡ any (has_payload_id id) rows
write_first-any id j f [] F = refl
write_first-any id j f (r ∷ rows) F = elim (Bool-cases (has_payload_id j r)) [
  | inl e ↦ rw (e, F.same_id r) refl
  | inr e ↦ rw (e, write_first-any id j f rows F) refl
]

-- What a step keeps of the payloads.
record Keeps (old new : Payloads) : Type 0 where
  present : (id : String) → any (has_payload_id id) new ≡ any (has_payload_id id) old
  finished_too : (id : String) → is_finished id old ≡ true → is_finished id new ≡ true

Keeps-itself : (rows : Payloads) → Keeps rows rows
Keeps-itself rows = record { present = λ id. refl; finished_too = λ id h. h }

Keeps-then : {a b c : Payloads} → Keeps a b → Keeps b c → Keeps a c
Keeps-then k l = record {
  present = λ id. l.present id ∙ k.present id;
  finished_too = λ id h. l.finished_too id (k.finished_too id h);
}

write_first-Keeps :
    (j : String) (f : IngestionPayload → IngestionPayload) (rows : Payloads)
    → Finishes f
    → Keeps rows (write_first (has_payload_id j) f rows)
write_first-Keeps j f rows F = record {
  present = λ id. write_first-any id j f rows F;
  finished_too = λ id h. write_first-finished id j f rows F h;
}

-- What an attempt does to the payloads: it finishes the row, or it raises.
Attempted : String → Payloads → Outcome → Type 0
Attempted id rows (none, g) =
    Keeps rows g.ingress.payloads
    × (any (has_payload_id id) rows ≡ true → is_finished id g.ingress.payloads ≡ true)
Attempted id rows (some e, g) = Keeps rows g.ingress.payloads

normalized_row-Finishes : (now : ℕ) → Finishes (normalized_row now)
normalized_row-Finishes now = record { same_id = λ r. refl; final = λ r. refl }

saved-Attempted :
    (v : IngestionWorker) (n : ℕ) (id : String) (o : Observation) (e : Evidence) (g : Store)
    (x : Result IntegrityError (List ObservationRow))
    → Attempted id g.ingress.payloads
        (after_save v n o g (with_observations id e (v.clock n) g.ingress x))
unfolding Attempted
saved-Attempted v n id o e g (err z) = Keeps-itself g.ingress.payloads
saved-Attempted v n id o e g (ok rows) =
    let F = normalized_row-Finishes (v.clock n) in
    let f = normalized_row (v.clock n) in
    let kept = write_first-Keeps id f g.ingress.payloads F in
    elim (Bool-cases (v.publishes n)) [
      | inl b ↦ rw b (kept, write_first_ends id f g.ingress.payloads F)
      | inr b ↦ rw b kept
    ]

normalized-Attempted :
    (v : IngestionWorker) (n : ℕ) (p : IngestionPayload) (g : Store)
    (x : Result ValueError (Observation × Evidence))
    → Attempted p.payload_id g.ingress.payloads (after_normalize v n p g x)
unfolding Attempted save_normalized_payload
normalized-Attempted v n p g (err z) = Keeps-itself g.ingress.payloads
normalized-Attempted v n p g (ok (o, e)) =
    saved-Attempted v n p.payload_id o e g (save_observation o g.ingress.observations)

ingest_payload-Attempted :
    (v : IngestionWorker) (n : ℕ) (p : IngestionPayload) (g : Store)
    → Attempted p.payload_id g.ingress.payloads (ingest_payload v n p g)
unfolding Attempted ingest_payload
ingest_payload-Attempted v n p g = elim (Bool-cases (lower p.provider == "razorpay")) [
  | inr e ↦ rw e (Keeps-itself g.ingress.payloads)
  | inl e ↦
      rw e (normalized-Attempted v n p g (normalize_payload v.digest (v.draw n) p.raw_payload))
]

-- What a round of the loop does to the payloads.
record Rounded (id : String) (old new : Payloads) : Type 0 where
  keeps : Keeps old new
  here : any (has_payload_id id) old ≡ true → is_finished id new ≡ true

concluded-Rounded :
    (v : IngestionWorker) (n : ℕ) (p : IngestionPayload) (rows : Payloads) (x : Outcome)
    → Attempted p.payload_id rows x
    → Rounded p.payload_id rows (concluded v n p x).1.ingress.payloads
unfolding Attempted mark_payload
concluded-Rounded v n p rows (none, g) h = record { keeps = h.0; here = h.1 }
concluded-Rounded v n p rows (some e, g) h =
    let F = finished-Finishes (some (v.text_of e)) (v.clock n) in
    let f = finished (some (v.text_of e)) (v.clock n) in
    record {
      keeps = Keeps-then h (write_first-Keeps p.payload_id f g.ingress.payloads F);
      here = λ k. write_first_ends p.payload_id f g.ingress.payloads F (h.present p.payload_id ∙ k);
    }

process_payloads-Keeps :
    (v : IngestionWorker) (n : ℕ) (ps : Payloads) (g : Store)
    → Keeps g.ingress.payloads (process_payloads v n ps g).1.ingress.payloads
unfolding process_payloads
process_payloads-Keeps v n [] g = Keeps-itself g.ingress.payloads
process_payloads-Keeps v n (p ∷ ps) g =
    let x = ingest_payload v n p g in
    let round = concluded-Rounded v n p g.ingress.payloads x (ingest_payload-Attempted v n p g) in
    Keeps-then round.keeps (process_payloads-Keeps v (n + 1) ps (concluded v n p x).1)

process_payloads-finished :
    (v : IngestionWorker) (n : ℕ) (ps : Payloads) (g : Store) (id : String)
    → any (has_payload_id id) ps ≡ true
    → any (has_payload_id id) g.ingress.payloads ≡ true
    → is_finished id (process_payloads v n ps g).1.ingress.payloads ≡ true
unfolding process_payloads
process_payloads-finished v n [] g id h k = cc
process_payloads-finished v n (p ∷ ps) g id h k =
    let x = ingest_payload v n p g in
    let round = concluded-Rounded v n p g.ingress.payloads x (ingest_payload-Attempted v n p g) in
    let later = (concluded v n p x).1 in
    elim (Bool-cases (has_payload_id id p)) [
      | inl e ↦
          let same : p.payload_id ≡ id = equal_ids p.payload_id id e in
          (process_payloads-Keeps v (n + 1) ps later).finished_too id (
            subst (λ i. is_finished i later.ingress.payloads ≡ true) same
              (round.here (ap (λ i. any (has_payload_id i) g.ingress.payloads) same ∙ k)))
      | inr e ↦
          process_payloads-finished v (n + 1) ps later id (rw e at h) (round.keeps.present id ∙ k)
    ]

-- Every payload that `process_batch` claims is PROCESSED or FAILED when it returns, whatever is raised
-- for it or for the others; the database is up.
pub batch_finishes :
    (v : IngestionWorker) (limit lease now : ℕ) (g : Store) (id : String)
    → any
        (has_payload_id id)
        (claim_pending_payloads v.worker_id v.picks limit lease now g.ingress.payloads).0
      ≡ true
    → is_finished id (process_batch v limit lease now g).1.ingress.payloads ≡ true
unfolding process_batch claim_pending_payloads
batch_finishes v limit lease now g id h =
    let expires = now + seconds lease in
    let (taken, rows) =
      claim_first (selected v.picks now) (held v.worker_id expires) limit g.ingress.payloads in
    process_payloads-finished v 0 taken (with_payloads rows g) id h
      (taken-present id v.worker_id (selected v.picks now) expires limit g.ingress.payloads h)
