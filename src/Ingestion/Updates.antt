-- ===== src/Ingestion/Updates.antt =====
-- What the ingestion stores of a later payload of the same entity: src/engine/adapters/
-- razorpay_payment_adapter.py, with `save_normalized_payload` of src/storage/postgres_ingestion.py, and
-- the handler of its event in src/engine/worker.py.
use financial_control_engine.Base.{
  ℕ, String, ◌≡◌, refl, sym, ◌∙◌, subst, true, false, List, some, Result, ok, err, ok_injective,
  write_first, eq_refl,
}
use financial_control_engine.Base.Int.{ℤ, pos, eq_ℤ}
use financial_control_engine.Core.Models.{Observation, Evidence}
use financial_control_engine.Substrate.Rows.{ObservationRow, from_observation}
use financial_control_engine.Substrate.Observations.{
  IntegrityError, same_version, save_observation, save_evidence,
}
use financial_control_engine.Substrate.Versions.{
  upsert-Holds, Alike, Alike-trans, Alike-sym, Holds-unchanged,
}
use financial_control_engine.Ingestion.Payloads.{Amount, missing, malformed, whole, RawPayload}
use financial_control_engine.Ingestion.Adapter.{
  ValueError, Drawn, entity_of, reference_of, with_amount, with_time, from_timestamp,
  observed_or_now, observation_from, normalize_payload,
}
use financial_control_engine.Ingestion.Repository.{
  Ingress, save_normalized_payload, with_observations, has_payload_id, normalized_row,
}

-- The time of the observation of a payload.
abbrev time_of : Drawn → RawPayload → Result ValueError ℤ
time_of drawn raw = observed_or_now (entity_of raw).created_at drawn.now

-- What an observation has of the payload.
abbrev Draws : Drawn → RawPayload → Result ValueError (Observation × Evidence) → Type 0
Draws drawn raw (err z) = Unit
Draws drawn raw (ok (o, e)) =
    (t : ℤ) × (time_of drawn raw ≡ ok t)
    × Alike (from_observation (observation_from drawn raw t (pos 0))) (from_observation o)

with_time-Draws :
    (digest : RawPayload → String) (drawn : Drawn) (raw : RawPayload) (z : ℤ)
    (x : Result ValueError ℤ)
    → time_of drawn raw ≡ x
    → Draws drawn raw (with_time digest drawn raw z x)
unfolding from_observation
with_time-Draws digest drawn raw z (err e) h = tt
with_time-Draws digest drawn raw z (ok t) h =
    (t, h, record { provider = refl; reference = refl; kind = refl; version = refl; time = refl })

with_amount-Draws :
    (digest : RawPayload → String) (drawn : Drawn) (raw : RawPayload) (a : Amount)
    → Draws drawn raw (with_amount digest drawn raw a (time_of drawn raw))
with_amount-Draws digest drawn raw malformed = tt
with_amount-Draws digest drawn raw missing =
    with_time-Draws digest drawn raw (pos 0) (time_of drawn raw) refl
with_amount-Draws digest drawn raw (whole z) =
    with_time-Draws digest drawn raw z (time_of drawn raw) refl

normalized-Draws :
    (digest : RawPayload → String) (drawn : Drawn) (raw : RawPayload) {o : Observation}
    {e : Evidence}
    → normalize_payload digest drawn raw ≡ ok (o, e)
    → Draws drawn raw (ok (o, e))
unfolding normalize_payload
normalized-Draws digest drawn raw h =
    subst (Draws drawn raw) h (with_amount-Draws digest drawn raw (entity_of raw).amount)

-- Payloads of one entity, with its time of creation.
pub record OneEntity (first later : RawPayload) : Type 0 where
  pub created : ℤ
  pub same_reference : reference_of (entity_of later) ≡ reference_of (entity_of first)
  pub first_created : (entity_of first).created_at ≡ some created
  pub later_created : (entity_of later).created_at ≡ some created
  pub is_set : eq_ℤ created (pos 0) ≡ false

same_time :
    (d1 d2 : Drawn) (first later : RawPayload) {t u : ℤ}
    → OneEntity first later
    → time_of d1 first ≡ ok t
    → time_of d2 later ≡ ok u
    → u ≡ t
same_time d1 d2 first later {t} {u} n h k =
    let a : from_timestamp n.created ≡ ok t = rw (n.first_created, n.is_set) at h in
    let b : from_timestamp n.created ≡ ok u = rw (n.later_created, n.is_set) at k in
    ok_injective (sym a ∙ b)

OneEntity-Alike :
    (d1 d2 : Drawn) (first later : RawPayload) (t : ℤ)
    → OneEntity first later
    → Alike
        (from_observation (observation_from d1 first t (pos 0)))
        (from_observation (observation_from d2 later t (pos 0)))
unfolding from_observation
OneEntity-Alike d1 d2 first later t n = record {
  provider = refl;
  reference = n.same_reference;
  kind = rw n.same_reference refl;
  version = refl;
  time = refl;
}

drawn_itself :
    (drawn : Drawn) (raw : RawPayload) (t : ℤ) (o : Observation)
    → Alike (from_observation (observation_from drawn raw t (pos 0))) (from_observation o)
    → same_version (from_observation o) (from_observation o) ≡ true
unfolding from_observation
drawn_itself drawn raw t o a =
    rw (eq_refl o.provider, eq_refl o.provider_reference, eq_refl o.observation_type, a.version)
      refl

written_observations :
    (id : String) (e : Evidence) (now : ℕ) (g : Ingress)
    (x : Result IntegrityError (List ObservationRow)) {after : Ingress}
    → with_observations id e now g x ≡ ok after
    → x ≡ ok after.observations
written_observations id e now g (err z) h = cc
written_observations id e now g (ok rows) {after} h =
    let same : after ≡ record {
      payloads = write_first (has_payload_id id) (normalized_row now) g.payloads;
      evidence = save_evidence e g.evidence;
      observations = rows;
    } =
      ok_injective h in
    rw same refl

-- A later payload of the same entity, which carries its time of creation again, is marked PROCESSED and its
-- evidence is stored, but its observation is not, whatever status it has.
pub later_status_lost :
    (digest : RawPayload → String) (d1 d2 : Drawn) (first later : RawPayload) (o1 o2 : Observation)
    (e1 e2 : Evidence) (id1 id2 : String) (now1 now2 : ℕ) (g after : Ingress)
    → OneEntity first later
    → normalize_payload digest d1 first ≡ ok (o1, e1)
    → normalize_payload digest d2 later ≡ ok (o2, e2)
    → save_normalized_payload id1 e1 o1 now1 g ≡ ok after
    → save_normalized_payload id2 e2 o2 now2 after
      ≡ ok (record {
        payloads = write_first (has_payload_id id2) (normalized_row now2) after.payloads;
        evidence = save_evidence e2 after.evidence;
        observations = after.observations;
      })
unfolding save_normalized_payload save_observation
later_status_lost digest d1 d2 first later o1 o2 e1 e2 id1 id2 now1 now2 g after n h1 h2 saved =
    let (t, k1, a1) = normalized-Draws digest d1 first h1 in
    let (u, k2, a2) = normalized-Draws digest d2 later h2 in
    let one =
      subst
        (λ v.
          Alike (from_observation (observation_from d1 first t (pos 0)))
            (from_observation (observation_from d2 later v (pos 0))))
        (sym (same_time d1 d2 first later n k1 k2)) (OneEntity-Alike d1 d2 first later t n) in
    let alike = Alike-trans (Alike-sym a1) (Alike-trans one a2) in
    let x = from_observation o1 in
    let held =
      upsert-Holds x g.observations after.observations (drawn_itself d1 first t o1 a1)
        (written_observations id1 e1 now1 g (save_observation o1 g.observations) saved) in
    rw (Holds-unchanged x (from_observation o2) after.observations alike held) refl
