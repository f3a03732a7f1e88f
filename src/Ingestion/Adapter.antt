-- ===== src/Ingestion/Adapter.antt =====
-- `RazorpayPaymentAdapter` of src/engine/adapters/razorpay_payment_adapter.py. The digest of a payload,
-- the fresh ids and the time are arguments; times are in microseconds.
use Prim.Native.String.{◌++◌ as join}
use financial_control_engine.Base.{
  ◌*◌, String, ◌==◌, is_empty, lower, strip, contains, ◌||◌, [], ◌∷◌, Option, none, some, Result,
  ok, err, if◌then◌else◌, is_some,
}
use financial_control_engine.Base.Int.{ℤ, pos, negsuc, eq_ℤ, ltb_ℤ, sub_ℕ, pos_part, neg_part}
use financial_control_engine.Core.Models.{
  CanonicalStatus, pending, settled, failed, unknown, refunded, aware, Evidence, Observation,
}
use financial_control_engine.Ingestion.Payloads.{
  Amount, missing, malformed, whole, Entity, RawPayload,
}

-- `int(…)` and `datetime.fromtimestamp(…)` raise.
pub data ValueError : Type 0 where
  malformed_amount bad_timestamp : ValueError

-- `entity.get(key, default)`
abbrev pub get_or_default : Option String → String → String
get_or_default none default = default
get_or_default (some x) default = x

-- `x or y`, where a missing value and the empty text are false.
abbrev pub or_else : Option String → Option String → Option String
or_else none y = y
or_else (some x) y = if is_empty x then y else some x

abbrev status_of : String → CanonicalStatus
status_of s =
    if s == "refunded"
    then refunded
    else if s == "captured" || s == "settled" || s == "processed"
    then settled
    else if s == "authorized" || s == "created" || s == "pending"
    then pending
    else if s == "failed" || s == "cancelled"
    then failed
    else unknown

-- `map_razorpay_payment_status`
unfoldable pub map_razorpay_payment_status : String → CanonicalStatus
unfolding lower strip
map_razorpay_payment_status status = status_of (strip (lower status))

abbrev entity_in : Option Entity → Option Entity → Entity → Entity
entity_in (some payment) refund root = payment
entity_in none (some refund) root = refund
entity_in none none root = root

-- The entity of the payload: that of a payment, else of a refund, else the payload itself.
abbrev pub entity_of : RawPayload → Entity
entity_of raw = entity_in raw.payment raw.refund raw.root

-- Seconds as microseconds.
abbrev pub microseconds : ℤ → ℤ
microseconds t = sub_ℕ (pos_part t * 1000000) (neg_part t * 1000000)

-- `datetime.fromtimestamp(…, tz=timezone.utc)`, which is given a number of seconds, within the years 1 to
-- 9999.
unfoldable pub from_timestamp : ℤ → Result ValueError ℤ
from_timestamp t =
    if ltb_ℤ t (negsuc 62135596799) || ltb_ℤ (pos 253402300799) t
    then err bad_timestamp
    else ok (microseconds t)

-- The time of the payload, or that of the call where it is missing or zero.
abbrev pub observed_or_now : Option ℤ → ℤ → Result ValueError ℤ
observed_or_now none now = ok now
observed_or_now (some t) now = if eq_ℤ t (pos 0) then ok now else from_timestamp t

abbrev pub reference_of : Entity → String
reference_of e = get_or_default e.id "UNKNOWN"

abbrev if_payment : String → Option String
if_payment reference = if contains "pay_" reference then some reference else none

abbrev pub type_of : String → String
type_of reference = if contains "rfnd_" reference then "REFUND" else "PAYMENT"

-- What is drawn for a call: the ids and the time.
pub record Drawn : Type 0 where
  pub evidence_id : String
  pub observation_id : String
  pub ingestion_event_id : String
  pub now : ℤ

abbrev pub evidence_from : (RawPayload → String) → Drawn → RawPayload → ℤ → Evidence
evidence_from digest drawn raw observed_at =
    let e = entity_of raw in
    record {
      source = "razorpay";
      source_reference = reference_of e;
      payload_hash = digest raw;
      raw_payload_ref = join "inline:" (digest raw);
      observed_at = aware observed_at;
      source_type = if is_some raw.event then "WEBHOOK" else "API_POLL";
      ingested_at = aware drawn.now;
      evidence_id = drawn.evidence_id;
    }

abbrev pub observation_from : Drawn → RawPayload → ℤ → ℤ → Observation
observation_from drawn raw observed_at amount =
    let e = entity_of raw in
    let reference = reference_of e in
    let payment = or_else e.payment_id (if_payment reference) in
    record {
      provider = "razorpay";
      provider_reference = reference;
      observation_type = type_of reference;
      canonical_status = map_razorpay_payment_status (get_or_default e.status "UNKNOWN");
      observed_amount = amount;
      currency = get_or_default e.currency "INR";
      events = [];
      evidence_ids = drawn.evidence_id ∷ [];
      correlation_keys = record {
        internal_ref = or_else e.order_id e.receipt;
        provider_ref = or_else payment (some reference);
        provider = some "razorpay";
        domain = some (type_of reference);
        observation_type = some (type_of reference);
      };
      provider_event_id = none;
      provider_version = some "";
      observed_at = aware observed_at;
      ingestion_event_id = drawn.ingestion_event_id;
      observation_id = drawn.observation_id;
    }

abbrev pub with_time :
    (RawPayload → String)
    → Drawn
    → RawPayload
    → ℤ
    → Result ValueError ℤ
    → Result ValueError (Observation × Evidence)
with_time digest drawn raw amount (err e) = err e
with_time digest drawn raw amount (ok t) =
    ok (observation_from drawn raw t amount, evidence_from digest drawn raw t)

abbrev pub with_amount :
    (RawPayload → String)
    → Drawn
    → RawPayload
    → Amount
    → Result ValueError ℤ
    → Result ValueError (Observation × Evidence)
with_amount digest drawn raw malformed time = err malformed_amount
with_amount digest drawn raw missing time = with_time digest drawn raw (pos 0) time
with_amount digest drawn raw (whole z) time = with_time digest drawn raw z time

-- `normalize_payload`
unfoldable pub normalize_payload :
    (RawPayload → String) → Drawn → RawPayload → Result ValueError (Observation × Evidence)
unfolding map_razorpay_payment_status contains from_timestamp
normalize_payload digest drawn raw =
    let e = entity_of raw in
    with_amount digest drawn raw e.amount (observed_or_now e.created_at drawn.now)
