-- ===== src/Incidents/Records.antt =====
-- `ActiveIncidentIdempotencyRecord` of src/storage/postgres_substrate.py: the table of incidents, one
-- row for each subject and reason. Times are microseconds.
use financial_control_engine.Base.{
  ℕ, String, ◌==◌, ◌≡◌, Bool, true, false, ◌&&◌, List, [], ◌∷◌, Option, All, arith, eq_iff,
}
use financial_control_engine.Lifecycle.{IncidentState}

pub record IncidentRecord : Type 0 where
  pub active_subject : String
  pub discrepancy_reason : String
  pub incident_id : String
  pub state : IncidentState
  pub lease_owner : Option String
  pub lease_expires_at : Option ℕ
  pub hypothesis_payload : Option String
  pub retry_count : ℕ
  pub next_retry_at : Option ℕ
  pub version : ℕ
  pub created_at : ℕ

-- The primary key.
pub record Key : Type 0 where
  pub subject : String
  pub reason : String

abbrev pub has_key : Key → IncidentRecord → Bool
has_key k r = r.active_subject == k.subject && r.discrepancy_reason == k.reason

abbrev pub key_of : IncidentRecord → Key
key_of r = record { subject = r.active_subject; reason = r.discrepancy_reason }

-- The primary key is unique.
abbrev pub DistinctKeys : List IncidentRecord → Type 0
DistinctKeys [] = Unit
DistinctKeys (r ∷ rs) =
    All (λ (x : IncidentRecord). has_key (key_of r) x ≡ false) rs × DistinctKeys rs

pub has_key-eq :
    (k : Key) (r x : IncidentRecord) → has_key k r ≡ true → has_key k x ≡ has_key (key_of r) x
has_key-eq k r x h =
    ground (arith, eq_iff r.active_subject k.subject, eq_iff r.discrepancy_reason k.reason)
