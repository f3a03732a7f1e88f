-- ===== src/Worker/Runs.antt =====
-- The world that the worker of src/engine/worker.py changes, and runs over it: state and exceptions.
-- What was committed before an exception stays committed.
use financial_control_engine.Base.{ℕ, ◌+◌, String, Bool, List, Result, ok, err, if◌then◌else◌}
use financial_control_engine.Core.Models.{RecoveryAction}
use financial_control_engine.Core.Actuation.{MutationPayload}
use financial_control_engine.Governance.Gate.{Database}
use financial_control_engine.Substrate.Rows.{ExpectationRow, EvidenceRow, ObservationRow}
use financial_control_engine.Substrate.Results.{StoredResult}
use financial_control_engine.Substrate.Events.{EventRow}

-- A mutation that was sent to an external system.
pub record Mutation : Type 0 where
  pub action : RecoveryAction
  pub target_id : String
  pub idempotency_key : String
  pub payload : MutationPayload

-- The tables, the mutations that were sent, and the number of the next outside call or transaction.
pub record World : Type 0 where
  pub database : Database
  pub expectations : List ExpectationRow
  pub observations : List ObservationRow
  pub evidence : List EvidenceRow
  pub results : List StoredResult
  pub events : List EventRow
  pub mutations : List Mutation
  pub tick : ℕ

-- `InvestigatorError` and `OperationalError` are transient, any other exception is not.
pub data Raised : Type 0 where
  transient unexpected : Raised

abbrev pub Run : Type 0 → Type 0
Run A = World → Result Raised A × World

abbrev pub next : World → World
next w = record w { tick = w.tick + 1 }

abbrev pub bind_result :
    {A B : Type 0} → Result Raised A × World → (A → Run B) → Result Raised B × World
bind_result (ok a, w) f = f a w
bind_result (err e, w) f = (err e, w)

unfoldable pub pure : {A : Type 0} → A → Run A
pure a w = (ok a, w)

unfoldable pub raise : {A : Type 0} → Raised → Run A
raise e w = (err e, w)

infixl 5 ◌>>=◌ ◌>>◌
unfoldable pub ◌>>=◌ : {A B : Type 0} → Run A → (A → Run B) → Run B
◌>>=◌ m f w = bind_result (m w) f

abbrev pub ◌>>◌ : {A B : Type 0} → Run A → Run B → Run B
m >> k = m >>= λ _. k

abbrev pub handled :
    {A : Type 0} → Result Raised A × World → (Raised → Run A) → Result Raised A × World
handled (ok a, w) handler = (ok a, w)
handled (err e, w) handler = handler e w

-- `try: … except …`
unfoldable pub attempt : {A : Type 0} → Run A → (Raised → Run A) → Run A
attempt m handler w = handled (m w) handler

-- A call of code outside, whose answer may differ each time, or a reading of the clock.
unfoldable pub ask : {A : Type 0} → (ℕ → Result Raised A) → Run A
ask f w = (f w.tick, next w)

abbrev pub settle : {A : Type 0} → Result Raised (A × World) → World → Result Raised A × World
settle (ok (a, after)) w = (ok a, next after)
settle (err e) w = (err e, next w)

-- A transaction, which raises `OperationalError` where the database is out.
unfoldable pub transact : {A : Type 0} → (ℕ → Bool) → (World → Result Raised (A × World)) → Run A
transact outage step w = if outage w.tick then (err transient, next w) else settle (step w) w
