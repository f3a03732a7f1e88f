-- ===== src/Worker/Approved.antt =====
-- The mutation that a run of `_process_investigation` (src/engine/worker.py) may send.
use financial_control_engine.Base.{
  ℕ, ◌≡◌, refl, sym, ap, ◌∙◌, true, false, List, [], ◌∷◌, ◌++◌, inl, inr, ◌⊎◌, any, eq_refl,
}
use financial_control_engine.Core.Models.{refund_payment, failed, settled, RecoveryIntent}
use financial_control_engine.Governance.Models.{allowed, ActionBudget}
use financial_control_engine.Governance.Gate.{
  Database, find_plane, plane_blocks, pending_record, evaluate_and_claim,
}
use financial_control_engine.Governance.Claims.{paused_blocks}
use financial_control_engine.Policy.Intents.{Decided, refund-Decided}
use financial_control_engine.Investigation.Context.{
  InvestigationContext, expectation_of, observations_of,
}
use financial_control_engine.Worker.Runs.{World, Mutation}
use financial_control_engine.Worker.Services.{Services}
use financial_control_engine.Worker.Actuator.{mutation_of}
use financial_control_engine.Worker.Process.{
  Task, Learned, known, policy_context, decide, is_escalation, request, process_investigation,
}
use financial_control_engine.Worker.Sources.{Sourced}
use financial_control_engine.Core.Actuation.{ActuationRecord}
use financial_control_engine.Substrate.Actuations.{has_key_of}
use financial_control_engine.Worker.Sent.{saved_key, any_last}
use financial_control_engine.Worker.Steady.{Governed}
use financial_control_engine.Worker.Stages.{process_lem}
use financial_control_engine.Worker.Sending.{Property, Sends, Sends-Steps}

-- What a mutation that was sent rests on: the context is that of the discrepancy in the tables at the start,
-- what was learned since is of them or of external systems, the policy decided on both, and the gate, which
-- found the planes, budgets and actuation records of the start, allowed the policy's intent, whose mutation
-- it is.
pub record Approved (s : Services) (t : Task) (start : World) (m : Mutation) : Type 0 where
  pub context : InvestigationContext
  pub learned : Learned
  pub expected :
      context.expectation ≡ expectation_of t.discrepancy.result.expectation_id start.expectations
  pub seen :
      context.observations ≡ observations_of t.discrepancy.result.observation_ids start.observations
  pub sourced : Sourced s start.observations (known context learned)
  pub acted : is_escalation (decide s t context learned).action ≡ false
  pub number : ℕ
  pub database : Database
  pub planes : database.control_planes ≡ start.database.control_planes
  pub budgets : database.budgets ≡ start.database.budgets
  pub actuations : database.actuations ≡ start.database.actuations
  pub granted :
      (evaluate_and_claim s.encoders
        (request s t (decide s t context learned) number)
        database).0.status
      ≡ allowed
  pub sent :
      m
      ≡ mutation_of
          (decide s t context learned)
          (pending_record s.encoders (request s t (decide s t context learned) number))

-- The mutation has an actuation record, and the budgets are those that the gate left.
abbrev pub Recorded :
    (s : Services) (t : Task) (start : World) (m : Mutation)
    → Approved s t start m
    → List ActuationRecord
    → List ActionBudget
    → Type 0
Recorded s t start m x actuations budgets =
    (any (has_key_of m.idempotency_key) actuations ≡ true)
    × (budgets
        ≡ (evaluate_and_claim s.encoders (request s t (decide s t x.context x.learned) x.number)
            x.database).1.budgets)

module _ (s : Services) (t : Task) (start : World) where
  untouched : Property
  untouched m a p =
      (m ≡ start.mutations)
      × (a ≡ start.database.actuations)
      × (p ≡ (start.database.control_planes, start.database.budgets))

  record Grant (i : RecoveryIntent) (n : ℕ) (a : List ActuationRecord) (p : Governed) : Type 0 where
    db : Database
    planes : db.control_planes ≡ start.database.control_planes
    budgets : db.budgets ≡ start.database.budgets
    actuations : db.actuations ≡ start.database.actuations
    allows : (evaluate_and_claim s.encoders (request s t i n) db).0.status ≡ allowed
    left : p.1 ≡ (evaluate_and_claim s.encoders (request s t i n) db).1.budgets
    recorded :
        any
          (has_key_of (mutation_of i (pending_record s.encoders (request s t i n))).idempotency_key)
          a
        ≡ true

  granted_by : RecoveryIntent → ℕ → Property
  granted_by i n m a p = (m ≡ start.mutations) × Grant i n a p

  abbrev pub AtMostOne : List Mutation → List ActuationRecord → List ActionBudget → Type 0
  AtMostOne m a b =
      (m ≡ start.mutations)
      ⊎ ((x : Mutation) × (m ≡ start.mutations ++ x ∷ [])
          × ((y : Approved s t start x) × Recorded s t start x y a b))

  at_most_one : Property
  at_most_one m a p = AtMostOne m a p.1

  approved-Sends :
      (c : InvestigationContext) (l : Learned)
      → c.expectation ≡ expectation_of t.discrepancy.result.expectation_id start.expectations
      → c.observations ≡ observations_of t.discrepancy.result.observation_ids start.observations
      → Sourced s start.observations (known c l)
      → is_escalation (decide s t c l).action ≡ false
      → Sends s t (decide s t c l) untouched (granted_by (decide s t c l)) at_most_one
  unfolding untouched granted_by at_most_one
  approved-Sends c l e o k n =
      let i = decide s t c l in
      let record_of = λ (number : ℕ). pending_record s.encoders (request s t i number) in
      record {
        unsent = λ m a p h. inl h.0;
        claims = λ number m db h g. (
          h.0,
          record {
            db = db;
            planes = ap (λ (p : Governed). p.0) h.2;
            budgets = ap (λ (p : Governed). p.1) h.2;
            actuations = h.1;
            allows = g;
            left = refl;
            recorded =
                any_last (has_key_of (record_of number).idempotency_key) db.actuations
                  (record_of number) (eq_refl (record_of number).idempotency_key);
          },
        );
        claimed = λ number m a p h. inl h.0;
        sends = λ number m a p h.
            let g = h.1 in
            let x = mutation_of i (pending_record s.encoders (request s t i number)) in
            inr (
              x,
              rw (h.0) refl,
              (
                record {
                  context = c;
                  learned = l;
                  expected = e;
                  seen = o;
                  sourced = k;
                  acted = n;
                  number = number;
                  database = g.db;
                  planes = g.planes;
                  budgets = g.budgets;
                  actuations = g.actuations;
                  granted = g.allows;
                  sent = refl;
                },
                (g.recorded, g.left),
              ),
            );
        records = λ x m a b p h save. elim h [
          | inl same ↦ inl same
          | inr (y, added, (w, (found, left))) ↦
              inr (y, added, (w, (saved_key y.idempotency_key x a b save found, left)))
        ];
      }

  -- Whatever is answered or raised, a run sends no mutation, or exactly one. The policy then decided on the
  -- observations of the discrepancy that were stored, and on what was learned of them or of external
  -- systems; and the gate allowed it with the control planes, the budgets and the actuation records as at
  -- the start: at the end the budgets are those that it left, and a record has the key of the mutation.
  pub process-Approved :
      let after = (process_investigation s t start).1 in
      AtMostOne after.mutations after.database.actuations after.database.budgets
  unfolding untouched at_most_one
  process-Approved =
      process_lem
        (Sends-Steps {T = untouched} {V = at_most_one} (λ m a p h. inl h.0)
          (λ c l e o k n. (granted_by (decide s t c l), approved-Sends c l e o k n)))
        (refl, refl, refl)

  -- While the control plane is paused at the start of a run, the run sends no mutation.
  pub paused_sends_nothing :
      plane_blocks (find_plane "GLOBAL" start.database.control_planes) ≡ true
      → (process_investigation s t start).1.mutations ≡ start.mutations
  paused_sends_nothing h = elim process-Approved [
    | inl same ↦ same
    | inr (m, _, (a, _)) ↦
        let (blocked, _) =
          paused_blocks s.encoders (request s t (decide s t a.context a.learned) a.number)
            a.database (rw (a.planes) h) in
        absurd (cc (blocked, a.granted))
  ]

  -- What a refund that was sent rests on: what an approved mutation does, and what the policy found among
  -- the observations that were known.
  pub record Refunded (m : Mutation) : Type 0 where
    pub approved : Approved s t start m
    pub decided :
        Decided
          (known approved.context approved.learned)
          t.incident.active_subject
          (policy_context approved.context)
          (decide s t approved.context approved.learned)
    pub merchant_failed : decided.merchant.canonical_status ≡ failed
    pub provider_settled : decided.provider.canonical_status ≡ settled
    pub target : m.target_id ≡ decided.provider.provider_reference

  Approved-Refunded : (m : Mutation) → Approved s t start m → m.action ≡ refund_payment → Refunded m
  unfolding decide pending_record request
  Approved-Refunded m a h =
      let intent = decide s t a.context a.learned in
      let act : intent.action ≡ refund_payment = sym (ap (λ (x : Mutation). x.action) a.sent) ∙ h in
      let (d, failed_merchant, settled_provider, target, _, _) =
        refund-Decided s.iso t.incident.active_subject (known a.context a.learned)
          (policy_context a.context) act in
      record {
        approved = a;
        decided = d;
        merchant_failed = failed_merchant;
        provider_settled = settled_provider;
        target = ap (λ (x : Mutation). x.target_id) a.sent ∙ target;
      }

  -- If the mutation that a run sends is a refund, then of the stored observations of the discrepancy and
  -- those that were learned the merchant's newest says FAILED and the provider's SETTLED, both of the
  -- subject of the stored expectation, and the refund is of that payment.
  pub refund_sent-Refunded :
      let after = (process_investigation s t start).1 in
      (after.mutations ≡ start.mutations)
      ⊎ ((m : Mutation) × (after.mutations ≡ start.mutations ++ m ∷ [])
          × (m.action ≡ refund_payment → Refunded m))
  refund_sent-Refunded = elim process-Approved [
    | inl same ↦ inl same
    | inr (m, e, (a, _)) ↦ inr (m, e, Approved-Refunded m a)
  ]
