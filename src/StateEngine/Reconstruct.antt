-- ===== src/StateEngine/Reconstruct.antt =====
-- `StateEngine.reconstruct_state` of src/state/engine.py: a fold over the sorted observations.
use financial_control_engine.Base.{
  String, Bool, true, false, ◌&&◌, ◌||◌, List, [], ◌∷◌, map, length, any, Option, none, some,
  Result, ok, err, if◌then◌else◌, ◌==◌, is_empty, ltb, upper,
}
use financial_control_engine.Base.Int.{ℤ}
use financial_control_engine.StateEngine.Models.{
  ObservedFinancialState, KnowledgeState, verified, unknown, contradicted, ExecutionState, executed,
  not_executed, EntityType, entity_value, authoritative_executed, authoritative_not_executed,
  confidence_value, Payload, ProviderObservation, ReconstructedState, parse_financial_state,
}
use financial_control_engine.StateEngine.Ordering.{sort_observations}

-- The `ValueError` for an observation of another entity.
pub data ScopeError : Type 0 where
  mismatched_scope : String → String → ScopeError

-- The variables of the loop.
pub record Scan : Type 0 where
  pub financial_state : Option ObservedFinancialState
  pub knowledge_state : KnowledgeState
  pub execution : Option ExecutionState
  pub seen_concrete : Bool
  pub latest_is_not_executed : Bool
  pub latest_is_executed : Bool

abbrev pub start : Scan
start = record {
  financial_state = none;
  knowledge_state = unknown;
  execution = none;
  seen_concrete = false;
  latest_is_not_executed = false;
  latest_is_executed = false;
}

-- What the loop's body tells apart in a payload.
pub data Claim : Type 0 where
  claims_not_executed claims_executed claims_nothing : Claim
  claims_status : ObservedFinancialState → Claim

abbrev pub confidence_is : Option String → String → Bool
confidence_is none v = false
confidence_is (some c) v = c == v

abbrev pub status_claim : Option ObservedFinancialState → Claim
status_claim none = claims_nothing
status_claim (some s) = claims_status s

-- `elif status:` with the `try` around the enumeration's constructor.
abbrev pub read_status : Option String → Claim
read_status none = claims_nothing
read_status (some s) =
    if is_empty s then claims_nothing else status_claim (parse_financial_state (upper s))

-- The tests of the loop's body, in their order.
unfoldable pub claim_of : Payload → Claim
claim_of p =
    if confidence_is p.query_confidence (confidence_value authoritative_not_executed)
    then claims_not_executed
    else if confidence_is p.query_confidence (confidence_value authoritative_executed)
    then claims_executed
    else read_status p.status

unfoldable pub scan_claim : Claim → Scan → Scan
scan_claim claims_not_executed s =
    let clash = s.seen_concrete || s.latest_is_executed in
    record s {
      latest_is_not_executed = true;
      financial_state = none;
      knowledge_state = if clash then contradicted else verified;
      execution = if clash then none else some not_executed;
    }
scan_claim claims_executed s = record s {
  latest_is_executed = true;
  financial_state = none;
  knowledge_state = if s.latest_is_not_executed then contradicted else verified;
  execution = if s.latest_is_not_executed then none else some executed;
}
scan_claim (claims_status f) s = record {
  financial_state = some f;
  seen_concrete = true;
  latest_is_not_executed = false;
  latest_is_executed = true;
  knowledge_state = verified;
  execution = some executed;
}
scan_claim claims_nothing s = s

-- `for obs in sorted_obs`
unfoldable pub scan_observations : Scan → List ProviderObservation → Scan
unfolding claim_of scan_claim
scan_observations s [] = s
scan_observations s (obs ∷ rest) = scan_observations (scan_claim (claim_of obs.payload) s) rest

abbrev pub is_terminal_text : String → Bool
is_terminal_text s = s == "CAPTURED" || s == "REFUNDED" || s == "FAILED" || s == "VOIDED"

-- `set.add`
abbrev pub add_text : String → List String → List String
add_text s seen = if any (λ t. t == s) seen then seen else s ∷ seen

abbrev pub add_terminal : Option String → List String → List String
add_terminal none seen = seen
add_terminal (some s) seen = if is_terminal_text (upper s) then add_text (upper s) seen else seen

-- `seen_terminals`
unfoldable pub terminals_of : List String → List ProviderObservation → List String
terminals_of seen [] = seen
terminals_of seen (obs ∷ rest) = terminals_of (add_terminal obs.payload.status seen) rest

abbrev pub in_scope : EntityType → String → ProviderObservation → Bool
in_scope entity_type entity_id obs =
    obs.entity_type == entity_value entity_type && obs.entity_id == entity_id

-- The first observation outside the scope, which the first loop raises for.
unfoldable pub scope_error : EntityType → String → List ProviderObservation → Option ScopeError
scope_error entity_type entity_id [] = none
scope_error entity_type entity_id (obs ∷ rest) =
    if in_scope entity_type entity_id obs
    then scope_error entity_type entity_id rest
    else some (mismatched_scope obs.entity_type obs.entity_id)

-- The result for sorted observations.
unfoldable pub conclude : EntityType → String → ℤ → List ProviderObservation → ReconstructedState
unfolding scan_observations terminals_of
conclude entity_type entity_id at sorted =
    let s = scan_observations start sorted in
    let clash = ltb 1 (length (terminals_of [] sorted)) in
    record {
      entity_type = entity_type;
      entity_id = entity_id;
      observed_financial_state = s.financial_state;
      knowledge_state = if clash then contradicted else s.knowledge_state;
      execution = if clash then none else s.execution;
      observation_ids = map (λ (o : ProviderObservation). o.id) sorted;
      reconstructed_at = at;
    }

abbrev pub no_observations : EntityType → String → ℤ → ReconstructedState
no_observations entity_type entity_id at = record {
  entity_type = entity_type;
  entity_id = entity_id;
  observed_financial_state = none;
  knowledge_state = unknown;
  execution = none;
  observation_ids = [];
  reconstructed_at = at;
}

abbrev pub after_scope :
    Option ScopeError
    → EntityType
    → String
    → List ProviderObservation
    → ℤ
    → Result ScopeError ReconstructedState
after_scope (some e) entity_type entity_id observations at = err e
after_scope none entity_type entity_id [] at = ok (no_observations entity_type entity_id at)
after_scope none entity_type entity_id (o ∷ os) at =
    ok (conclude entity_type entity_id at (sort_observations (o ∷ os)))

-- `reconstruct_state`
unfoldable pub reconstruct_state :
    EntityType → String → List ProviderObservation → ℤ → Result ScopeError ReconstructedState
unfolding scope_error conclude sort_observations
reconstruct_state entity_type entity_id observations at =
    after_scope (scope_error entity_type entity_id observations) entity_type entity_id observations
      at
