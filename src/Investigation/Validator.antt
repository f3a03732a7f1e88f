-- ===== src/Investigation/Validator.antt =====
-- `OutputValidator` of src/investigation/validator.py. A rejection keeps its reason; the text of its
-- detail is not kept.
use financial_control_engine.Base.{
  String, ◌==◌, ◌≡◌, refl, is_empty, Bool, true, false, not, ◌&&◌, List, [], ◌∷◌, ◌++◌, any, map,
  Option, none, some, Result, ok, err, if◌then◌else◌, All, inl, inr, Bool-cases, Option-cases,
  ok_injective, some_injective, arith, keep, ◌⊎◌,
}
use financial_control_engine.Investigation.Context.{AgentInput, AgentEvidence}
use financial_control_engine.Investigation.Hypotheses.{
  VerificationIntent, intent_value, verification_proposed, investigation_exhausted, RawOutput,
  CausalHypothesis, InvestigationDisposition, model_validate, ValidationRejectionReason,
  schema_invalid, invalid_reference, invalid_intent, intent_disposition_mismatch, checked,
  are_texts, is_consistent, disposition_named, intents_named,
}

-- `_collect_known_evidence_ids`, which skips empty ids
unfoldable pub collect_known_evidence_ids : AgentInput → List String
collect_known_evidence_ids input =
    keep (λ (id : String). not (is_empty id))
      (map (λ (e : AgentEvidence). e.evidence_id) input.evidence_records)

-- `x in xs` on text
abbrev pub is_among : List String → String → Bool
is_among xs x = any (λ y. y == x) xs

abbrev all_among : List String → List String → Bool
all_among known [] = true
all_among known (x ∷ xs) = is_among known x && all_among known xs

-- `_check_evidence_references`
unfoldable pub check_evidence_references :
    CausalHypothesis → AgentInput → Option ValidationRejectionReason
unfolding collect_known_evidence_ids
check_evidence_references h input =
    if all_among (collect_known_evidence_ids input)
      (h.supporting_evidence_ids ++ h.contradicting_evidence_ids)
    then none
    else some invalid_reference

abbrev all_permitted : List String → List VerificationIntent → Bool
all_permitted permitted [] = true
all_permitted permitted (i ∷ is) = is_among permitted (intent_value i) && all_permitted permitted is

abbrev check_proposed :
    InvestigationDisposition
    → List VerificationIntent
    → List String
    → Option ValidationRejectionReason
check_proposed investigation_exhausted is permitted = none
check_proposed verification_proposed [] permitted = some intent_disposition_mismatch
check_proposed verification_proposed (i ∷ is) permitted =
    if all_permitted permitted (i ∷ is) then none else some invalid_intent

-- `_check_intent_allowlist`
unfoldable pub check_intent_allowlist :
    CausalHypothesis → AgentInput → Option ValidationRejectionReason
check_intent_allowlist h input =
    check_proposed h.disposition h.verification_intents input.permitted_verification_intents

abbrev pub after_checks :
    CausalHypothesis
    → Option ValidationRejectionReason
    → Option ValidationRejectionReason
    → Result ValidationRejectionReason CausalHypothesis
after_checks h (some r) _ = err r
after_checks h none (some r) = err r
after_checks h none none = ok h

abbrev pub after_schema :
    Option CausalHypothesis → AgentInput → Result ValidationRejectionReason CausalHypothesis
after_schema none input = err schema_invalid
after_schema (some h) input =
    after_checks h (check_evidence_references h input) (check_intent_allowlist h input)

-- `validate`
unfoldable pub validate : RawOutput → AgentInput → Result ValidationRejectionReason CausalHypothesis
unfolding check_evidence_references check_intent_allowlist model_validate
validate raw input = after_schema (model_validate raw) input

-- The reference view of what the gate accepts.
pub record Grounded (input : AgentInput) (h : CausalHypothesis) : Type 0 where
  pub claim_named : is_empty h.claim ≡ false
  pub cited :
      All
        (λ id. is_among (collect_known_evidence_ids input) id ≡ true)
        (h.supporting_evidence_ids ++ h.contradicting_evidence_ids)
  pub permitted :
      All
        (λ i. is_among input.permitted_verification_intents (intent_value i) ≡ true)
        h.verification_intents
  pub proposes :
      ((h.disposition ≡ investigation_exhausted) × (h.verification_intents ≡ []))
      ⊎ (h.disposition ≡ verification_proposed)

all_among-All :
    (known xs : List String) → all_among known xs ≡ true → All (λ id. is_among known id ≡ true) xs
all_among-All known [] h = tt
all_among-All known (x ∷ xs) h = elim (Bool-cases (is_among known x)) [
  | inl e ↦ (e, all_among-All known xs (rw e at h))
  | inr e ↦ absurd (cc (rw e at h))
]

all_permitted-All :
    (permitted : List String) (is : List VerificationIntent)
    → all_permitted permitted is ≡ true
    → All (λ i. is_among permitted (intent_value i) ≡ true) is
all_permitted-All permitted [] h = tt
all_permitted-All permitted (i ∷ is) h = elim (Bool-cases (is_among permitted (intent_value i))) [
  | inl e ↦ (e, all_permitted-All permitted is (rw e at h))
  | inr e ↦ absurd (cc (rw e at h))
]

proposed_permitted :
    (d : InvestigationDisposition) (is : List VerificationIntent) (permitted : List String)
    → is_consistent d is ≡ true
    → check_proposed d is permitted ≡ none
    → All (λ i. is_among permitted (intent_value i) ≡ true) is
      × (((d ≡ investigation_exhausted) × (is ≡ [])) ⊎ (d ≡ verification_proposed))
proposed_permitted investigation_exhausted [] permitted c h = (tt, inl (refl, refl))
proposed_permitted investigation_exhausted (i ∷ is) permitted c h = cc
proposed_permitted verification_proposed [] permitted c h = cc
proposed_permitted verification_proposed (i ∷ is) permitted c h =
    elim (Bool-cases (all_permitted permitted (i ∷ is))) [
      | inl e ↦ (all_permitted-All permitted (i ∷ is) e, inr refl)
      | inr e ↦ absurd (cc (rw e at h))
    ]

record Schema (h : CausalHypothesis) : Type 0 where
  named : is_empty h.claim ≡ false
  consistent : is_consistent h.disposition h.verification_intents ≡ true

checked-Schema :
    (raw : RawOutput) (d : Option InvestigationDisposition) (is : Option (List VerificationIntent))
    {h : CausalHypothesis}
    → checked raw d is ≡ some h
    → Schema h
checked-Schema raw none is h = cc
checked-Schema raw (some d) none h = cc
checked-Schema raw (some d) (some is) {h} e =
    elim (Bool-cases (are_texts raw && is_consistent d is)) [
      | inr n ↦ absurd (cc (rw n at e))
      | inl y ↦
          rw (some_injective (rw y at e))
            (record { named = ground (arith, y); consistent = ground (arith, y) })
    ]

accepted-Grounded :
    (h : CausalHypothesis) (input : AgentInput)
    → Schema h
    → check_evidence_references h input ≡ none
    → check_intent_allowlist h input ≡ none
    → Grounded input h
unfolding check_evidence_references check_intent_allowlist
accepted-Grounded h input s a b =
    let ids = h.supporting_evidence_ids ++ h.contradicting_evidence_ids in
    let (p, q) =
      proposed_permitted h.disposition h.verification_intents input.permitted_verification_intents
        s.consistent b in
    elim (Bool-cases (all_among (collect_known_evidence_ids input) ids)) [
      | inr n ↦ absurd (cc (rw n at a))
      | inl y ↦ record {
        claim_named = s.named;
        cited = all_among-All (collect_known_evidence_ids input) ids y;
        permitted = p;
        proposes = q;
      }
    ]

-- A hypothesis is accepted only if its claim is not empty, every evidence id that it cites is one of
-- the input's, every verification that it proposes is permitted, and it proposes none if it says that
-- the investigation is exhausted.
pub validate-Grounded :
    (raw : RawOutput) (input : AgentInput) {h : CausalHypothesis}
    → validate raw input ≡ ok h
    → Grounded input h
unfolding validate model_validate
validate-Grounded raw input {h} e = elim (Option-cases (model_validate raw)) [
  | inl n ↦ absurd (cc (rw n at e))
  | inr (x, m) ↦ elim (Option-cases (check_evidence_references x input)) [
    | inr (r, c) ↦ absurd (cc (rw (m, c) at e))
    | inl c ↦ elim (Option-cases (check_intent_allowlist x input)) [
      | inr (r, d) ↦ absurd (cc (rw (m, c, d) at e))
      | inl d ↦ rw (ok_injective (rw (m, c, d) at e)) (
          accepted-Grounded x input
            (checked-Schema raw (disposition_named raw.disposition)
              (intents_named raw.verification_intents) m)
            c d)
    ]
  ]
]
