-- ===== src/Worker/Grounded.antt =====
-- What a match that the worker of src/engine/worker.py finds rests on.
use financial_control_engine.Base.{
  ◌≡◌, refl, Bool, true, List, [], ◌∷◌, Option, none, some, ok, All-append, ok_injective,
}
use financial_control_engine.Core.Models.{
  Expectation, Observation, match, discrepancy, ReconciliationResult, ReconciliationOutcome,
}
use financial_control_engine.Matching.Controls.{evaluate_observation_centric}
use financial_control_engine.Matching.Matches.{Matched}
use financial_control_engine.Matching.Matches
use financial_control_engine.Investigation.Context.{
  InvestigationContext, expectation_of, observations_of,
}
use financial_control_engine.Worker.Runs.{World, next}
use financial_control_engine.Worker.Services.{
  Services, matched, or_raise, is_match, reconciles, reconciles_context, reconciles_with,
  first_matches,
}
use financial_control_engine.Worker.Walk.{Grounds}
use financial_control_engine.Worker.Sources.{Source, Sourced}
use financial_control_engine.Worker.Process.{Task, Learned, known}
use financial_control_engine.Worker.Logic.{Meets, meets_weaken, meets_ask}

outcome_of_match : (o : ReconciliationOutcome) {b : Bool} → b ≡ is_match o → b ≡ true → o ≡ match
outcome_of_match match h t = refl
outcome_of_match discrepancy h t = cc

matched-true :
    (x : Option ReconciliationResult) {b : Bool}
    → matched (or_raise x) ≡ ok b
    → b ≡ true
    → (r : ReconciliationResult) × (x ≡ some r) × (r.outcome ≡ match)
matched-true none h t = cc
matched-true (some r) h t = (r, refl, outcome_of_match r.outcome (ok_injective h) t)

first_unmatched : (os : List Observation) {b : Bool} → first_matches os ≡ ok b → b ≡ true → ⊥
unfolding evaluate_observation_centric
first_unmatched [] h t = cc
first_unmatched (o ∷ os) h t = cc

pub reconciles-Matched :
    (s : Services) (e : Expectation) (os : List Observation) {P J : World → Type 0}
    → ((w : World) → P w → P (next w))
    → ((w : World) → P w → J (next w))
    → Meets P (reconciles s e os) (λ b w. P w × (b ≡ true → Matched e os)) J
unfolding reconciles
reconciles-Matched s e os ticks failing =
    meets_ask _
      (λ w b p h. (
        ticks w p,
        (λ y. let (r, is, m) = matched-true _ h y in Matches.expectation-Matched s.str e os _ is m),
      ))
      failing

module _ (s : Services) (t : Task) (start : World) where
  -- The context was assembled from the tables at the start.
  abbrev pub Assembled : InvestigationContext → Type 0
  Assembled c =
      (c.expectation ≡ expectation_of t.discrepancy.result.expectation_id start.expectations)
      × (c.observations ≡ observations_of t.discrepancy.result.observation_ids start.observations)
      × Sourced s start.observations c.observations

  abbrev pub AllKnown : InvestigationContext → Learned → Type 0
  AllKnown c l = Assembled c × Sourced s start.observations l.observations

  pub known-Sourced :
      (c : InvestigationContext) (l : Learned)
      → AllKnown c l
      → Sourced s start.observations (known c l)
  known-Sourced c l h =
      All-append (Source s start.observations) c.observations l.observations h.0.2 h.1

module _ (s : Services) (t : Task) (start : World) {P J : World → Type 0}
    (ticks : (w : World) → P w → P (next w)) (failing : (w : World) → P w → J (next w)) where
  with-Matched :
      (o : Option Expectation) (os : List Observation)
      → Meets P
          (reconciles_with s o os)
          (λ b w. P w × (b ≡ true → (e : Expectation) × (o ≡ some e) × Matched e os))
          J
  with-Matched (some e) os =
      meets_weaken (λ w p. p) (λ b w q. (q.0, (λ y. (e, refl, q.1 y)))) (λ w j. j)
        (reconciles-Matched s e os ticks failing)
  with-Matched none os =
      meets_ask _ (λ w b p h. (ticks w p, (λ y. absurd (first_unmatched os h y)))) failing

  pub context-Grounds :
      (c : InvestigationContext) (l : Learned)
      → AllKnown s t start c l
      → Meets P (reconciles_context s c (known c l)) (λ b w. P w × (b ≡ true → Grounds s t start)) J
  unfolding reconciles_context
  context-Grounds c l h =
      meets_weaken (λ w p. p)
        (λ b w q. (
          q.0,
          (λ y.
              let (e, is, m) = q.1 y in
              record {
                expectation = e;
                expected = cc (is, h.0.0);
                observations = known c l;
                sourced = known-Sourced s t start c l h;
                reconciled = m;
              }),
        ))
        (λ w j. j) (with-Matched c.expectation (known c l))
