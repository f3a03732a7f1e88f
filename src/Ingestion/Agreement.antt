-- ===== src/Ingestion/Agreement.antt =====
-- The two repositories of src/storage/postgres_ingestion.py, on the same calls.

use financial_control_engine.Base.{
  ℕ, zero, suc, ◌+◌, ◌≤◌, String, ◌≡◌, refl, ap, ◌∙◌, Bool, true, false, List, [], ◌∷◌, ◌++◌, find,
  any, Option, none, some, Result, ok, err, inl, inr, Bool-cases, Option-cases, arith, leb,
}
use financial_control_engine.Incidents.Repository.{seconds}
use financial_control_engine.Ingestion.Payloads.{IngestionPayload}
use financial_control_engine.Ingestion.Repository.{
  Payloads, same_delivery, has_payload_id, collides, claim_first, both_onto, row_onto, is_claimable,
  held, finished, save_payload, claim_pending_payloads, mark_payload,
}
use financial_control_engine.Ingestion.Memory.{
  MemoryStore, entry_of, delivered_as, remember, claim_loop, claim_remembered, mark_remembered,
}
use financial_control_engine.Ingestion.Entries.{
  entries, DistinctIds, entries-claim_first, entries-write_first, find-entries, any-entries,
  found_by_id, DistinctIds-append,
}

-- A call of a repository, and what it answers.
pub data Call : Type 0 where
  deliver : IngestionPayload → Call
  claim : String → (IngestionPayload → Bool) → ℕ → ℕ → ℕ → Call
  mark : String → Option String → ℕ → Call

pub data Answer : Type 0 where
  saved : IngestionPayload → Bool → Answer
  claimed : List IngestionPayload → Answer
  marked raised : Answer

abbrev saved_answer : {E S : Type 0} → S → Result E (IngestionPayload × Bool × S) → Answer × S
saved_answer s (err e) = (raised, s)
saved_answer s (ok (p, new, after)) = (saved p new, after)

abbrev claimed_answer : {S : Type 0} → Payloads × S → Answer × S
claimed_answer (ps, after) = (claimed ps, after)

unfoldable pub call : Call → Payloads → Answer × Payloads
unfolding save_payload claim_pending_payloads mark_payload
call (deliver p) rows = saved_answer rows (save_payload p rows)
call (claim worker picks limit lease now) rows =
    claimed_answer (claim_pending_payloads worker picks limit lease now rows)
call (mark id error now) rows = (marked, mark_payload id error now rows)

unfoldable pub memory_call : Call → MemoryStore → Answer × MemoryStore
unfolding remember claim_remembered mark_remembered
memory_call (deliver p) m = saved_answer m (remember p m)
memory_call (claim worker picks limit lease now) m =
    claimed_answer (claim_remembered worker limit lease now m)
memory_call (mark id error now) m = (marked, mark_remembered id error now m)

abbrev onto_answers : {S : Type 0} → Answer → List Answer × S → List Answer × S
onto_answers a (answers, s) = (a ∷ answers, s)

unfoldable pub all_calls : List Call → Payloads → List Answer × Payloads
unfolding call
all_calls [] rows = ([], rows)
all_calls (c ∷ cs) rows = onto_answers (call c rows).0 (all_calls cs (call c rows).1)

unfoldable pub all_memory_calls : List Call → MemoryStore → List Answer × MemoryStore
unfolding memory_call
all_memory_calls [] m = ([], m)
all_memory_calls (c ∷ cs) m =
    onto_answers (memory_call c m).0 (all_memory_calls cs (memory_call c m).1)

-- Every row.
abbrev pub everything : IngestionPayload → Bool
everything r = true

-- A payload with a fresh id, and a claim with a limit of at least one whose query selects the first rows of
-- the table.
abbrev pub IsOrdinary : Call → Payloads → Type 0
IsOrdinary (deliver p) rows = any (has_payload_id p.payload_id) rows ≡ false
IsOrdinary (claim worker picks limit lease now) rows = (picks ≡ everything) × (1 ≤ limit)
IsOrdinary (mark id error now) rows = Unit

abbrev pub AllOrdinary : List Call → Payloads → Type 0
AllOrdinary [] rows = Unit
AllOrdinary (c ∷ cs) rows = IsOrdinary c rows × AllOrdinary cs (call c rows).1

-- The in-memory store that holds what a table holds.
abbrev pub mirror : Payloads → MemoryStore
mirror rows = record { store = rows; idempotency_map = entries rows }

claim_loop-first :
    (p : IngestionPayload → Bool) (f : IngestionPayload → IngestionPayload) (limit count n : ℕ)
    (rows : Payloads)
    → count + suc n ≡ limit
    → claim_loop p f limit count rows ≡ claim_first p f (suc n) rows
unfolding claim_loop claim_first
claim_loop-first p f limit count n [] h = refl
claim_loop-first p f limit count zero (r ∷ rows) h = elim (Bool-cases (p r)) [
  | inl e ↦
      let reached : leb limit (count + 1) ≡ true = ground (arith, h) in
      rw (e, claim_loop, claim_first, reached) refl
  | inr e ↦
      rw (e, claim_loop, claim_first)
        (ap (row_onto r) (claim_loop-first p f limit count zero rows h))
]
claim_loop-first p f limit count (suc n) (r ∷ rows) h = elim (Bool-cases (p r)) [
  | inl e ↦
      let more : leb limit (count + 1) ≡ false = ground (arith, h) in
      rw (e, claim_loop, claim_first, more)
        (ap (both_onto (f r)) (claim_loop-first p f limit (count + 1) n rows (omega (arith, h))))
  | inr e ↦
      rw (e, claim_loop, claim_first)
        (ap (row_onto r) (claim_loop-first p f limit count (suc n) rows h))
]

no-collides :
    (p : IngestionPayload) (rows : Payloads)
    → any (has_payload_id p.payload_id) rows ≡ false
    → find (same_delivery p) rows ≡ none
    → any (collides p) rows ≡ false
no-collides p [] h f = refl
no-collides p (r ∷ rows) h f = elim (Bool-cases (same_delivery p r)) [
  | inl e ↦ absurd (cc (rw e at f))
  | inr e ↦ elim (Bool-cases (has_payload_id p.payload_id r)) [
    | inl k ↦ absurd (cc (rw k at h))
    | inr k ↦ rw (k, e) (no-collides p rows (rw k at h) (rw e at f))
  ]
]

pub found-collides :
    (p : IngestionPayload) (rows : Payloads) {r : IngestionPayload}
    → find (same_delivery p) rows ≡ some r
    → any (collides p) rows ≡ true
found-collides p [] f = cc
found-collides p (x ∷ rows) f = elim (Bool-cases (same_delivery p x)) [
  | inl e ↦ ground (arith, e)
  | inr e ↦ ground (arith, found-collides p rows (rw e at f))
]

pub entries-append :
    (rows : Payloads) (p : IngestionPayload)
    → entries (rows ++ p ∷ []) ≡ entries rows ++ entry_of p ∷ []
entries-append [] p = refl
entries-append (r ∷ rows) p = ap (λ ds. entry_of r ∷ ds) (entries-append rows p)

-- What a call does to the mirror of a table.
Mirrored : Call → Payloads → Type 0
Mirrored c rows =
    (memory_call c (mirror rows) ≡ ((call c rows).0, mirror (call c rows).1))
    × DistinctIds (entries (call c rows).1)

deliver-Mirrored :
    (p : IngestionPayload) (rows : Payloads)
    → DistinctIds (entries rows)
    → any (has_payload_id p.payload_id) rows ≡ false
    → Mirrored (deliver p) rows
unfolding Mirrored call memory_call
deliver-Mirrored p rows d fresh = elim (Option-cases (find (same_delivery p) rows)) [
  | inl n ↦
      let none_there : find (delivered_as p) (entries rows) ≡ none =
        find-entries p rows ∙ rw n refl in
      rw (no-collides p rows fresh n, none_there, fresh, entries-append rows p)
        (
          refl,
          DistinctIds-append (entries rows) (entry_of p) d (any-entries p.payload_id rows ∙ fresh),
        )
  | inr (r, n) ↦
      let there : find (delivered_as p) (entries rows) ≡ some (entry_of r) =
        find-entries p rows ∙ rw n refl in
      rw (found-collides p rows n, n, there, found_by_id (same_delivery p) rows d n) (refl, d)
]

call-Mirrored :
    (c : Call) (rows : Payloads) → DistinctIds (entries rows) → IsOrdinary c rows → Mirrored c rows
unfolding Mirrored call memory_call claim_pending_payloads claim_remembered mark_payload
    mark_remembered
call-Mirrored (deliver p) rows d h = deliver-Mirrored p rows d h
call-Mirrored (claim worker picks zero lease now) rows d (every, h) = absurd (omega arith)
call-Mirrored (claim worker picks (suc n) lease now) rows d (every, h) =
    let f = held worker (now + seconds lease) in
    let same = entries-claim_first (is_claimable now) f (suc n) rows (λ r. refl) in
    rw (every, claim_loop-first (is_claimable now) f (suc n) 0 n rows (omega arith), same) (refl, d)
call-Mirrored (mark id error now) rows d h =
    let same = entries-write_first (has_payload_id id) (finished error now) rows (λ r. refl) in
    rw same (refl, d)

-- The in-memory repository does what the one on PostgreSQL may do: it answers every sequence of calls as
-- that does, and holds the same afterwards, if each payload that is delivered has a fresh id and each claim
-- asks for at least one and has a query that happens to select the first rows of the table.
pub memory_agrees :
    (cs : List Call) (rows : Payloads)
    → DistinctIds (entries rows)
    → AllOrdinary cs rows
    → let (answers, after) = all_calls cs rows in
      all_memory_calls cs (mirror rows) ≡ (answers, mirror after)
unfolding all_calls all_memory_calls Mirrored
memory_agrees [] rows d h = refl
memory_agrees (c ∷ cs) rows d h =
    let (same, distinct) = call-Mirrored c rows d h.0 in
    rw same (ap (onto_answers (call c rows).0) (memory_agrees cs (call c rows).1 distinct h.1))
