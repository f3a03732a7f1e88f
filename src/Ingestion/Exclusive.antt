-- ===== src/Ingestion/Exclusive.antt =====
-- Who claims a payload of src/storage/postgres_ingestion.py, and when.
use financial_control_engine.Base.{
  ℕ, ◌+◌, ◌≤◌, String, ◌≡◌, refl, sym, ap, ◌∙◌, Bool, true, false, ◌&&◌, List, [], ◌∷◌, any, find,
  Option, none, some, inl, inr, Bool-cases, Option-cases, write_first, arith, is_empty, All,
}
use financial_control_engine.Incidents.Repository.{seconds}
use financial_control_engine.Ingestion.Payloads.{IngestionPayload}
use financial_control_engine.Ingestion.Repository.{
  Payloads, has_payload_id, same_delivery, collides, claim_first, is_claimable, selected, held,
  finished, save_payload, claim_pending_payloads, mark_payload,
}
use financial_control_engine.Ingestion.Entries.{
  entries, is_entry, DistinctIds, any-entries, entries-write_first,
}
use financial_control_engine.Ingestion.Agreement.{
  Call, deliver, claim, mark, Answer, saved, claimed, marked, raised, call, all_calls,
}
use financial_control_engine.Ingestion.Claims.{
  no_ids-claimed, ids-claim_first, not_taken-open, no_ids-narrowed, taken-closed, taken-present,
  no_ids-write_first, fresh_id, any-last,
}

-- The rows of an id that a claim would take.
abbrev open_at : String → ℕ → IngestionPayload → Bool
open_at id now r = has_payload_id id r && is_claimable now r

-- No claim up to a time takes the id, which is in the table.
record Closed (id : String) (until : ℕ) (rows : Payloads) : Type 0 where
  present : any (has_payload_id id) rows ≡ true
  closed : (now : ℕ) → now ≤ until → any (open_at id now) rows ≡ false

-- The claims of a call are within the time.
abbrev pub IsWithin : ℕ → Call → Type 0
IsWithin until (deliver p) = Unit
IsWithin until (claim worker picks limit lease now) = now ≤ until
IsWithin until (mark id error now) = Unit

abbrev pub claims : String → Answer → Bool
claims id (claimed ps) = any (has_payload_id id) ps
claims id (saved p new) = false
claims id marked = false
claims id raised = false

finished-closed :
    (error : Option String) (at now : ℕ) (r : IngestionPayload)
    → is_claimable now (finished error at r) ≡ false
finished-closed none at now r = refl
finished-closed (some message) at now r = elim (Bool-cases (is_empty message)) [
  | inl e ↦ rw e refl
  | inr e ↦ rw e refl
]

deliver-Closed :
    (id : String) (until : ℕ) (p : IngestionPayload) (rows : Payloads)
    → Closed id until rows
    → (claims id (call (deliver p) rows).0 ≡ false) × Closed id until (call (deliver p) rows).1
unfolding call save_payload
deliver-Closed id until p rows c = elim (Bool-cases (any (collides p) rows)) [
  | inl e ↦ elim (Option-cases (find (same_delivery p) rows)) [
    | inl n ↦ rw (e, n) (refl, c)
    | inr (r, n) ↦ rw (e, n) (refl, c)
  ]
  | inr e ↦
      let other = fresh_id id p rows c.present e in
      rw e (
        refl,
        record {
          present = any-last (has_payload_id id) rows p ∙ rw c.present refl;
          closed = λ now h. any-last (open_at id now) rows p ∙ rw (c.closed now h, other) refl;
        },
      )
]

call-Closed :
    (id : String) (until : ℕ) (c : Call) (rows : Payloads)
    → Closed id until rows
    → IsWithin until c
    → (claims id (call c rows).0 ≡ false) × Closed id until (call c rows).1
unfolding call claim_pending_payloads mark_payload
call-Closed id until (deliver p) rows c h = deliver-Closed id until p rows c
call-Closed id until (claim worker picks limit lease now) rows c h =
    let f = held worker (now + seconds lease) in
    let unpicked = no_ids-narrowed id picks (is_claimable now) rows (c.closed now h) in
    (
      no_ids-claimed id (selected picks now) f limit rows (λ r. refl) unpicked,
      record {
        present =
            ids-claim_first id (selected picks now) (now + seconds lease) limit worker rows
            ∙ c.present;
        closed = λ t k.
            not_taken-open id (is_claimable t) (selected picks now) f limit rows (λ r. refl)
              unpicked (c.closed t k);
      },
    )
call-Closed id until (mark j error now) rows c h =
    let f = finished error now in
    (
      refl,
      record {
        present =
            sym (any-entries id (write_first (has_payload_id j) f rows))
            ∙ ap (any (is_entry id)) (entries-write_first (has_payload_id j) f rows (λ r. refl))
            ∙ any-entries id rows
            ∙ c.present;
        closed = λ t k.
            no_ids-write_first id (is_claimable t) (has_payload_id j) f rows
              (finished-closed error now t) (c.closed t k);
      },
    )

calls-Closed :
    (id : String) (until : ℕ) (cs : List Call) (rows : Payloads)
    → Closed id until rows
    → All (IsWithin until) cs
    → any (claims id) (all_calls cs rows).0 ≡ false
unfolding all_calls
calls-Closed id until [] rows c h = refl
calls-Closed id until (x ∷ xs) rows c h =
    let (untaken, after) = call-Closed id until x rows c h.0 in
    rw untaken (calls-Closed id until xs (call x rows).1 after h.1)

-- While the lease of a claim lasts, none of its payloads is claimed again, whatever is delivered, claimed
-- or marked meanwhile, by whichever worker; the ids in the table are distinct.
pub claimed_once :
    (worker : String) (picks : IngestionPayload → Bool) (limit lease now : ℕ) (rows : Payloads)
    (cs : List Call) (id : String)
    → DistinctIds (entries rows)
    → any (has_payload_id id) (claim_pending_payloads worker picks limit lease now rows).0 ≡ true
    → All (IsWithin (now + seconds lease)) cs
    → any (claims id) (all_calls cs (claim_pending_payloads worker picks limit lease now rows).1).0
      ≡ false
unfolding claim_pending_payloads
claimed_once worker picks limit lease now rows cs id d taken within =
    let until = now + seconds lease in
    calls-Closed id until cs (claim_first (selected picks now) (held worker until) limit rows).1
      (record {
        present = taken-present id worker (selected picks now) until limit rows taken;
        closed = λ t h.
            taken-closed id worker (is_claimable t) (selected picks now) until limit rows d
              (λ r. ground (arith, h)) taken;
      })
      within
