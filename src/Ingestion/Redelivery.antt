-- ===== src/Ingestion/Redelivery.antt =====
-- What the duplicate of a delivery meets in src/storage/postgres_ingestion.py.
use financial_control_engine.Base.{
  ◌+◌, String, ◌≡◌, refl, sym, ap, ◌∙◌, Bool, true, false, List, [], ◌∷◌, any, find, none, some,
  Result, ok, err, inl, inr, Bool-cases, Option-cases, some_injective, find-append, find-last,
  subst, eq_refl,
}
use financial_control_engine.Incidents.Repository.{seconds}
use financial_control_engine.Substrate.Observations.{IntegrityError}
use financial_control_engine.Ingestion.Payloads.{IngestionPayload}
use financial_control_engine.Ingestion.Repository.{
  Payloads, has_payload_id, same_delivery, collides, selected, held, finished, save_payload,
  claim_pending_payloads, mark_payload,
}
use financial_control_engine.Ingestion.Memory.{Delivered, entry_of, delivered_as}
use financial_control_engine.Ingestion.Entries.{
  entries, entries-claim_first, entries-write_first, find-entries,
}
use financial_control_engine.Ingestion.Agreement.{
  Call, deliver, claim, mark, call, all_calls, entries-append, found-collides,
}

-- A delivery that is answered with a payload of the id, as one that was there, and changes nothing.
pub Repeats :
    String → Payloads → Result IntegrityError (IngestionPayload × Bool × Payloads) → Type 0
Repeats id rows (err e) = ⊥
Repeats id rows (ok (r, new, after)) = (r.payload_id ≡ id) × (new ≡ false) × (after ≡ rows)

-- The delivery is in the table under an id.
abbrev Stored : IngestionPayload → String → Payloads → Type 0
Stored p id rows =
    (d : Delivered) × (find (delivered_as p) (entries rows) ≡ some d) × (d.payload_id ≡ id)

not_colliding-new :
    (p : IngestionPayload) (rows : Payloads)
    → any (collides p) rows ≡ false
    → find (same_delivery p) rows ≡ none
not_colliding-new p rows h = elim (Option-cases (find (same_delivery p) rows)) [
  | inl n ↦ n
  | inr (r, n) ↦ absurd (cc (found-collides p rows n, h))
]

abbrev StoredAs :
    IngestionPayload → Result IntegrityError (IngestionPayload × Bool × Payloads) → Type 0
StoredAs p (err e) = Unit
StoredAs p (ok (r, new, after)) = Stored p r.payload_id after

save_payload-StoredAs : (p : IngestionPayload) (rows : Payloads) → StoredAs p (save_payload p rows)
unfolding save_payload
save_payload-StoredAs p rows = elim (Bool-cases (any (collides p) rows)) [
  | inr e ↦
      let new : find (delivered_as p) (entries rows) ≡ none =
        find-entries p rows ∙ rw (not_colliding-new p rows e) refl in
      let itself : delivered_as p (entry_of p) ≡ true =
        rw (eq_refl p.provider, eq_refl p.idempotency_key) refl in
      rw e (
        entry_of p,
        ap (find (delivered_as p)) (entries-append rows p)
            ∙ find-last (delivered_as p) (entries rows) (entry_of p) new itself,
        refl,
      )
  | inl e ↦ elim (Option-cases (find (same_delivery p) rows)) [
    | inl n ↦ rw (e, n) tt
    | inr (r, n) ↦
        let there : find (delivered_as p) (entries rows) ≡ some (entry_of r) =
          find-entries p rows ∙ rw n refl in
        rw (e, n) (entry_of r, there, refl)
  ]
]

call-Stored :
    (c : Call) (p : IngestionPayload) (id : String) (rows : Payloads)
    → Stored p id rows
    → Stored p id (call c rows).1
unfolding call save_payload claim_pending_payloads mark_payload
call-Stored (deliver q) p id rows (d, f, same) = elim (Bool-cases (any (collides q) rows)) [
  | inl e ↦ elim (Option-cases (find (same_delivery q) rows)) [
    | inl n ↦ rw (e, n) (d, f, same)
    | inr (r, n) ↦ rw (e, n) (d, f, same)
  ]
  | inr e ↦ rw e (
    d,
    ap (find (delivered_as p)) (entries-append rows q)
        ∙ find-append (delivered_as p) (entries rows) (entry_of q ∷ []) f,
    same,
  )
]
call-Stored (claim worker picks limit lease now) p id rows (d, f, same) =
    let kept =
      entries-claim_first (selected picks now) (held worker (now + seconds lease)) limit rows
        (λ r. refl) in
    (d, ap (find (delivered_as p)) kept ∙ f, same)
call-Stored (mark j error now) p id rows (d, f, same) =
    let kept = entries-write_first (has_payload_id j) (finished error now) rows (λ r. refl) in
    (d, ap (find (delivered_as p)) kept ∙ f, same)

calls-Stored :
    (cs : List Call) (p : IngestionPayload) (id : String) (rows : Payloads)
    → Stored p id rows
    → Stored p id (all_calls cs rows).1
unfolding all_calls
calls-Stored [] p id rows h = h
calls-Stored (c ∷ cs) p id rows h = calls-Stored cs p id (call c rows).1 (call-Stored c p id rows h)

Stored-Repeats :
    (p : IngestionPayload) (id : String) (rows : Payloads)
    → Stored p id rows
    → Repeats id rows (save_payload p rows)
unfolding Repeats save_payload
Stored-Repeats p id rows (d, f, same) = elim (Option-cases (find (same_delivery p) rows)) [
  | inl n ↦
      let gone : find (delivered_as p) (entries rows) ≡ none = find-entries p rows ∙ rw n refl in
      absurd (cc (f, gone))
  | inr (r, n) ↦
      let there : find (delivered_as p) (entries rows) ≡ some (entry_of r) =
        find-entries p rows ∙ rw n refl in
      let at_entry : entry_of r ≡ d = some_injective (sym f ∙ there) in
      rw (found-collides p rows n, n)
        (ap (λ (x : Delivered). x.payload_id) at_entry ∙ same, refl, refl)
]

Stored-like :
    (p q : IngestionPayload) (id : String) (rows : Payloads)
    → q.provider ≡ p.provider
    → q.idempotency_key ≡ p.idempotency_key
    → Stored p id rows
    → Stored q id rows
Stored-like p q id rows provider key h = rw (provider, key) h

-- Once a delivery was saved or found, another one of the same provider and key is answered with the same
-- payload id, as no new one, and changes nothing, whatever is delivered, claimed or marked in between.
pub redelivered :
    (p r q : IngestionPayload) (new : Bool) (rows after : Payloads) (cs : List Call)
    → save_payload p rows ≡ ok (r, new, after)
    → q.provider ≡ p.provider
    → q.idempotency_key ≡ p.idempotency_key
    → let later = (all_calls cs after).1 in Repeats r.payload_id later (save_payload q later)
redelivered p r q new rows after cs h provider key =
    let later = (all_calls cs after).1 in
    let stored : Stored p r.payload_id after =
      subst (StoredAs p) h (save_payload-StoredAs p rows) in
    Stored-Repeats q r.payload_id later (
      Stored-like p q r.payload_id later provider key (calls-Stored cs p r.payload_id after stored))
