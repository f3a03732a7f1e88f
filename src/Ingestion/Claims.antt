-- ===== src/Ingestion/Claims.antt =====
-- What the claims and the writes of src/storage/postgres_ingestion.py leave of the rows of an id.
use financial_control_engine.Base.{
  ℕ, zero, suc, String, ◌==◌, ◌≡◌, refl, sym, ap, ◌∙◌, Bool, true, false, ◌||◌, ◌&&◌, [], ◌∷◌, ◌++◌,
  any, inl, inr, Bool-cases, write_first, arith, eq_iff,
}
use financial_control_engine.Ingestion.Payloads.{IngestionPayload}
use financial_control_engine.Ingestion.Repository.{
  Payloads, has_payload_id, collides, claim_first, held,
}
use financial_control_engine.Ingestion.Entries.{
  entries, is_entry, DistinctIds, any-entries, entries-claim_first,
}

pub equal_ids : (a b : String) → (a == b) ≡ true → a ≡ b
equal_ids a b h = ground (arith, eq_iff a b)

pub no_ids-claimed :
    (id : String) (p : IngestionPayload → Bool) (f : IngestionPayload → IngestionPayload) (n : ℕ)
    (rows : Payloads)
    → ((r : IngestionPayload) → has_payload_id id (f r) ≡ has_payload_id id r)
    → any (λ r. has_payload_id id r && p r) rows ≡ false
    → any (has_payload_id id) (claim_first p f n rows).0 ≡ false
unfolding claim_first
no_ids-claimed id p f zero rows same h = refl
no_ids-claimed id p f (suc n) [] same h = refl
no_ids-claimed id p f (suc n) (r ∷ rows) same h = elim (Bool-cases (p r)) [
  | inl e ↦ elim (Bool-cases (has_payload_id id r)) [
    | inl k ↦ absurd (cc (rw (k, e) at h))
    | inr k ↦ rw (e, claim_first, same r, k) (no_ids-claimed id p f n rows same (rw k at h))
  ]
  | inr e ↦
      rw (e, claim_first) (no_ids-claimed id p f (suc n) rows same (ground (arith, rw e at h)))
]

pub no_ids-and :
    (id : String) (q : IngestionPayload → Bool) (rows : Payloads)
    → any (has_payload_id id) rows ≡ false
    → any (λ r. has_payload_id id r && q r) rows ≡ false
no_ids-and id q [] h = refl
no_ids-and id q (r ∷ rows) h = elim (Bool-cases (has_payload_id id r)) [
  | inl k ↦ absurd (cc (rw k at h))
  | inr k ↦ rw k (no_ids-and id q rows (rw k at h))
]

pub ids-claim_first :
    (id : String) (p : IngestionPayload → Bool) (now n : ℕ) (worker : String) (rows : Payloads)
    → any (has_payload_id id) (claim_first p (held worker now) n rows).1
      ≡ any (has_payload_id id) rows
ids-claim_first id p now n worker rows =
    sym (any-entries id (claim_first p (held worker now) n rows).1)
    ∙ ap (any (is_entry id)) (entries-claim_first p (held worker now) n rows (λ r. refl))
    ∙ any-entries id rows

-- A claim leaves the rows of an id that it does not take.
pub not_taken-open :
    (id : String) (q p : IngestionPayload → Bool) (f : IngestionPayload → IngestionPayload) (n : ℕ)
    (rows : Payloads)
    → ((r : IngestionPayload) → has_payload_id id (f r) ≡ has_payload_id id r)
    → any (λ r. has_payload_id id r && p r) rows ≡ false
    → any (λ r. has_payload_id id r && q r) rows ≡ false
    → any (λ r. has_payload_id id r && q r) (claim_first p f n rows).1 ≡ false
unfolding claim_first
not_taken-open id q p f zero rows same h c = c
not_taken-open id q p f (suc n) [] same h c = refl
not_taken-open id q p f (suc n) (r ∷ rows) same h c = elim (Bool-cases (has_payload_id id r)) [
  | inl k ↦ elim (Bool-cases (p r)) [
    | inl e ↦ absurd (cc (rw (k, e) at h))
    | inr e ↦ elim (Bool-cases (q r)) [
      | inl o ↦ absurd (cc (rw (k, o) at c))
      | inr o ↦
          rw (e, claim_first, k, o)
            (not_taken-open id q p f (suc n) rows same (rw (k, e) at h) (rw (k, o) at c))
    ]
  ]
  | inr k ↦ elim (Bool-cases (p r)) [
    | inl e ↦
        rw (e, claim_first, same r, k) (not_taken-open id q p f n rows same (rw k at h) (rw k at c))
    | inr e ↦
        rw (e, claim_first, k) (not_taken-open id q p f (suc n) rows same (rw k at h) (rw k at c))
  ]
]

-- What a claim took is not open.
pub taken-closed :
    (id worker : String) (q p : IngestionPayload → Bool) (expires n : ℕ) (rows : Payloads)
    → DistinctIds (entries rows)
    → ((r : IngestionPayload) → q (held worker expires r) ≡ false)
    → any (has_payload_id id) (claim_first p (held worker expires) n rows).0 ≡ true
    → any (λ r. has_payload_id id r && q r) (claim_first p (held worker expires) n rows).1 ≡ false
unfolding claim_first
taken-closed id worker q p expires zero rows d shut h = cc
taken-closed id worker q p expires (suc n) [] d shut h = cc
taken-closed id worker q p expires (suc n) (r ∷ rows) d shut h =
    let f = held worker expires in
    elim (Bool-cases (has_payload_id id r)) [
      | inl k ↦
          let gone : any (has_payload_id id) rows ≡ false =
            sym (ap (λ x. any (has_payload_id x) rows) (equal_ids r.payload_id id k))
            ∙ sym (any-entries r.payload_id rows)
            ∙ d.0 in
          elim (Bool-cases (p r)) [
            | inl e ↦
                rw (e, claim_first, k, shut r)
                  (no_ids-and id q (claim_first p f n rows).1
                    (ids-claim_first id p expires n worker rows ∙ gone))
            | inr e ↦
                let none_taken =
                  no_ids-claimed id p f (suc n) rows (λ x. refl) (no_ids-and id p rows gone) in
                absurd (cc (rw (e, claim_first) at h, none_taken))
          ]
      | inr k ↦ elim (Bool-cases (p r)) [
        | inl e ↦
            rw (e, claim_first, k)
              (taken-closed id worker q p expires n rows d.1 shut (rw (e, claim_first, k) at h))
        | inr e ↦
            rw (e, claim_first, k)
              (taken-closed id worker q p expires (suc n) rows d.1 shut (rw (e, claim_first) at h))
      ]
    ]

pub taken-present :
    (id worker : String) (p : IngestionPayload → Bool) (expires n : ℕ) (rows : Payloads)
    → any (has_payload_id id) (claim_first p (held worker expires) n rows).0 ≡ true
    → any (has_payload_id id) (claim_first p (held worker expires) n rows).1 ≡ true
taken-present id worker p expires n rows h = elim (Bool-cases (any (has_payload_id id) rows)) [
  | inl e ↦ ids-claim_first id p expires n worker rows ∙ e
  | inr e ↦
      let f = held worker expires in
      let none_taken = no_ids-claimed id p f n rows (λ x. refl) (no_ids-and id p rows e) in
      absurd (cc (h, none_taken))
]

pub no_ids-write_first :
    (id : String) (q p : IngestionPayload → Bool) (f : IngestionPayload → IngestionPayload)
    (rows : Payloads)
    → ((r : IngestionPayload) → q (f r) ≡ false)
    → any (λ r. has_payload_id id r && q r) rows ≡ false
    → any (λ r. has_payload_id id r && q r) (write_first p f rows) ≡ false
no_ids-write_first id q p f [] shut h = refl
no_ids-write_first id q p f (r ∷ rows) shut h = elim (Bool-cases (p r)) [
  | inl e ↦ rw (e, shut r) (ground (arith, h))
  | inr e ↦
      let rest = no_ids-write_first id q p f rows shut (ground (arith, h)) in
      rw (e, rest) (ground (arith, h))
]

pub fresh_id :
    (id : String) (p : IngestionPayload) (rows : Payloads)
    → any (has_payload_id id) rows ≡ true
    → any (collides p) rows ≡ false
    → has_payload_id id p ≡ false
fresh_id id p [] h c = cc
fresh_id id p (r ∷ rows) h c = elim (Bool-cases (has_payload_id id r)) [
  | inr k ↦ fresh_id id p rows (rw k at h) (ground (arith, c))
  | inl k ↦
      let apart : (r.payload_id == p.payload_id) ≡ false = ground (arith, c) in
      ground
        (arith, eq_iff r.payload_id id, eq_iff p.payload_id id, eq_iff r.payload_id p.payload_id)
]

pub any-last :
    (q : IngestionPayload → Bool) (rows : Payloads) (p : IngestionPayload)
    → any q (rows ++ p ∷ []) ≡ (any q rows || q p)
any-last q [] p = ground arith
any-last q (r ∷ rows) p = rw (any-last q rows p) (ground arith)

pub no_ids-narrowed :
    (id : String) (picks p : IngestionPayload → Bool) (rows : Payloads)
    → any (λ r. has_payload_id id r && p r) rows ≡ false
    → any (λ r. has_payload_id id r && (picks r && p r)) rows ≡ false
no_ids-narrowed id picks p [] h = refl
no_ids-narrowed id picks p (r ∷ rows) h =
    ground (arith, h, no_ids-narrowed id picks p rows (ground (arith, h)))
