-- ===== src/Ingestion/Entries.antt =====
-- The ids, providers and keys of the payloads (src/storage/postgres_ingestion.py), which no write but an
-- insertion changes.
use mathlib.Core.Option
use financial_control_engine.Base.{
  ℕ, zero, suc, String, ◌==◌, ◌≡◌, refl, ap, ◌∙◌, Bool, false, ◌||◌, List, [], ◌∷◌, ◌++◌, find, any,
  map, some, inl, inr, Bool-cases, some_injective, write_first, arith, eq_iff, eq_refl,
}
use financial_control_engine.Ingestion.Payloads.{IngestionPayload}
use financial_control_engine.Ingestion.Repository.{
  Payloads, same_delivery, has_payload_id, claim_first,
}
use financial_control_engine.Ingestion.Memory.{Delivered, entry_of, delivered_as}

abbrev pub entries : Payloads → List Delivered
entries rows = map entry_of rows

abbrev pub is_entry : String → Delivered → Bool
is_entry id d = d.payload_id == id

-- The primary key.
abbrev pub DistinctIds : List Delivered → Type 0
DistinctIds [] = Unit
DistinctIds (d ∷ ds) = (any (is_entry d.payload_id) ds ≡ false) × DistinctIds ds

pub entries-claim_first :
    (p : IngestionPayload → Bool) (f : IngestionPayload → IngestionPayload) (n : ℕ)
    (rows : Payloads)
    → ((r : IngestionPayload) → entry_of (f r) ≡ entry_of r)
    → entries (claim_first p f n rows).1 ≡ entries rows
unfolding claim_first
entries-claim_first p f zero rows same = refl
entries-claim_first p f (suc n) [] same = refl
entries-claim_first p f (suc n) (r ∷ rows) same = elim (Bool-cases (p r)) [
  | inl e ↦
      rw (e, claim_first)
        (ap (λ ds. entry_of (f r) ∷ ds) (entries-claim_first p f n rows same)
          ∙ ap (λ d. d ∷ entries rows) (same r))
  | inr e ↦
      rw (e, claim_first) (ap (λ ds. entry_of r ∷ ds) (entries-claim_first p f (suc n) rows same))
]

pub entries-write_first :
    (p : IngestionPayload → Bool) (f : IngestionPayload → IngestionPayload) (rows : Payloads)
    → ((r : IngestionPayload) → entry_of (f r) ≡ entry_of r)
    → entries (write_first p f rows) ≡ entries rows
entries-write_first p f [] same = refl
entries-write_first p f (r ∷ rows) same = elim (Bool-cases (p r)) [
  | inl e ↦ rw e (ap (λ d. d ∷ entries rows) (same r))
  | inr e ↦ rw e (ap (λ ds. entry_of r ∷ ds) (entries-write_first p f rows same))
]

pub find-entries :
    (p : IngestionPayload) (rows : Payloads)
    → find (delivered_as p) (entries rows) ≡ Option.map entry_of (find (same_delivery p) rows)
find-entries p [] = refl
find-entries p (r ∷ rows) = elim (Bool-cases (same_delivery p r)) [
  | inl e ↦ rw e refl
  | inr e ↦ rw e (find-entries p rows)
]

pub any-entries :
    (id : String) (rows : Payloads)
    → any (is_entry id) (entries rows) ≡ any (has_payload_id id) rows
any-entries id [] = refl
any-entries id (r ∷ rows) = ap (λ b. (r.payload_id == id) || b) (any-entries id rows)

eq_swap : (a b : String) → (a == b) ≡ false → (b == a) ≡ false
eq_swap a b h = ground (arith, eq_iff a b, eq_iff b a)

unlike :
    (q : IngestionPayload → Bool) (id : String) (rows : Payloads) {r : IngestionPayload}
    → any (is_entry id) (entries rows) ≡ false
    → find q rows ≡ some r
    → (r.payload_id == id) ≡ false
unlike q id [] h f = cc
unlike q id (x ∷ xs) {r} h f = elim (Bool-cases (x.payload_id == id)) [
  | inl e ↦ absurd (cc (rw e at h))
  | inr e ↦ elim (Bool-cases (q x)) [
    | inl m ↦ let same : r ≡ x = some_injective (rw m at f) in rw same e
    | inr m ↦ unlike q id xs (rw e at h) (rw m at f)
  ]
]

-- The row of a delivery is that of its id.
pub found_by_id :
    (q : IngestionPayload → Bool) (rows : Payloads) {r : IngestionPayload}
    → DistinctIds (entries rows)
    → find q rows ≡ some r
    → find (has_payload_id r.payload_id) rows ≡ some r
found_by_id q [] h f = cc
found_by_id q (x ∷ xs) {r} h f = elim (Bool-cases (q x)) [
  | inl m ↦ let same : r ≡ x = some_injective (rw m at f) in rw (same, eq_refl x.payload_id) refl
  | inr m ↦
      let g = rw m at f in
      let n : (r.payload_id == x.payload_id) ≡ false = unlike q x.payload_id xs h.0 g in
      rw (eq_swap r.payload_id x.payload_id n) (found_by_id q xs h.1 g)
]

any_apart :
    (id : String) (ds : List Delivered) (d : Delivered)
    → any (is_entry id) ds ≡ false
    → (d.payload_id == id) ≡ false
    → any (is_entry id) (ds ++ d ∷ []) ≡ false
any_apart id [] d h n = rw n refl
any_apart id (x ∷ xs) d h n = elim (Bool-cases (x.payload_id == id)) [
  | inl e ↦ absurd (cc (rw e at h))
  | inr e ↦ rw e (any_apart id xs d (rw e at h) n)
]

pub DistinctIds-append :
    (ds : List Delivered) (d : Delivered)
    → DistinctIds ds
    → any (is_entry d.payload_id) ds ≡ false
    → DistinctIds (ds ++ d ∷ [])
DistinctIds-append [] d h n = (refl, tt)
DistinctIds-append (x ∷ xs) d h n = elim (Bool-cases (x.payload_id == d.payload_id)) [
  | inl e ↦ absurd (cc (rw e at n))
  | inr e ↦ (
    any_apart x.payload_id xs d h.0 (eq_swap x.payload_id d.payload_id e),
    DistinctIds-append xs d h.1 (rw e at n),
  )
]
