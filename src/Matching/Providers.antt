-- ===== src/Matching/Providers.antt =====
-- The latest observation of each provider (src/engine/reconciliation_controls.py).
use mathlib.Core.List.{Memᴰ}
use financial_control_engine.Base.{
  String, ◌==◌, lower, ◌≡◌, refl, sym, ◌∙◌, ◌⊎◌, inl, inr, true, false, List, [], ◌∷◌, none, All,
  Bool-cases, arith, eq_iff,
}
use financial_control_engine.Base.Int.{ℤ, ◌≤ℤ◌, ltb_ℤ, int_laws}
use financial_control_engine.Base.Sorting.{All-map, All-Memᴰ}
use financial_control_engine.Core.Models.{CanonicalStatus, Observation}
use financial_control_engine.Matching.Grouping.{seen_at}
use financial_control_engine.Matching.Controls.{
  note_latest, provider_latest, status_match, first_mismatch,
}

abbrev Entry : Type 0
Entry = String × Observation

-- An entry of the provider of `x` that is not older than it.
abbrev Covers : Observation → List Entry → Type 0
Covers x [] = ⊥
Covers x ((p, o) ∷ rest) = ((p ≡ lower x.provider) × (seen_at x ≤ℤ seen_at o)) ⊎ Covers x rest

newer_or_not : (a b : ℤ) → (ltb_ℤ a b ≡ true → a ≤ℤ b) × (ltb_ℤ a b ≡ false → b ≤ℤ a)
newer_or_not a b = (λ h. ground arith, λ h. ground arith)

step_le : (a b c : ℤ) → a ≤ℤ b → b ≤ℤ c → a ≤ℤ c
step_le a b c h k = omega int_laws

le_self : (a : ℤ) → a ≤ℤ a
le_self a = omega int_laws

note_latest-Covers_own : (o : Observation) (known : List Entry) → Covers o (note_latest o known)
unfolding note_latest
note_latest-Covers_own o [] = inl (refl, le_self (seen_at o))
note_latest-Covers_own o ((p, x) ∷ rest) = elim (Bool-cases (p == lower o.provider)) [
  | inl e ↦ elim (Bool-cases (ltb_ℤ (seen_at x) (seen_at o))) [
    | inl g ↦ rw (e, g) (inl ((eq_iff p (lower o.provider)).0 e, le_self (seen_at o)))
    | inr g ↦
        rw (e, g)
          (inl ((eq_iff p (lower o.provider)).0 e, (newer_or_not (seen_at x) (seen_at o)).1 g))
  ]
  | inr e ↦ rw e (inr (note_latest-Covers_own o rest))
]

note_latest-Covers :
    (o x : Observation) (known : List Entry) → Covers x known → Covers x (note_latest o known)
unfolding note_latest
note_latest-Covers o x [] c = absurd c
note_latest-Covers o x ((p, y) ∷ rest) c = elim (Bool-cases (p == lower o.provider)) [
  | inl e ↦ elim (Bool-cases (ltb_ℤ (seen_at y) (seen_at o))) [
    | inl g ↦ elim c [
      | inl (q, t) ↦
          rw (e, g)
            (inl (
              q,
              step_le (seen_at x) (seen_at y) (seen_at o) t
                  ((newer_or_not (seen_at y) (seen_at o)).0 g),
            ))
      | inr d ↦ rw (e, g) (inr d)
    ]
    | inr g ↦ rw (e, g) c
  ]
  | inr e ↦ elim c [ inl q ↦ rw e (inl q) | inr d ↦ rw e (inr (note_latest-Covers o x rest d)) ]
]

provider_latest-keeps :
    (x : Observation) (l : List Observation) (known : List Entry)
    → Covers x known
    → Covers x (provider_latest known l)
unfolding provider_latest
provider_latest-keeps x [] known c = c
provider_latest-keeps x (o ∷ os) known c =
    provider_latest-keeps x os (note_latest o known) (note_latest-Covers o x known c)

provider_latest-Covers :
    (l : List Observation) (known : List Entry) → All (λ x. Covers x (provider_latest known l)) l
unfolding provider_latest
provider_latest-Covers [] known = tt
provider_latest-Covers (o ∷ os) known = (
  provider_latest-keeps o os (note_latest o known) (note_latest-Covers_own o known),
  provider_latest-Covers os (note_latest o known),
)

-- An entry is an observation of the list under its provider's name.
abbrev IsEntry : List Observation → Entry → Type 0
IsEntry l (p, o) = (p ≡ lower o.provider) × Memᴰ o l

note_latest-IsEntry :
    (l : List Observation) (o : Observation) (known : List Entry)
    → Memᴰ o l
    → All (IsEntry l) known
    → All (IsEntry l) (note_latest o known)
unfolding note_latest
note_latest-IsEntry l o [] m h = ((refl, m), tt)
note_latest-IsEntry l o ((p, x) ∷ rest) m h = elim (Bool-cases (p == lower o.provider)) [
  | inl e ↦ elim (Bool-cases (ltb_ℤ (seen_at x) (seen_at o))) [
    | inl g ↦ rw (e, g) (((eq_iff p (lower o.provider)).0 e, m), h.1)
    | inr g ↦ rw (e, g) h
  ]
  | inr e ↦ rw e (h.0, note_latest-IsEntry l o rest m h.1)
]

provider_latest-IsEntry :
    (l : List Observation) (os : List Observation) (known : List Entry)
    → All (λ o. Memᴰ o l) os
    → All (IsEntry l) known
    → All (IsEntry l) (provider_latest known os)
unfolding provider_latest
provider_latest-IsEntry l [] known ms h = h
provider_latest-IsEntry l (o ∷ os) known ms h =
    provider_latest-IsEntry l os (note_latest o known) ms.1 (note_latest-IsEntry l o known ms.0 h)

first_mismatch-none :
    (s : CanonicalStatus) (known : List Entry)
    → first_mismatch s known ≡ none
    → All (λ (e : Entry). status_match s e.1.canonical_status ≡ true) known
unfolding first_mismatch
first_mismatch-none s [] h = tt
first_mismatch-none s ((p, o) ∷ rest) h = elim (Bool-cases (status_match s o.canonical_status)) [
  | inl e ↦ (e, first_mismatch-none s rest (rw e at h))
  | inr e ↦ absurd (cc (rw e at h))
]

-- An observation of the same provider, not older, with a status that is accepted.
pub record AcceptedSince (s : CanonicalStatus) (l : List Observation) (x : Observation)
    : Type 0 where
  pub later : Observation
  pub listed : Memᴰ later l
  pub same_provider : lower later.provider ≡ lower x.provider
  pub not_before : seen_at x ≤ℤ seen_at later
  pub accepted : status_match s later.canonical_status ≡ true

covered :
    (s : CanonicalStatus) (l : List Observation) (x : Observation) (known : List Entry)
    → Covers x known
    → All (IsEntry l) known
    → All (λ (e : Entry). status_match s e.1.canonical_status ≡ true) known
    → AcceptedSince s l x
covered s l x [] c i a = absurd c
covered s l x ((p, o) ∷ rest) (inl (q, t)) i a = record {
  later = o;
  listed = i.0.1;
  same_provider = sym i.0.0 ∙ q;
  not_before = t;
  accepted = a.0;
}
covered s l x ((p, o) ∷ rest) (inr c) i a = covered s l x rest c i.1 a.1

-- Where no provider's latest status mismatches, each observation has one of its provider that is not
-- older and has an accepted status.
pub first_mismatch-AcceptedSince :
    (s : CanonicalStatus) (l : List Observation)
    → first_mismatch s (provider_latest [] l) ≡ none
    → All (AcceptedSince s l) l
first_mismatch-AcceptedSince s l h =
    All-map
      (λ x c.
        covered s l x (provider_latest [] l) c (provider_latest-IsEntry l l [] (All-Memᴰ l) tt)
          (first_mismatch-none s (provider_latest [] l) h))
      l (provider_latest-Covers l [])
