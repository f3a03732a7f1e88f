-- ===== src/Policy/Selection.antt =====
-- Which observation `_select_authoritative_observation` of src/engine/policy.py answers.
use financial_control_engine.Base.{
  String, ◌≡◌, refl, sym, true, false, List, [], ◌∷◌, any, keep, some, ok, inl, inr, All,
  Bool-cases, arith, some_injective, ok_injective,
}
use financial_control_engine.Base.Int.{ℤ, ◌≤ℤ◌, leb_ℤ, eq_ℤ_iff, int_laws}
use mathlib.Core.List.{Memᴰ}
use financial_control_engine.Base.Sorting.{
  insert_by, All-insert_by, All-sort_by, All-sorted_by, All-map, All-Memᴰ, All-keep, All-kept,
  kept_pass,
}
use financial_control_engine.Core.Models.{CanonicalStatus, status_eq, Datetime, Observation}
use financial_control_engine.Policy.Evaluate.{
  obs_key, of_provider, not_older, sort_newest, contradicts, newest_of,
  select_authoritative_observation,
}

-- The first of the list is not older than the others.
abbrev Descending : List Observation → Type 0
Descending [] = Unit
Descending (x ∷ xs) = All (λ y. obs_key y ≤ℤ obs_key x) xs × Descending xs

leb_ℤ_cases : (a b : ℤ) → (leb_ℤ a b ≡ true → a ≤ℤ b) × (leb_ℤ a b ≡ false → b ≤ℤ a)
leb_ℤ_cases a b = (λ h. ground arith, λ h. ground arith)

le_trans : (a b c : ℤ) → a ≤ℤ b → b ≤ℤ c → a ≤ℤ c
le_trans a b c h k = omega int_laws

le_refl : (a : ℤ) → a ≤ℤ a
le_refl a = omega int_laws

insert-Descending :
    (o : Observation) (l : List Observation) → Descending l → Descending (insert_by not_older o l)
insert-Descending o [] d = (tt, tt)
insert-Descending o (x ∷ xs) d = elim (Bool-cases (not_older o x)) [
  | inl e ↦
      let below = (leb_ℤ_cases (obs_key x) (obs_key o)).0 e in
      rw e
        ((below, All-map (λ y h. le_trans (obs_key y) (obs_key x) (obs_key o) h below) xs d.0), d)
  | inr e ↦ rw e (
    All-insert_by not_older (λ y. obs_key y ≤ℤ obs_key x) o xs
        ((leb_ℤ_cases (obs_key x) (obs_key o)).1 e) d.0,
    insert-Descending o xs d.1,
  )
]

sort-Descending : (l : List Observation) → Descending (sort_newest l)
sort-Descending [] = tt
sort-Descending (x ∷ xs) = insert-Descending x (sort_newest xs) (sort-Descending xs)

-- An observation that is the newest of its provider, and whose status all others of that instant have.
pub record IsNewest (provider : String) (observations : List Observation) (o : Observation)
    : Type 0 where
  pub recorded : Memᴰ o observations
  pub of_it : of_provider provider o ≡ true
  pub not_older : All (λ x. of_provider provider x ≡ true → obs_key x ≤ℤ obs_key o) observations
  pub agreeing :
      All
        (λ x.
          of_provider provider x ≡ true
          → obs_key x ≡ obs_key o
          → x.canonical_status ≡ o.canonical_status)
        observations

pub status_eq_iff : (a b : CanonicalStatus) → status_eq a b ≡ true → a ≡ b
status_eq_iff a b h = ground arith

agrees :
    (o x : Observation)
    → contradicts o x ≡ false
    → obs_key x ≡ obs_key o
    → x.canonical_status ≡ o.canonical_status
agrees o x h e = elim (Bool-cases (status_eq x.canonical_status o.canonical_status)) [
  | inl s ↦ status_eq_iff x.canonical_status o.canonical_status s
  | inr s ↦ cc ((eq_ℤ_iff (obs_key x) (obs_key o)).1 e, s, h)
]

none_contradict :
    (o : Observation) (l : List Observation)
    → any (contradicts o) l ≡ false
    → All (λ x. obs_key x ≡ obs_key o → x.canonical_status ≡ o.canonical_status) l
none_contradict o [] h = tt
none_contradict o (x ∷ xs) h = elim (Bool-cases (contradicts o x)) [
  | inl e ↦ absurd (cc (rw e at h))
  | inr e ↦ ((λ k. agrees o x e k), none_contradict o xs (rw e at h))
]

newest_of_ok :
    (show : Datetime → String) (provider : String) (l : List Observation) {o : Observation}
    → newest_of show provider l ≡ ok (some o)
    → (xs : List Observation) × (l ≡ o ∷ xs) × (any (contradicts o) xs ≡ false)
newest_of_ok show provider [] h = cc
newest_of_ok show provider (x ∷ xs) {o} h = elim (Bool-cases (any (contradicts x) xs)) [
  | inl e ↦ absurd (cc (rw e at h))
  | inr e ↦ let s : o ≡ x = some_injective (sym (ok_injective (rw e at h))) in rw s (xs, refl, e)
]

-- The observation that is selected is recorded, of the provider, not older than any other of the
-- provider, and of the same status as every other of its instant.
pub select-IsNewest :
    (show : Datetime → String) (observations : List Observation) (provider : String)
    {o : Observation}
    → select_authoritative_observation show observations provider ≡ ok (some o)
    → IsNewest provider observations o
unfolding select_authoritative_observation
select-IsNewest show observations provider {o} h =
    let kept = keep (of_provider provider) observations in
    let (xs, is, calm) = newest_of_ok show provider (sort_newest kept) h in
    let order : Descending (o ∷ xs) = rw is at (sort-Descending kept) in
    let there : All (λ x. Memᴰ x observations) (o ∷ xs) = rw is at (
      All-sort_by not_older (λ x. Memᴰ x observations) kept
        (All-keep (of_provider provider) (λ x. Memᴰ x observations) observations
          (All-Memᴰ observations))) in
    let its : All (λ x. of_provider provider x ≡ true) (o ∷ xs) = rw is at (
      All-sort_by not_older (λ x. of_provider provider x ≡ true) kept
        (kept_pass (of_provider provider) observations)) in
    record {
      recorded = there.0;
      of_it = its.0;
      not_older =
          All-kept (of_provider provider) (λ x. obs_key x ≤ℤ obs_key o) observations
            (All-sorted_by not_older (λ x. obs_key x ≤ℤ obs_key o) kept
              (rw is (le_refl (obs_key o), order.0)));
      agreeing =
          All-kept (of_provider provider)
            (λ x. obs_key x ≡ obs_key o → x.canonical_status ≡ o.canonical_status) observations
            (All-sorted_by not_older
              (λ x. obs_key x ≡ obs_key o → x.canonical_status ≡ o.canonical_status) kept
              (rw is ((λ _. refl), none_contradict o xs calm)));
    }
