-- ===== src/StateEngine/ArrivalOrder.antt =====
-- The order in which observations arrive does not matter: `sort_observations` of
-- src/state/engine.py brings every arrangement of the same observations into one order.
use Prim.Native.Nat.{Ordering}
use mathlib.Core.List.{Permᴰ}
use text.Mathlib.TextEquality.{path_by_compare}
use financial_control_engine.Base.{
  ◌≡◌, refl, ◌≢◌, sym, subst, ap, suc, length, ◌∙◌, inl, inr, true, false, List, [], ◌∷◌, none, ok,
  All, Bool-cases, arith, String,
}
use financial_control_engine.Base.Compare.{
  agrees_right, IsLawful, compare_ℤ-IsLawful, compare_text-IsLawful, lexicographic-IsLawful,
  on_key-IsLawful,
}
use financial_control_engine.Base.Int.{ℤ}
use financial_control_engine.StateEngine.Models.{
  EntityType, ProviderObservation, ReconstructedState,
}
use financial_control_engine.StateEngine.Ordering.{
  SortKey, sort_key, compare_keys, key_le, insert_observation, sort_observations,
}
use financial_control_engine.StateEngine.Execution.{after_scope_ok}
use financial_control_engine.StateEngine.Reconstruct.{
  scope_error, in_scope, conclude, after_scope, reconstruct_state,
}

compare_keys-IsLawful : IsLawful compare_keys
unfolding compare_keys
compare_keys-IsLawful =
    lexicographic-IsLawful (on_key-IsLawful (λ (k : SortKey). k.sequence) compare_ℤ-IsLawful) (
      lexicographic-IsLawful (on_key-IsLawful (λ (k : SortKey). k.provider_ts) compare_ℤ-IsLawful) (
        lexicographic-IsLawful
          (on_key-IsLawful (λ (k : SortKey). k.ingestion_time) compare_ℤ-IsLawful)
          (on_key-IsLawful (λ (k : SortKey). k.observation_id) compare_text-IsLawful)))

-- Keys that compare as equal belong to one observation.
compare_keys-eq :
    (a b : SortKey) → compare_keys a b ≡ Ordering.eq → a.observation_id ≡ b.observation_id
unfolding compare_keys
compare_keys-eq a b h = path_by_compare a.observation_id b.observation_id (ground arith)

module _ (x y : ProviderObservation) where
  key_le_total : key_le x y ≡ false → key_le y x ≡ true
  unfolding key_le
  key_le_total h = ground (arith, compare_keys-IsLawful.swaps (sort_key x) (sort_key y))

  key_le_antisym : key_le x y ≡ true → key_le y x ≡ true → x.id ≡ y.id
  unfolding key_le
  key_le_antisym h k =
      compare_keys-eq (sort_key x) (sort_key y)
        (ground (arith, compare_keys-IsLawful.swaps (sort_key x) (sort_key y)))

  key_le_trans :
      (z : ProviderObservation) → key_le x y ≡ true → key_le y z ≡ true → key_le x z ≡ true
  unfolding key_le
  key_le_trans z h k = ground (
    arith,
    compare_keys-IsLawful.chains (sort_key x) (sort_key y) (sort_key z),
    compare_keys-IsLawful.agrees (sort_key x) (sort_key y) (sort_key z),
    agrees_right compare_keys-IsLawful (sort_key x) (sort_key y) (sort_key z),
  )

-- Two observations with different ids may be inserted in either order.
insert_comm :
    (x y : ProviderObservation) (l : List ProviderObservation)
    → x.id ≢ y.id
    → insert_observation x (insert_observation y l) ≡ insert_observation y (insert_observation x l)
unfolding insert_observation
insert_comm x y [] n = ground (arith, key_le_total x y, key_le_antisym x y)
insert_comm x y (z ∷ zs) n = ground (
  arith,
  key_le_total x y,
  key_le_total x z,
  key_le_total y z,
  key_le_antisym x y,
  key_le_trans x y z,
  key_le_trans y x z,
  insert_comm x y zs n,
)

-- Every two of the observations have different ids.
abbrev pub DistinctIds : List ProviderObservation → Type 0
DistinctIds [] = Unit
DistinctIds (x ∷ xs) = All (λ (y : ProviderObservation). x.id ≢ y.id) xs × DistinctIds xs

All-perm {κ} :
    (P : ProviderObservation → Type κ) {l m : List ProviderObservation}
    → Permᴰ l m
    → All P l
    → All P m
All-perm P Permᴰ.nil h = h
All-perm P (Permᴰ.cons e p) h = (subst P e h.0, All-perm P p h.1)
All-perm P (Permᴰ.swap e f) h = (subst P f h.1.0, (subst P e h.0, h.1.1))
All-perm P (Permᴰ.trans p q) h = All-perm P q (All-perm P p h)

abbrev Apart : ProviderObservation → ProviderObservation → Type 0
Apart x y = x.id ≢ y.id

DistinctIds-perm : {l m : List ProviderObservation} → Permᴰ l m → DistinctIds l → DistinctIds m
DistinctIds-perm Permᴰ.nil h = h
DistinctIds-perm (Permᴰ.cons {l₂ = m} e p) h =
    (subst (λ x. All (Apart x) m) e (All-perm _ p h.0), DistinctIds-perm p h.1)
DistinctIds-perm (Permᴰ.swap {a} {b} {a'} {b'} {l} e f) h =
    subst (λ x. DistinctIds (x ∷ b' ∷ l)) f
      (subst (λ y. DistinctIds (b ∷ y ∷ l)) e ((λ k. h.0.0 (sym k), h.1.0), (h.0.1, h.1.1)))
DistinctIds-perm (Permᴰ.trans p q) h = DistinctIds-perm q (DistinctIds-perm p h)

sort_observations-perm :
    {l m : List ProviderObservation}
    → Permᴰ l m
    → DistinctIds l
    → sort_observations l ≡ sort_observations m
unfolding sort_observations
sort_observations-perm Permᴰ.nil h = refl
sort_observations-perm (Permᴰ.cons e p) h = cc (e, sort_observations-perm p h.1)
sort_observations-perm (Permᴰ.swap {a} {b} {l = l} e f) h =
    cc (e, f, insert_comm a b (sort_observations l) h.0.0)
sort_observations-perm (Permᴰ.trans p q) h =
    sort_observations-perm p h ∙ sort_observations-perm q (DistinctIds-perm p h)

-- No observation is out of scope exactly when each of them is in scope.
scope_error-none :
    (t : EntityType) (i : String) (l : List ProviderObservation)
    → scope_error t i l ≡ none
    → All (λ o. in_scope t i o ≡ true) l
unfolding scope_error
scope_error-none t i [] h = tt
scope_error-none t i (o ∷ os) h = elim (Bool-cases (in_scope t i o)) [
  | inl e ↦ (e, scope_error-none t i os (rw e at h))
  | inr e ↦ cc (rw e at h)
]

none-scope_error :
    (t : EntityType) (i : String) (l : List ProviderObservation)
    → All (λ o. in_scope t i o ≡ true) l
    → scope_error t i l ≡ none
unfolding scope_error
none-scope_error t i [] h = refl
none-scope_error t i (o ∷ os) h = rw h.0 (none-scope_error t i os h.1)

length-perm : {l m : List ProviderObservation} → Permᴰ l m → length l ≡ length m
length-perm Permᴰ.nil = refl
length-perm (Permᴰ.cons e p) = ap suc (length-perm p)
length-perm (Permᴰ.swap e f) = refl
length-perm (Permᴰ.trans p q) = length-perm p ∙ length-perm q

after_scope_perm :
    (t : EntityType) (i : String) (at : ℤ) (l m : List ProviderObservation)
    → Permᴰ l m
    → DistinctIds l
    → after_scope none t i l at ≡ after_scope none t i m at
after_scope_perm t i at [] [] p d = refl
after_scope_perm t i at [] (y ∷ ys) p d = absurd (omega (arith, length-perm p))
after_scope_perm t i at (x ∷ xs) [] p d = absurd (omega (arith, length-perm p))
after_scope_perm t i at (x ∷ xs) (y ∷ ys) p d =
    ap (λ s. ok (conclude t i at s)) (sort_observations-perm p d)

-- The state reconstructed from observations with different ids is the same for every order of their
-- arrival.
pub reconstruct_state-perm :
    (entity_type : EntityType) (entity_id : String) (at : ℤ) {l m : List ProviderObservation}
    {r : ReconstructedState}
    → Permᴰ l m
    → DistinctIds l
    → reconstruct_state entity_type entity_id l at ≡ ok r
    → reconstruct_state entity_type entity_id m at ≡ ok r
unfolding reconstruct_state
reconstruct_state-perm entity_type entity_id at {l} {m} p d done =
    let in_l : scope_error entity_type entity_id l ≡ none =
      (after_scope_ok (scope_error entity_type entity_id l) entity_type entity_id l at done).0 in
    let in_m =
      none-scope_error entity_type entity_id m
        (All-perm _ p (scope_error-none entity_type entity_id l in_l)) in
    rw in_m (sym (after_scope_perm entity_type entity_id at l m p d) ∙ (rw in_l at done))
