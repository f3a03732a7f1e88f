-- ===== src/StateEngine/Ordering.antt =====
-- `TemporalOrderingPolicy` of src/state/engine.py: observations are sorted by a key of four parts.
use Prim.Native.Nat.{Ordering}
use Prim.Native.String.{compare as compare_text}
use financial_control_engine.Base.{
  String, Bool, true, false, List, [], ◌∷◌, Option, none, some, if◌then◌else◌,
}
use financial_control_engine.Base.Compare.{compare_ℤ, lexicographic}
use financial_control_engine.Base.Int.{ℤ, pos}
use financial_control_engine.StateEngine.Models.{
  ProviderTimestamp, unix, iso, malformed, ProviderObservation,
}

-- `(provider_sequence, provider_ts, ingestion_time, str(obs.id))`
pub record SortKey : Type 0 where
  pub sequence : ℤ
  pub provider_ts : ℤ
  pub ingestion_time : ℤ
  pub observation_id : String

abbrev pub or_zero : Option ℤ → ℤ
or_zero none = pos 0
or_zero (some n) = n

-- What is missing or malformed counts as 0.
abbrev pub timestamp_value : Option ProviderTimestamp → ℤ
timestamp_value none = pos 0
timestamp_value (some (unix t)) = t
timestamp_value (some (iso t)) = t
timestamp_value (some malformed) = pos 0

-- `sort_key`
unfoldable pub sort_key : ProviderObservation → SortKey
sort_key obs = record {
  sequence = or_zero obs.payload.provider_sequence;
  provider_ts = timestamp_value obs.payload.provider_timestamp;
  ingestion_time = or_zero obs.created_at;
  observation_id = obs.id;
}

-- The order of tuples: the first part that differs decides.
unfoldable pub compare_keys : SortKey → SortKey → Ordering
compare_keys =
    lexicographic (λ a b. compare_ℤ a.sequence b.sequence)
      (lexicographic (λ a b. compare_ℤ a.provider_ts b.provider_ts)
        (lexicographic (λ a b. compare_ℤ a.ingestion_time b.ingestion_time)
          (λ a b. compare_text a.observation_id b.observation_id)))

unfoldable pub key_le : ProviderObservation → ProviderObservation → Bool
unfolding sort_key compare_keys
key_le x y = elim (compare_keys (sort_key x) (sort_key y)) [ Ordering.gt ↦ false | _ ↦ true ]

unfoldable pub insert_observation :
    ProviderObservation → List ProviderObservation → List ProviderObservation
unfolding key_le
insert_observation x [] = x ∷ []
insert_observation x (y ∷ ys) = if key_le x y then x ∷ y ∷ ys else y ∷ insert_observation x ys

-- `sorted(observations, key=sort_key)`: stable, by insertion from the right.
unfoldable pub sort_observations : List ProviderObservation → List ProviderObservation
unfolding insert_observation
sort_observations [] = []
sort_observations (x ∷ xs) = insert_observation x (sort_observations xs)
