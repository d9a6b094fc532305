-- ===== src/Storage/Samples.antt =====
-- A small format, which has texts for the records of two hours.
use energy_optimizer.Prelude.{
  ℕ, ◌*◌, String, Bool, false, Option, none, some, [], ◌∷◌, ◌==◌, nat_eq, string_eq, if◌then◌else◌,
}
use energy_optimizer.Hours.{Instant, hour, Datetime, aware}
use energy_optimizer.Bytes.{Bytes}
use energy_optimizer.Json.{Json, null, number, text, object, end, field, get, Format}
use energy_optimizer.Ndjson.{HouseholdLoadRecord}

abbrev pub iso : Instant → String
iso t = if t == 10 * hour then "10" else if t == 11 * hour then "11" else "12"

abbrev pub from_iso : String → Option Datetime
from_iso s =
    if s == "10"
    then some (aware (10 * hour))
    else if s == "11"
    then some (aware (11 * hour))
    else if s == "12"
    then some (aware (12 * hour))
    else none

-- The JSON value of an hour's record.
abbrev pub hour_value : String → ℕ → String → Json ℕ
hour_value at load seen = object (
    field "timestamp" (text at) (
      field "load_kw" (number load) (
        field "schema_version" (text "1") (
          field "unit" (text "kW") (
            field "source"
              (object (field "provider" (text "home-assistant") (field "entity_id" null end)))
              (field "retrieved_at" (text seen)
                (field "latest_observation_at" (text seen) end)))))))

abbrev pub is_load : ℕ → Option (Json ℕ) → Bool
is_load n (some (number m)) = m == n
is_load n _ = false

-- {} and { }
unfoldable pub sample_dumps : Json ℕ → Bytes
sample_dumps (object fields) =
    if is_load 50 (get "load_kw" fields) then b'{' ∷ b'}' ∷ [] else b'{' ∷ b' ' ∷ b'}' ∷ []
sample_dumps _ = []

abbrev pub sample_loads : Bytes → Option (Json ℕ)
sample_loads (_ ∷ b ∷ []) = if b == b'}' then some (hour_value "10" 50 "11") else none
sample_loads (_ ∷ _ ∷ b ∷ []) = if b == b'}' then some (hour_value "11" 70 "12") else none
sample_loads _ = none

abbrev pub sample_format : Format ℕ
sample_format = record {
  dumps = sample_dumps;
  loads = sample_loads;
  isoformat = iso;
  fromisoformat = from_iso;
  dump_exclusion = λ _. null;
  read_exclusion = λ _. none;
}

-- The records of the hours 10 and 11.
abbrev pub hour_record : Instant → ℕ → Instant → HouseholdLoadRecord ℕ
hour_record at load seen = record {
  timestamp = at;
  load_kw = some load;
  exclusion = none;
  quality = none;
  schema_version = "1";
  unit = "kW";
  source = record { provider = "home-assistant"; entity_id = none };
  retrieved_at = seen;
  latest_observation_at = seen;
}
