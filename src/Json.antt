-- ===== src/Json.antt =====
-- JSON values, and the texts that stand for them. The program leaves the texts to the `json`
-- module, to `datetime.isoformat` and to pydantic's adapter of an exclusion; they are an argument
-- of what reads and writes the files, with the laws that the round trip rests on.
use energy_optimizer.Prelude.{
  String, Bool, Option, none, some, string_eq, ◌==◌, if◌then◌else◌, List, ◌∷◌, [],
}
use energy_optimizer.Bytes.{Bytes}
use energy_optimizer.Hours.{Instant, Datetime}
use energy_optimizer.Exclusions.{HourExclusion}

mutual
  pub data Json (Num : Type 0) : Type 0 where
    null : Json Num
    bool : Bool → Json Num
    number : Num → Json Num
    text : String → Json Num
    array : Items Num → Json Num
    object : Fields Num → Json Num

  pub data Items (Num : Type 0) : Type 0 where
    nil : Items Num
    item : Json Num → Items Num → Items Num

  pub data Fields (Num : Type 0) : Type 0 where
    end : Fields Num
    field : String → Json Num → Fields Num → Fields Num

module _ {Num : Type 0} where
  -- `value.get(key)` of a decoded object; its keys differ
  unfoldable pub get : String → Fields Num → Option (Json Num)
  get key end = none
  get key (field k v rest) = if k == key then some v else get key rest

  -- the keys of a decoded object
  abbrev pub field_names : Fields Num → List String
  field_names end = []
  field_names (field k v rest) = k ∷ field_names rest

pub record Format (Num : Type 0) : Type 0 where
  -- `json.dumps(payload, separators=(",", ":")).encode()`
  pub dumps : Json Num → Bytes
  -- `json.loads(content)`; `none` is a `ValueError` or a `UnicodeDecodeError`
  pub loads : Bytes → Option (Json Num)
  -- `datetime.isoformat` and `datetime.fromisoformat`; `none` is a `ValueError`
  pub isoformat : Instant → String
  pub fromisoformat : String → Option Datetime
  -- `_EXCLUSION_ADAPTER.dump_python(exclusion, mode="json")`, and pydantic's reading of it
  pub dump_exclusion : HourExclusion Num → Json Num
  pub read_exclusion : Json Num → Option (HourExclusion Num)
