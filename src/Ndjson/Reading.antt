-- ===== src/Ndjson/Reading.antt =====
-- `parse_household_history`: what a file that is read gives, whatever its bytes are.
use energy_optimizer.Prelude.{
  Bool, true, false, string_eq, option_eq, option_beq_iff, Option, none, some, List, ◌∷◌, [], ◌==◌,
  nat_eq, ◌≡◌, refl, arith, length, inl, inr, Bool-cases, Result, ok, err, All, subst,
}
use energy_optimizer.Floats.{FloatOps}
use energy_optimizer.Series.{StoreError}
use energy_optimizer.Bytes.{Bytes, strip, strip_right, is_line_end}
use energy_optimizer.Json.{Format, Json}
use energy_optimizer.Ndjson.{HouseholdLoadRecord, RecordSource, ValidationError}
use energy_optimizer.Ndjson.Decode.{decode}
use energy_optimizer.Ndjson.Parse.{
  Reading, behind, decoded, read_value, read_on, parse_line, parse_lines, same_record_source,
  is_of_source,
}
use energy_optimizer.Ndjson.Valid.{IsRecord}
use energy_optimizer.Ndjson.Validated.{decode-IsRecord}

module _ {Num : Type 0} ⦃f : FloatOps Num⦄ (format : Format Num) where
  decoded-IsRecord :
      (value : Json Num) (m : Result ValidationError (HouseholdLoadRecord Num))
      (r : HouseholdLoadRecord Num)
      → decode format value ≡ m
      → decoded format m ≡ ok (some r)
      → IsRecord r
  decoded-IsRecord value (ok q) r e h =
      let same : q ≡ r = ground (arith, h) in
      subst (λ (x : HouseholdLoadRecord Num). IsRecord x) same (decode-IsRecord format value q e)
  decoded-IsRecord value (err x) r e h = cc

  read_value-IsRecord :
      (cut_off : Bool) (o : Option (Json Num)) (r : HouseholdLoadRecord Num)
      → read_value format cut_off o ≡ ok (some r)
      → IsRecord r
  read_value-IsRecord cut_off none r e = ground (arith, e)
  read_value-IsRecord cut_off (some value) r e =
      decoded-IsRecord value (decode format value) r refl e

  parse_line-IsRecord :
      (line : Bytes) (r : HouseholdLoadRecord Num)
      → parse_line format line ≡ ok (some r)
      → IsRecord r
  unfolding parse_line
  parse_line-IsRecord line r e =
      elim (Bool-cases (length (strip (strip_right is_line_end line)) == 0)) [
        | inl blank ↦ ground (arith, rw blank at e)
        | inr full ↦
            read_value-IsRecord _ (format.loads (strip_right is_line_end line)) r (rw full at e)
      ]

  read_on-IsRecord :
      (line : Bytes) (o : Result StoreError (Option (HouseholdLoadRecord Num)))
      (m : Result StoreError (Reading Num)) (reading : Reading Num)
      → parse_line format line ≡ o
      → ((rest : Reading Num) → m ≡ ok rest → All (λ r. IsRecord r) rest.records)
      → read_on o m ≡ ok reading
      → All (λ r. IsRecord r) reading.records
  read_on-IsRecord line (err x) m reading e h g = cc
  read_on-IsRecord line (ok none) m reading e h g =
      let same : record { records = []; incomplete = true } ≡ reading = ground (arith, g) in
      subst (λ (q : Reading Num). All (λ r. IsRecord r) q.records) same tt
  read_on-IsRecord line (ok (some r)) (err x) reading e h g = cc
  read_on-IsRecord line (ok (some r)) (ok rest) reading e h g =
      let same : behind r rest ≡ reading = ground (arith, g) in
      subst (λ (q : Reading Num). All (λ r. IsRecord r) q.records) same
        (parse_line-IsRecord line r e, h rest refl)

  -- Every record that is read is valid.
  pub parse_lines-IsRecord :
      (lines : List Bytes) (reading : Reading Num)
      → parse_lines format lines ≡ ok reading
      → All (λ r. IsRecord r) reading.records
  unfolding parse_lines
  parse_lines-IsRecord [] reading e =
      let same : record { records = []; incomplete = false } ≡ reading = ground (arith, e) in
      subst (λ (q : Reading Num). All (λ r. IsRecord r) q.records) same tt
  parse_lines-IsRecord (line ∷ lines) reading e =
      read_on-IsRecord line (parse_line format line) (parse_lines format lines) reading refl
        (λ rest e'. parse_lines-IsRecord lines rest e') e

same_record_source-eq : (a b : RecordSource) → same_record_source a b ≡ true → a ≡ b
same_record_source-eq a b h = cc (
  (string_eq.eqb_iff a.provider b.provider).0 (ground (arith, h)),
  (option_beq_iff string_eq a.entity_id b.entity_id).0 (ground (arith, h)),
)

pub All-is_of_source :
    {Num : Type 0} (source : RecordSource) (rs : List (HouseholdLoadRecord Num))
    → is_of_source source rs ≡ true
    → All (λ r. r.source ≡ source) rs
All-is_of_source source [] h = tt
All-is_of_source source (r ∷ rs) h = (
  same_record_source-eq r.source source (ground (arith, h)),
  All-is_of_source source rs (ground (arith, h)),
)

pub All-source :
    {Num : Type 0} (s t : RecordSource) (rs : List (HouseholdLoadRecord Num))
    → t ≡ s
    → All (λ q. q.source ≡ t) rs
    → All (λ q. q.source ≡ s) rs
All-source s t rs e h = subst (λ x. All (λ q. q.source ≡ x) rs) e h
