-- ===== src/Ndjson/Joined.antt =====
-- Dictionaries, records and exclusions that are joined, and when two of them are one.
use energy_optimizer.Prelude.{
  ◌≡◌, refl, sym, ap, ◌∙◌, List, [], ◌∷◌, ◌++◌, map, nat_eq, string_eq, option_eq, Dict, lookup,
  insert, update,
}
use energy_optimizer.Prelude.Sorting.{IsSorted, sorted_ext}
use energy_optimizer.Hours.{Instant, hourly, hourly-IsSorted, values}
use energy_optimizer.Hours.Ranges.{values-hourly}
use energy_optimizer.Exclusions.{HourExclusion}
use energy_optimizer.Records.Index.{by_hour}
use energy_optimizer.Ndjson.{HouseholdLoadRecord}
use energy_optimizer.Ndjson.Parse.{last_record}

pub update-append :
    {V : Type 0} (d a b : Dict Instant V) → update d (a ++ b) ≡ update (update d a) b
unfolding update
update-append d [] b = refl
update-append d ((k, v) ∷ a) b = update-append (insert k v d) a b

pub last_record-append :
    {Num : Type 0} (r s : HouseholdLoadRecord Num) (rs ss : List (HouseholdLoadRecord Num))
    → last_record r (rs ++ s ∷ ss) ≡ last_record s ss
last_record-append r s [] ss = refl
last_record-append r s (q ∷ rs) ss = last_record-append q s rs ss

list_of_by_hour : {Num : Type 0} (l : List (HourExclusion Num)) → map (λ e. e.1) (by_hour l) ≡ l
list_of_by_hour [] = refl
list_of_by_hour (x ∷ l) = ap (λ y. x ∷ y) (list_of_by_hour l)

-- Exclusions in the order of their hours are determined by these.
pub by_hour_ext :
    {Num : Type 0} (l m : List (HourExclusion Num))
    → IsSorted (by_hour l)
    → IsSorted (by_hour m)
    → ((t : Instant) → lookup t (by_hour l) ≡ lookup t (by_hour m))
    → l ≡ m
by_hour_ext l m hl hm same =
    sym (list_of_by_hour l)
    ∙ ap (map (λ e. e.1)) (sorted_ext (by_hour l) (by_hour m) hl hm same)
    ∙ list_of_by_hour m

pub hourly_ext :
    {V : Type 0} (s : Instant) (v w : List V)
    → ((t : Instant) → lookup t (hourly s v) ≡ lookup t (hourly s w))
    → v ≡ w
hourly_ext s v w same =
    sym (values-hourly s v)
    ∙ ap values (sorted_ext _ _ (hourly-IsSorted s v) (hourly-IsSorted s w) same)
    ∙ values-hourly s w
