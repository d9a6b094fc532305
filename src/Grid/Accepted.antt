-- ===== src/Grid/Accepted.antt =====
-- `grid_flow_points`: a series is accepted exactly if it is well formed.
use energy_optimizer.Prelude.{
  ℕ, ◌%◌, ◌≡◌, ◌<◌, sym, true, Option, List, [], arith, ◌==◌, nat_eq, Dict, lookup, is_some, Unique,
  ap, ◌∙◌, ok, >>=-eq-ok, raise_if-then, not, ◌||◌, subst, length, string_eq,
}
use energy_optimizer.Prelude.Sorting.{IsSorted-Unique}
use energy_optimizer.Hours.{
  Instant, hour, Datetime, aware, has_subhour_component, hourly, hourly-IsSorted,
}
use energy_optimizer.Floats.{FloatOps}
use energy_optimizer.Exclusions.{HourExclusion}
use energy_optimizer.Series.{
  GridFlowData, Label, grid_flow, not_aligned, not_hourly, empty_history, exclusion_mismatch,
}
use energy_optimizer.Records.{as_utc, index_exclusions, keys, same_members}
use energy_optimizer.Records.Members.{
  lacks_value, member-keys, member-keys_without_value, member-same_members,
}
use energy_optimizer.Records.Index.{by_hour, index_exclusions-Unique, Unique-index_exclusions}
use energy_optimizer.Records.Points.{as_utc-eq-ok, matched, unit_test, nonempty_test}
use energy_optimizer.Grid.{
  GridFlowPoint, flow_loop, grid_flow_points, keys_without_import, require_hourly_start,
}
use energy_optimizer.Grid.Points.{
  flows, keys_without_import-hourly, AreValidPairs, flow_loop-hourly, pairs-flow_loop,
}

module _ {Num : Type 0} where
  abbrev pub flows_of : Instant → GridFlowData Num → List (GridFlowPoint Num)
  flows_of start d = flows start (by_hour d.exclusions) d.import_kw d.export_kw

same_length_test : (n m : ℕ) → n ≡ m → (n == m) ≡ true
same_length_test n m h = ground arith

pub require_hourly_start-eq-ok :
    (d : Datetime) (label : Label) (t : Instant)
    → require_hourly_start d label ≡ ok t
    → (d ≡ aware t) × (t % hour ≡ 0)
unfolding require_hourly_start
require_hourly_start-eq-ok d label t e =
    let (u, u_eq, e1) = >>=-eq-ok (as_utc d) _ e in
    let (a, e2) = raise_if-then (has_subhour_component u) (not_aligned label) _ e1 in
    let same : u ≡ t = cc in
    (as_utc-eq-ok d u u_eq ∙ ap aware same, subst (λ v. v % hour ≡ 0) same (ground (arith, a)))

module _ {Num : Type 0} ⦃f : FloatOps Num⦄ where
  flow_loop-start :
      (start : Instant) (x : Dict Instant (HourExclusion Num)) (is es : List (Option Num))
      → AreValidPairs is es
      → flow_loop start x 0 is es [] ≡ ok (hourly start (flows start x is es))
  flow_loop-start start x is es h =
      flow_loop-hourly start x 0 is es [] tt h
      ∙ ap (λ t. ok (hourly t (flows t x is es))) (omega arith)

  -- A well-formed series that starts at `start`.
  pub record IsFlowHistory (start : Instant) (d : GridFlowData Num) : Type 0 where
    pub starts : d.start_time ≡ aware start
    pub aligned : start % hour ≡ 0
    pub minutes : d.interval_minutes ≡ 60
    pub in_kw : d.unit ≡ "kW"
    pub retrieved : (t : Instant) × (d.retrieved_at ≡ aware t)
    pub observed : (t : Instant) × (d.latest_observation_at ≡ aware t)
    pub nonempty : 0 < length d.import_kw
    pub same_length : length d.import_kw ≡ length d.export_kw
    pub pairs_valid : AreValidPairs d.import_kw d.export_kw
    pub one_exclusion : Unique (by_hour d.exclusions)
    -- the hours without values are those with an exclusion
    pub explained :
        (t : Instant)
        → lacks_value t (hourly start d.import_kw) ≡ is_some (lookup t (by_hour d.exclusions))

  -- A well-formed series is accepted: each of its hours has the import and the export of the hour,
  -- and an hour without them has the exclusion of the hour.
  pub grid_flow_points-IsFlowHistory :
      (start : Instant) (d : GridFlowData Num)
      → IsFlowHistory start d
      → grid_flow_points d ≡ ok (hourly start (flows_of start d))
  unfolding grid_flow_points require_hourly_start as_utc
  grid_flow_points-IsFlowHistory start d h =
      let points = hourly start (flows_of start d) in
      let exclusions = by_hour d.exclusions in
      let explained : same_members (keys_without_import points) (keys exclusions) ≡ true =
        ap (λ l. same_members l (keys exclusions))
          (keys_without_import-hourly start exclusions d.import_kw d.export_kw h.same_length)
        ∙ member-same_members _ _ (λ t.
          member-keys_without_value t (hourly start d.import_kw)
            (IsSorted-Unique _ (hourly-IsSorted start d.import_kw))
          ∙ h.explained t
          ∙ sym (member-keys t exclusions)) in
      rw (
        h.starts,
        h.aligned,
        h.minutes,
        unit_test d.unit h.in_kw,
        h.retrieved.1,
        h.observed.1,
        nonempty_test (length d.import_kw) h.nonempty,
        same_length_test _ _ h.same_length,
        index_exclusions-Unique grid_flow d.exclusions h.one_exclusion,
        flow_loop-start start exclusions d.import_kw d.export_kw h.pairs_valid,
        explained,
      )

  -- Only a well-formed series is accepted, with the points of its hours.
  pub IsFlowHistory-grid_flow_points :
      (d : GridFlowData Num) (p : Dict Instant (GridFlowPoint Num))
      → grid_flow_points d ≡ ok p
      → (start : Instant) × IsFlowHistory start d × (p ≡ hourly start (flows_of start d))
  unfolding grid_flow_points
  IsFlowHistory-grid_flow_points d p e =
      let (start, e0, e2) = >>=-eq-ok (require_hourly_start d.start_time grid_flow) _ e in
      let (b, e3) =
        raise_if-then (not (d.interval_minutes == 60) || not (d.unit == "kW"))
          (not_hourly grid_flow) _ e2 in
      let (retrieved, r, e4) = >>=-eq-ok (as_utc d.retrieved_at) _ e3 in
      let (observed, o, e5) = >>=-eq-ok (as_utc d.latest_observation_at) _ e4 in
      let (n, e6) =
        raise_if-then (length d.import_kw == 0 || not (length d.import_kw == length d.export_kw))
          (empty_history grid_flow) _ e5 in
      let (x, index, e7) = >>=-eq-ok (index_exclusions d.exclusions grid_flow) _ e6 in
      let (points, loop, e8) = >>=-eq-ok (flow_loop start x 0 d.import_kw d.export_kw []) _ e7 in
      let (m, e9) =
        raise_if-then (not (same_members (keys_without_import points) (keys x)))
          (exclusion_mismatch grid_flow) _ e8 in
      let (starts, aligned) = require_hourly_start-eq-ok d.start_time grid_flow start e0 in
      let pairs = pairs-flow_loop start x 0 d.import_kw d.export_kw [] points loop in
      let (unique, x_eq) = Unique-index_exclusions grid_flow d.exclusions x index in
      let size : length d.import_kw ≡ length d.export_kw = ground (arith, n) in
      let points_eq : points ≡ hourly start (flows start x d.import_kw d.export_kw) =
        cc (loop, flow_loop-start start x d.import_kw d.export_kw pairs) in
      let keys_eq =
        ap keys_without_import points_eq
        ∙ keys_without_import-hourly start x d.import_kw d.export_kw size in
      (
        start,
        record {
          starts = starts;
          aligned = aligned;
          minutes = ground (arith, b);
          in_kw = (string_eq.eqb_iff d.unit "kW").0 (ground (arith, b));
          retrieved = (retrieved, as_utc-eq-ok d.retrieved_at retrieved r);
          observed = (observed, as_utc-eq-ok d.latest_observation_at observed o);
          nonempty = ground (arith, n);
          same_length = size;
          pairs_valid = pairs;
          one_exclusion = unique;
          explained = λ t.
              matched t (hourly start d.import_kw) (by_hour d.exclusions)
                (IsSorted-Unique _ (hourly-IsSorted start d.import_kw))
                (subst (λ q. same_members q (keys (by_hour d.exclusions)) ≡ true) keys_eq
                  (subst (λ y. same_members (keys_without_import points) (keys y) ≡ true) x_eq
                    (ground (arith, m))));
        },
        cc (e9, points_eq, x_eq),
      )
