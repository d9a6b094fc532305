-- ===== src/Grid/Tests.antt =====
-- Tests of the grid-flow history, and the theorems at concrete series.
use mathlib.Core.Option.{some, none}
use energy_optimizer.Prelude.{◌≡◌, ◌*◌, refl, arith, ok, lookup, ℕ, if◌then◌else◌, leb}
use energy_optimizer.Hours.{Instant, hour, hourly}
use energy_optimizer.Samples.{hundredths, stored_flow, fetched_flow}
use energy_optimizer.Series.{GridFlowData}
use energy_optimizer.Grid.{grid_flow_points, merge_grid_flow_history, is_valid_flow}
use energy_optimizer.Grid.Accepted.{
  IsFlowHistory, flows_of, grid_flow_points-IsFlowHistory, IsFlowHistory-grid_flow_points,
}
use energy_optimizer.Grid.Laid.{point_at}
use energy_optimizer.Grid.First.{merge_grid_flow_history-first}
use energy_optimizer.Grid.Merge.{IsFlowMerged, merge_grid_flow_history-IsFlowMerged}

stored_flow-IsFlowHistory : IsFlowHistory (10 * hour) stored_flow
unfolding lookup hourly is_valid_flow
stored_flow-IsFlowHistory = record {
  starts = refl;
  aligned = omega arith;
  minutes = refl;
  in_kw = refl;
  retrieved = (13 * hour, refl);
  observed = (13 * hour, refl);
  nonempty = omega arith;
  same_length = refl;
  pairs_valid = (refl, (refl, tt));
  one_exclusion = (refl, tt);
  explained = λ t. ground arith;
}

fetched_flow-IsFlowHistory : IsFlowHistory (14 * hour) fetched_flow
unfolding lookup hourly is_valid_flow
fetched_flow-IsFlowHistory = record {
  starts = refl;
  aligned = omega arith;
  minutes = refl;
  in_kw = refl;
  retrieved = (15 * hour, refl);
  observed = (13 * hour, refl);
  nonempty = omega arith;
  same_length = refl;
  pairs_valid = (refl, tt);
  one_exclusion = tt;
  explained = λ t. ground arith;
}

grid_flow_points-IsFlowHistory_example :
    grid_flow_points stored_flow ≡ ok (hourly (10 * hour) (flows_of (10 * hour) stored_flow))
grid_flow_points-IsFlowHistory_example =
    grid_flow_points-IsFlowHistory (10 * hour) stored_flow stored_flow-IsFlowHistory

IsFlowHistory-grid_flow_points_example :
    (start : Instant) × IsFlowHistory start stored_flow
    × (hourly (10 * hour) (flows_of (10 * hour) stored_flow)
        ≡ hourly start (flows_of start stored_flow))
IsFlowHistory-grid_flow_points_example =
    IsFlowHistory-grid_flow_points stored_flow
      (hourly (10 * hour) (flows_of (10 * hour) stored_flow))
      (grid_flow_points-IsFlowHistory (10 * hour) stored_flow stored_flow-IsFlowHistory)

merge_grid_flow_history-IsFlowMerged_example :
    (merged : GridFlowData ℕ) × (merge_grid_flow_history (some stored_flow) fetched_flow
      ≡ ok merged)
    × IsFlowMerged (10 * hour) (14 * hour) stored_flow fetched_flow merged
merge_grid_flow_history-IsFlowMerged_example =
    merge_grid_flow_history-IsFlowMerged (10 * hour) (14 * hour) stored_flow fetched_flow
      stored_flow-IsFlowHistory fetched_flow-IsFlowHistory refl (omega arith)

merge_grid_flow_history-first_example :
    (merged : GridFlowData ℕ) × (merge_grid_flow_history none stored_flow ≡ ok merged)
    × IsFlowHistory (10 * hour) merged
    × ((t : Instant)
        → point_at (10 * hour) t merged
          ≡ (if leb (10 * hour) t then point_at (10 * hour) t stored_flow else none))
merge_grid_flow_history-first_example =
    merge_grid_flow_history-first (10 * hour) stored_flow stored_flow-IsFlowHistory
