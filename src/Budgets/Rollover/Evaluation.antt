-- ===== src/Budgets/Rollover/Evaluation.antt =====
-- What a run of `computeRolloverBudget` unfolds, for its tests.
use sumurai.Budgets.Evaluation.{spending}
use sumurai.Budgets.Rollover.{
  is_full_year, multiplier, month_start, month_end, year_start, default_start, start_of_parts,
  start_of_time, prior_from, prior_year, prior_window, prior_months_count, percentage, carryover,
  finish, prior_end, prior_spent, rollover_start, compute_rollover_budget,
}

unfoldable pub rollovers : Unit {0}
unfolding spending is_full_year multiplier month_start month_end year_start default_start
    start_of_parts start_of_time prior_from prior_year prior_window prior_months_count percentage
    carryover finish prior_end prior_spent rollover_start compute_rollover_budget
rollovers = tt
