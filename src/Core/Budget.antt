-- ===== src/Core/Budget.antt =====
-- The budget of a run: crates/wanax-core/src/budget.rs. Spending saturates at the ends of `i64`, turns at
-- the end of `u32`.
pub mod Spending
use Prim.Native.String.{◌++◌}
use wanax.Prelude.{
  ℕ, String, Bool, true, false, ◌||◌, ◌^◌, ◌+◌, ◌-◌, ltb, leb, if◌then◌else◌, List, [], ◌∷◌, Option,
}
use wanax.Prelude.Int.{ℤ, pos, negsuc, ◌+ℤ◌, leb_ℤ, ltb_ℤ}
use wanax.Core.Types.{FactoryRun}
use wanax.Core.Money.{estimate_cost_micros, format_usd_4}
use wanax.Core.Decimal.{print}
use wanax.Core.ErrorCode.{budget}
use wanax.Core.Error
use wanax.Core.Error.{WanaxError}
use wanax.Prelude.Text.{numeral}
use Prim.Native.String.{◌++◌}

pub record BudgetTick : Type 0 where
  pub spent_usd_micros : ℤ
  pub spent_inner_turns : ℕ
  pub cost_estimated : Bool
  pub exhausted : Bool

-- `i64::saturating_add`
unfoldable pub saturating_add : ℤ → ℤ → ℤ
unfolding ◌+ℤ◌
saturating_add a b =
    let sum = a +ℤ b in
    if ltb_ℤ (pos (2 ^ 63 - 1)) sum
    then pos (2 ^ 63 - 1)
    else if ltb_ℤ sum (negsuc (2 ^ 63 - 1))
    then negsuc (2 ^ 63 - 1)
    else sum

-- `u32::saturating_add`
unfoldable pub saturating_add_u32 : ℕ → ℕ → ℕ
saturating_add_u32 a b = if ltb (2 ^ 32 - 1) (a + b) then 2 ^ 32 - 1 else a + b

unfoldable pub would_exhaust_usd : FactoryRun → ℤ → Bool
unfolding saturating_add
would_exhaust_usd run additional =
    leb_ℤ run.max_usd_micros (saturating_add run.spent_usd_micros additional)

unfoldable pub is_usd_exhausted : FactoryRun → Bool
is_usd_exhausted run = leb_ℤ run.max_usd_micros run.spent_usd_micros

unfoldable pub is_turns_exhausted : FactoryRun → Bool
is_turns_exhausted run = leb run.max_inner_turns run.spent_inner_turns

unfoldable pub is_budget_exhausted : FactoryRun → Bool
unfolding is_usd_exhausted is_turns_exhausted
is_budget_exhausted run = is_usd_exhausted run || is_turns_exhausted run

unfoldable pub budget_error : FactoryRun → WanaxError
unfolding Error.new format_usd_4
budget_error run = Error.new budget (
    "budget exhausted usd="
    ++ (numeral (format_usd_4 run.spent_usd_micros)
        ++ (" turns=" ++ numeral (print run.spent_inner_turns))))

-- The report on a run as a charge has left it.
unfoldable pub tick : FactoryRun → Bool → BudgetTick
unfolding is_budget_exhausted
tick run estimated = record {
  spent_usd_micros = run.spent_usd_micros;
  spent_inner_turns = run.spent_inner_turns;
  cost_estimated = estimated;
  exhausted = is_budget_exhausted run;
}

-- Each charge returns the run that it has changed, and its report.
unfoldable pub charge_units : FactoryRun → ℕ → ℕ → ℤ → ℤ → Bool → FactoryRun × BudgetTick
unfolding tick saturating_add estimate_cost_micros
charge_units run units_in units_out rate_in rate_out estimated =
    let add = estimate_cost_micros units_in units_out rate_in rate_out in
    let charged = record run { spent_usd_micros = saturating_add run.spent_usd_micros add } in
    (charged, tick charged estimated)

unfoldable pub charge_estimated : FactoryRun → ℕ → ℕ → ℤ → ℤ → FactoryRun × BudgetTick
unfolding charge_units
charge_estimated run chars_in chars_out rate_in rate_out =
    charge_units run chars_in chars_out rate_in rate_out true

unfoldable pub charge_usd_micros : FactoryRun → ℤ → FactoryRun × BudgetTick
unfolding tick saturating_add
charge_usd_micros run usd_micros =
    let charged = record run {
      spent_usd_micros = saturating_add run.spent_usd_micros usd_micros;
    } in
    (charged, tick charged false)

unfoldable pub add_turns : FactoryRun → ℕ → FactoryRun × BudgetTick
unfolding tick saturating_add_u32
add_turns run n =
    let charged = record run { spent_inner_turns = saturating_add_u32 run.spent_inner_turns n } in
    (charged, tick charged false)
