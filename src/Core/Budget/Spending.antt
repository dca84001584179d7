-- ===== src/Core/Budget/Spending.antt =====
-- What the charges of budget.rs do to a run over its whole life.
use wanax.Prelude.{ℕ, ◌^◌, ◌≤◌, ◌<◌, ◌≡◌, refl, Bool, true, List, [], ◌∷◌, arith}
use wanax.Prelude.Int.{ℤ, pos, ◌+ℤ◌, ◌≤ℤ◌}
use wanax.Core.Types.{FactoryRun}
use wanax.Core.Money.{estimate_cost_micros}
use wanax.Core.Money.Cost.{IsI64}
use wanax.Core.Budget.{
  saturating_add, saturating_add_u32, is_budget_exhausted, is_usd_exhausted, is_turns_exhausted,
  charge_units, charge_usd_micros, add_turns, BudgetTick,
}

-- One charge, as the engine makes it.
pub data Charge : Type 0 where
  units : ℕ → ℕ → ℤ → ℤ → Bool → Charge
  usd : ℤ → Charge
  turns : ℕ → Charge

unfoldable pub charge : FactoryRun → Charge → FactoryRun × BudgetTick
charge run (units i o rate_in rate_out estimated) = charge_units run i o rate_in rate_out estimated
charge run (usd amount) = charge_usd_micros run amount
charge run (turns n) = add_turns run n

unfoldable pub charge_all : FactoryRun → List Charge → FactoryRun
charge_all run [] = run
charge_all run (c ∷ cs) = charge_all (charge run c).0 cs

-- A charge that takes nothing back.
unfoldable pub IsCost : Charge → Type 0
IsCost (units i o rate_in rate_out estimated) = pos 0 ≤ℤ estimate_cost_micros i o rate_in rate_out
IsCost (usd amount) = pos 0 ≤ℤ amount
IsCost (turns n) = Unit

unfoldable pub AreCosts : List Charge → Type 0
unfolding IsCost
AreCosts [] = Unit
AreCosts (c ∷ cs) = IsCost c × AreCosts cs

saturating_add-IsI64 : (a b : ℤ) → IsI64 (saturating_add a b)
unfolding saturating_add
saturating_add-IsI64 a b = ground arith

saturating_add-le : (a b : ℤ) → IsI64 a → pos 0 ≤ℤ b → a ≤ℤ saturating_add a b
unfolding saturating_add ◌+ℤ◌
saturating_add-le a b h k = ground arith

saturating_add_u32-le : (a b : ℕ) → a < 2 ^ 32 → a ≤ saturating_add_u32 a b
unfolding saturating_add_u32
saturating_add_u32-le a b h = ground arith

saturating_add_u32-lt : (a b : ℕ) → a < 2 ^ 32 → saturating_add_u32 a b < 2 ^ 32
unfolding saturating_add_u32
saturating_add_u32-lt a b h = ground arith

-- The counters of a run hold in their machine types.
pub record IsCounted (run : FactoryRun) : Type 0 where
  pub spent : IsI64 run.spent_usd_micros
  pub turns : run.spent_inner_turns < 2 ^ 32

charge-IsCounted : (run : FactoryRun) (c : Charge) → IsCounted run → IsCounted (charge run c).0
unfolding charge charge_units charge_usd_micros add_turns
charge-IsCounted run (units i o rate_in rate_out estimated) h = record {
  spent = saturating_add-IsI64 run.spent_usd_micros (estimate_cost_micros i o rate_in rate_out);
  turns = h.turns;
}
charge-IsCounted run (usd amount) h = record {
  spent = saturating_add-IsI64 run.spent_usd_micros amount;
  turns = h.turns;
}
charge-IsCounted run (turns n) h = record {
  spent = h.spent;
  turns = saturating_add_u32-lt run.spent_inner_turns n h.turns;
}

-- What a charge keeps, and what it may only raise.
pub record IsRaised (before after : FactoryRun) : Type 0 where
  pub max_usd : after.max_usd_micros ≡ before.max_usd_micros
  pub max_turns : after.max_inner_turns ≡ before.max_inner_turns
  pub spent : before.spent_usd_micros ≤ℤ after.spent_usd_micros
  pub turns : before.spent_inner_turns ≤ after.spent_inner_turns

charge-IsRaised :
    (run : FactoryRun) (c : Charge) → IsCounted run → IsCost c → IsRaised run (charge run c).0
unfolding charge charge_units charge_usd_micros add_turns IsCost
charge-IsRaised run (units i o rate_in rate_out estimated) h cost = record {
  max_usd = refl;
  max_turns = refl;
  spent =
      saturating_add-le run.spent_usd_micros (estimate_cost_micros i o rate_in rate_out) h.spent
        cost;
  turns = ground arith;
}
charge-IsRaised run (usd amount) h cost = record {
  max_usd = refl;
  max_turns = refl;
  spent = saturating_add-le run.spent_usd_micros amount h.spent cost;
  turns = ground arith;
}
charge-IsRaised run (turns n) h cost = record {
  max_usd = refl;
  max_turns = refl;
  spent = ground arith;
  turns = saturating_add_u32-le run.spent_inner_turns n h.turns;
}

exhausted_raised :
    (before after : FactoryRun)
    → IsRaised before after
    → is_budget_exhausted before ≡ true
    → is_budget_exhausted after ≡ true
unfolding is_budget_exhausted is_usd_exhausted is_turns_exhausted
exhausted_raised before after h spent = ground (arith, h.max_usd, h.max_turns, h.spent, h.turns)

-- From counters in their machine types, once the budget is exhausted, no sequence of charges that take
-- nothing back restores it.
pub exhausted-charge_all :
    (run : FactoryRun) (cs : List Charge)
    → IsCounted run
    → AreCosts cs
    → is_budget_exhausted run ≡ true
    → is_budget_exhausted (charge_all run cs) ≡ true
unfolding charge_all AreCosts
exhausted-charge_all run [] h costs spent = spent
exhausted-charge_all run (c ∷ cs) h costs spent =
    exhausted-charge_all (charge run c).0 cs (charge-IsCounted run c h) costs.1
      (exhausted_raised run (charge run c).0 (charge-IsRaised run c h costs.0) spent)
