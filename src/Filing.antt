-- ===== src/Filing.antt =====
-- The calls of internal/service/category, internal/service/transaction and internal/retention as the steps
-- of one history.
pub mod Rows
pub mod Queries
pub mod Steps
mod Tests
use finance_engine.Prelude.{ℕ, String, Bool, Option, List, [], ◌∷◌, ◌≡◌}
use finance_engine.Schema.{Uuid, Time, Category, Transaction}
use finance_engine.Store.{World}
use finance_engine.Categories.{create_category, delete_category, heal_translations}
use finance_engine.Transactions.{create_transaction, update_transaction, delete_transaction}
use finance_engine.Retention.{sweep_once}

-- A call of one of the services, or a sweep of the retention job.
pub data Call : Type 0 where
  creates : Transaction → Call
  updates : Transaction → Time → Call
  deletes : Uuid → Uuid → Call
  creates_category : Category → Call
  deletes_category : Uuid → Uuid → Call
  heals : List (Category × (String × String)) → Call
  sweeps : (String → Time) → Call

module _ (numeric : String → Option String) where
  unfoldable pub step : World → Call → World
  step w (creates p) = (create_transaction numeric p w).1
  step w (updates p now) = (update_transaction numeric p now w).1
  step w (deletes user_id i) = (delete_transaction user_id i w).1
  step w (creates_category c) = (create_category c w).1
  step w (deletes_category user_id i) = (delete_category user_id i w).1
  step w (heals cs) = (heal_translations cs w).1
  step w (sweeps clock) = (sweep_once clock w).1

  unfoldable pub run : World → List Call → World
  unfolding step
  run w [] = w
  run w (c ∷ cs) = run (step w c) cs
