-- ===== src/Filing/Steps.antt =====
-- internal/service/category and internal/service/transaction: the categories of transactions, call by call.
use finance_engine.Prelude.{String, false, not, Option, List, [], ◌∷◌, string_eq, nat_eq}
use finance_engine.Schema.{Transaction}
use finance_engine.Store.{World, M, ◌>>◌}
use finance_engine.Store.Rules.{>>=-after, refuse_if-after}
use finance_engine.Categories.{delete_owned_category, create_category, delete_category}
use finance_engine.Transactions.{
  update_for_user, check_category, create_transaction, update_transaction, delete_for_user,
  delete_transaction,
}
use finance_engine.Retention.{sweep_once, plans_with_limited_retention}
use finance_engine.Filing.{
  Call, creates, updates, deletes, creates_category, deletes_category, heals, sweeps, step, run,
}
use finance_engine.Filing.Rows.{IsFiled}
use finance_engine.Filing.Queries.{
  Filed, insert_category-Filed, delete_owned_category-Filed, heal_translations-Filed,
  delete_for_user-Filed, sweep_plans-Filed, refused-Filed, check_category-db,
  check_category-IsUsable, insert-Filed, update_for_user-Filed,
}

module _ (numeric : String → Option String) where
  -- What Create and Update do once the type and the amount are accepted.
  checked-Filed :
      (p : Transaction) (m : M Transaction) (w : World)
      → ((v : World) → IsFiled v.db.categories p → Filed v → Filed (m v).1)
      → Filed w
      → Filed ((check_category numeric p.category_id p.user_id >> m) w).1
  checked-Filed p m w then_filed v =
      let same = check_category-db numeric p.category_id p.user_id w in
      let looked : Filed (check_category numeric p.category_id p.user_id w).1 = record {
        filed = rw same v.filed;
      } in
      >>=-after Filed (check_category numeric p.category_id p.user_id) _ w looked λ a went.
        then_filed _ (rw same (check_category-IsUsable numeric p.category_id p.user_id w a went))
          looked

  pub step-Filed : (w : World) (c : Call) → Filed w → Filed (step numeric w c)
  unfolding step create_transaction update_transaction delete_transaction create_category
      delete_category sweep_once
  step-Filed w (creates p) v = refuse_if-after Filed _ _ _ w v λ _.
      refuse_if-after Filed _ _ _ w v
        λ _. checked-Filed p _ w (λ u f g. insert-Filed numeric _ u f g) v
  step-Filed w (updates p now) v = refuse_if-after Filed _ _ _ w v λ _.
      refuse_if-after Filed _ _ _ w v λ _.
        checked-Filed p (update_for_user numeric p now) w (update_for_user-Filed numeric p now) v
  step-Filed w (deletes u i) v =
      let gone = delete_for_user-Filed i u w v in
      >>=-after Filed (delete_for_user i u) _ w gone (λ d _. refused-Filed (not d) _ _ gone)
  step-Filed w (creates_category c) v = refuse_if-after Filed _ _ _ w v λ _.
      refuse_if-after Filed _ _ _ w v
        λ _. insert_category-Filed (record c { is_default = false }) w v
  step-Filed w (deletes_category u i) v =
      let gone = delete_owned_category-Filed i u w v in
      >>=-after Filed (delete_owned_category i u) _ w gone (λ d _. refused-Filed (not d) _ _ gone)
  step-Filed w (heals cs) v = heal_translations-Filed cs w v
  step-Filed w (sweeps clock) v = sweep_plans-Filed clock plans_with_limited_retention w v

  -- After any history of calls on categories and transactions and of retention sweeps, with any failures
  -- on the way, every transaction is in no category, or in one that exists and is shared or its own
  -- user's, if it was so at the start.
  pub run-Filed : (w : World) (cs : List Call) → Filed w → Filed (run numeric w cs)
  unfolding run
  run-Filed w [] v = v
  run-Filed w (c ∷ cs) v = run-Filed (step numeric w c) cs (step-Filed w c v)
