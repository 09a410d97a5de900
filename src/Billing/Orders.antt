-- ===== src/Billing/Orders.antt =====
-- The order ids of billing.go: what `orderID` writes and `parseOrderID` reads.
use finance_engine.Prelude.{
  String, true, Option, none, some, List, [], ◌∷◌, ◌==◌, if◌then◌else◌, string_eq, ◌+++◌, ◌≡◌, refl,
}
use finance_engine.Prelude.Text.{split_dot, dot_free, show}
use finance_engine.Prelude.Text.Laws.{split_dot-append, split_dot-dot_free, show-dot_free}
use finance_engine.Schema.{Time, unix}

-- `fmt.Sprintf("sub.%s.%s.%s.%d", flow, planName, userID, time.Now().Unix())`, given the id's text.
unfoldable pub order_id : String → String → String → Time → String
order_id flow plan_name user_id now =
    "sub"
    +++ ("."
        +++ (flow +++ ("." +++ (plan_name +++ ("." +++ (user_id +++ ("." +++ show (unix now))))))))

-- `len(parts) == 5 && parts[0] == "sub"`
abbrev pub order_parts : List String → Option (String × String)
order_parts (a ∷ b ∷ c ∷ d ∷ e ∷ []) = if a == "sub" then some (b, c) else none
order_parts _ = none

unfoldable pub parse_order_id : String → Option (String × String)
parse_order_id id = order_parts (split_dot id)

-- `parseOrderID` gives back the flow and the plan that `orderID` was called with, if no text in it has a dot.
pub parse_order_id-order_id :
    (flow plan_name user_id : String) (now : Time)
    → dot_free flow ≡ true
    → dot_free plan_name ≡ true
    → dot_free user_id ≡ true
    → parse_order_id (order_id flow plan_name user_id now) ≡ some (flow, plan_name)
unfolding parse_order_id order_id dot_free
parse_order_id-order_id flow plan_name user_id now f p u =
    rw
      (
        split_dot-append "sub" _ refl,
        split_dot-append flow _ f,
        split_dot-append plan_name _ p,
        split_dot-append user_id _ u,
        split_dot-dot_free _ (show-dot_free (unix now)),
      )
      refl
