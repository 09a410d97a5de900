-- ===== src/Advisor/Detected.antt =====
-- internal/service/advisor/insights.go: which subscriptions DetectSubscriptions reports.
use finance_engine.Prelude.{
  sort_by, insert_sorted, suc, String, Bool, true, not, List, [], ◌∷◌, string_eq, ◌≡◌, refl, sym,
  ap, ◌∙◌, ◌⊎◌, inl, inr, ◌↔◌, ◌≢◌, Bool-cases, arith, length, ltb,
}
use mathlib.Core.Path.{subst}
use finance_engine.Schema.{Transaction}
use finance_engine.Maps.Laws.{In}
use finance_engine.Advisor.{Service, Entry, Orders}
use finance_engine.Advisor.Recurring.{
  Subscription, group, by_date, is_recurring, subscription_of, collect_recurring, recurring_in,
}
use finance_engine.Advisor.Charges.{charges, group-charges, group-In}
use finance_engine.Advisor.Regular.{IsOrdering, Recurs, is_recurring-Recurs}

module _ {A : Type 0} (before : A → A → Bool) where
  In-insert_sorted :
      (a x : A) (ys : List A) → In a (insert_sorted before x ys) ↔ ((a ≡ x) ⊎ In a ys)
  unfolding insert_sorted
  In-insert_sorted a x [] = (λ h. h, λ h. h)
  In-insert_sorted a x (y ∷ ys) = elim (Bool-cases (before y x)) [
    | inr first ↦ rw first (λ h. h, λ h. h)
    | inl later ↦ rw later (
        let ih = In-insert_sorted a x ys in
        (
          λ h. elim h [
            | inl e ↦ inr (inl e)
            | inr r ↦ elim (ih.0 r) [ inl e ↦ inl e | inr q ↦ inr (inr q) ]
          ],
          λ h. elim h [
            | inl e ↦ inr (ih.1 (inl e))
            | inr r ↦ elim r [ inl e ↦ inl e | inr q ↦ inr (ih.1 (inr q)) ]
          ],
        ))
  ]

  -- Sorting keeps the elements.
  In-sort_by : (a : A) (xs : List A) → In a (sort_by before xs) ↔ In a xs
  unfolding sort_by
  In-sort_by a [] = (λ h. h, λ h. h)
  In-sort_by a (x ∷ xs) =
      let ih = In-sort_by a xs in
      let put = In-insert_sorted a x (sort_by before xs) in
      (
        λ h. elim (put.0 h) [ inl e ↦ inl e | inr r ↦ inr (ih.0 r) ],
        λ h. put.1 (elim h [ inl e ↦ inl e | inr r ↦ inr (ih.1 r) ]),
      )

  length-insert_sorted :
      (x : A) (ys : List A) → length (insert_sorted before x ys) ≡ suc (length ys)
  unfolding insert_sorted
  length-insert_sorted x [] = refl
  length-insert_sorted x (y ∷ ys) = ground (arith, length-insert_sorted x ys)

  length-sort_by : (xs : List A) → length (sort_by before xs) ≡ length xs
  unfolding sort_by
  length-sort_by [] = refl
  length-sort_by (x ∷ xs) = length-insert_sorted x (sort_by before xs) ∙ ap suc (length-sort_by xs)

-- A map is ranged over in some order, and a sort takes the elements in some order: none is lost, and none is made up.
pub record IsReordering (o : Orders) : Type 0 where
  pub groups :
      (g : String × List Entry) (gs : List (String × List Entry)) → In g (o.groups gs) ↔ In g gs
  pub entries : (es : List Entry) → length (o.entries es) ≡ length es

module _ (s : Service) where
  -- A subscription that is reported for a group.
  abbrev Reported : Subscription → List (String × List Entry) → Type 0
  Reported sub groups =
      (note : String) × (es : List Entry) × In (note, es) groups
      × (is_recurring s (by_date s es) ≡ true)
      × (sub ≡ subscription_of s note (by_date s es))

  collect_recurring-Reported :
      (sub : Subscription) (groups : List (String × List Entry))
      → In sub (collect_recurring s groups)
      → Reported sub groups
  unfolding collect_recurring
  collect_recurring-Reported sub [] h = elim h [ ]
  collect_recurring-Reported sub ((note, es) ∷ groups) h =
      elim (Bool-cases (is_recurring s (by_date s es))) [
        | inr no_pattern ↦
            let (n, fs, at, r, e) =
              collect_recurring-Reported sub groups (rw (no_pattern, collect_recurring) at h) in
            (n, fs, inr at, r, e)
        | inl recurs ↦
            let split : (sub ≡ subscription_of s note (by_date s es))
                ⊎ In sub (collect_recurring s groups) =
              rw (recurs, collect_recurring) at h in
            elim split [
              | inl here ↦ (note, es, inl refl, recurs, here)
              | inr there ↦
                  let (n, fs, at, r, e) = collect_recurring-Reported sub groups there in
                  (n, fs, inr at, r, e)
            ]
      ]

  Reported-collect_recurring :
      (note : String) (es : List Entry) (groups : List (String × List Entry))
      → In (note, es) groups
      → is_recurring s (by_date s es) ≡ true
      → In (subscription_of s note (by_date s es)) (collect_recurring s groups)
  unfolding collect_recurring
  Reported-collect_recurring note es [] h recurs = elim h [ ]
  Reported-collect_recurring note es ((n, fs) ∷ groups) (inl here) recurs =
      let same : is_recurring s (by_date s fs) ≡ true =
        ap (λ (g : String × List Entry). is_recurring s (by_date s g.1)) (sym here) ∙ recurs in
      rw same (inl (ap (λ (g : String × List Entry). subscription_of s g.0 (by_date s g.1)) here))
  Reported-collect_recurring note es ((n, fs) ∷ groups) (inr there) recurs =
      let later = Reported-collect_recurring note es groups there recurs in
      elim (Bool-cases (is_recurring s (by_date s fs))) [
        | inl yes_too ↦ rw yes_too (inr later)
        | inr no_pattern ↦ rw no_pattern later
      ]

  module _ (o : IsOrdering s.floats) (orders : IsReordering s.orders) (txs : List Transaction) where
    -- Charges that recur are there.
    some_charge :
        (note : String)
        → is_recurring s (by_date s (charges s note txs)) ≡ true
        → charges s note txs ≢ []
    unfolding is_recurring by_date
    some_charge note recurs none_there =
        let es = charges s note txs in
        let count : length (by_date s es) ≡ 0 =
          length-sort_by _ (s.orders.entries es) ∙ orders.entries es ∙ ap length none_there in
        absurd (cc (recurs, ap (λ n. not (ltb n 3)) count))

    -- DetectSubscriptions reports a subscription exactly if there is a note for which it is the subscription of the
    -- expenses that are no transfers, have that note, which is not empty, and whose amount can be read, in the
    -- order of their dates, and these recur: there are at least three, 20 to 40 days apart on average, the
    -- average of their amounts is not 0, and none is further from it than a fifth. Ranging over a map visits
    -- each entry, sorting keeps the number of entries, and numbers are ordered as IEEE 754 says.
    pub recurring_in_exact :
        (sub : Subscription)
        → In sub (recurring_in s txs) ↔ (
            (note : String) × Recurs s (by_date s (charges s note txs))
            × (sub ≡ subscription_of s note (by_date s (charges s note txs))))
    unfolding recurring_in
    recurring_in_exact sub =
        let groups = group s [] txs in
        let kept = In-sort_by _ sub (collect_recurring s (s.orders.groups groups)) in
        (
          λ h.
              let (note, es, at, recurs, same) =
                collect_recurring-Reported sub (s.orders.groups groups) (kept.0 h) in
              let whole = group-charges s note es txs ((orders.groups (note, es) groups).0 at) in
              (
                note,
                (is_recurring-Recurs s o _).0
                    (subst (λ l. is_recurring s (by_date s l) ≡ true) whole recurs),
                subst (λ l. sub ≡ subscription_of s note (by_date s l)) whole same,
              ),
          λ (note, recurs, same).
              let found = (is_recurring-Recurs s o _).1 recurs in
              let at = group-In s note txs (some_charge note found) in
              subst (λ x. In x (recurring_in s txs)) (sym same)
                ((In-sort_by _ _ _).1 (
                  Reported-collect_recurring note (charges s note txs) (s.orders.groups groups)
                    ((orders.groups (note, charges s note txs) groups).1 at) found)),
        )
