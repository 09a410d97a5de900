-- ===== src/Advisor/Blind.antt =====
-- internal/service/advisor over the database: the same calls on a database from which the transfers between a
-- user's own accounts are taken away.
use finance_engine.Prelude.{
  String, Bool, List, [], ◌∷◌, nat_eq, ◌≡◌, refl, sym, ap, ◌∙◌, arith, Bool-cases, inl, inr, ◌+++◌,
  suc,
}
use finance_engine.Schema.{Uuid, Time, Transaction}
use finance_engine.Store.{World, M, Result, ok, err, from, pure, try, next, ◌>>=◌}
use finance_engine.Table.{select}
use finance_engine.Categories.{list_categories}
use finance_engine.Listings.{newest, is_in, list_transactions}
use finance_engine.Listings.Stable.{select-newest}
use finance_engine.Rates.{Rate}
use finance_engine.Advisor.{Float, Service}
use finance_engine.Advisor.Score.{financial_score}
use finance_engine.Advisor.Recurring.{detect_subscriptions}
use finance_engine.Advisor.Runway.{runway}
use finance_engine.Advisor.Pace.{budget_pace}
use finance_engine.Advisor.Summary.{summary_of, score_part, build_summary}
use finance_engine.Advisor.Felix.{Message, Draw, Lines, chat, ask_insights}
use finance_engine.Advisor.Transfers.{
  is_real, score_of-real, runway_of-real, pace_of-real, summary_of-real, recurring_in-real,
}

-- The database without the transfers.
abbrev pub without_transfers : World → World
without_transfers w = record w {
  db = record w.db { transactions = select is_real w.db.transactions };
}

select_comm :
    {A : Type 0} (p q : A → Bool) (xs : List A) → select p (select q xs) ≡ select q (select p xs)
unfolding select
select_comm p q [] = refl
select_comm p q (x ∷ xs) = ground (arith, select_comm p q xs)

-- A call that answers the same without the transfers, and leaves the same tables but for them.
record Blind {A : Type 0} (m : M A) : Type 0 where
  same : (w : World) → m (without_transfers w) ≡ ((m w).0, without_transfers (m w).1)

module _ {A : Type 0} where
  pure-Blind : (a : A) → Blind (pure a)
  pure-Blind a = record { same = λ w. refl }

  from-Blind : (r : Result A) → Blind (from r)
  unfolding from
  from-Blind r = record { same = λ w. refl }

  try-Blind : (m : M A) → Blind m → Blind (try m)
  try-Blind m h = record { same = λ w. rw (h.same w) refl }

  next-Blind :
      {B : Type 0} (k : A → M B) (out : Result A × World)
      → ((a : A) → Blind (k a))
      → next k (out.0, without_transfers out.1) ≡ ((next k out).0, without_transfers (next k out).1)
  next-Blind k (ok a, w) h = (h a).same w
  next-Blind k (err e, w) h = refl

  >>=-Blind :
      {B : Type 0} (m : M A) (k : A → M B) → Blind m → ((a : A) → Blind (k a)) → Blind (m >>= k)
  >>=-Blind m k h rest = record { same = λ w. rw (h.same w) (next-Blind k (m w) rest) }

list_categories-Blind : (i : Uuid) → Blind (list_categories i)
unfolding list_categories
list_categories-Blind i = record {
  same = λ w. elim (Bool-cases (w.down w.queries)) [ inl out ↦ rw out refl | inr up ↦ rw up refl ];
}

-- What is listed without the transfers.
module _ {B : Type 0} (i : Uuid) (first last : Time) (k : List Transaction → M B) where
  transactions-Blind :
      ((txs : List Transaction) → k (select is_real txs) ≡ k txs)
      → ((txs : List Transaction) → Blind (k txs))
      → Blind (list_transactions i first last >>= k)
  unfolding list_transactions
  transactions-Blind real h = record {
    same = λ w.
        let rows = select (is_in i first last) w.db.transactions in
        let w' = record w { queries = suc w.queries } in
        elim (Bool-cases (w.down w.queries)) [
          | inl out ↦ rw out refl
          | inr up ↦
              let listed =
                ap (newest (λ (t : Transaction). t.date))
                  (select_comm (is_in i first last) is_real w.db.transactions)
                ∙ sym (select-newest (λ (t : Transaction). t.date) is_real rows) in
              rw up (
                ap (λ txs. k txs (without_transfers w')) listed
                ∙ ap (λ m. m (without_transfers w'))
                    (real (newest (λ (t : Transaction). t.date) rows))
                ∙ (h (newest (λ (t : Transaction). t.date) rows)).same w')
        ];
  }

module _ (s : Service) (i : Uuid) where
  financial_score-Blind :
      (base : String) (rates : Result (List (Rate Float))) (now : Time)
      → Blind (financial_score s i base rates now)
  unfolding financial_score
  financial_score-Blind base rates now =
      transactions-Blind i _ now _
        (λ txs j. from rates >>= λ known. pure (score_of-real s base known txs j))
        (λ txs. >>=-Blind (from rates) _ (from-Blind rates) (λ known. pure-Blind _))

  detect_subscriptions-Blind : (now later : Time) → Blind (detect_subscriptions s i now later)
  unfolding detect_subscriptions
  detect_subscriptions-Blind now later =
      transactions-Blind i _ later _ (λ txs j. pure (recurring_in-real s "" [] txs j))
        (λ txs. pure-Blind _)

  runway-Blind :
      (base : String) (rates : Result (List (Rate Float))) (listed now now' later : Time)
      → Blind (runway s i base rates listed now now' later)
  unfolding runway
  runway-Blind base rates listed now now' later =
      >>=-Blind (from rates) _ (from-Blind rates) (λ known.
        transactions-Blind i 0 listed _
          (λ txs j. pure (runway_of-real s base known txs now now' later j)) (λ txs. pure-Blind _))

  budget_pace-Blind :
      (base : String) (rates : Result (List (Rate Float))) (now : Time)
      → Blind (budget_pace s i base rates now)
  unfolding budget_pace
  budget_pace-Blind base rates now =
      transactions-Blind i _ now _
        (λ txs j. list_categories i >>= λ cs.
          from rates >>= λ known. pure (pace_of-real s base known txs cs now j))
        (λ txs.
          >>=-Blind (list_categories i) _ (list_categories-Blind i)
            (λ cs. >>=-Blind (from rates) _ (from-Blind rates) (λ known. pure-Blind _)))

  build_summary-Blind :
      (base : String) (rates rates' : Result (List (Rate Float))) (now now' : Time)
      → Blind (build_summary s i base rates rates' now now')
  unfolding build_summary
  build_summary-Blind base rates rates' now now' =
      transactions-Blind i _ now _
        (λ txs j. list_categories i >>= λ cs. from rates >>= λ known.
          try (financial_score s i base rates' now') >>= λ score.
          pure (summary_of-real s base known txs cs now j +++ score_part s score))
        (λ txs. >>=-Blind (list_categories i) _ (list_categories-Blind i) (λ cs.
          >>=-Blind (from rates) _ (from-Blind rates) (λ known.
            >>=-Blind (try (financial_score s i base rates' now')) _
              (try-Blind _ (financial_score-Blind base rates' now'))
              (λ score. pure-Blind (summary_of s base known cs txs now +++ score_part s score)))))

  chat-Blind :
      (base : String) (history : List Message) (message : String) (d : Draw)
      → Blind (chat s i base history message d)
  unfolding chat
  chat-Blind base history message d =
      >>=-Blind (build_summary s i base d.rates d.rates' d.now d.now') _
        (build_summary-Blind base d.rates d.rates' d.now d.now') (λ summary. from-Blind _)

  ask_insights-Blind : (l : Lines) (base : String) (d : Draw) → Blind (ask_insights s l i base d)
  unfolding ask_insights
  ask_insights-Blind l base d =
      >>=-Blind (build_summary s i base d.rates d.rates' d.now d.now') _
        (build_summary-Blind base d.rates d.rates' d.now d.now')
        (λ summary. >>=-Blind (from _) _ (from-Blind _) (λ reply. pure-Blind _))

  -- The score, the detected subscriptions, the forecast, the pace of the budget, and what the model answers to a
  -- message and to the question for insights are the same if the transfers between the user's own accounts
  -- are taken from the database, whatever fails: such a transfer counts nowhere, neither as income nor as
  -- an expense nor as an active day.
  pub transfers_count_nowhere :
      (base : String) (rates : Result (List (Rate Float))) (l : Lines) (history : List Message)
      (message : String) (d : Draw) (t t' u u' : Time) (w : World)
      → let w' = without_transfers w in
        ((financial_score s i base rates t w').0 ≡ (financial_score s i base rates t w).0)
        × ((detect_subscriptions s i t t' w').0 ≡ (detect_subscriptions s i t t' w).0)
        × ((runway s i base rates t t' u u' w').0 ≡ (runway s i base rates t t' u u' w).0)
        × ((budget_pace s i base rates t w').0 ≡ (budget_pace s i base rates t w).0)
        × ((chat s i base history message d w').0 ≡ (chat s i base history message d w).0)
        × ((ask_insights s l i base d w').0 ≡ (ask_insights s l i base d w).0)
  transfers_count_nowhere base rates l history message d t t' u u' w = (
    ap (λ r. r.0) ((financial_score-Blind base rates t).same w),
    ap (λ r. r.0) ((detect_subscriptions-Blind t t').same w),
    ap (λ r. r.0) ((runway-Blind base rates t t' u u').same w),
    ap (λ r. r.0) ((budget_pace-Blind base rates t).same w),
    ap (λ r. r.0) ((chat-Blind base history message d).same w),
    ap (λ r. r.0) ((ask_insights-Blind l base d).same w),
  )
