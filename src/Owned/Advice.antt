-- ===== src/Owned/Advice.antt =====
-- internal/service/advisor: a user's questions to the advisor, and what another user sees of them.
use finance_engine.Prelude.{String, Option, none, some, List, ◌≡◌, refl, ap, ◌∙◌, ◌+++◌}
use finance_engine.Schema.{Uuid, Time}
use finance_engine.Store.{World, Result, ok, err, from, try}
use finance_engine.Categories.{list_categories}
use finance_engine.Listings.{list_transactions}
use finance_engine.Rates.{Rate}
use finance_engine.Advisor.{Float, Service}
use finance_engine.Advisor.Score.{financial_score}
use finance_engine.Advisor.Recurring.{detect_subscriptions}
use finance_engine.Advisor.Runway.{runway}
use finance_engine.Advisor.Pace.{budget_pace}
use finance_engine.Advisor.Summary.{build_summary, summary_of, score_part}
use finance_engine.Advisor.Felix
use finance_engine.Advisor.Felix.{
  Message, Draw, Lines, Cache, chat, ask_insights, get_cached, store_insights, or_ask,
}
use finance_engine.Rest.Felix.{insights_call}
use finance_engine.Owned.{view, Spares}
use finance_engine.Owned.Queries.{>>=-Spares, from-Spares, pure-Spares, try-Spares}
use finance_engine.Owned.Bank.{list_transactions-Spares, list_categories-Spares}

module _ (j i : Uuid) (s : Service) where
  pub financial_score-Spares :
      (base : String) (rates : Result (List (Rate Float))) (now : Time)
      → Spares j (financial_score s i base rates now)
  unfolding financial_score
  financial_score-Spares base rates now =
      >>=-Spares j (list_transactions i _ now) _ (list_transactions-Spares j i _ now)
        (λ txs. >>=-Spares j (from rates) _ (from-Spares j rates) (λ known. pure-Spares j _))

  pub detect_subscriptions-Spares :
      (now later : Time) → Spares j (detect_subscriptions s i now later)
  unfolding detect_subscriptions
  detect_subscriptions-Spares now later =
      >>=-Spares j (list_transactions i _ later) _ (list_transactions-Spares j i _ later)
        (λ txs. pure-Spares j _)

  pub runway-Spares :
      (base : String) (rates : Result (List (Rate Float))) (listed now now' later : Time)
      → Spares j (runway s i base rates listed now now' later)
  unfolding runway
  runway-Spares base rates listed now now' later =
      >>=-Spares j (from rates) _ (from-Spares j rates) (λ known.
        >>=-Spares j (list_transactions i 0 listed) _ (list_transactions-Spares j i 0 listed)
          (λ txs. pure-Spares j _))

  pub budget_pace-Spares :
      (base : String) (rates : Result (List (Rate Float))) (now : Time)
      → Spares j (budget_pace s i base rates now)
  unfolding budget_pace
  budget_pace-Spares base rates now =
      >>=-Spares j (list_transactions i _ now) _ (list_transactions-Spares j i _ now) (λ txs.
        >>=-Spares j (list_categories i) _ (list_categories-Spares j i)
          (λ cs. >>=-Spares j (from rates) _ (from-Spares j rates) (λ known. pure-Spares j _)))

  build_summary-Spares :
      (base : String) (rates rates' : Result (List (Rate Float))) (now now' : Time)
      → Spares j (build_summary s i base rates rates' now now')
  unfolding build_summary
  build_summary-Spares base rates rates' now now' =
      >>=-Spares j (list_transactions i _ now) _ (list_transactions-Spares j i _ now) (λ txs.
        >>=-Spares j (list_categories i) _ (list_categories-Spares j i) (λ cs.
          >>=-Spares j (from rates) _ (from-Spares j rates) (λ known.
            >>=-Spares j (try (financial_score s i base rates' now')) _
              (try-Spares j _ (financial_score-Spares base rates' now'))
              (λ score.
                pure-Spares j (summary_of s base known cs txs now +++ score_part s score)))))

  pub chat-Spares :
      (base : String) (history : List Message) (message : String) (d : Draw)
      → Spares j (chat s i base history message d)
  unfolding chat
  chat-Spares base history message d =
      >>=-Spares j (build_summary s i base d.rates d.rates' d.now d.now') _
        (build_summary-Spares base d.rates d.rates' d.now d.now') (λ summary. from-Spares j _)

  ask_insights-Spares :
      (l : Lines) (base : String) (d : Draw) → Spares j (ask_insights s l i base d)
  unfolding ask_insights
  ask_insights-Spares l base d =
      >>=-Spares j (build_summary s i base d.rates d.rates' d.now d.now') _
        (build_summary-Spares base d.rates d.rates' d.now d.now')
        (λ summary. >>=-Spares j (from _) _ (from-Spares j _) (λ reply. pure-Spares j _))

  store_insights-world :
      (key : String) (now : Time) (c : Cache) (out : Result (List String) × World)
      → (store_insights s key now c out).1 ≡ out.1
  store_insights-world key now c (ok insights, w) = refl
  store_insights-world key now c (err e, w) = refl

  or_ask-view :
      (l : Lines) (key : String) (stored : Time) (base : String) (d : Draw)
      (hit : Option (List String) × Cache) (w : World)
      → view j
          (or_ask s (λ c w. store_insights s key stored c (ask_insights s l i base d w)) hit w).1.db
        ≡ view j w.db
  or_ask-view l key stored base d (some insights, c) w = refl
  or_ask-view l key stored base d (none, c) w =
      ap (λ w'. view j w'.db) (store_insights-world key stored c (ask_insights s l i base d w))
      ∙ (ask_insights-Spares l base d).same w

  pub insights-Spares :
      (l : Lines) (key : String) (asked stored : Time) (base : String) (d : Draw) (c : Cache)
      → Spares j (insights_call s l key asked stored i base d c)
  unfolding Felix.insights
  insights-Spares l key asked stored base d c = record {
    same = λ w. or_ask-view l key stored base d (get_cached key asked c) w;
  }
