-- ===== src/Advisor/Recurring.antt =====
-- internal/service/advisor/insights.go: DetectSubscriptions.
use finance_engine.Prelude.{
  sort_by, ℕ, String, Bool, not, ◌&&◌, ◌||◌, Option, none, some, List, [], ◌∷◌, ◌++◌, ◌==◌,
  string_eq, if◌then◌else◌, ltb, pos, length, ◌-◌, ◌*◌,
}
use finance_engine.Schema.{Uuid, Time, Transaction, day}
use finance_engine.Maps.{alter}
use finance_engine.Store.{M, pure, ◌>>=◌}
use finance_engine.Listings.{list_transactions}
use finance_engine.Advisor.{Float, Floats, Service, Entry, zero_float}

pub record Subscription : Type 0 where
  pub description : String
  pub average_amount : Float
  pub currency : String
  pub occurrences : ℕ
  pub last_date : Time
  pub average_interval_days : Float

abbrev pub subscription_window : ℕ
subscription_window = 180 * day

abbrev pub subscription_min_count : ℕ
subscription_min_count = 3

module _ (f : Floats) where
  abbrev pub subscription_min_interval : Float
  subscription_min_interval = f.constant "20.0"

  abbrev pub subscription_max_interval : Float
  subscription_max_interval = f.constant "40.0"

  abbrev pub subscription_max_variance : Float
  subscription_max_variance = f.constant "0.20"

module _ (s : Service) where
  -- The charge of a transaction and the note it is grouped by, if it counts.
  unfoldable pub charge_of : Transaction → Option (String × Entry)
  charge_of tx =
      let note = s.texts.normalize tx.note in
      if not (tx.type == "expense") || tx.is_internal_transfer
      then none
      else if note == ""
      then none
      else elim (s.floats.scan tx.amount) [
        | none ↦ none
        | some amount ↦
            some (note, record { date = tx.date; amount = amount; currency = tx.currency })
      ]

  abbrev pub add_charge :
      List (String × List Entry) → Option (String × Entry) → List (String × List Entry)
  add_charge groups none = groups
  add_charge groups (some (note, e)) = alter [] (λ es. es ++ e ∷ []) note groups

  -- The loop that groups the transactions.
  unfoldable pub group : List (String × List Entry) → List Transaction → List (String × List Entry)
  group groups [] = groups
  group groups (tx ∷ txs) = group (add_charge groups (charge_of tx)) txs

  unfoldable pub by_date : List Entry → List Entry
  by_date es = sort_by (λ (a b : Entry). ltb a.date b.date) (s.orders.entries es)

  -- The sum of the days between neighbours.
  unfoldable pub interval_sum : Float → List Entry → Float
  interval_sum sum [] = sum
  interval_sum sum (e ∷ []) = sum
  interval_sum sum (e ∷ e' ∷ es) =
      interval_sum
        (s.floats.add sum
          (s.floats.div (s.calendar.hours (e'.date - e.date)) (s.floats.of_int (pos 24))))
        (e' ∷ es)

  unfoldable pub amount_sum : Float → List Entry → Float
  amount_sum sum [] = sum
  amount_sum sum (e ∷ es) = amount_sum (s.floats.add sum e.amount) es

  -- How far an amount is from the average.
  unfoldable pub deviation : Float → Entry → Float
  deviation average e =
      let dev = s.floats.div (s.floats.sub e.amount average) average in
      if s.floats.lt dev (zero_float s.floats) then s.floats.negate dev else dev

  unfoldable pub max_deviation : Float → Float → List Entry → Float
  max_deviation average greatest [] = greatest
  max_deviation average greatest (e ∷ es) =
      max_deviation average
        (if s.floats.lt greatest (deviation average e) then deviation average e else greatest) es

  unfoldable pub average_interval : List Entry → Float
  average_interval es =
      s.floats.div (interval_sum (zero_float s.floats) es) (s.floats.of_int (pos (length es - 1)))

  unfoldable pub average_amount : List Entry → Float
  average_amount es =
      s.floats.div (amount_sum (zero_float s.floats) es) (s.floats.of_int (pos (length es)))

  -- The tests that a group in the order of its dates must pass.
  unfoldable pub is_recurring : List Entry → Bool
  is_recurring es =
      not (ltb (length es) subscription_min_count)
      && (not (
            s.floats.lt (average_interval es) (subscription_min_interval s.floats)
            || s.floats.lt (subscription_max_interval s.floats) (average_interval es))
          && (not (s.floats.eq (average_amount es) (zero_float s.floats))
              && not (
                  s.floats.lt (subscription_max_variance s.floats)
                    (max_deviation (average_amount es) (zero_float s.floats) es))))

  -- `entries[len(entries)-1]`, of a group that is not empty.
  abbrev pub last_entry : Entry → List Entry → Entry
  last_entry e [] = e
  last_entry e (e' ∷ es) = last_entry e' es

  abbrev pub no_entry : Entry
  no_entry = record { date = 0; amount = zero_float s.floats; currency = "" }

  unfoldable pub subscription_of : String → List Entry → Subscription
  subscription_of note es =
      let last = last_entry no_entry es in
      record {
        description = s.texts.display note;
        average_amount = average_amount es;
        currency = last.currency;
        occurrences = length es;
        last_date = last.date;
        average_interval_days = average_interval es;
      }

  -- The loop over the groups.
  unfoldable pub collect_recurring : List (String × List Entry) → List Subscription
  collect_recurring [] = []
  collect_recurring ((note, es) ∷ groups) =
      if is_recurring (by_date es)
      then subscription_of note (by_date es) ∷ collect_recurring groups
      else collect_recurring groups

  -- The subscriptions among a list of transactions.
  unfoldable pub recurring_in : List Transaction → List Subscription
  recurring_in txs =
      sort_by (λ (a b : Subscription). s.floats.lt b.average_amount a.average_amount)
        (collect_recurring (s.orders.groups (group [] txs)))

  -- DetectSubscriptions, at two readings of the clock.
  unfoldable pub detect_subscriptions : Uuid → Time → Time → M (List Subscription)
  detect_subscriptions user_id now later = do
    txs ← list_transactions user_id (now - subscription_window) later
    pure (recurring_in txs)
