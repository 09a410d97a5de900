-- ===== src/Rates.antt =====
-- internal/repository/rate.go, internal/ratesync/ratesync.go and internal/service/rate/rate.go: the exchange rates
-- in Redis. A rate is a float64 of Go, whose arithmetic is a parameter, and so are the answers of the National
-- Bank and the outages of Redis.
pub mod History
mod Tests
use finance_engine.Prelude.{
  ℕ, suc, String, Bool, true, false, not, ◌&&◌, ◌||◌, Option, none, some, List, [], ◌∷◌, ◌==◌,
  string_eq, if◌then◌else◌, ltb, map, ◌+++◌, sort_by,
}
use Prim.Native.Nat.{Ordering}
use Prim.Native.String.{compare}
use finance_engine.Schema.{Time}
use finance_engine.Store.{Result, ok, err, Error, unavailable, refused}

-- `s < t` on texts.
abbrev text_before : String → String → Bool
text_before s t = elim (compare s t) [ Ordering.lt ↦ true | _ ↦ false ]

-- What the code does with a float64.
pub record Floats (Q : Type 0) : Type 0 where
  pub one : Q
  pub divide : Q → Q → Q
  pub is_zero : Q → Bool

-- `m[key]` of a Go map, and `m[key] = value`, which Redis's HSET and SET are too.
unfoldable pub lookup : {A : Type 0} → String → List (String × A) → Option A
lookup key [] = none
lookup key ((k, a) ∷ m) = let rest = lookup key m in if k == key then some a else rest

unfoldable pub put : {A : Type 0} → String → A → List (String × A) → List (String × A)
put key a [] = (key, a) ∷ []
put key a ((k, b) ∷ m) = let rest = put key a m in if k == key then (k, a) ∷ m else (k, b) ∷ rest

module _ (Q : Type 0) where
  pub record Rate : Type 0 where
    pub currency : String
    pub rate_to_uah : Q
    pub updated_at : Time

  -- nbuRate
  pub record NbuRate : Type 0 where
    pub currency_code : String
    pub units : Q
    pub amount : Q

  -- Redis: the hash "exchange_rates", whose values may be corrupt, and the entries "rate_history:…", which the code
  -- alone writes; an outage may strike at any command.
  pub record Redis : Type 0 where
    pub rates : List (String × Option (Q × Time))
    pub history : List (String × List (String × Q))
    pub down : ℕ → Bool
    pub commands : ℕ

  -- A command: it fails and changes nothing, or is run.
  abbrev pub command : {A : Type 0} → (Redis → Result A × Redis) → Redis → Result A × Redis
  command c s =
      if s.down s.commands
      then (err unavailable, record s { commands = suc s.commands })
      else c (record s { commands = suc s.commands })

  abbrev readable : List (String × Option (Q × Time)) → List Rate
  readable [] = []
  readable ((currency, none) ∷ fields) = readable fields
  readable ((currency, some (rate, time)) ∷ fields) =
      record { currency = currency; rate_to_uah = rate; updated_at = time } ∷ readable fields

  -- RateRepository.List: the readable fields of the hash, ordered by their currencies, which are all different.
  unfoldable pub list_rates : Redis → Result (List Rate) × Redis
  list_rates =
      command λ s.
        (ok (sort_by (λ (a b : Rate). text_before a.currency b.currency) (readable s.rates)), s)

  -- RateRepository.Upsert, at a reading of the clock.
  unfoldable pub upsert_rate : String → Q → Time → Redis → Result (Unit {0}) × Redis
  upsert_rate currency rate now =
      command λ s. (ok tt, record s { rates = put currency (some (rate, now)) s.rates })

  abbrev pub is_supported : String → Bool
  is_supported c = c == "USD" || (c == "EUR" || (c == "GBP" || c == "PLN"))

  unfoldable pub get_history : String → Redis → Result (Option (List (String × Q))) × Redis
  get_history key = command λ s. (ok (lookup key s.history), s)

  unfoldable pub set_history : String → List (String × Q) → Redis → Result (Unit {0}) × Redis
  set_history key rates = command λ s. (ok tt, record s { history = put key rates s.history })

  module _ (q : Floats Q) where
    abbrev pub then_store :
        (Redis → Result (Unit {0}) × Redis) → Result (Unit {0}) × Redis → Result (Unit {0}) × Redis
    then_store next (ok tt, s) = next s
    then_store next (err e, s) = (err e, s)

    -- The loop of fetchAndStore.
    unfoldable pub store_rates : List NbuRate → Time → Redis → Result (Unit {0}) × Redis
    store_rates [] now s = (ok tt, s)
    store_rates (r ∷ rates) now s =
        if not (is_supported r.currency_code) || q.is_zero r.units
        then store_rates rates now s
        else then_store (store_rates rates now)
            (upsert_rate r.currency_code (q.divide r.amount r.units) now s)

    -- fetchAndStore, with what the bank answers.
    unfoldable pub fetch_and_store :
        Result (List NbuRate) → Time → Redis → Result (Unit {0}) × Redis
    fetch_and_store (err e) now s = (err e, s)
    fetch_and_store (ok rates) now s =
        then_store (store_rates rates now) (upsert_rate "UAH" q.one now s)

    -- The rates of a date out of the bank's answer.
    unfoldable pub collect_rates : List (String × Q) → List (String × Q) → List (String × Q)
    collect_rates result [] = result
    collect_rates result ((c, rate) ∷ raw) =
        collect_rates (if is_supported c then put c rate result else result) raw

    abbrev pub add_current : List (String × Q) → List Rate → List (String × Q)
    add_current result [] = result
    add_current result (r ∷ rates) = add_current (put r.currency r.rate_to_uah result) rates

    -- `len(result) == 1`
    abbrev pub has_one : List (String × Q) → Bool
    has_one (x ∷ []) = true
    has_one _ = false

    abbrev pub or_current :
        List (String × Q) → Result (List Rate) × Redis → List (String × Q) × Redis
    or_current result (ok rates, s) = (add_current result rates, s)
    or_current result (err e, s) = (result, s)

    -- The rates of a date, with the current ones where the bank has none.
    unfoldable pub filled : List (String × Q) → Redis → List (String × Q) × Redis
    filled result s = if has_one result then or_current result (list_rates s) else (result, s)

    abbrev pub saved : String → List (String × Q) × Redis → Result (List (String × Q)) × Redis
    saved key (result, s) = (ok result, (set_history key result s).1)

    -- HistoricalRates after a miss.
    unfoldable pub fetch_history :
        String → Result (List (String × Q)) → Redis → Result (List (String × Q)) × Redis
    fetch_history key (err e) s = (err e, s)
    fetch_history key (ok raw) s = saved key (filled (collect_rates (("UAH", q.one) ∷ []) raw) s)

    abbrev pub or_fetch :
        String
        → Result (List (String × Q))
        → Result (Option (List (String × Q))) × Redis
        → Result (List (String × Q)) × Redis
    or_fetch key answer (ok (some rates), s) = (ok rates, s)
    or_fetch key answer (ok none, s) = fetch_history key answer s
    or_fetch key answer (err e, s) = fetch_history key answer s

    -- HistoricalRates for the key of a date, with what the bank answers if it is asked.
    unfoldable pub historical_rates :
        String → Result (List (String × Q)) → Redis → Result (List (String × Q)) × Redis
    historical_rates key answer s = or_fetch key answer (get_history key s)
