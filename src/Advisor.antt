-- ===== src/Advisor.antt =====
-- internal/service/advisor: what the two files share. A float64 is its 64 bits, a number, and what Go's
-- arithmetic makes of them is a parameter; so are the calendar of Go's time package, its functions on texts, the
-- order in which Go visits a map, and that in which sort.Slice leaves equal elements.
pub mod Score
pub mod Recurring
pub mod Runway
pub mod Pace
pub mod Summary
pub mod Felix
pub mod Bounds
pub mod Transfers
pub mod Cached
pub mod Blind
pub mod Charges
pub mod Regular
pub mod Detected
pub mod Fixtures
mod Tests
use finance_engine.Prelude.{
  ℕ, String, Bool, not, ◌&&◌, ◌||◌, Option, none, some, List, [], ◌∷◌, ◌==◌, string_eq,
  if◌then◌else◌, ℤ, pos, Comparable,
}
use finance_engine.Schema.{Uuid, Time, Transaction}
use finance_engine.Maps.{lookup, alter, or_else}
use finance_engine.Rates.{Rate}

abbrev pub Float : Type 0
Float = ℕ

-- What the code does with a float64: `float64(n)`, a decimal constant, the operations, `int(math.Round(x))`,
-- `int(x)`, `fmt.Sscanf(s, "%f", &x)`, and the verbs %.0f and %+.0f.
pub record Floats : Type 0 where
  pub of_int : ℤ → Float
  pub constant : String → Float
  pub add : Float → Float → Float
  pub sub : Float → Float → Float
  pub mul : Float → Float → Float
  pub div : Float → Float → Float
  pub negate : Float → Float
  pub lt : Float → Float → Bool
  pub eq : Float → Float → Bool
  pub round : Float → ℤ
  pub truncate : Float → ℤ
  pub scan : String → Option Float
  pub whole : Float → String
  pub signed : Float → String

-- `t.Format("2006-01-02")`, `t.Day()`, the first day of the month of a time, a day of it, the last day of it,
-- `AddDate` with months and with days, and `d.Hours()` of a number of microseconds.
pub record Calendar : Type 0 where
  pub day_text : Time → String
  pub day : Time → ℕ
  pub month_start : Time → Time
  pub month_day : Time → ℕ → Time
  pub days_in_month : Time → ℕ
  pub add_months : ℤ → Time → Time
  pub add_days : ℤ → Time → Time
  pub hours : ℕ → Float

-- A charge as DetectSubscriptions groups it.
pub record Entry : Type 0 where
  pub date : Time
  pub amount : Float
  pub currency : String

-- `strings.ToLower(strings.TrimSpace(s))`, displayNote of a text that is not empty, and the decimal text of an int.
pub record Texts : Type 0 where
  pub normalize : String → String
  pub display : String → String
  pub decimal : ℤ → String

-- The orders that Go leaves open: of a map's entries when it is ranged over, and of a slice before a sort that
-- is not stable.
pub record Orders : Type 0 where
  pub totals : List (Uuid × Float) → List (Uuid × Float)
  pub names : List (String × Float) → List (String × Float)
  pub groups : List (String × List Entry) → List (String × List Entry)
  pub entries : List Entry → List Entry

-- advisor.Service, without the repositories.
pub record Service : Type 0 where
  pub floats : Floats
  pub calendar : Calendar
  pub texts : Texts
  pub orders : Orders
  pub preamble : String

module _ (f : Floats) where
  abbrev pub zero_float : Float
  zero_float = f.of_int (pos 0)

  abbrev put_rates : List (Rate Float) → List (String × Float) → List (String × Float)
  put_rates [] table = table
  put_rates (r ∷ rates) table =
      put_rates rates (alter zero_float (λ _. r.rate_to_uah) r.currency table)

  -- rateToUAH
  unfoldable pub rate_table : List (Rate Float) → List (String × Float)
  rate_table rates = put_rates rates (("UAH", f.of_int (pos 1)) ∷ [])

  -- convert
  unfoldable pub convert : Float → String → String → List (String × Float) → Float
  convert amount from to table =
      let from_rate = or_else zero_float (lookup from table) in
      let to_rate = or_else zero_float (lookup to table) in
      if from == to
      then amount
      else if f.eq from_rate zero_float || f.eq to_rate zero_float
      then amount
      else f.div (f.mul amount from_rate) to_rate

  -- `m[key] += x`
  abbrev pub add_to :
      {K : Type 0} ⦃c : Comparable K⦄ → K → Float → List (K × Float) → List (K × Float)
  add_to key x = alter zero_float (λ y. f.add y x) key
