-- ===== src/Store.antt =====
-- A service call as it meets the database: the tables as they stand, an outage that may strike at any
-- query, and errors as values. There are no transactions in the program, so what a call has written
-- before it fails stays written.
pub mod Rules
use finance_engine.Prelude.{
  ℕ, Bool, true, false, Option, none, some, ◌≡◌, if◌then◌else◌, suc, String,
}
use finance_engine.Schema.{Db}

-- What a call can fail with; a wrapped error (`%w`) is the error that it wraps.
pub data Error : Type 0 where
  -- pgx.ErrNoRows, a query that failed, and a constraint of a table.
  no_rows unavailable constraint : Error
  -- An error that the service makes itself, with its message.
  refused : String → Error

pub data Result {ℓ} (A : Type ℓ) : Type ℓ where
  ok : A → Result A
  err : Error → Result A

-- The tables, which of the queries to come fail, the number of queries made, and PostgreSQL's order of texts.
pub record World : Type 0 where
  pub db : Db
  pub down : ℕ → Bool
  pub queries : ℕ
  pub collation : String → String → Bool

-- No query fails from here on.
abbrev pub IsUp : World → Type 0
IsUp w = (n : ℕ) → w.down n ≡ false

abbrev pub M : Type 0 → Type 0
M A = World → Result A × World

module _ {A : Type 0} where
  abbrev pub pure : A → M A
  pure a w = (ok a, w)

  abbrev pub fail : Error → M A
  fail e w = (err e, w)

  -- `return f(…)` and `x, err := f(…)` of a function that touches no database.
  unfoldable pub from : Result A → M A
  from r w = (r, w)

  -- A row that `:one` must return.
  abbrev pub one : Option A → Result A
  one none = err no_rows
  one (some a) = ok a

  -- One round trip to the database: it fails and changes nothing, or runs its statement.
  abbrev pub query : (Db → Result A × Db) → M A
  query q w =
      if w.down w.queries
      then (err unavailable, record w { queries = suc w.queries })
      else let (r, db') = q w.db in (r, record w { db = db'; queries = suc w.queries })

-- What follows a step: the next one on its value, or nothing after an error.
abbrev pub next : {A B : Type 0} → (A → M B) → Result A × World → Result B × World
next f (ok a, w) = f a w
next f (err e, w) = (err e, w)

infixl 5 ◌>>=◌ ◌>>◌
abbrev pub ◌>>=◌ : {A B : Type 0} → M A → (A → M B) → M B
◌>>=◌ m f w = next f (m w)

abbrev pub ◌>>◌ : {A B : Type 0} → M A → M B → M B
m >> k = m >>= λ _. k

-- `if bad { return …, err }`
unfoldable pub refuse_if : Bool → String → M (Unit {0})
refuse_if bad message w = (if bad then err (refused message) else ok tt, w)

-- `x, err := m`, for code that looks at the error.
abbrev pub try : {A : Type 0} → M A → M (Result A)
try m w = let (r, w') = m w in (ok r, w')
