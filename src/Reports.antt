-- ===== src/Reports.antt =====
-- internal/service/reports/reports.go: the export of a user's transactions as rows of texts, and the import of
-- such rows. The CSV reader and writer of Go's library are outside, and so are its functions on texts.
pub mod Stored
pub mod Log
pub mod Counts
mod Tests
use finance_engine.Prelude.{
  ℕ, zero, suc, String, Bool, true, false, not, ◌&&◌, ◌||◌, Option, none, some, List, [], ◌∷◌, ◌==◌,
  string_eq, nat_eq, nat_beq, if◌then◌else◌, ltb, ◌+++◌, length, get_elem?, pos, map, ◌++◌,
}
use Prim.Native.Char.{Char, code}
use finance_engine.Schema.{Uuid, Time, Category, Transaction}
use finance_engine.Store.{
  M, Result, ok, err, Error, refused, pure, from, refuse_if, try, ◌>>=◌, ◌>>◌,
}
use finance_engine.Categories.{list_categories, create_category}
use finance_engine.Transactions.{create_transaction}
use finance_engine.Listings.{list_transactions}

-- What Go's library says of texts: `strings.ToLower`, `ToUpper`, `TrimSpace`, `time.Parse` and `Format` in a
-- layout, and for a number the text with two decimals of its absolute value (ParseFloat and FormatFloat).
pub record Texts : Type 0 where
  pub lower : String → String
  pub upper : String → String
  pub trim : String → String
  pub parse_in : String → String → Option Time
  pub format_in : String → Time → String
  pub two_decimals : String → Option String

-- The text without a character, and with another in its place.
unfoldable pub remove : ℕ → String → String
remove c String.[] = ""
remove c (String.◌∷◌ x s) =
    let rest = remove c s in if nat_beq (code x) c then rest else String.◌∷◌ x rest

unfoldable pub replace : ℕ → Char → String → String
replace c d String.[] = ""
replace c d (String.◌∷◌ x s) =
    let rest = replace c d s in if nat_beq (code x) c then String.◌∷◌ d rest else String.◌∷◌ x rest

unfoldable pub contains : ℕ → String → Bool
contains c String.[] = false
contains c (String.◌∷◌ x s) = nat_beq (code x) c || contains c s

-- `strings.TrimLeft(s, "+")`
unfoldable pub trim_plus : String → String
trim_plus String.[] = ""
trim_plus (String.◌∷◌ x s) =
    let rest = trim_plus s in if nat_beq (code x) b'+' then rest else String.◌∷◌ x s

abbrev or_empty : Option String → String
or_empty none = ""
or_empty (some s) = s

unfoldable pub field : List String → ℕ → String
field row i = or_empty (get_elem? row i)

-- `strings.Join(row, "")`
abbrev joined : List String → String
joined [] = ""
joined (f ∷ fs) = f +++ joined fs

-- Why a row is skipped.
pub data Reason : Type 0 where
  unknown_type bad_date bad_amount no_category : String → Reason
  not_created : Error → Reason

-- The result of an import so far, with the cache of categories.
pub record Progress : Type 0 where
  pub imported : ℕ
  pub skipped : ℕ
  pub errors : List (ℕ × Reason)
  pub cache : List (String × Uuid)

abbrev pub max_import_errors : ℕ
max_import_errors = 20

unfoldable pub add_error : ℕ → Reason → Progress → Progress
add_error n reason p = record p {
  skipped = suc p.skipped;
  errors =
      if ltb (length p.errors) max_import_errors then p.errors ++ ((n, reason) ∷ []) else p.errors;
}

-- `categoryCache[key]`
unfoldable pub cached : String → List (String × Uuid) → Option Uuid
cached key [] = none
cached key ((k, id) ∷ cache) = let rest = cached key cache in if k == key then some id else rest

-- What the database and the translation service give the rows that one line may become.
pub record Draw : Type 0 where
  pub category_id : Uuid
  pub transaction_id : Uuid
  pub now : Time
  pub name_uk : String
  pub name_en : String

module _ (t : Texts) where
  unfoldable pub looks_like_header : List String → Bool
  looks_like_header row =
      let name = t.lower (t.trim (field row 0)) in name == "date" || name == "дата"

  unfoldable pub cache_key : String → String → String
  cache_key type name = t.lower type +++ ("|" +++ t.lower (t.trim name))

  unfoldable pub normalize_type : String → Option String
  normalize_type s =
      let w = t.lower (t.trim s) in
      if w == "expense"
        || (w == "витрата" || (w == "витрати" || (w == "видаток" || w == "видатки")))
      then some "expense"
      else if w == "income" || (w == "дохід" || (w == "доход" || w == "прибуток"))
      then some "income"
      else none

  abbrev pub date_layouts : List String
  date_layouts = "2006-01-02" ∷ "02.01.2006" ∷ "2006/01/02" ∷ "02/01/2006" ∷ []

  unfoldable pub parse_in_layouts : List String → String → Option Time
  parse_in_layouts [] s = none
  parse_in_layouts (layout ∷ layouts) s =
      let rest = parse_in_layouts layouts s in
      elim (t.parse_in layout s) [ some time ↦ some time | none ↦ rest ]

  unfoldable pub parse_date : String → Option Time
  parse_date s = parse_in_layouts date_layouts (t.trim s)

  -- 32 is the space, 160 the non-breaking space, 44 the comma and 46 the point.
  unfoldable pub normalize_amount : String → Option String
  normalize_amount s =
      let bare = remove 160 (remove 32 (t.trim s)) in
      t.two_decimals (
        trim_plus (
          if contains 44 bare && not (contains 46 bare)
          then replace 44 "." bare
          else remove 44 bare))

  unfoldable pub is_blank : List String → Bool
  is_blank row = t.trim (joined row) == ""

  module _ (numeric : String → Option String) (user_id : Uuid) (default_currency : String) where
    abbrev pub new_category : String → String → Draw → Category
    new_category type name d = record {
      id = d.category_id;
      user_id = user_id;
      name = name;
      icon_name = "circle";
      color_hex = "8E8E93";
      type = type;
      is_default = false;
      name_uk = d.name_uk;
      name_en = d.name_en;
      created_at = d.now;
    }

    abbrev pub with_category :
        String → List (String × Uuid) → Result Category → Result (Uuid × List (String × Uuid))
    with_category key cache (ok c) = ok (c.id, (key, c.id) ∷ cache)
    with_category key cache (err e) = err e

    -- The category of a line, created where the cache has none, and the cache afterwards.
    unfoldable pub category_for :
        String → String → Draw → List (String × Uuid) → M (Result (Uuid × List (String × Uuid)))
    category_for type name d cache =
        if name == "" then pure (ok (0, cache)) else elim (cached (cache_key type name) cache) [
          | some id ↦ pure (ok (id, cache))
          | none ↦ do
            created ← try (create_category (new_category type name d))
            pure (with_category (cache_key type name) cache created)
        ]

    abbrev pub row_of : List String → String → Time → String → Uuid → Draw → Transaction
    row_of row type date amount category_id d = record {
      id = d.transaction_id;
      user_id = user_id;
      category_id = category_id;
      amount = amount;
      currency =
          (let c = t.upper (t.trim (field row 4)) in if c == "" then default_currency else c);
      type = type;
      date = date;
      note = field row 5;
      created_at = d.now;
      is_internal_transfer = false;
      external_id = "";
      operation_amount = pos 0;
      operation_currency_code = 0;
      updated_at = 0;
    }

    abbrev pub counted : ℕ → Progress → Result Transaction → Progress
    counted n p (ok row) = record p { imported = suc p.imported }
    counted n p (err e) = add_error n (not_created e) p

    -- A line once its category is known.
    unfoldable pub store_line :
        ℕ
        → List String
        → String
        → Time
        → String
        → Draw
        → Progress
        → Result (Uuid × List (String × Uuid))
        → M Progress
    store_line n row type date amount d p (err e) =
        pure (add_error n (no_category (t.trim (field row 2))) p)
    store_line n row type date amount d p (ok (category_id, cache)) = do
      created ← try (create_transaction numeric (row_of row type date amount category_id d))
      pure (counted n (record p { cache = cache }) created)

    -- The body of the loop, for a line with its number.
    unfoldable pub import_line : ℕ → List String → Draw → Progress → M Progress
    import_line n row d p = if is_blank row then pure p else elim (normalize_type (field row 1)) [
      | none ↦ pure (add_error n (unknown_type (field row 1)) p)
      | some type ↦ elim (parse_date (field row 0)) [
        | none ↦ pure (add_error n (bad_date (field row 0)) p)
        | some date ↦ elim (normalize_amount (field row 3)) [
          | none ↦ pure (add_error n (bad_amount (field row 3)) p)
          | some amount ↦ do
            category ← category_for type (t.trim (field row 2)) d p.cache
            store_line n row type date amount d p category
        ]
      ]
    ]

    unfoldable pub import_lines : ℕ → List (List String × Draw) → Progress → M Progress
    import_lines n [] p = pure p
    import_lines n ((row, d) ∷ rows) p = do p' ← import_line n row d p; import_lines (suc n) rows p'

    abbrev pub entry : Category → String × Uuid
    entry c = (cache_key c.type c.name, c.id)

    -- The cache of the categories, where a later one replaces an earlier one of the same key.
    unfoldable pub cache_of : List (String × Uuid) → List Category → List (String × Uuid)
    cache_of cache [] = cache
    cache_of cache (c ∷ cs) = cache_of (entry c ∷ cache) cs

    abbrev pub without_header : List (List String × Draw) → ℕ × List (List String × Draw)
    without_header [] = (1, [])
    without_header ((row, d) ∷ rows) =
        if looks_like_header row then (2, rows) else (1, (row, d) ∷ rows)

    abbrev pub no_rows_in : {A : Type 0} → List A → Bool
    no_rows_in [] = true
    no_rows_in (x ∷ xs) = false

    -- Import, with the rows that the CSV reader finds, each with its draws.
    unfoldable pub import_rows : Result (List (List String × Draw)) → M Progress
    import_rows read = do
      rows ← from read
      refuse_if (no_rows_in rows) "file is empty"
      existing ← list_categories user_id
      import_lines (without_header rows).0 (without_header rows).1
          (record { imported = 0; skipped = 0; errors = []; cache = cache_of [] existing })

  abbrev name_of : Uuid → List Category → String
  name_of id [] = ""
  name_of id (c ∷ cs) = let rest = name_of id cs in if c.id == id then c.name else rest

  unfoldable pub exported : List Category → Transaction → List String
  exported cs tx =
      t.format_in "2006-01-02" tx.date
      ∷ tx.type
      ∷ name_of tx.category_id cs
      ∷ tx.amount
      ∷ tx.currency
      ∷ tx.note
      ∷ []

  -- Export, up to the CSV writer.
  unfoldable pub export_rows : Uuid → Time → Time → M (List (List String))
  export_rows user_id from_date to_date = do
    txs ← list_transactions user_id from_date to_date
    cats ← list_categories user_id
    pure (
        ("date" ∷ "type" ∷ "category" ∷ "amount" ∷ "currency" ∷ "note" ∷ [])
        ∷ map (exported cats) txs)
