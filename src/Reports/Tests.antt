-- ===== src/Reports/Tests.antt =====
-- A file of a header and four lines: a good one, a blank one, one without a date, and one of no known type.
use finance_engine.Prelude.{ℕ, String, List, [], ◌∷◌, string_eq, ◌≡◌, refl, ◌+◌, length}
use finance_engine.Store.{ok}
use finance_engine.Schema.{Transaction}
use finance_engine.Listings.{limit}
use finance_engine.Reports.{
  Texts, Draw, Progress, Reason, import_rows, is_blank, looks_like_header, field, without_header,
}
use finance_engine.Reports.Stored.{rows_of}
use finance_engine.Reports.Log.{Log, onto}
use finance_engine.Reports.Counts.{import_rows_counts}
use finance_engine.Rest.Fixtures.{app, world}

abbrev texts : Texts
texts = app.papers.texts

abbrev draw : ℕ → Draw
draw n = record { category_id = n; transaction_id = n; now = 5; name_uk = ""; name_en = "" }

abbrev lines : List (List String × Draw)
lines =
    ("date" ∷ "type" ∷ [], draw 1)
    ∷ ("x0" ∷ "expense" ∷ "Food" ∷ "1,5" ∷ "UAH" ∷ "lunch" ∷ [], draw 31)
    ∷ ("" ∷ "" ∷ [], draw 32)
    ∷ ("" ∷ "income" ∷ [], draw 33)
    ∷ ("x0" ∷ "gift" ∷ [], draw 34)
    ∷ []

import_rows_counts_example :
    let out = import_rows texts app.numeric 7 "UAH" (ok lines) world in
    let (n, rest) = without_header texts app.numeric 7 "UAH" lines in
    (p : Progress) × (es : List (ℕ × Reason)) × (ts : List Transaction) × (out.0 ≡ ok p)
    × Log texts app.numeric 7 "UAH" n rest es ts
    × (p.imported ≡ length ts)
    × (p.skipped ≡ length es)
    × (p.imported + p.skipped ≡ 3)
    × (p.errors ≡ limit 20 es)
    × (rows_of out.1 ≡ onto ts (rows_of world))
unfolding is_blank looks_like_header field
import_rows_counts_example = import_rows_counts texts app.numeric 7 "UAH" lines world refl refl
