-- ===== src/Reports/Counts.antt =====
-- internal/service/reports/reports.go: what the loop of an import counts, which errors it keeps, and what it stores.
use finance_engine.Prelude.{
  ℕ, suc, String, false, Option, some, List, [], ◌∷◌, ◌++◌, ◌==◌, string_eq, nat_eq, ◌≡◌, refl, sym,
  ap, ◌∙◌, ◌+◌, arith, Bool-cases, Option-cases, inl, inr, length, length-append,
}
use mathlib.Core.Path.{subst}
use mathlib.Core.List.{append_assoc, append-nil}
use finance_engine.Schema.{Uuid, Time, Transaction}
use finance_engine.Store.{World, M, Result, ok, err, from, refuse_if, next}
use finance_engine.Categories.{list_categories}
use finance_engine.Transactions.{create_transaction}
use finance_engine.Listings.{limit}
use finance_engine.Reports.{
  Texts, Progress, Draw, Reason, add_error, is_blank, category_for, store_line, import_line,
  import_lines, normalize_type, parse_date, normalize_amount, field, cached, cache_key,
  new_category, row_of, counted, import_rows, without_header, no_rows_in, no_category, unknown_type,
  bad_date, bad_amount, not_created,
}
use finance_engine.Reports.Stored.{rows_of, Stores, create_transaction-Stores, create_category-rows}
use finance_engine.Reports.Log.{
  Fits, no_type, no_date, no_amount, uncategorised, refused_row, Line, blank, skips, imports, Log,
  done, line, lines_in, Log-count, onto, onto-append, limit_snoc,
}

-- What a part of the loop has done to the progress and to the tables, for the errors and the transactions that are
-- logged: it has a progress as its result.
record Logged (es : List (ℕ × Reason)) (ts : List Transaction) (p : Progress) (w : World)
    (out : Result Progress × World) : Type 0 where
  after : Progress
  ended : out.0 ≡ ok after
  imported : after.imported ≡ p.imported + length ts
  skipped : after.skipped ≡ p.skipped + length es
  errors : (all : List (ℕ × Reason)) → p.errors ≡ limit 20 all → after.errors ≡ limit 20 (all ++ es)
  stored : rows_of out.1 ≡ onto ts (rows_of w)

nothing_Logged : (p : Progress) (w : World) → Logged [] [] p w (ok p, w)
nothing_Logged p w = record {
  after = p;
  ended = refl;
  imported = omega arith;
  skipped = omega arith;
  errors = λ all h. h ∙ ap (limit 20) (sym (append-nil all));
  stored = refl;
}

add_error-Logged :
    (n : ℕ) (r : Reason) (p : Progress) (w w' : World)
    → rows_of w' ≡ rows_of w
    → Logged ((n, r) ∷ []) [] p w (ok (add_error n r p), w')
unfolding add_error
add_error-Logged n r p w w' same = record {
  after = add_error n r p;
  ended = refl;
  imported = omega arith;
  skipped = omega arith;
  errors = λ all h. rw h (limit_snoc 20 all (n, r));
  stored = same;
}

then_Logged :
    (es es' : List (ℕ × Reason)) (ts ts' : List Transaction) (p : Progress) (w : World)
    (out : Result Progress × World) (f : Progress → M Progress) (first : Logged es ts p w out)
    → Logged es' ts' first.after out.1 (f first.after out.1)
    → Logged (es ++ es') (ts ++ ts') p w (next f out)
then_Logged es es' ts ts' p w (ok p', w') f first second =
    let same : first.after ≡ p' = cc first.ended in
    subst (λ q. Logged (es ++ es') (ts ++ ts') p w (f q w')) same
      (record {
        after = second.after;
        ended = second.ended;
        imported = omega (arith, first.imported, second.imported, length-append ts ts');
        skipped = omega (arith, first.skipped, second.skipped, length-append es es');
        errors = λ all h.
            second.errors (all ++ es) (first.errors all h)
            ∙ ap (limit 20) (append_assoc all es es');
        stored = second.stored ∙ ap (onto ts') first.stored ∙ sym (onto-append ts ts' (rows_of w));
      })
then_Logged es es' ts ts' p w (err e, w') f first second = absurd (cc first.ended)

module _ (t : Texts) (numeric : String → Option String) (user_id : Uuid) (currency : String) where
  -- A line with what is logged of it.
  abbrev Handled : ℕ → List String → Draw → Progress → World → Result Progress × World → Type 0
  Handled n row d p w out =
      (es : List (ℕ × Reason)) × (ts : List Transaction) × Line t numeric user_id currency n row d
        es ts
      × Logged es ts p w out

  module _ (n : ℕ) (row : List String) (d : Draw) (some_text : is_blank t row ≡ false) where
    skipped_Handled :
        (r : Reason) (p : Progress) (w w' : World)
        → Fits t numeric user_id currency row r
        → rows_of w' ≡ rows_of w
        → Handled n row d p w (ok (add_error n r p), w')
    skipped_Handled r p w w' fits same =
        (((n, r) ∷ []), [], skips r some_text fits, add_error-Logged n r p w w' same)

    module _ (type : String) (date : Time) (amount : String)
        (typed : normalize_type t (field row 1) ≡ some type)
        (dated : parse_date t (field row 0) ≡ some date)
        (read : normalize_amount t (field row 3) ≡ some amount) where
      counted-Handled :
          (p : Progress) (cache : List (String × Uuid)) (w : World) (c : Uuid)
          (out : Result Transaction × World)
          → Stores numeric
              (row_of t numeric user_id currency row type date amount c d)
              (rows_of w)
              out
          → Handled n row d p w
              (ok (counted t numeric user_id currency n (record p { cache = cache }) out.0), out.1)
      counted-Handled p cache w c (ok new, w') (kept, numeral, stored) = (
        [],
        record (row_of t numeric user_id currency row type date amount c d) { amount = kept } ∷ [],
        imports type date amount kept c some_text typed dated read numeral,
        record {
          after = record p { imported = suc p.imported; cache = cache };
          ended = refl;
          imported = omega arith;
          skipped = omega arith;
          errors = λ all h. h ∙ ap (limit 20) (sym (append-nil all));
          stored = stored;
        },
      )
      counted-Handled p cache w c (err e, w') stored =
          let (es, ts, logged, h) =
            skipped_Handled (not_created e) (record p { cache = cache }) w w'
              (refused_row e type date amount typed dated read) stored in
          (
            es,
            ts,
            logged,
            record {
              after = h.after;
              ended = h.ended;
              imported = h.imported;
              skipped = h.skipped;
              errors = h.errors;
              stored = h.stored;
            },
          )

      store_line-Handled :
          (p : Progress) (r : Result (Uuid × List (String × Uuid))) (w w' : World)
          → rows_of w' ≡ rows_of w
          → Handled n row d p w
              (store_line t numeric user_id currency n row type date amount d p r w')
      unfolding store_line
      store_line-Handled p (err e) w w' same =
          skipped_Handled (no_category (t.trim (field row 2))) p w w'
            (uncategorised type date amount typed dated read) same
      store_line-Handled p (ok (c, cache)) w w' same =
          let new = row_of t numeric user_id currency row type date amount c d in
          counted-Handled p cache w c (create_transaction numeric new w') (
            subst (λ l. Stores numeric new l (create_transaction numeric new w')) same
              (create_transaction-Stores numeric new w'))

  -- The step for the category stores no transaction, and has a result.
  category_for-rows :
      (type name : String) (d : Draw) (cache : List (String × Uuid)) (w : World)
      → (r : _) × ((category_for t numeric user_id currency type name d cache w).0 ≡ ok r)
        × (rows_of (category_for t numeric user_id currency type name d cache w).1 ≡ rows_of w)
  unfolding category_for
  category_for-rows type name d cache w = elim (Bool-cases (name == "")) [
    | inl bare ↦ rw (bare, category_for) (_, refl, refl)
    | inr named ↦ elim (Option-cases (cached (cache_key t type name) cache)) [
      | inr (id, known) ↦ rw (named, known, category_for) (_, refl, refl)
      | inl new ↦
          rw (named, new, category_for)
            (_, refl, create_category-rows (new_category t numeric user_id currency type name d) w)
    ]
  ]

  next-Handled :
      (n : ℕ) (row : List String) (d : Draw) (p : Progress) (w : World)
      (f : Result (Uuid × List (String × Uuid)) → M Progress)
      (out : Result (Result (Uuid × List (String × Uuid))) × World)
      (r : Result (Uuid × List (String × Uuid)))
      → out.0 ≡ ok r
      → ((w' : World) → w' ≡ out.1 → Handled n row d p w (f r w'))
      → Handled n row d p w (next f out)
  next-Handled n row d p w f (ok a, w') r e h = let same : a ≡ r = cc e in rw same (h w' refl)
  next-Handled n row d p w f (err e', w') r e h = absurd (cc e)

  import_line-Handled :
      (n : ℕ) (row : List String) (d : Draw) (p : Progress) (w : World)
      → Handled n row d p w (import_line t numeric user_id currency n row d p w)
  unfolding import_line
  import_line-Handled n row d p w = elim (Bool-cases (is_blank t row)) [
    | inl bare ↦ rw (bare, import_line) ([], [], blank bare, nothing_Logged p w)
    | inr text ↦ elim (Option-cases (normalize_type t (field row 1))) [
      | inl bad ↦
          rw (text, bad, import_line)
            (skipped_Handled n row d text (unknown_type (field row 1)) p w w (no_type bad) refl)
      | inr (type, typed) ↦ elim (Option-cases (parse_date t (field row 0))) [
        | inl bad ↦
            rw (text, typed, bad, import_line)
              (skipped_Handled n row d text (bad_date (field row 0)) p w w (no_date type typed bad)
                refl)
        | inr (date, dated) ↦ elim (Option-cases (normalize_amount t (field row 3))) [
          | inl bad ↦
              rw (text, typed, dated, bad, import_line)
                (skipped_Handled n row d text (bad_amount (field row 3)) p w w
                  (no_amount type date typed dated bad) refl)
          | inr (amount, read) ↦
              let (r, has, same) = category_for-rows type (t.trim (field row 2)) d p.cache w in
              rw (text, typed, dated, read, import_line)
                (next-Handled n row d p w _
                  (category_for t numeric user_id currency type (t.trim (field row 2)) d p.cache w)
                  r has
                  (λ w' e.
                    store_line-Handled n row d text type date amount typed dated read p r w w'
                      (ap rows_of e ∙ same)))
        ]
      ]
    ]
  ]

  -- What the loop has done, with its log.
  abbrev Run : ℕ → List (List String × Draw) → Progress → World → Result Progress × World → Type 0
  Run n rows p w out =
      (es : List (ℕ × Reason)) × (ts : List Transaction) × Log t numeric user_id currency n rows es
        ts
      × Logged es ts p w out

  import_lines-Run :
      (n : ℕ) (rows : List (List String × Draw)) (p : Progress) (w : World)
      → Run n rows p w (import_lines t numeric user_id currency n rows p w)
  unfolding import_lines
  import_lines-Run n [] p w = ([], [], done n, nothing_Logged p w)
  import_lines-Run n ((row, d) ∷ rows) p w =
      let out = import_line t numeric user_id currency n row d p w in
      let (es, ts, first, did) = import_line-Handled n row d p w in
      let (es', ts', rest, did') = import_lines-Run (suc n) rows did.after out.1 in
      (
        es ++ es',
        ts ++ ts',
        line n row d rows es es' ts ts' first rest,
        then_Logged es es' ts ts' p w out (import_lines t numeric user_id currency (suc n) rows) did
            did',
      )

  -- What has been done from the start.
  finished :
      (n : ℕ) (rows : List (List String × Draw)) (p : Progress) (w w' : World)
      (out : Result Progress × World)
      → p.imported ≡ 0
      → p.skipped ≡ 0
      → p.errors ≡ []
      → rows_of w' ≡ rows_of w
      → Run n rows p w' out
      → (q : Progress) × (es : List (ℕ × Reason)) × (ts : List Transaction) × (out.0 ≡ ok q)
        × Log t numeric user_id currency n rows es ts
        × (q.imported ≡ length ts)
        × (q.skipped ≡ length es)
        × (q.imported + q.skipped ≡ lines_in t numeric user_id currency rows)
        × (q.errors ≡ limit 20 es)
        × (rows_of out.1 ≡ onto ts (rows_of w))
  unfolding limit
  finished n rows p w w' out a b clean same (es, ts, log, c) = (
    c.after,
    es,
    ts,
    c.ended,
    log,
    omega (arith, a, c.imported),
    omega (arith, b, c.skipped),
    omega
        (arith, a, b, c.imported, c.skipped, Log-count t numeric user_id currency n rows es ts log),
    c.errors [] clean,
    c.stored ∙ ap (onto ts) same,
  )

  -- Import of a file that the CSV reader reads and that has a row, while the database answers the listing of the
  -- categories: it always has a result, whatever fails on the way, and there is a log of the lines after the
  -- header, which gives each line, with its number in the file, nothing if it is blank, and else either one
  -- error or one transaction: an error's reason fits the line, and a transaction is the line's, with the
  -- amount that PostgreSQL keeps. Imported are as many as there are transactions, and skipped as many as
  -- there are errors, together the lines that are not blank; the errors of the result are the first 20 of
  -- the log; and the table has exactly the log's transactions on top of what it had.
  pub import_rows_counts :
      (rows : List (List String × Draw)) (w : World)
      → no_rows_in t numeric user_id currency rows ≡ false
      → w.down w.queries ≡ false
      → let out = import_rows t numeric user_id currency (ok rows) w in
        let (n, lines) = without_header t numeric user_id currency rows in
        (p : Progress) × (es : List (ℕ × Reason)) × (ts : List Transaction) × (out.0 ≡ ok p)
        × Log t numeric user_id currency n lines es ts
        × (p.imported ≡ length ts)
        × (p.skipped ≡ length es)
        × (p.imported + p.skipped ≡ lines_in t numeric user_id currency lines)
        × (p.errors ≡ limit 20 es)
        × (rows_of out.1 ≡ onto ts (rows_of w))
  unfolding import_rows from refuse_if list_categories
  import_rows_counts rows w some_row up =
      rw (some_row, up)
        (finished _ _ _ w _ _ refl refl refl refl (
          import_lines-Run (without_header t numeric user_id currency rows).0
            (without_header t numeric user_id currency rows).1 _
            (record w { queries = suc w.queries })))
