-- ===== src/Owned/Papers.antt =====
-- internal/service/reports: an export and an import, and what another user sees of them.
use finance_engine.Prelude.{
  ℕ, suc, String, Option, List, [], ◌∷◌, ◌==◌, string_eq, ◌≢◌, refl, Bool-cases, Option-cases, inl,
  inr,
}
use finance_engine.Schema.{Uuid, Time}
use finance_engine.Store.{Result, ok, err, from, try}
use finance_engine.Categories.{list_categories, create_category}
use finance_engine.Transactions.{create_transaction}
use finance_engine.Listings.{list_transactions}
use finance_engine.Reports.{
  Texts, Progress, Draw, category_for, store_line, import_line, import_lines, import_rows,
  export_rows, is_blank, normalize_type, parse_date, normalize_amount, field, cached, cache_key,
  with_category, counted,
}
use finance_engine.Owned.{Spares}
use finance_engine.Owned.Queries.{>>=-Spares, from-Spares, pure-Spares, try-Spares}
use finance_engine.Owned.Services.{refuse-Spares, create_category-Spares, create_transaction-Spares}
use finance_engine.Owned.Bank.{list_categories-Spares, list_transactions-Spares}

pub export_rows-Spares :
    (t : Texts) (i j : Uuid) (first last : Time) → Spares j (export_rows t i first last)
unfolding export_rows
export_rows-Spares t i j first last =
    >>=-Spares j (list_transactions i first last) _ (list_transactions-Spares j i first last)
      (λ txs.
        >>=-Spares j (list_categories i) _ (list_categories-Spares j i) (λ cats. pure-Spares j _))

module _ (t : Texts) (numeric : String → Option String) (i j : Uuid) (ne : i ≢ j)
    (currency : String) where
  category_for-Spares :
      (type name : String) (d : Draw) (cache : List (String × Uuid))
      → Spares j (category_for t numeric i currency type name d cache)
  unfolding category_for
  category_for-Spares type name d cache = elim (Bool-cases (name == "")) [
    | inl bare ↦ rw (bare, category_for) (pure-Spares j _)
    | inr named ↦ elim (Option-cases (cached (cache_key t type name) cache)) [
      | inr (id, known) ↦ rw (named, known, category_for) (pure-Spares j _)
      | inl new ↦
          rw (named, new, category_for)
            (>>=-Spares j (try (create_category _)) _
              (try-Spares j (create_category _) (create_category-Spares i j ne _ refl))
              (λ r.
                pure-Spares j (with_category t numeric i currency (cache_key t type name) cache r)))
    ]
  ]

  store_line-Spares :
      (n : ℕ) (row : List String) (type : String) (date : Time) (amount : String) (d : Draw)
      (p : Progress) (r : Result (Uuid × List (String × Uuid)))
      → Spares j (store_line t numeric i currency n row type date amount d p r)
  unfolding store_line
  store_line-Spares n row type date amount d p (err e) = pure-Spares j _
  store_line-Spares n row type date amount d p (ok (category_id, cache)) =
      >>=-Spares j (try (create_transaction numeric _)) _
        (try-Spares j (create_transaction numeric _)
          (create_transaction-Spares i j ne numeric _ refl))
        (λ r. pure-Spares j (counted t numeric i currency n (record p { cache = cache }) r))

  import_line-Spares :
      (n : ℕ) (row : List String) (d : Draw) (p : Progress)
      → Spares j (import_line t numeric i currency n row d p)
  unfolding import_line
  import_line-Spares n row d p = elim (Bool-cases (is_blank t row)) [
    | inl blank ↦ rw (blank, import_line) (pure-Spares j p)
    | inr line ↦ elim (Option-cases (normalize_type t (field row 1))) [
      | inl bad ↦ rw (line, bad, import_line) (pure-Spares j _)
      | inr (type, typed) ↦ elim (Option-cases (parse_date t (field row 0))) [
        | inl bad ↦ rw (line, typed, bad, import_line) (pure-Spares j _)
        | inr (date, dated) ↦ elim (Option-cases (normalize_amount t (field row 3))) [
          | inl bad ↦ rw (line, typed, dated, bad, import_line) (pure-Spares j _)
          | inr (amount, read) ↦
              rw (line, typed, dated, read, import_line)
                (>>=-Spares j
                  (category_for t numeric i currency type (t.trim (field row 2)) d p.cache) _
                  (category_for-Spares type (t.trim (field row 2)) d p.cache)
                  (λ r. store_line-Spares n row type date amount d p r))
        ]
      ]
    ]
  ]

  import_lines-Spares :
      (n : ℕ) (rows : List (List String × Draw)) (p : Progress)
      → Spares j (import_lines t numeric i currency n rows p)
  unfolding import_lines
  import_lines-Spares n [] p = pure-Spares j p
  import_lines-Spares n ((row, d) ∷ rows) p =
      >>=-Spares j (import_line t numeric i currency n row d p) _ (import_line-Spares n row d p)
        (λ p'. import_lines-Spares (suc n) rows p')

  pub import_rows-Spares :
      (read : Result (List (List String × Draw))) → Spares j (import_rows t numeric i currency read)
  unfolding import_rows
  import_rows-Spares read = >>=-Spares j (from read) _ (from-Spares j read) (λ rows.
      refuse-Spares j _ _ _ (
        >>=-Spares j (list_categories i) _ (list_categories-Spares j i)
          (λ cs. import_lines-Spares _ _ _)))
