-- ===== src/Reports/Log.antt =====
-- internal/service/reports/reports.go: what the loop of an import makes of each line, as a log that says nothing of
-- how the loop is run.
use finance_engine.Prelude.{
  ℕ, zero, suc, String, true, false, Option, none, some, List, [], ◌∷◌, ◌++◌, if◌then◌else◌, ltb,
  ◌≡◌, refl, ap, sym, ◌+◌, arith, Bool-cases, inl, inr, length, length-append,
}
use finance_engine.Schema.{Uuid, Time, Transaction}
use finance_engine.Listings.{limit}
use finance_engine.Reports.{
  Texts, Draw, Reason, is_blank, normalize_type, parse_date, normalize_amount, field, row_of,
  no_category, unknown_type, bad_date, bad_amount, not_created,
}

module _ (t : Texts) (numeric : String → Option String) (user_id : Uuid) (currency : String) where
  -- The reason fits the line; the tests come in the order of the type, the date and the amount.
  pub data Fits (row : List String) : Reason → Type 0 where
    no_type : normalize_type t (field row 1) ≡ none → Fits row (unknown_type (field row 1))
    no_date :
        (type : String)
        → normalize_type t (field row 1) ≡ some type
        → parse_date t (field row 0) ≡ none
        → Fits row (bad_date (field row 0))
    no_amount :
        (type : String) (date : Time)
        → normalize_type t (field row 1) ≡ some type
        → parse_date t (field row 0) ≡ some date
        → normalize_amount t (field row 3) ≡ none
        → Fits row (bad_amount (field row 3))
    uncategorised :
        (type : String) (date : Time) (amount : String)
        → normalize_type t (field row 1) ≡ some type
        → parse_date t (field row 0) ≡ some date
        → normalize_amount t (field row 3) ≡ some amount
        → Fits row (no_category (t.trim (field row 2)))
    refused_row :
        (e : _) (type : String) (date : Time) (amount : String)
        → normalize_type t (field row 1) ≡ some type
        → parse_date t (field row 0) ≡ some date
        → normalize_amount t (field row 3) ≡ some amount
        → Fits row (not_created e)

  -- What comes of a line with its number: nothing, an error, or a transaction.
  pub data Line (n : ℕ) (row : List String) (d : Draw)
      : List (ℕ × Reason) → List Transaction → Type 0 where
    blank : is_blank t row ≡ true → Line n row d [] []
    skips : (r : Reason) → is_blank t row ≡ false → Fits row r → Line n row d ((n, r) ∷ []) []
    imports :
        (type : String) (date : Time) (amount kept : String) (category_id : Uuid)
        → is_blank t row ≡ false
        → normalize_type t (field row 1) ≡ some type
        → parse_date t (field row 0) ≡ some date
        → normalize_amount t (field row 3) ≡ some amount
        → numeric amount ≡ some kept
        → Line n row d [] (
            record (row_of t numeric user_id currency row type date amount category_id d) {
              amount = kept;
            }
            ∷ [])

  -- The errors and the transactions of lines that are numbered from n.
  pub data Log : ℕ → List (List String × Draw) → List (ℕ × Reason) → List Transaction → Type 0 where
    done : (n : ℕ) → Log n [] [] []
    line :
        (n : ℕ) (row : List String) (d : Draw) (rows : List (List String × Draw))
        (es es' : List (ℕ × Reason)) (ts ts' : List Transaction)
        → Line n row d es ts
        → Log (suc n) rows es' ts'
        → Log n ((row, d) ∷ rows) (es ++ es') (ts ++ ts')

  -- One for a line that is not blank, and the number of these.
  abbrev pub line_count : List String → ℕ
  line_count row = if is_blank t row then 0 else 1

  abbrev pub lines_in : List (List String × Draw) → ℕ
  lines_in [] = 0
  lines_in ((row, d) ∷ rows) = line_count row + lines_in rows

  Line-count :
      (n : ℕ) (row : List String) (d : Draw) (es : List (ℕ × Reason)) (ts : List Transaction)
      → Line n row d es ts
      → length ts + length es ≡ line_count row
  Line-count n row d es ts (blank b) = rw b refl
  Line-count n row d es ts (skips r b fits) = rw b refl
  Line-count n row d es ts (imports type date amount kept c b _ _ _ _) = rw b refl

  -- Each line that is not blank is in the log once.
  pub Log-count :
      (n : ℕ) (rows : List (List String × Draw)) (es : List (ℕ × Reason)) (ts : List Transaction)
      → Log n rows es ts
      → length ts + length es ≡ lines_in rows
  Log-count n rows es ts (done _) = refl
  Log-count n _ _ _ (line _ row d rows es es' ts ts' first rest) = omega (
    arith,
    length-append ts ts',
    length-append es es',
    Line-count n row d es ts first,
    Log-count (suc n) rows es' ts' rest,
  )

-- The transactions put one by one before the rows.
abbrev pub onto : List Transaction → List Transaction → List Transaction
onto [] old = old
onto (x ∷ xs) old = onto xs (x ∷ old)

pub onto-append : (xs ys old : List Transaction) → onto (xs ++ ys) old ≡ onto ys (onto xs old)
onto-append [] ys old = refl
onto-append (x ∷ xs) ys old = onto-append xs ys (x ∷ old)

limit_none : {A : Type 0} (n : ℕ) → ◌≡◌ {A = List A} (limit n []) []
unfolding limit
limit_none zero = refl
limit_none (suc n) = refl

-- An element after the first n: it is kept while there are fewer.
pub limit_snoc :
    {A : Type 0} (n : ℕ) (xs : List A) (x : A)
    → (if ltb (length (limit n xs)) n then limit n xs ++ (x ∷ []) else limit n xs)
      ≡ limit n (xs ++ (x ∷ []))
unfolding limit
limit_snoc zero [] x = refl
limit_snoc zero (y ∷ ys) x = refl
limit_snoc (suc n) [] x =
    let few : ltb 0 (suc n) ≡ true = ground arith in rw few (ap (λ l. x ∷ l) (sym (limit_none n)))
limit_snoc (suc n) (y ∷ ys) x =
    let ih = limit_snoc n ys x in
    elim (Bool-cases (ltb (length (limit n ys)) n)) [
      | inl fewer ↦
          let fewer' : ltb (suc (length (limit n ys))) (suc n) ≡ true = ground (arith, fewer) in
          rw fewer' (ap (λ l. y ∷ l) (rw fewer at ih))
      | inr full ↦
          let full' : ltb (suc (length (limit n ys))) (suc n) ≡ false = ground (arith, full) in
          rw full' (ap (λ l. y ∷ l) (rw full at ih))
    ]
