-- ===== src/Mcc.antt =====
-- pkg/mcc/mcc.go: the default category of a merchant category code, and pkg/monobank/currency.go.
use finance_engine.Prelude.{ℕ, String, List, [], ◌∷◌, ◌==◌, nat_eq, if◌then◌else◌}
use finance_engine.Table.{exists}

-- The codes of each category, in the order of the source.
abbrev pub category_by_mcc : List (String × List ℕ)
category_by_mcc =
    ("Продукти", 5411 ∷ 5422 ∷ 5441 ∷ 5451 ∷ 5462 ∷ 5499 ∷ 5300 ∷ 5333 ∷ [])
    ∷ (
      "Розваги",
      5812 ∷ 5813 ∷ 5814 ∷ 7832 ∷ 7922 ∷ 7994 ∷ 7996 ∷ 7998 ∷ 7999 ∷ 5815 ∷ 5816 ∷ 5817 ∷ 5818 ∷ [],
    )
    ∷ ("Транспорт", 4111 ∷ 4121 ∷ 4131 ∷ 4112 ∷ 5541 ∷ 5542 ∷ 7523 ∷ 7512 ∷ 4784 ∷ [])
    ∷ ("Одяг", 5651 ∷ 5661 ∷ 5691 ∷ 5699 ∷ 5137 ∷ 5611 ∷ 5621 ∷ 5631 ∷ [])
    ∷ ("Здоров'я", 5912 ∷ 8011 ∷ 8021 ∷ 8062 ∷ 8031 ∷ 8042 ∷ 8049 ∷ 5122 ∷ [])
    ∷ ("Освіта", 8220 ∷ 8241 ∷ 8299 ∷ 8211 ∷ [])
    ∷ (
      "Житло",
      4900 ∷ 4814 ∷ 4816 ∷ 4899 ∷ 5968 ∷ 1520 ∷ 1711 ∷ 1731 ∷ 5200 ∷ 5211 ∷ 5231 ∷ 5251 ∷ 5712
          ∷ 5719 ∷ 5722 ∷ 5732 ∷ 5734 ∷ [],
    )
    ∷ []

unfoldable pub name_in : List (String × List ℕ) → ℕ → String
unfolding exists
name_in [] code = ""
name_in ((name, codes) ∷ rows) code =
    if exists (λ c. c == code) codes then name else name_in rows code

-- CategoryName
unfoldable pub category_name : ℕ → String
unfolding name_in
category_name code = name_in category_by_mcc code

-- CurrencyCode
unfoldable pub currency_code : ℕ → String
currency_code n =
    if n == 980
    then "UAH"
    else if n == 840
    then "USD"
    else if n == 978
    then "EUR"
    else if n == 826
    then "GBP"
    else if n == 985
    then "PLN"
    else "UAH"
