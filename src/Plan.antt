-- ===== src/Plan.antt =====
-- internal/plan/plan.go: what each subscription tier unlocks.
use finance_engine.Prelude.{
  ℕ, String, Bool, not, ◌||◌, Option, none, some, ◌==◌, if◌then◌else◌, string_eq,
}

abbrev pub free : String
free = "free"

abbrev pub pro : String
pro = "pro"

abbrev pub max : String
max = "max"

abbrev pub enterprise : String
enterprise = "enterprise"

unfoldable pub allows_monobank : String → Bool
allows_monobank p = p == max || p == enterprise

unfoldable pub allows_felix : String → Bool
allows_felix p = not (p == free)

-- `none` means that the history is kept for ever.
unfoldable pub retention_days : String → Option ℕ
retention_days p = if p == free then some 30 else if p == pro then some 365 else none
