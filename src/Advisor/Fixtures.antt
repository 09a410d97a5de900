-- ===== src/Advisor/Fixtures.antt =====
-- An arithmetic of tenths, a calendar whose days are numbers, and a service, on which the theorems on the advisor
-- are run.
use finance_engine.Prelude.{
  ℕ, String, false, none, some, [], ◌∷◌, ◌==◌, string_eq, nat_eq, if◌then◌else◌, ltb, nat_beq, refl,
  ◌≤◌, ◌+◌, ◌-◌, ◌*◌, ◌/◌, arith, ℤ, pos, negsuc,
}
use native.Mathlib.Nat.{mul-le-mul_left}
use finance_engine.Schema.{day}
use finance_engine.Store.{ok}
use finance_engine.Advisor.{Float, Floats, Service}
use finance_engine.Advisor.Bounds.{IsRounding}
use finance_engine.Advisor.Regular.{IsOrdering}
use finance_engine.Advisor.Felix.{Lines, Draw, Cache}

abbrev of_int : ℤ → Float
of_int (pos n) = 10 * n
of_int (negsuc n) = 0

abbrev constant : String → Float
constant t =
    if t == "0.20"
    then 2
    else if t == "0.3"
    then 3
    else if t == "0.4"
    then 4
    else if t == "0.5"
    then 5
    else if t == "0.75"
    then 8
    else if t == "20.0"
    then 200
    else 400

-- Tenths, rounded down; what would be negative is 0, and so is a quotient by 0.
abbrev pub tenths : Floats
tenths = record {
  of_int = of_int;
  constant = constant;
  add = λ x y. x + y;
  sub = λ x y. x - y;
  mul = λ x y. x * y / 10;
  div = λ x y. x * 10 / y;
  negate = λ x. x;
  lt = ltb;
  eq = nat_beq;
  round = λ x. pos ((x + 5) / 10);
  truncate = λ x. pos (x / 10);
  scan = λ t. if t == "5" then some 50 else if t == "" then none else some 100;
  whole = λ x. "n";
  signed = λ x. "+n";
}

mul_tenths_mono : (k x y : ℕ) → x ≤ y → k * x / 10 ≤ k * y / 10
mul_tenths_mono k x y h = omega (arith, mul-le-mul_left k h)

pub tenths-IsRounding : IsRounding tenths
tenths-IsRounding = record {
  at_most_trans = λ x y z p q. ground arith;
  at_most_of_not_lt = λ x y p q h. ground arith;
  of_int_mono = λ m n h k. ground arith;
  of_int_number = λ n. ground arith;
  add_mono = λ x x' y y' a b p q. ground arith;
  add_positive = λ x y p q. ground arith;
  mul_mono =
      λ k x y a c b p q. let le : x ≤ y = ground arith in ground (arith, mul_tenths_mono k x y le);
  mul_positive = λ k x p c q r. ground arith;
  div_number = λ x k p q r. ground arith;
  mul_number = λ x k p q r. ground arith;
  sub_number = λ k x p q r. ground arith;
  round_range = λ x p q. ground arith;
  hundred_positive = refl;
  twenty = refl;
  fifth = (refl, refl);
  half = (refl, refl);
  three_quarters = (refl, refl);
  two_fifths = (refl, refl);
  three_tenths = (refl, refl);
  full_score = refl;
}

pub tenths-IsOrdering : IsOrdering tenths
tenths-IsOrdering = record {
  lt_trans = λ x y z p q. ground arith;
  lt_of_not_lt = λ x y z p q n. ground arith;
  number_of_lt = λ x y p. ground arith;
  zero_number = refl;
  variance_positive = refl;
}

abbrev pub service : Service
service = record {
  floats = tenths;
  calendar = record {
    day_text = λ t. "today";
    day = λ t. 1;
    month_start = λ t. t - 1;
    month_day = λ t n. t + n;
    days_in_month = λ t. 30;
    add_months = λ n t. t + 30 * day;
    add_days = λ n t. t;
    hours = λ t. 10 * (t / 3600000000);
  };
  texts = record { normalize = λ t. t; display = λ t. t; decimal = λ n. "n" };
  orders = record { totals = λ l. l; names = λ l. l; groups = λ l. l; entries = λ l. l };
  preamble = "Felix";
}

abbrev pub lines : Lines
lines = record {
  split = λ t. t ∷ "" ∷ t ∷ [];
  cleaned = λ t. t;
  is_assistant = λ t. t == "assistant";
}

-- The rates are there, and the model says the same every time.
abbrev pub draw : Draw
draw = record {
  rates = ok [];
  rates' = ok [];
  now = 5;
  now' = 5;
  llm = λ messages. ok "Eat less out";
}

abbrev pub cache : Cache
cache = record { entries = []; down = λ n. false; commands = 0 }
