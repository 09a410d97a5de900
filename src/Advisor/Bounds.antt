-- ===== src/Advisor/Bounds.antt =====
-- internal/service/advisor/advisor.go: within which bounds FinancialScore stays.
use finance_engine.Prelude.{
  ℕ, String, Bool, true, false, ◌||◌, ◌≡◌, sym, ◌≤◌, arith, ℤ, pos, negsuc, List, Bool-cases, inl,
  inr, length,
}
use mathlib.Core.Path.{subst}
use finance_engine.Schema.{Uuid, Time}
use finance_engine.Store.{World, Result, ok, from}
use finance_engine.Listings.{list_transactions}
use finance_engine.Store.Rules.{next-ok}
use finance_engine.Rates.{Rate}
use finance_engine.Advisor.{Float, Floats, Service, zero_float, rate_table}
use finance_engine.Advisor.Score.{
  Breakdown, Sums, add_transactions, no_sums, clamp_score, weighted, savings_rate,
  top_category_share, breakdown, score_of, financial_score,
}

-- A score from 0 to 100.
abbrev pub IsPercent : ℤ → Type 0
IsPercent (pos n) = n ≤ 100
IsPercent _ = ⊥

module _ (f : Floats) where
  -- `x <= y`, which NaN is to no number.
  abbrev pub at_most : Float → Float → Bool
  at_most x y = f.lt x y || f.eq x y

  -- `x == x`, which NaN is not.
  abbrev pub is_number : Float → Bool
  is_number x = f.eq x x

  abbrev hundred : Float
  hundred = f.of_int (pos 100)

  abbrev nil : Float
  nil = zero_float f

  -- What IEEE 754 says of the operations that FinancialScore uses, away from NaN and overflow.
  pub record IsRounding : Type 0 where
    pub at_most_trans :
        (x y z : Float) → at_most x y ≡ true → at_most y z ≡ true → at_most x z ≡ true
    pub at_most_of_not_lt :
        (x y : Float)
        → is_number x ≡ true
        → is_number y ≡ true
        → f.lt x y ≡ false
        → at_most y x ≡ true
    pub of_int_mono :
        (m n : ℕ) → m ≤ n → n ≤ 100 → at_most (f.of_int (pos m)) (f.of_int (pos n)) ≡ true
    pub of_int_number : (n : ℕ) → is_number (f.of_int (pos n)) ≡ true
    pub add_mono :
        (x x' y y' : Float)
        → at_most nil x ≡ true
        → at_most nil y ≡ true
        → at_most x x' ≡ true
        → at_most y y' ≡ true
        → at_most (f.add x y) (f.add x' y') ≡ true
    pub add_positive :
        (x y : Float) → at_most nil x ≡ true → at_most nil y ≡ true → at_most nil (f.add x y) ≡ true
    pub mul_mono :
        (k x y : Float)
        → at_most nil k ≡ true
        → at_most k hundred ≡ true
        → at_most nil x ≡ true
        → at_most x y ≡ true
        → at_most y hundred ≡ true
        → at_most (f.mul k x) (f.mul k y) ≡ true
    pub mul_positive :
        (k x : Float)
        → at_most nil k ≡ true
        → at_most k hundred ≡ true
        → at_most nil x ≡ true
        → at_most x hundred ≡ true
        → at_most nil (f.mul k x) ≡ true
    pub div_number :
        (x k : Float)
        → is_number x ≡ true
        → f.lt nil k ≡ true
        → at_most k hundred ≡ true
        → is_number (f.div x k) ≡ true
    pub mul_number :
        (x k : Float)
        → is_number x ≡ true
        → f.lt nil k ≡ true
        → at_most k hundred ≡ true
        → is_number (f.mul x k) ≡ true
    pub sub_number :
        (k x : Float)
        → at_most nil k ≡ true
        → at_most k hundred ≡ true
        → is_number x ≡ true
        → is_number (f.sub k x) ≡ true
    pub round_range :
        (x : Float) → at_most nil x ≡ true → at_most x hundred ≡ true → IsPercent (f.round x)
    -- The constants, and the weighted sum of three full scores.
    pub hundred_positive : f.lt nil hundred ≡ true
    pub twenty : f.lt nil (f.of_int (pos 20)) ≡ true
    pub fifth : (f.lt nil (f.constant "0.20") ≡ true) × (at_most (f.constant "0.20") hundred ≡ true)
    pub half : (f.lt nil (f.constant "0.5") ≡ true) × (at_most (f.constant "0.5") hundred ≡ true)
    pub three_quarters :
        (at_most nil (f.constant "0.75") ≡ true) × (at_most (f.constant "0.75") hundred ≡ true)
    pub two_fifths :
        (at_most nil (f.constant "0.4") ≡ true) × (at_most (f.constant "0.4") hundred ≡ true)
    pub three_tenths :
        (at_most nil (f.constant "0.3") ≡ true) × (at_most (f.constant "0.3") hundred ≡ true)
    pub full_score :
        at_most
          (f.add
            (f.add (f.mul (f.constant "0.4") hundred) (f.mul (f.constant "0.3") hundred))
            (f.mul (f.constant "0.3") hundred))
          hundred
        ≡ true

  module _ (laws : IsRounding) where
    open laws use {at_most_trans, of_int_mono, of_int_number, add_mono, add_positive}

    clamp_score-IsPercent : (v : Float) → is_number v ≡ true → IsPercent (clamp_score f v)
    unfolding clamp_score
    clamp_score-IsPercent v number = elim (Bool-cases (f.lt v nil)) [
      | inl low ↦ rw low (omega arith)
      | inr not_low ↦ elim (Bool-cases (f.lt hundred v)) [
        | inl high ↦ rw (not_low, high) (omega arith)
        | inr not_high ↦
            rw (not_low, not_high)
              (laws.round_range v (laws.at_most_of_not_lt v nil number (of_int_number 0) not_low)
                (laws.at_most_of_not_lt hundred v (of_int_number 100) number not_high))
      ]
    ]

    -- A score, weighted, is at least nothing and at most as much as a full one.
    weighed :
        (k : Float) (n : ℕ)
        → (at_most nil k ≡ true) × (at_most k hundred ≡ true)
        → n ≤ 100
        → (at_most nil (f.mul k (f.of_int (pos n))) ≡ true)
          × (at_most (f.mul k (f.of_int (pos n))) (f.mul k hundred) ≡ true)
    weighed k n (positive, small) h =
        let low = of_int_mono 0 n (omega arith) h in
        let high = of_int_mono n 100 h (omega arith) in
        (
          laws.mul_positive k (f.of_int (pos n)) positive small low high,
          laws.mul_mono k (f.of_int (pos n)) hundred positive small low high
              (of_int_mono 100 100 (omega arith) (omega arith)),
        )

    weighted-IsPercent :
        (a b c : ℤ) → IsPercent a → IsPercent b → IsPercent c → IsPercent (weighted f a b c)
    unfolding weighted
    weighted-IsPercent (pos a) (pos b) (pos c) ha hb hc =
        let (a0, a1) = weighed (f.constant "0.4") a laws.two_fifths ha in
        let (b0, b1) = weighed (f.constant "0.3") b laws.three_tenths hb in
        let (c0, c1) = weighed (f.constant "0.3") c laws.three_tenths hc in
        let ab0 = add_positive _ _ a0 b0 in
        laws.round_range _ (add_positive _ _ ab0 c0) (
          at_most_trans _ _ _ (add_mono _ _ _ _ ab0 c0 (add_mono _ _ _ _ a0 b0 a1 b1) c1)
            laws.full_score)
    weighted-IsPercent (pos a) (pos b) (negsuc _) ha hb hc = elim hc [ ]
    weighted-IsPercent (pos a) (negsuc _) c ha hb hc = elim hb [ ]
    weighted-IsPercent (negsuc _) b c ha hb hc = elim ha [ ]

    -- A number divided and scaled to a hundred is a number.
    scaled :
        (x k : Float)
        → is_number x ≡ true
        → f.lt nil k ≡ true
        → at_most k hundred ≡ true
        → is_number (f.mul (f.div x k) hundred) ≡ true
    scaled x k number positive small =
        laws.mul_number (f.div x k) hundred (laws.div_number x k number positive small)
          laws.hundred_positive (of_int_mono 100 100 (omega arith) (omega arith))

-- All the scores of a breakdown are from 0 to 100.
pub record IsBounded (b : Breakdown) : Type 0 where
  pub total : IsPercent b.total
  pub savings : IsPercent b.savings_score
  pub balance : IsPercent b.balance_score
  pub consistency : IsPercent b.consistency_score

module _ (s : Service) (laws : IsRounding s.floats) where
  breakdown-IsBounded :
      (sums : Sums)
      → is_number s.floats (savings_rate s sums) ≡ true
      → is_number s.floats (top_category_share s sums) ≡ true
      → IsBounded (breakdown s sums)
  unfolding breakdown
  breakdown-IsBounded sums rate share =
      let f = s.floats in
      let savings =
        clamp_score-IsPercent f laws _
          (scaled f laws _ (f.constant "0.20") rate laws.fifth.0 laws.fifth.1) in
      let balance = clamp_score-IsPercent f laws _ (
        scaled f laws _ (f.constant "0.5")
          (laws.sub_number (f.constant "0.75") _ laws.three_quarters.0 laws.three_quarters.1 share)
          laws.half.0 laws.half.1) in
      let consistency = clamp_score-IsPercent f laws _ (
        scaled f laws _ (f.of_int (pos 20)) (laws.of_int_number (length sums.active_days))
          laws.twenty (laws.of_int_mono 20 100 (omega arith) (omega arith))) in
      record {
        total = weighted-IsPercent f laws _ _ _ savings balance consistency;
        savings = savings;
        balance = balance;
        consistency = consistency;
      }

  -- What FinancialScore gives is made of some sums.
  scored :
      (i : Uuid) (base : String) (rates : Result (List (Rate Float))) (now : Time) (w : World)
      (b : Breakdown)
      → (financial_score s i base rates now w).0 ≡ ok b
      → (sums : Sums) × (breakdown s sums ≡ b)
  unfolding financial_score score_of from
  scored i base rates now w b h =
      let (txs, h') = next-ok _ (list_transactions i _ now w) h in
      let (known, done) = next-ok _ (from rates _) h' in
      (add_transactions s base (rate_table s.floats known) (no_sums s) txs, cc done)

  -- The score that FinancialScore gives is within 0 and 100, as are its three parts, for any transactions and
  -- any rates, if the savings rate and the share of the largest category that it gives with it are numbers
  -- and not NaN, and the arithmetic is that of IEEE 754.
  pub score_bounds :
      (i : Uuid) (base : String) (rates : Result (List (Rate Float))) (now : Time) (w : World)
      (b : Breakdown)
      → (financial_score s i base rates now w).0 ≡ ok b
      → is_number s.floats b.savings_rate ≡ true
      → is_number s.floats b.top_category_share ≡ true
      → IsBounded b
  unfolding breakdown
  score_bounds i base rates now w b h rate share =
      let (sums, made) = scored i base rates now w b h in
      subst IsBounded made (
        breakdown-IsBounded sums
          (subst (λ c. is_number s.floats c.savings_rate ≡ true) (sym made) rate)
          (subst (λ c. is_number s.floats c.top_category_share ≡ true) (sym made) share))
