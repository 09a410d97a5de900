-- ===== src/Advisor/Regular.antt =====
-- internal/service/advisor/insights.go: when the charges of a note are taken for a subscription.
use finance_engine.Prelude.{
  true, false, List, [], ◌∷◌, ◌≡◌, refl, sym, ap, ◌∙◌, inl, inr, ◌↔◌, Bool-cases, arith, length,
  ltb,
}
use finance_engine.Maps.Laws.{In}
use finance_engine.Advisor.{Float, Floats, Service, Entry, zero_float}
use finance_engine.Advisor.Recurring.{
  subscription_max_variance, deviation, max_deviation, average_interval, average_amount,
  is_recurring,
}

-- What IEEE 754 says of comparing, of which NaN is no part, and of the constant 0.20.
pub record IsOrdering (f : Floats) : Type 0 where
  pub lt_trans : (x y z : Float) → f.lt x y ≡ true → f.lt y z ≡ true → f.lt x z ≡ true
  pub lt_of_not_lt :
      (x y z : Float) → f.lt x y ≡ true → f.lt z y ≡ false → f.eq z z ≡ true → f.lt x z ≡ true
  pub number_of_lt : (x y : Float) → f.lt x y ≡ true → f.eq y y ≡ true
  pub zero_number : f.eq (zero_float f) (zero_float f) ≡ true
  pub variance_positive : f.lt (subscription_max_variance f) (zero_float f) ≡ false

module _ (s : Service) where
  -- At least three charges, 20 to 40 days apart on average, of an average amount that is not 0, from which each
  -- of them is at most a fifth away.
  pub record Recurs (es : List Entry) : Type 0 where
    pub often : ltb (length es) 3 ≡ false
    pub not_sooner : s.floats.lt (average_interval s es) (s.floats.constant "20.0") ≡ false
    pub not_later : s.floats.lt (s.floats.constant "40.0") (average_interval s es) ≡ false
    pub not_free : s.floats.eq (average_amount s es) (zero_float s.floats) ≡ false
    pub steady :
        (e : Entry)
        → In e es
        → s.floats.lt (s.floats.constant "0.20") (deviation s (average_amount s es) e) ≡ false

  module _ (o : IsOrdering s.floats) (limit average : Float) where
    -- What stays under a limit.
    max_deviation-under :
        (es : List Entry) (g : Float)
        → s.floats.lt limit g ≡ false
        → ((e : Entry) → In e es → s.floats.lt limit (deviation s average e) ≡ false)
        → s.floats.lt limit (max_deviation s average g es) ≡ false
    unfolding max_deviation
    max_deviation-under [] g under each = under
    max_deviation-under (e ∷ es) g under each =
        let later : (d : Entry) → In d es → s.floats.lt limit (deviation s average d) ≡ false =
          λ d h. each d (inr h) in
        elim (Bool-cases (s.floats.lt g (deviation s average e))) [
          | inl more ↦ rw more (max_deviation-under es _ (each e (inl refl)) later)
          | inr less ↦ rw less (max_deviation-under es g under later)
        ]

    -- The greatest deviation only grows.
    max_deviation-over :
        (es : List Entry) (g : Float)
        → s.floats.lt limit g ≡ true
        → s.floats.lt limit (max_deviation s average g es) ≡ true
    unfolding max_deviation
    max_deviation-over [] g over = over
    max_deviation-over (e ∷ es) g over = elim (Bool-cases (s.floats.lt g (deviation s average e))) [
      | inl more ↦ rw more (max_deviation-over es _ (o.lt_trans limit g _ over more))
      | inr less ↦ rw less (max_deviation-over es g over)
    ]

    max_deviation-reached :
        (es : List Entry) (g : Float) (e : Entry)
        → s.floats.eq g g ≡ true
        → In e es
        → s.floats.lt limit (deviation s average e) ≡ true
        → s.floats.lt limit (max_deviation s average g es) ≡ true
    unfolding max_deviation
    max_deviation-reached [] g e number h over = elim h [ ]
    max_deviation-reached (d ∷ es) g e number (inl here) over =
        let over' : s.floats.lt limit (deviation s average d) ≡ true =
          ap (λ x. s.floats.lt limit (deviation s average x)) (sym here) ∙ over in
        elim (Bool-cases (s.floats.lt g (deviation s average d))) [
          | inl more ↦ rw more (max_deviation-over es _ over')
          | inr less ↦
              rw less (max_deviation-over es g (o.lt_of_not_lt limit _ g over' less number))
        ]
    max_deviation-reached (d ∷ es) g e number (inr there) over =
        elim (Bool-cases (s.floats.lt g (deviation s average d))) [
          | inl more ↦ rw more (max_deviation-reached es _ e (o.number_of_lt g _ more) there over)
          | inr less ↦ rw less (max_deviation-reached es g e number there over)
        ]

  -- The tests of the loop say that.
  pub is_recurring-Recurs :
      IsOrdering s.floats → (es : List Entry) → (is_recurring s es ≡ true) ↔ Recurs es
  unfolding is_recurring
  is_recurring-Recurs o es =
      let f = s.floats in
      let top = max_deviation s (average_amount s es) (zero_float f) es in
      (
        λ h. record {
          often = ground arith;
          not_sooner = ground arith;
          not_later = ground arith;
          not_free = ground arith;
          steady = λ e at.
              let under : f.lt (f.constant "0.20") top ≡ false = ground arith in
              elim (Bool-cases (f.lt (f.constant "0.20") (deviation s (average_amount s es) e))) [
                | inr low ↦ low
                | inl over ↦
                    let reached : f.lt (f.constant "0.20") top ≡ true =
                      max_deviation-reached o (f.constant "0.20") (average_amount s es) es
                        (zero_float f) e o.zero_number at over in
                    absurd (cc (reached, under))
              ];
        },
        λ r.
            let under =
              max_deviation-under o (f.constant "0.20") (average_amount s es) es (zero_float f)
                o.variance_positive r.steady in
            ground (arith, r.often, r.not_sooner, r.not_later, r.not_free, under),
      )
