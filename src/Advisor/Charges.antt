-- ===== src/Advisor/Charges.antt =====
-- internal/service/advisor/insights.go: what DetectSubscriptions puts under each note.
use finance_engine.Prelude.{
  String, Bool, true, false, not, Option, none, some, List, [], ◌∷◌, ◌++◌, ◌==◌, string_eq,
  if◌then◌else◌, ◌≡◌, refl, sym, ap, ◌∙◌, inl, inr, ◌≢◌, ◌&&◌, Bool-cases, Option-cases, arith,
}
use mathlib.Core.Path.{subst}
use mathlib.Core.List.{append_assoc, append-nil}
use finance_engine.Schema.{Transaction}
use finance_engine.Maps.{lookup, alter, or_else}
use finance_engine.Maps.Laws.{
  In, IsMap, IsMap-alter, lookup-alter_self, lookup-alter_other, In-lookup, lookup-In,
}
use finance_engine.Advisor.{Float, Service, Entry}
use finance_engine.Advisor.Recurring.{charge_of, add_charge, group}

if_append :
    (b : Bool) (e : Entry) (rest : List Entry)
    → (if b then e ∷ [] else []) ++ rest ≡ (if b then e ∷ rest else rest)
if_append true e rest = refl
if_append false e rest = refl

module _ (s : Service) where
  abbrev keep_charge : String → Option (String × Entry) → List Entry → List Entry
  keep_charge note none rest = rest
  keep_charge note (some (n, e)) rest = if n == note then e ∷ rest else rest

  -- Is this an expense with the note, and no transfer?
  abbrev pub is_spent_on : String → Transaction → Bool
  is_spent_on note tx =
      (tx.type == "expense" && not tx.is_internal_transfer) && s.texts.normalize tx.note == note

  abbrev with_amount : Transaction → Option Float → List Entry → List Entry
  with_amount tx none rest = rest
  with_amount tx (some amount) rest =
      record { date = tx.date; amount = amount; currency = tx.currency } ∷ rest

  -- The expenses under a note whose amount can be read; the empty note has none.
  unfoldable pub charges : String → List Transaction → List Entry
  charges note [] = []
  charges note (tx ∷ txs) =
      if not (note == "") && is_spent_on note tx
      then with_amount tx (s.floats.scan tx.amount) (charges note txs)
      else charges note txs

  module _ (note : String) (tx : Transaction) (rest : List Entry) where
    abbrev text : String
    text = s.texts.normalize tx.note

    abbrev Agrees : Type 0
    Agrees = keep_charge note (charge_of s tx) rest ≡ (
        if not (note == "") && is_spent_on note tx
        then with_amount tx (s.floats.scan tx.amount) rest
        else rest)

    -- A note that is not empty, of an expense.
    noted-Agrees :
        (tx.type == "expense") ≡ true
        → tx.is_internal_transfer ≡ false
        → (text == "") ≡ false
        → (text == note) ≡ true
        → Agrees
    unfolding charge_of
    noted-Agrees spent real noted same =
        let there : (note == "") ≡ false =
          ap (λ t. t == "") (sym ((string_eq.same_iff text note).0 same)) ∙ noted in
        elim (Option-cases (s.floats.scan tx.amount)) [
          | inl unread ↦ rw (spent, real, noted, unread, there, same) refl
          | inr (amount, read) ↦ rw (spent, real, noted, read, there, same) refl
        ]

    other-Agrees :
        (tx.type == "expense") ≡ true
        → tx.is_internal_transfer ≡ false
        → (text == "") ≡ false
        → (text == note) ≡ false
        → Agrees
    unfolding charge_of
    other-Agrees spent real noted other = elim (Option-cases (s.floats.scan tx.amount)) [
      | inl unread ↦ rw (spent, real, noted, unread, other) (ground arith)
      | inr (amount, read) ↦ rw (spent, real, noted, read, other) (ground arith)
    ]

    empty-Agrees : (text == "") ≡ true → Agrees
    unfolding charge_of
    empty-Agrees empty = elim (Bool-cases (text == note)) [
      | inl same ↦
          let gone : (note == "") ≡ true =
            ap (λ t. t == "") (sym ((string_eq.same_iff text note).0 same)) ∙ empty in
          rw (empty, gone) (ground arith)
      | inr other ↦ rw (empty, other) (ground arith)
    ]

    charge_of-charges : Agrees
    unfolding charge_of
    charge_of-charges = elim (Bool-cases (tx.type == "expense")) [
      | inr other ↦ rw other (ground arith)
      | inl spent ↦ elim (Bool-cases tx.is_internal_transfer) [
        | inl moved ↦ rw (spent, moved) (ground arith)
        | inr real ↦ elim (Bool-cases (text == "")) [
          | inl empty ↦ empty-Agrees empty
          | inr noted ↦ elim (Bool-cases (text == note)) [
            | inl same ↦ noted-Agrees spent real noted same
            | inr other ↦ other-Agrees spent real noted other
          ]
        ]
      ]
    ]

  add_charge-lookup :
      (note : String) (groups : List (String × List Entry)) (n : String) (e : Entry)
      → or_else [] (lookup note (add_charge s groups (some (n, e))))
        ≡ or_else [] (lookup note groups) ++ (if n == note then e ∷ [] else [])
  add_charge-lookup note groups n e = elim (Bool-cases (n == note)) [
    | inl same ↦ rw same (
        subst
          (λ k.
            or_else [] (lookup k (alter [] (λ es. es ++ e ∷ []) n groups))
            ≡ or_else [] (lookup k groups) ++ e ∷ [])
          ((string_eq.same_iff n note).0 same)
          (ap (or_else []) (lookup-alter_self [] (λ es. es ++ e ∷ []) n groups)))
    | inr other ↦ rw other (
        ap (or_else []) (lookup-alter_other [] (λ es. es ++ e ∷ []) n note groups other)
        ∙ sym (append-nil _))
  ]

  add_charge-keep :
      (note : String) (groups : List (String × List Entry)) (o : Option (String × Entry))
      (rest : List Entry)
      → or_else [] (lookup note (add_charge s groups o)) ++ rest
        ≡ or_else [] (lookup note groups) ++ keep_charge note o rest
  add_charge-keep note groups none rest = refl
  add_charge-keep note groups (some (n, e)) rest =
      ap (λ l. l ++ rest) (add_charge-lookup note groups n e)
      ∙ append_assoc (or_else [] (lookup note groups)) (if n == note then e ∷ [] else []) rest
      ∙ ap (λ l. or_else [] (lookup note groups) ++ l) (if_append (n == note) e rest)

  group-lookup :
      (note : String) (txs : List Transaction) (groups : List (String × List Entry))
      → or_else [] (lookup note (group s groups txs))
        ≡ or_else [] (lookup note groups) ++ charges note txs
  unfolding group charges
  group-lookup note [] groups = sym (append-nil _)
  group-lookup note (tx ∷ txs) groups =
      group-lookup note txs (add_charge s groups (charge_of s tx))
      ∙ add_charge-keep note groups (charge_of s tx) (charges note txs)
      ∙ ap (λ l. or_else [] (lookup note groups) ++ l)
          (charge_of-charges note tx (charges note txs))

  add_charge-IsMap :
      (groups : List (String × List Entry)) (o : Option (String × Entry))
      → IsMap groups
      → IsMap (add_charge s groups o)
  add_charge-IsMap groups none h = h
  add_charge-IsMap groups (some (n, e)) h = IsMap-alter [] _ n groups h

  group-IsMap :
      (txs : List Transaction) (groups : List (String × List Entry))
      → IsMap groups
      → IsMap (group s groups txs)
  unfolding group
  group-IsMap [] groups h = h
  group-IsMap (tx ∷ txs) groups h =
      group-IsMap txs (add_charge s groups (charge_of s tx))
        (add_charge-IsMap groups (charge_of s tx) h)

  -- The groups are the charges of each note.
  pub group-charges :
      (note : String) (es : List Entry) (txs : List Transaction)
      → In (note, es) (group s [] txs)
      → es ≡ charges note txs
  unfolding lookup
  group-charges note es txs h =
      let found = In-lookup note es (group s [] txs) (group-IsMap txs [] tt) h in
      ap (or_else []) (sym found) ∙ group-lookup note txs []

  pub group-In :
      (note : String) (txs : List Transaction)
      → charges note txs ≢ []
      → In (note, charges note txs) (group s [] txs)
  unfolding lookup
  group-In note txs some_charge = elim (Option-cases (lookup note (group s [] txs))) [
    | inl missing ↦ absurd (some_charge (sym (group-lookup note txs []) ∙ ap (or_else []) missing))
    | inr (es, found) ↦
        let same : es ≡ charges note txs = ap (or_else []) (sym found) ∙ group-lookup note txs [] in
        lookup-In note (charges note txs) (group s [] txs) (found ∙ ap some same)
  ]
