-- ===== src/Advisor/Cached.antt =====
-- internal/service/advisor/advisor.go: what Insights keeps of the model's answer, and for how long.
use finance_engine.Prelude.{
  ℕ, zero, suc, String, false, ◌||◌, Option, none, some, List, [], ◌∷◌, ◌==◌, string_eq, ◌≡◌, refl,
  sym, ap, ◌∙◌, ◌≤◌, ◌<◌, ◌+◌, arith, length, All, Bool-cases, inl, inr, lt→ltb,
}
use mathlib.Core.Path.{subst}
use finance_engine.Schema.{Uuid, Time}
use finance_engine.Store.{World, Result, ok, err, from, pure, ◌>>=◌}
use finance_engine.Maps.Laws.{lookup-alter_self}
use finance_engine.Advisor.{Service}
use finance_engine.Advisor.Summary.{build_summary}
use finance_engine.Store.Rules.{next-ok}
use finance_engine.Advisor.Felix.{
  Lines, Cache, Draw, get_cached, set_cached, insights_cache_ttl, kept_lines, or_ask,
  store_insights, ask_insights, insights,
}

-- A line to show: neither blank nor the model's own label.
abbrev pub IsShown : Lines → String → Type 0
IsShown l line = (line == "" || l.is_assistant line) ≡ false

kept_lines-IsShown :
    (l : Lines) (room : ℕ) (lines : List String) → All (IsShown l) (kept_lines l room lines)
unfolding kept_lines
kept_lines-IsShown l zero lines = tt
kept_lines-IsShown l (suc room) [] = tt
kept_lines-IsShown l (suc room) (line ∷ lines) =
    elim (Bool-cases (l.cleaned line == "" || l.is_assistant (l.cleaned line))) [
      | inl out ↦ rw out (kept_lines-IsShown l (suc room) lines)
      | inr shown ↦ rw shown (shown, kept_lines-IsShown l room lines)
    ]

length-kept_lines :
    (l : Lines) (room : ℕ) (lines : List String) → length (kept_lines l room lines) ≤ room
unfolding kept_lines
length-kept_lines l zero lines = omega arith
length-kept_lines l (suc room) [] = omega arith
length-kept_lines l (suc room) (line ∷ lines) =
    ground (arith, length-kept_lines l (suc room) lines, length-kept_lines l room lines)

-- What is stored is read back until it ends.
get_cached-set_cached :
    (key : String) (found : List String) (stored asked : Time) (c : Cache)
    → c.down c.commands ≡ false
    → c.down (suc c.commands) ≡ false
    → asked < stored + insights_cache_ttl
    → (get_cached key asked (set_cached key found stored c)).0 ≡ some found
unfolding get_cached set_cached
get_cached-set_cached key found stored asked c up up' soon =
    rw (up, up')
      (rw
        (
          lookup-alter_self ([], 0) (λ _. (found, stored + insights_cache_ttl)) key c.entries,
          lt→ltb asked (stored + insights_cache_ttl) soon,
        )
        refl)

-- Redis answers every command.
abbrev pub IsReached : Cache → Type 0
IsReached c = (n : ℕ) → c.down n ≡ false

module _ (s : Service) (l : Lines) (key : String) (i : Uuid) (base : String) where
  -- A hit asks nobody.
  insights-hit :
      (asked stored : Time) (d : Draw) (c : Cache) (w : World) (found : List String)
      → (get_cached key asked c).0 ≡ some found
      → ((insights s l key asked stored i base d c w).0.0 ≡ ok found)
        × ((insights s l key asked stored i base d c w).1 ≡ w)
  unfolding insights
  insights-hit asked stored d c w found hit = go (get_cached key asked c) hit
    where
      go :
          (r : Option (List String) × Cache)
          → r.0 ≡ some found
          → ((or_ask s (λ c w. store_insights s key stored c (ask_insights s l i base d w)) r w).0.0
              ≡ ok found)
            × ((or_ask s (λ c w. store_insights s key stored c (ask_insights s l i base d w)) r w).1
                ≡ w)
      go (none, c') h = absurd (cc h)
      go (some f, c') h = (cc h, refl)

  -- A miss asks the model.
  insights-miss :
      (asked stored : Time) (d : Draw) (c : Cache) (w : World)
      → IsReached c
      → (get_cached key asked c).0 ≡ none
      → insights s l key asked stored i base d c w
        ≡ store_insights s key stored
            (record c { commands = suc c.commands })
            (ask_insights s l i base d w)
  unfolding insights get_cached
  insights-miss asked stored d c w up miss =
      rw (up c.commands, (rw (up c.commands, get_cached) at miss)) refl

  reply_lines :
      (r : Result String) (w : World) (found : List String)
      → ((from r >>= λ reply. pure (kept_lines l 3 (l.split reply))) w).0 ≡ ok found
      → (lines : List String) × (kept_lines l 3 lines ≡ found)
  unfolding from
  reply_lines (ok reply) w found h = (l.split reply, cc h)
  reply_lines (err e) w found h = absurd (cc h)

  -- The insights are lines of an answer of the model.
  asked_lines :
      (d : Draw) (w : World) (found : List String)
      → (ask_insights s l i base d w).0 ≡ ok found
      → (lines : List String) × (kept_lines l 3 lines ≡ found)
  unfolding ask_insights
  asked_lines d w found h =
      let (summary, h') = next-ok _ (build_summary s i base d.rates d.rates' d.now d.now' w) h in
      reply_lines (d.llm _) _ found h'

  stored_insights :
      (stored : Time) (c : Cache) (out : Result (List String) × World) (found : List String)
      → (store_insights s key stored c out).0.0 ≡ ok found
      → (out.0 ≡ ok found)
        × ((store_insights s key stored c out).0.1 ≡ set_cached key found stored c)
  stored_insights stored c (ok f, w) found h = (h, ap (λ x. set_cached key x stored c) (cc h))
  stored_insights stored c (err e, w) found h = absurd (cc h)

  -- Insights that the model was asked for are at most three lines, none of them blank or the word "assistant"; and
  -- for an hour after they are stored, a later call under the same key answers the same, without a query to the
  -- database and whatever the model would say by then, while Redis is there.
  pub insights_last_an_hour :
      (asked stored asked' stored' : Time) (d d' : Draw) (c : Cache) (w w' : World)
      (found : List String)
      → IsReached c
      → (get_cached key asked c).0 ≡ none
      → (insights s l key asked stored i base d c w).0.0 ≡ ok found
      → asked' < stored + insights_cache_ttl
      → let c' = (insights s l key asked stored i base d c w).0.1 in
        let again = insights s l key asked' stored' i base d' c' w' in
        (length found ≤ 3) × All (IsShown l) found × (again.0.0 ≡ ok found) × (again.1 ≡ w')
  insights_last_an_hour asked stored asked' stored' d d' c w w' found up miss got soon =
      let first = insights-miss asked stored d c w up miss in
      let c' = record c { commands = suc c.commands } in
      let (answered, kept) =
        stored_insights stored c' (ask_insights s l i base d w) found
          (ap (λ r. r.0.0) (sym first) ∙ got) in
      let (lines, from_lines) = asked_lines d w found answered in
      let cache = ap (λ r. r.0.1) first ∙ kept in
      let hit =
        ap (λ x. (get_cached key asked' x).0) cache
        ∙ get_cached-set_cached key found stored asked' c' (up (suc c.commands)) (up _) soon in
      let (same, untouched) = insights-hit asked' stored' d' _ w' found hit in
      (
        subst (λ f. length f ≤ 3) from_lines (length-kept_lines l 3 lines),
        subst (All (IsShown l)) from_lines (kept_lines-IsShown l 3 lines),
        same,
        untouched,
      )
