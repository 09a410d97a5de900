-- ===== src/Advisor/Felix.antt =====
-- internal/service/advisor/advisor.go: Chat and Insights, which ask a model behind pkg/ollama, and the cache of
-- the insights in Redis.
use finance_engine.Prelude.{
  ℕ, zero, suc, String, Bool, ◌||◌, Option, none, some, List, [], ◌∷◌, ◌++◌, ◌==◌, string_eq,
  if◌then◌else◌, ltb, ◌+++◌, ◌+◌, ◌*◌,
}
use finance_engine.Schema.{Uuid, Time, second}
use finance_engine.Maps.{lookup, alter}
use finance_engine.Store.{World, M, Result, ok, err, from, pure, ◌>>=◌}
use finance_engine.Rates.{Rate}
use finance_engine.Advisor.{Float, Service}
use finance_engine.Advisor.Summary.{build_summary}

-- ollama.Message
pub record Message : Type 0 where
  pub role : String
  pub content : String

-- What a request draws from outside: the answers of the repository of the rates, the readings of the clock,
-- and the model, `llm.Chat`.
pub record Draw : Type 0 where
  pub rates : Result (List (Rate Float))
  pub rates' : Result (List (Rate Float))
  pub now : Time
  pub now' : Time
  pub llm : List Message → Result String

-- The lines of the model's answer: `strings.Split(reply, "\n")`, each with `strings.TrimLeft` of bullets and
-- numbers and `strings.TrimSpace`; and `strings.EqualFold(line, "assistant")`.
pub record Lines : Type 0 where
  pub split : String → List String
  pub cleaned : String → String
  pub is_assistant : String → Bool

-- insightsCacheTTL
abbrev pub insights_cache_ttl : ℕ
insights_cache_ttl = 3600 * second

-- The entries "advisor:insights:…" of Redis with the time at which each ends; an outage may strike at any command.
pub record Cache : Type 0 where
  pub entries : List (String × (List String × Time))
  pub down : ℕ → Bool
  pub commands : ℕ

abbrev alive : Time → Option (List String × Time) → Option (List String)
alive now none = none
alive now (some (insights, ends)) = if ltb now ends then some insights else none

-- GET: an outage is a miss.
unfoldable pub get_cached : String → Time → Cache → Option (List String) × Cache
get_cached key now c =
    let c' = record c { commands = suc c.commands } in
    if c.down c.commands then (none, c') else (alive now (lookup key c.entries), c')

-- SET with a time to live: an outage changes nothing.
unfoldable pub set_cached : String → List String → Time → Cache → Cache
set_cached key insights now c =
    let c' = record c { commands = suc c.commands } in
    if c.down c.commands then c' else record c' {
      entries = alter ([], 0) (λ _. (insights, now + insights_cache_ttl)) key c.entries;
    }

-- The lines that Insights keeps, of those left, with room for so many.
unfoldable pub kept_lines : Lines → ℕ → List String → List String
kept_lines l zero lines = []
kept_lines l (suc room) [] = []
kept_lines l (suc room) (line ∷ lines) =
    let rest = kept_lines l (suc room) lines in
    let rest' = kept_lines l room lines in
    if l.cleaned line == "" || l.is_assistant (l.cleaned line) then rest else l.cleaned line ∷ rest'

abbrev pub insights_question : String
insights_question =
    "Дай 2-3 коротких спостереження або поради на основі цих даних "
    +++ "(кожне — окремий рядок, без нумерації, без зірочок, без вступу)."

module _ (s : Service) where
  abbrev pub system_message : String → Message
  system_message summary = record { role = "system"; content = s.preamble +++ ("\n\n" +++ summary) }

  -- Chat
  unfoldable pub chat : Uuid → String → List Message → String → Draw → M String
  chat user_id base history message d = do
    summary ← build_summary s user_id base d.rates d.rates' d.now d.now'
    from (
        d.llm
          (system_message summary ∷ (history ++ record { role = "user"; content = message } ∷ [])))

  -- The answer of the model to the question for insights.
  unfoldable pub ask_insights : Lines → Uuid → String → Draw → M (List String)
  ask_insights l user_id base d = do
    summary ← build_summary s user_id base d.rates d.rates' d.now d.now'
    reply ← from (
        d.llm (system_message summary ∷ record { role = "user"; content = insights_question } ∷ []))
    pure (kept_lines l 3 (l.split reply))

  abbrev pub store_insights :
      String → Time → Cache → Result (List String) × World → (Result (List String) × Cache) × World
  store_insights key now c (ok insights, w) = ((ok insights, set_cached key insights now c), w)
  store_insights key now c (err e, w) = ((err e, c), w)

  abbrev pub or_ask :
      (Cache → World → (Result (List String) × Cache) × World)
      → Option (List String) × Cache
      → World
      → (Result (List String) × Cache) × World
  or_ask ask (some insights, c) w = ((ok insights, c), w)
  or_ask ask (none, c) w = ask c w

  -- Insights, for the key of the user and the currency, with Redis's clock at the two commands.
  unfoldable pub insights :
      Lines
      → String
      → Time
      → Time
      → Uuid
      → String
      → Draw
      → Cache
      → World
      → (Result (List String) × Cache) × World
  insights l key asked stored user_id base d c w =
      or_ask (λ c w. store_insights key stored c (ask_insights l user_id base d w))
        (get_cached key asked c) w
