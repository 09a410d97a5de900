-- ===== src/Rest/Papers.antt =====
-- internal/rest/reports.go: the export and the import of transactions as a file.
use finance_engine.Prelude.{
  ℕ, String, Option, none, some, List, [], ◌∷◌, ◌==◌, string_eq, if◌then◌else◌, ◌+++◌, ◌+◌, ◌-◌,
  map,
}
use finance_engine.Schema.{Uuid, Time, second, day}
use finance_engine.Store.{Result}
use finance_engine.Users.{get_by_id}
use finance_engine.Reports
use finance_engine.Reports.{Progress, Draw, Reason, export_rows, import_rows}
use finance_engine.Rest.{
  Response, Handler, Config, write_json, write_error, reply, call, ◌>>=◌, csv, import_result,
}
use finance_engine.Rest.Auth.{says}

-- What else of Go's library the handlers ask: the start of a month, the CSV writer, and the text of a line's error.
pub record Papers : Type 0 where
  pub texts : Reports.Texts
  pub month_start : Time → Time
  pub write_csv : List (List String) → String
  pub explain : ℕ × Reason → String

-- The upload of a file: one that is too large or no form, one without the file, one that cannot be read, and what
-- the CSV reader finds in a file, each row with its draws.
pub data Upload : Type 0 where
  invalid_form no_file unreadable : Upload
  file : Result (List (List String × Draw)) → Upload

abbrev or_else : Time → Option Time → Time
or_else t none = t
or_else t (some u) = u

module _ (papers : Papers) where
  -- The first and the last moment of an export; a date that cannot be read counts as none.
  unfoldable pub export_from : String → Time → Time
  export_from v now =
      if v == ""
      then papers.month_start now
      else or_else (papers.month_start now) (papers.texts.parse_in "2006-01-02" v)

  abbrev end_of_day : Option Time → Option Time
  end_of_day none = none
  end_of_day (some t) = some (t + (day - second))

  unfoldable pub export_to : String → Time → Time
  export_to v now =
      if v == "" then now else or_else now (end_of_day (papers.texts.parse_in "2006-01-02" v))

  abbrev pub csv_response : Time → Time → List (List String) → Response
  csv_response from_date to_date rows = record {
    status = 200;
    headers =
        ("Content-Type", "text/csv; charset=utf-8")
        ∷ (
          "Content-Disposition",
          "attachment; filename=\"vaultly-"
              +++ (papers.texts.format_in "2006-01-02" from_date
                  +++ ("_" +++ (papers.texts.format_in "2006-01-02" to_date +++ ".csv\""))),
        )
        ∷ [];
    cookies = [];
    body = csv (papers.write_csv rows);
  }

  -- export, with the query's "from" and "to", at a reading of the clock.
  unfoldable pub export_handler : Uuid → String → String → Time → Handler
  export_handler user_id first last now = do
    rows ←
        call (export_rows papers.texts user_id (export_from first now) (export_to last now))
          (λ _. write_error 500 "failed to build export")
    reply (csv_response (export_from first now) (export_to last now) rows)

  module _ (cfg : Config) (numeric : String → Option String) where
    unfoldable pub import_handler : Uuid → Upload → Handler
    import_handler user_id invalid_form = reply (write_error 400 "file too large or invalid upload")
    import_handler user_id no_file = reply (write_error 400 "missing file")
    import_handler user_id unreadable = reply (write_error 400 "failed to read file")
    import_handler user_id (file rows) = do
      user ← call (get_by_id user_id) (λ _. write_error 401 "not signed in")
      result ←
          call (import_rows papers.texts numeric user_id user.base_currency rows) (says cfg 400)
      reply (
          write_json [] 200
            (import_result result.imported result.skipped (map papers.explain result.errors)))
