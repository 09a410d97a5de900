-- ===== src/Formats.antt =====
-- What Go's library and pkg/uuid print and read: the text of an id and of a time in the layout
-- "2006-01-02T15:04:05Z07:00" that internal/rest/models.go and internal/grpc/controllers/convert.go share.
use finance_engine.Prelude.{String, Option, some, ◌≡◌, ◌≢◌}
use finance_engine.Schema.{Uuid, Time}

pub record Formats : Type 0 where
  pub uuid_text : Uuid → String
  pub parse_uuid : String → Option Uuid
  pub time_text : Time → String
  pub parse_time : String → Option Time

-- `uuid.UUID.String` is read back by `uuid.Parse`, and is not empty.
pub record IsReadable (f : Formats) : Type 0 where
  pub reads : (i : Uuid) → f.parse_uuid (f.uuid_text i) ≡ some i
  pub not_empty : (i : Uuid) → f.uuid_text i ≢ ""
