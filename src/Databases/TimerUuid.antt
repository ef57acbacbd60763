-- ===== src/Databases/TimerUuid.antt =====
-- server/databases/timer_uuid.go: the UUID of a timer, and DynamoDB's composite sort field.
-- MD5, Go's time layouts and the UUID parser are parameters.
pub mod Identity
pub mod RoundTrip
use durable_timer.Base.{
  String, ◌<>◌, ◌⊎◌, inl, inr, Bool, Option, none, some, cut_at, if◌then◌else◌,
}
use durable_timer.Databases.Models.{Time, Uuid}

-- `GenerateTimerUUID`, over the digest that `md5.Sum` gives for a text.
unfoldable pub generate_timer_uuid : (String → Uuid) → String → String → Uuid
generate_timer_uuid md5 namespace timer_id = md5 (namespace <> ":" <> timer_id)

-- The library calls of the composite field: `Time.Format` and `time.Parse` with the layout of
-- milliseconds, and whether `uuid.Parse` accepts a text.
pub record Layout : Type 0 where
  pub format_time : Time → String
  pub parse_time : String → Option Time
  pub is_uuid : String → Bool

pub data ParseError : Type 0 where
  missing_separator bad_timestamp bad_uuid : ParseError

abbrev pub ParseResult : Type 0
ParseResult = (Time × String) ⊎ ParseError

module _ (layout : Layout) where
  unfoldable pub format_execute_at_with_uuid : Time → String → String
  format_execute_at_with_uuid execute_at uuid = layout.format_time execute_at <> "#" <> uuid

  -- What follows the split: the timestamp first, then the UUID.
  parse_parts : String → String → ParseResult
  parse_parts stamp uuid = elim (layout.parse_time stamp) [
    | none ↦ inr bad_timestamp
    | some t ↦ if layout.is_uuid uuid then inl (t, uuid) else inr bad_uuid
  ]

  unfoldable pub parse_execute_at_with_uuid : String → ParseResult
  unfolding parse_parts
  parse_execute_at_with_uuid composite = elim (cut_at b'#' composite) [
    | none ↦ inr missing_separator
    | some (stamp, uuid) ↦ parse_parts stamp uuid
  ]
