-- ===== src/Databases/TimerUuid/RoundTrip.antt =====
-- `FormatExecuteAtWithUuid` and `ParseExecuteAtWithUuid` (server/databases/timer_uuid.go).
use durable_timer.Base.{String, ◌≡◌, refl, inl, true, some, cut_at-separated, IsFreeOf, arith}
use durable_timer.Databases.Models.{Time}
use durable_timer.Databases.TimerUuid.{
  Layout, format_execute_at_with_uuid, parse_execute_at_with_uuid,
}

module _ (layout : Layout) where
  -- Where the formatted time holds no `#` and parses to t', and the text is a UUID,
  -- `ParseExecuteAtWithUuid` of the composite of a time and a UUID returns t' and the same UUID.
  pub parse-format :
      (t t' : Time) (uuid : String)
      → IsFreeOf b'#' (layout.format_time t)
      → layout.parse_time (layout.format_time t) ≡ some t'
      → layout.is_uuid uuid ≡ true
      → parse_execute_at_with_uuid layout (format_execute_at_with_uuid layout t uuid)
        ≡ inl (t', uuid)
  unfolding parse_execute_at_with_uuid format_execute_at_with_uuid
  parse-format t t' uuid free parsed valid =
      ground (arith, cut_at-separated b'#' "#" (layout.format_time t) uuid refl free)
