-- ===== src/Audit/Redact.antt =====
-- What enters an artifact of an audit event: pkg/audit/redact.go.
use evidra_bench.Base.{List, [], none, map}
use evidra_bench.Audit.Events.{Event}

unfoldable pub redacted_event : Event → Event
redacted_event e = record e { request_object = none; response_object = none; annotations = [] }

unfoldable pub redacted : List Event → List Event
redacted events = map redacted_event events
