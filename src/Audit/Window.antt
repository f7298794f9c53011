-- ===== src/Audit/Window.antt =====
-- The window between two markers: `Window` and `FindMarker` of pkg/audit/events.go.
use evidra_bench.Base.{
  String, ℕ, Bool, false, ◌&&◌, ◌||◌, List, [], ◌∷◌, ◌++◌, Option, none, some, ◌==◌, any, select,
  contains, contains_text, concat, is_empty, equal_fold, leb, if◌then◌else◌,
}
use evidra_bench.Json.{Json}
use evidra_bench.Audit.Events.{
  User, ObjectRef, Event, Store, stage_response_started, terminal_stage, effective_timestamp,
  all_events, ops,
}

pub record WindowResult : Type 0 where
  pub window_ops : List Event
  pub incomplete : List String
  pub delegated_ops : List Event

abbrev pub nothing_seen : WindowResult
nothing_seen = record { window_ops = []; incomplete = []; delegated_ops = [] }

abbrev pub connect_subresources : List String
connect_subresources = "exec" ∷ "attach" ∷ "portforward" ∷ "proxy" ∷ []

unfoldable pub names_channel : String → String → Bool
names_channel uri sub = contains_text uri (concat ("/" ∷ sub ∷ []))

unfoldable pub channel_ref : Option ObjectRef → Bool
channel_ref none = false
channel_ref (some r) = contains connect_subresources r.subresource

unfoldable pub is_channel : Event → Bool
is_channel e = channel_ref e.object_ref || any (names_channel e.request_uri) connect_subresources

unfoldable pub connect_subresource : List Event → Bool
connect_subresource group = any is_channel group

unfoldable pub first_started : List Event → Option Event
first_started [] = none
first_started (e ∷ es) = if e.stage == stage_response_started then some e else first_started es

unfoldable pub connect_started : List Event → Option Event
connect_started group = if connect_subresource group then first_started group else none

unfoldable pub is_stream : Event → Bool
is_stream e = equal_fold e.verb "watch" || contains_text e.request_uri "follow=true"

unfoldable pub streaming_op : List Event → Bool
streaming_op group = any is_stream group

unfoldable pub or_body : Option Json → Option Json → Option Json
or_body none later = later
or_body (some b) later = some b

-- The loop over a group, up to its first terminal event, which is lent the earliest body seen if it
-- has none.
unfoldable pub canonical_from : Option Json → List Event → Option Event
unfolding or_body
canonical_from body [] = none
canonical_from body (e ∷ es) =
    let seen = or_body body e.request_object in
    let rest = canonical_from seen es in
    if terminal_stage e.stage
    then some (record e { request_object = or_body e.request_object seen })
    else rest

unfoldable pub inside : ℕ → ℕ → Event → Bool
inside lo hi e = leb lo (effective_timestamp e) && leb (effective_timestamp e) hi

-- What an operation with a lost end leaves: its id and its first event.
unfoldable pub lost : ℕ → ℕ → String → List Event → WindowResult
lost lo hi id [] = nothing_seen
lost lo hi id (e ∷ es) =
    if inside lo hi e
    then record { window_ops = e ∷ []; incomplete = id ∷ []; delegated_ops = [] }
    else nothing_seen

unfoldable pub established : ℕ → ℕ → Event → WindowResult
established lo hi e =
    if inside lo hi e
    then record { window_ops = e ∷ []; incomplete = []; delegated_ops = e ∷ [] }
    else nothing_seen

-- No terminal event, and with or without an established channel.
unfoldable pub open_from : ℕ → ℕ → String → List Event → Option Event → WindowResult
open_from lo hi id group (some e) = established lo hi e
open_from lo hi id group none =
    if connect_subresource group
    then lost lo hi id group
    else if streaming_op group
    then nothing_seen
    else lost lo hi id group

unfoldable pub closed_op : ℕ → ℕ → List Event → Event → WindowResult
closed_op lo hi group e =
    if inside lo hi e
    then record {
      window_ops = e ∷ [];
      incomplete = [];
      delegated_ops = if connect_subresource group then e ∷ [] else [];
    }
    else nothing_seen

unfoldable pub outcome_from : ℕ → ℕ → String → List Event → Option Event → WindowResult
outcome_from lo hi id group (some e) = closed_op lo hi group e
outcome_from lo hi id group none = open_from lo hi id group (connect_started group)

unfoldable pub op_outcome : ℕ → ℕ → String → List Event → WindowResult
op_outcome lo hi id group = outcome_from lo hi id group (canonical_from none group)

unfoldable pub both : WindowResult → WindowResult → WindowResult
both r s = record {
  window_ops = r.window_ops ++ s.window_ops;
  incomplete = r.incomplete ++ s.incomplete;
  delegated_ops = r.delegated_ops ++ s.delegated_ops;
}

unfoldable pub belongs : String → Event → Bool
belongs id e = e.audit_id == id

unfoldable pub group_of : List Event → String → List Event
group_of events id = select (belongs id) events

unfoldable pub window_over : ℕ → ℕ → List Event → List String → WindowResult
window_over lo hi events [] = nothing_seen
window_over lo hi events (id ∷ ids) =
    both (op_outcome lo hi id (group_of events id)) (window_over lo hi events ids)

unfoldable pub window : Store → Event → Event → WindowResult
window s start end' =
    window_over (effective_timestamp start) (effective_timestamp end') (all_events s) (ops s)

unfoldable pub by_user : String → Option User → Bool
by_user name none = false
by_user name (some u) = u.username == name

unfoldable pub is_marker : String → String → Event → Bool
is_marker username nonce e =
    contains_text e.request_uri nonce
    && ((is_empty username || by_user username e.user)
        && (is_empty e.stage || terminal_stage e.stage))

-- The first marker; `none` stands for the error.
unfoldable pub find_marker : List Event → String → String → Option Event
find_marker [] username nonce = none
find_marker (e ∷ es) username nonce =
    if is_marker username nonce e then some e else find_marker es username nonce
