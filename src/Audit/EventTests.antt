-- ===== src/Audit/EventTests.antt =====
-- The theorems on pkg/audit/events.go at a store with a lost patch and an exec that ended.
use evidra_bench.Base.{
  true, false, [], ◌∷◌, ◌≡◌, refl, none, some, Memᴰ, any, contains, select, concat, equal_fold,
  contains_text,
}
use evidra_bench.Audit.Events.{
  Event, Store, ops, all_events, sort_events, insert_event, precedes, effective_timestamp,
  stage_time, ids_from, terminal_stage,
}
use evidra_bench.Audit.Window.{
  group_of, belongs, canonical_from, connect_subresource, is_channel, channel_ref, names_channel,
  streaming_op, is_stream, inside, or_body,
}

abbrev patch_event : Event
patch_event = record {
  level = "Request";
  audit_id = "p1";
  stage = "RequestReceived";
  request_uri = "/apis/apps/v1/deployments/web";
  verb = "patch";
  user = none;
  user_extra = none;
  source_ips = [];
  user_agent = "";
  object_ref = none;
  response_status = none;
  stage_timestamps = [];
  timestamp = 15;
  annotations = [];
  request_object = none;
  response_object = none;
}

abbrev exec_event : Event
exec_event = record patch_event {
  audit_id = "x1";
  stage = "ResponseComplete";
  request_uri = "/api/v1/pods/web/exec";
  verb = "create";
  timestamp = 16;
}

abbrev begin_marker : Event
begin_marker = record patch_event { audit_id = "m1"; stage = "ResponseComplete"; timestamp = 10 }

abbrev end_marker : Event
end_marker = record patch_event { audit_id = "m2"; stage = "ResponseComplete"; timestamp = 20 }

abbrev store : Store
store = record {
  stored = patch_event ∷ exec_event ∷ [];
  op_stages = ("p1", "RequestReceived" ∷ []) ∷ ("x1", "ResponseComplete" ∷ []) ∷ [];
}

patch_listed : Memᴰ "p1" (ops store)
unfolding ops all_events sort_events insert_event precedes effective_timestamp stage_time ids_from
    contains
patch_listed = Memᴰ.head refl

exec_listed : Memᴰ "x1" (ops store)
unfolding ops all_events sort_events insert_event precedes effective_timestamp stage_time ids_from
    contains
exec_listed = Memᴰ.tail (Memᴰ.head refl)

patch_group : group_of (all_events store) "p1" ≡ patch_event ∷ []
unfolding group_of belongs select all_events sort_events insert_event precedes effective_timestamp
    stage_time
patch_group = refl

patch_unended : canonical_from none (patch_event ∷ []) ≡ none
unfolding canonical_from terminal_stage
patch_unended = refl

patch_plain : connect_subresource (patch_event ∷ []) ≡ false
unfolding connect_subresource any is_channel channel_ref names_channel contains_text concat
patch_plain = refl

patch_unary : streaming_op (patch_event ∷ []) ≡ false
unfolding streaming_op any is_stream equal_fold contains_text
patch_unary = refl

patch_within :
    inside (effective_timestamp begin_marker) (effective_timestamp end_marker) patch_event ≡ true
unfolding inside effective_timestamp stage_time
patch_within = refl

exec_closed : canonical_from none (group_of (all_events store) "x1") ≡ some exec_event
unfolding group_of belongs select all_events sort_events insert_event precedes effective_timestamp
    stage_time canonical_from terminal_stage or_body
exec_closed = refl

exec_channel : connect_subresource (group_of (all_events store) "x1") ≡ true
unfolding group_of belongs select all_events sort_events insert_event precedes effective_timestamp
    stage_time connect_subresource any is_channel channel_ref names_channel contains_text concat
exec_channel = refl

exec_within :
    inside (effective_timestamp begin_marker) (effective_timestamp end_marker) exec_event ≡ true
unfolding inside effective_timestamp stage_time
exec_within = refl
