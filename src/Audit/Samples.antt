-- ===== src/Audit/Samples.antt =====
-- A node whose log holds both markers and one patch in its second read.
use evidra_bench.Base.{
  String, true, List, [], ◌∷◌, Option, none, some, ◌==◌, ◌≡◌, refl, eqb, leb, length, concat,
  contains, contains_text, trim_space, append_at, any, select, get, put, if◌then◌else◌,
}
use evidra_bench.Audit.Events.{
  Event, add, add_event, has_key, key_of, all_events, sort_events, insert_event, precedes,
  effective_timestamp, stage_time, ids_from, ops, terminal_stage,
}
use evidra_bench.Audit.Window.{
  window, window_over, both, op_outcome, outcome_from, closed_op, inside, group_of, belongs,
  canonical_from, or_body, connect_subresource, is_channel, channel_ref, names_channel, find_marker,
  is_marker, by_user,
}
use evidra_bench.Audit.Parse.{Bytes, parse, parse_lines, tally_line, tally_event}
use evidra_bench.Audit.Health.{Health, is_ok, first_unhealthy}
use evidra_bench.Audit.Collect.{
  content, Cluster, CollectRequest, CollectResult, complete, read_answer, read_content, regressed,
  begins_with, read_sources, observe, look, round, is_found, is_last, drain, is_unread, judge,
  judged, between, with_window, graded, checked, collect_from, collect,
}

abbrev pub start_marker : Event
start_marker = record {
  level = "Metadata";
  audit_id = "m1";
  stage = "ResponseComplete";
  request_uri = "/configmaps/evidra-1";
  verb = "get";
  user = some (record { username = "admin"; uid = ""; groups = [] });
  user_extra = none;
  source_ips = [];
  user_agent = "";
  object_ref = none;
  response_status = none;
  stage_timestamps = [];
  timestamp = 10;
  annotations = [];
  request_object = none;
  response_object = none;
}

abbrev pub patch_event : Event
patch_event = record start_marker {
  audit_id = "p1";
  request_uri = "/deployments/web";
  verb = "patch";
  user = some (record {
    username = "system:serviceaccount:evidra-system:evidra-agent";
    uid = "";
    groups = [];
  });
  object_ref = some (record {
    resource = "deployments";
    namespace = "shop";
    name = "web";
    api_group = "apps";
    api_version = "v1";
    subresource = "";
  });
  timestamp = 12;
}

abbrev pub end_marker : Event
end_marker = record start_marker {
  audit_id = "m2";
  request_uri = "/configmaps/evidra-2";
  timestamp = 20;
}

abbrev pub lines_of : Bytes → List String
lines_of [] = []
lines_of (b ∷ bytes) = (if eqb b 1 then "s" else if eqb b 2 then "p" else "e") ∷ lines_of bytes

abbrev pub decoded : String → Option Event
decoded line =
    some (if line == "s" then start_marker else if line == "p" then patch_event else end_marker)

abbrev pub healthy_node : String → Health
healthy_node node = record {
  node = node;
  manifest_has_flags = true;
  policy_file_present = true;
  log_dir_writable = true;
  detail = "";
}

-- The log grows from one line to three.
abbrev pub cluster : Cluster
cluster = record {
  probe = healthy_node;
  answer = λ n i. if eqb n 0 then content (1 ∷ []) else content (1 ∷ 2 ∷ 3 ∷ []);
  is_expired = λ n. leb 9 n;
  decoder = record { scan = lines_of; decode = decoded };
}

abbrev pub request : CollectRequest
request = record {
  sources = "node" ∷ [];
  start_nonce = "evidra-1";
  end_nonce = "evidra-2";
  marker_username = "admin";
  health_check_nodes = "node" ∷ [];
}

abbrev pub result : CollectResult
result = record {
  store = some (record {
    stored = start_marker ∷ patch_event ∷ end_marker ∷ [];
    op_stages =
        ("m1", "ResponseComplete" ∷ [])
        ∷ ("p1", "ResponseComplete" ∷ [])
        ∷ ("m2", "ResponseComplete" ∷ [])
        ∷ [];
  });
  window = record {
    window_ops = start_marker ∷ patch_event ∷ end_marker ∷ [];
    incomplete = [];
    delegated_ops = [];
  };
  coverage = complete;
  reasons = [];
  start_event = some start_marker;
  end_event = some end_marker;
  lines = 4;
  bad = 0;
  node_failures = [];
}

pub log_collected : collect 2 cluster request ≡ some result
unfolding collect collect_from first_unhealthy is_ok checked judged judge drain is_last is_found
    round look observe read_sources read_answer read_content regressed begins_with parse parse_lines
    tally_line tally_event trim_space length get put find_marker is_marker by_user contains_text
    terminal_stage all_events sort_events insert_event precedes effective_timestamp stage_time add
    add_event has_key key_of concat append_at is_unread between with_window graded window
    window_over both op_outcome outcome_from closed_op inside group_of belongs select canonical_from
    or_body connect_subresource is_channel channel_ref names_channel any ops ids_from contains
log_collected = refl
