-- ===== src/Timeline/Steps.antt =====
-- A step of a timeline, and the calls of the tools of a Kubernetes MCP server: pkg/bench/timeline_types.go,
-- and parseMCPToolCall with what it calls in timeline_parse.go. The decoding of the arguments of a call
-- is an argument.
use evidra_bench.Base.{
  String, ℕ, Bool, true, false, ◌||◌, List, [], ◌∷◌, ◌++◌, Option, none, some, ◌==◌, contains,
  concat, is_empty, join, ltb, trim_space, if◌then◌else◌,
}
use evidra_bench.Timeline.Commands.{extract_exit_code, build_mutation_summary, build_read_summary}

pub data Phase : Type 0 where
  discover : Phase
  diagnose : Phase
  decide : Phase
  act : Phase
  verify : Phase
  explain : Phase

unfoldable pub same_phase : Phase → Phase → Bool
same_phase discover discover = true
same_phase diagnose diagnose = true
same_phase decide decide = true
same_phase act act = true
same_phase verify verify = true
same_phase explain explain = true
same_phase p q = false

unfoldable pub is_act : Phase → Bool
is_act p = same_phase p act

pub record ToolCall : Type 0 where
  pub tool : String
  pub args : String
  pub result : String

pub record TimelineStep : Type 0 where
  pub index : ℕ
  pub phase : Phase
  pub tool : String
  pub operation : String
  pub command : String
  pub resource : String
  pub namespace : String
  pub exit_code : ℕ
  pub summary : String

pub record KubernetesResourceRef : Type 0 where
  pub kind : String
  pub name : String
  pub namespace : String

-- What the JSON and YAML decoders read: the command of a call; its kind, name and namespace, empty where
-- there are none; its manifest, and the kind, name and namespace of a manifest.
pub record Decoder : Type 0 where
  pub command : String → Option String
  pub ref : String → KubernetesResourceRef
  pub resource : String → Option String
  pub manifest_ref : String → Option KubernetesResourceRef

unfoldable pub ref_text : KubernetesResourceRef → String
ref_text r =
    if is_empty r.kind
    then r.name
    else if is_empty r.name
    then r.kind
    else concat (r.kind ∷ "/" ∷ r.name ∷ [])

unfoldable pub trimmed : KubernetesResourceRef → KubernetesResourceRef
trimmed r = record {
  kind = trim_space r.kind;
  name = trim_space r.name;
  namespace = trim_space r.namespace;
}

abbrev pub no_ref : KubernetesResourceRef
no_ref = record { kind = ""; name = ""; namespace = "" }

unfoldable pub resource_ref_from_args : Decoder → String → KubernetesResourceRef
resource_ref_from_args d args = trimmed (d.ref args)

unfoldable pub resource_ref_from_manifest : Option KubernetesResourceRef → KubernetesResourceRef
resource_ref_from_manifest none = no_ref
resource_ref_from_manifest (some r) = trimmed r

unfoldable pub resource_ref_from_manifest_arg : Decoder → Option String → KubernetesResourceRef
resource_ref_from_manifest_arg d none = no_ref
resource_ref_from_manifest_arg d (some manifest) =
    resource_ref_from_manifest (d.manifest_ref manifest)

unfoldable pub format_mcp_command : String → String → String → String
format_mcp_command tool resource ns = join " " (
    tool ∷ (if is_empty resource then [] else resource ∷ [])
    ++ (if is_empty ns then [] else "in" ∷ ns ∷ []))

unfoldable pub mcp_read_operation : String → String
mcp_read_operation tool =
    if tool == "pods_log"
    then "logs"
    else if tool == "pods_exec"
    then "exec"
    else if tool == "events_list"
    then "events"
    else "get"

unfoldable pub is_mcp_diagnostic_tool : String → Bool
is_mcp_diagnostic_tool tool =
    contains ("pods_log" ∷ "pods_exec" ∷ "events_list" ∷ "resources_get" ∷ "pods_get" ∷ []) tool

abbrev pub read_tools : List String
read_tools =
    "resources_get" ∷ "resources_list" ∷ "pods_get" ∷ "pods_list" ∷ "pods_list_in_namespace"
    ∷ "pods_log" ∷ "pods_exec" ∷ "events_list" ∷ []

unfoldable pub mutation_step : ℕ → ToolCall → String → KubernetesResourceRef → TimelineStep
mutation_step index call operation ref = record {
  index = index;
  phase = act;
  tool = call.tool;
  operation = operation;
  command = format_mcp_command call.tool (ref_text ref) ref.namespace;
  resource = ref_text ref;
  namespace = ref.namespace;
  exit_code = extract_exit_code call.result;
  summary = build_mutation_summary operation (ref_text ref) ref.namespace;
}

-- The phase of a call that reads.
unfoldable pub read_phase : Bool → Bool → Phase
read_phase seen_mutation diagnostic =
    if seen_mutation then verify else if diagnostic then diagnose else discover

unfoldable pub read_step : ℕ → ToolCall → Bool → ℕ → KubernetesResourceRef → TimelineStep
read_step index call seen_mutation read_only_count ref = record {
  index = index;
  phase = read_phase seen_mutation (ltb 0 read_only_count || is_mcp_diagnostic_tool call.tool);
  tool = call.tool;
  operation = mcp_read_operation call.tool;
  command = format_mcp_command call.tool (ref_text ref) ref.namespace;
  resource = ref_text ref;
  namespace = ref.namespace;
  exit_code = extract_exit_code call.result;
  summary = build_read_summary (mcp_read_operation call.tool) (ref_text ref) ref.namespace;
}

unfoldable pub parse_mcp_tool_call : Decoder → ℕ → ToolCall → Bool → ℕ → Option TimelineStep
parse_mcp_tool_call d index call seen_mutation read_only_count =
    let ref = resource_ref_from_args d call.args in
    if call.tool == "resources_create_or_update"
    then some (
        mutation_step index call "create_or_update"
          (resource_ref_from_manifest_arg d (d.resource call.args)))
    else if call.tool == "resources_delete"
    then some (mutation_step index call "delete" ref)
    else if call.tool == "pods_delete"
    then some (mutation_step index call "delete" (record ref { kind = "Pod" }))
    else if call.tool == "resources_scale"
    then some (mutation_step index call "scale" ref)
    else if contains read_tools call.tool
    then some (
        read_step index call seen_mutation read_only_count (
          if contains ("pods_get" ∷ "pods_log" ∷ "pods_exec" ∷ []) call.tool
          then record ref { kind = "Pod" }
          else ref))
    else none
