-- ===== src/Timeline/Samples.antt =====
-- The tool calls of a run for the tests. The arguments of a call are the text that they decode to.
use evidra_bench.Base.{String, none, some, List, [], ◌∷◌}
use evidra_bench.Timeline.Steps.{ToolCall, Decoder, no_ref}

abbrev pub plain_decoder : Decoder
plain_decoder = record {
  command = λ args. some args;
  ref = λ args. no_ref;
  resource = λ args. none;
  manifest_ref = λ text. none;
}

abbrev pub command_call : String → ToolCall
command_call cmd = record { tool = "run_command"; args = cmd; result = "ok" }

abbrev pub deleting : List ToolCall
deleting =
    command_call "kubectl get pods"
    ∷ command_call "kubectl delete pod/web -n shop"
    ∷ command_call "kubectl get pods"
    ∷ []
