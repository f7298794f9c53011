-- ===== src/Autopsy/Tests.antt =====
-- The theorems on autopsies at the calls of a run that deletes a pod.
use evidra_bench.Base.{String, ◌≤◌, true, [], ◌≡◌, ◌≢◌, ◌↔◌, occurrences, string_same}
use evidra_bench.Timeline.Samples.{plain_decoder, deleting}
use evidra_bench.Autopsy.Tokens.{tokenize_command, command_tokens_match}
use evidra_bench.Autopsy.Repeats.{fingerprints, most_repeated_command}
use evidra_bench.Autopsy.Analyze.{Input, analyze}
use evidra_bench.Autopsy.Matching.{IsMost, command_tokens_match_iff, most_repeated_command-IsMost}
use evidra_bench.Autopsy.Classified.{IsClassified, analyze-IsClassified}
use evidra_bench.Autopsy.Samples.{libraries, failed_run, forbidding}

command_tokens_match_iff_example :
    (command_tokens_match "kubectl delete -n shop" "kubectl -n shop delete pod web" ≡ true) ↔ (
      (tokenize_command "kubectl delete -n shop" ≢ [])
      × ((token : String)
          → occurrences token (tokenize_command "kubectl delete -n shop")
            ≤ occurrences token (tokenize_command "kubectl -n shop delete pod web")))
command_tokens_match_iff_example =
    command_tokens_match_iff "kubectl delete -n shop" "kubectl -n shop delete pod web"

most_repeated_command-IsMost_example :
    IsMost
      (fingerprints plain_decoder deleting)
      (most_repeated_command plain_decoder (λ m. m) deleting)
most_repeated_command-IsMost_example =
    most_repeated_command-IsMost plain_decoder (λ m. m) deleting (λ m entry. (λ h. h, λ h. h))

abbrev failed_input : Input
failed_input = record {
  run = failed_run;
  tool_calls = deleting;
  transcript = "";
  hints = forbidding;
}

analyze-IsClassified_example : IsClassified (analyze libraries failed_input)
analyze-IsClassified_example = analyze-IsClassified libraries failed_input
