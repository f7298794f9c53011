-- ===== src/Timeline/Tests.antt =====
-- The theorems on timelines at the calls of a run.
use evidra_bench.Base.{String, true, false, [], ◌∷◌, ◌≡◌, refl, length, fields, has_prefix}
use evidra_bench.Timeline.Steps.{is_act}
use evidra_bench.Timeline.Parse.{parse_calls, command_step}
use evidra_bench.Timeline.Counts.{IsCounted, parse_calls-IsCounted}
use evidra_bench.Timeline.Blind.{command_step-flagged}
use evidra_bench.Timeline.Samples.{plain_decoder, command_call, deleting}

parse_calls-IsCounted_example :
    IsCounted (parse_calls plain_decoder deleting)
    × ((parse_calls plain_decoder deleting).total_steps
        ≡ length (parse_calls plain_decoder deleting).steps)
parse_calls-IsCounted_example = parse_calls-IsCounted plain_decoder deleting

abbrev in_shop : String
in_shop = "kubectl -n shop delete pod web"

flag_first : fields in_shop ≡ "kubectl" ∷ "-n" ∷ "shop" ∷ "delete" ∷ "pod" ∷ "web" ∷ []
unfolding fields
flag_first = refl

dashed : has_prefix "-n" "-" ≡ true
unfolding has_prefix
dashed = refl

command_step-flagged_example :
    is_act (command_step 0 (command_call in_shop) in_shop false 0).phase ≡ false
command_step-flagged_example =
    command_step-flagged 0 (command_call in_shop) in_shop "kubectl" "-n"
      ("shop" ∷ "delete" ∷ "pod" ∷ "web" ∷ []) false 0 flag_first dashed
