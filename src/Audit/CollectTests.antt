-- ===== src/Audit/CollectTests.antt =====
-- The theorems on the collector at a node whose log holds both markers and one patch in its second
-- read.
use evidra_bench.Base.{
  some, true, [], ◌∷◌, ◌≡◌, refl, Memᴰ, all, any, contains, contains_text, concat, equal_fold,
}
use evidra_bench.Audit.Events.{Store, effective_timestamp, stage_time}
use evidra_bench.Audit.Window.{inside, is_channel, channel_ref, names_channel, is_stream}
use evidra_bench.Audit.Terminated.{is_plain, IsEnded, collect-IsEnded}
use evidra_bench.Audit.Collect.{CollectResult, collect}
use evidra_bench.Audit.Samples.{
  cluster, request, result, log_collected, start_marker, patch_event, end_marker,
}
use evidra_bench.Audit.Sealed.{IsSealed, collect-IsSealed}
use evidra_bench.Audit.Ending.{collect-ends}

collect-IsSealed_example : IsSealed 2 cluster request result
collect-IsSealed_example = collect-IsSealed 2 cluster request result log_collected refl

collect-ends_example : (r : CollectResult) × (collect 10 cluster request ≡ some r)
collect-ends_example = collect-ends 9 cluster request refl

abbrev stored : Store
stored = record {
  stored = start_marker ∷ patch_event ∷ end_marker ∷ [];
  op_stages =
      ("m1", "ResponseComplete" ∷ [])
      ∷ ("p1", "ResponseComplete" ∷ [])
      ∷ ("m2", "ResponseComplete" ∷ [])
      ∷ [];
}

patch_plain :
    all
      (is_plain (effective_timestamp start_marker) (effective_timestamp end_marker) "p1")
      stored.stored
    ≡ true
unfolding is_plain all inside effective_timestamp stage_time is_channel channel_ref contains
    names_channel any is_stream contains_text concat equal_fold
patch_plain = refl

collect-IsEnded_example : IsEnded stored patch_event
collect-IsEnded_example =
    collect-IsEnded 2 cluster request result stored start_marker end_marker patch_event
      log_collected refl refl refl refl (Memᴰ.tail (Memᴰ.head refl)) patch_plain
