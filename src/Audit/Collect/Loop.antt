-- ===== src/Audit/Collect/Loop.antt =====
-- The loop of `Collect` of pkg/audit/collector.go, that reads every source in every round.
use evidra_bench.Base.{
  String, ℕ, zero, suc, ◌+◌, Bool, true, false, not, ◌&&◌, ◌||◌, List, [], ◌∷◌, ◌++◌, Option, none,
  some, contains, concat, length, ltb, eqb, get, put, if◌then◌else◌,
}
use evidra_bench.Audit.Events.{Event, Store, new_store, add, all_events}
use evidra_bench.Audit.Window.{find_marker}
use evidra_bench.Audit.Health.{Health}
use evidra_bench.Audit.Parse.{Bytes, Decoder, parse}

pub data Answer : Type 0 where
  content : Bytes → Answer
  log_rotated : Answer
  failed : String → Answer

pub record Cluster : Type 0 where
  pub probe : String → Health
  pub answer : ℕ → ℕ → Answer
  pub is_expired : ℕ → Bool
  pub decoder : Decoder

pub record CollectRequest : Type 0 where
  pub sources : List String
  pub start_nonce : String
  pub end_nonce : String
  pub marker_username : String
  pub health_check_nodes : List String

-- The variables of the loop. `failures` counts the failed reads of the round.
pub record Drain : Type 0 where
  pub store : Store
  pub seen : List (String × Bytes)
  pub rotated : List String
  pub node_failures : List String
  pub failures : ℕ
  pub lines : ℕ
  pub bad : ℕ
  pub start : Option Event
  pub finish : Option Event

abbrev pub new_drain : Drain
new_drain = record {
  store = new_store;
  seen = [];
  rotated = [];
  node_failures = [];
  failures = 0;
  lines = 0;
  bad = 0;
  start = none;
  finish = none;
}

-- `rotated[name] = true`
unfoldable pub mark : String → List String → List String
mark name names = if contains names name then names else names ++ (name ∷ [])

unfoldable pub read_failed : String → String → Drain → Drain
read_failed name message d = record d {
  failures = d.failures + 1;
  node_failures = d.node_failures ++ (concat (name ∷ ": " ∷ message ∷ []) ∷ []);
}

unfoldable pub begins_with : Bytes → Bytes → Bool
begins_with bytes [] = true
begins_with [] (b ∷ prev) = false
begins_with (a ∷ bytes) (b ∷ prev) = eqb a b && begins_with bytes prev

-- A read that is shorter than the previous one, or diverges from it.
unfoldable pub regressed : Option Bytes → Bytes → Bool
regressed none bytes = false
regressed (some prev) bytes = ltb 0 (length prev) && not (begins_with bytes prev)

unfoldable pub read_content : Decoder → String → Bytes → Drain → Drain
read_content decoder name bytes d = record d {
  rotated = if regressed (get name d.seen) bytes then mark name d.rotated else d.rotated;
  seen = put name bytes d.seen;
  lines = d.lines + (parse decoder bytes).lines;
  bad = d.bad + (parse decoder bytes).bad;
  store = (add d.store (parse decoder bytes).events).0;
}

unfoldable pub read_answer : Decoder → String → Answer → Drain → Drain
read_answer decoder name (content bytes) d = read_content decoder name bytes d
read_answer decoder name log_rotated d =
    read_failed name "audit log rotated mid-window" (record d { rotated = mark name d.rotated })
read_answer decoder name (failed message) d = read_failed name message d

-- The inner loop, from the source at position `i` on, in round `n`.
unfoldable pub read_sources : Cluster → ℕ → ℕ → List String → Drain → Drain
read_sources c n i [] d = d
read_sources c n i (name ∷ names) d =
    read_sources c n (i + 1) names (read_answer c.decoder name (c.answer n i) d)

-- A marker once found is kept.
unfoldable pub observe : Option Event → Option Event → Option Event
observe (some e) found = some e
observe none found = found

unfoldable pub look : CollectRequest → Drain → Drain
look req d = record d {
  start = observe d.start (find_marker (all_events d.store) req.marker_username req.start_nonce);
  finish = observe d.finish (find_marker (all_events d.store) req.marker_username req.end_nonce);
}

unfoldable pub round : Cluster → CollectRequest → ℕ → Drain → Drain
round c req n d = look req (read_sources c n 0 req.sources (record d { failures = 0 }))

unfoldable pub is_found : Option Event → Bool
is_found none = false
is_found (some e) = true

unfoldable pub is_last : Cluster → ℕ → Drain → Bool
is_last c n d = (is_found d.start && is_found d.finish) || c.is_expired n

-- The outer loop from round `n` on, on fuel: `none` is a loop that has not ended.
unfoldable pub drain : ℕ → Cluster → CollectRequest → ℕ → Drain → Option Drain
drain zero c req n d = none
drain (suc fuel) c req n d =
    let next = round c req n d in
    let rest = drain fuel c req (n + 1) next in if is_last c n next then some next else rest
