-- ===== src/Audit/Sealing.antt =====
-- What the drain of pkg/audit/collector.go has read, and what a complete coverage rests on.
use evidra_bench.Base.{
  String, ℕ, zero, suc, ◌+◌, true, List, [], ◌∷◌, Option, none, some, ◌≡◌, subst, arith, Memᴰ, all,
  get, put, get-put, inl, inr, ◌⊎◌, ◌==◌, Bool-cases,
}
use mathlib.Core.Option.{some-injective}
use evidra_bench.Audit.Events.{Event, add, all_events}
use evidra_bench.Audit.Window.{is_marker, find_marker}
use evidra_bench.Audit.Markers.{find_marker_lem}
use evidra_bench.Audit.Ingest.{is_known}
use evidra_bench.Audit.Keeping.{add-Memᴰ, add-is_known, is_known-add, sort_events-mem}
use evidra_bench.Audit.Parse.{Bytes, Decoder, parse}
use evidra_bench.Audit.Collect.{
  Answer, content, log_rotated, failed, Cluster, CollectRequest, Drain, new_drain, read_failed,
  read_content, read_answer, read_sources, observe, look, round, is_last, drain,
}

-- The marker is an event of the store, by the user and with the nonce.
pub IsMarked : CollectRequest → Drain → String → Option Event → Type 0
IsMarked req d nonce found =
    (e : Event)
    → found ≡ some e
    → Memᴰ e d.store.stored × (is_marker req.marker_username nonce e ≡ true)

-- The markers are events of the store, and so is every event of the last read of every node.
pub record IsSound (c : Cluster) (req : CollectRequest) (d : Drain) : Type 0 where
  pub started : IsMarked req d req.start_nonce d.start
  pub finished : IsMarked req d req.end_nonce d.finish
  pub kept :
      (name : String) (bytes : Bytes)
      → get name d.seen ≡ some bytes
      → all (is_known d.store) (parse c.decoder bytes).events ≡ true

pub new_drain-IsSound : (c : Cluster) (req : CollectRequest) → IsSound c req new_drain
unfolding get IsMarked
new_drain-IsSound c req = record {
  started = λ e h. cc;
  finished = λ e h. cc;
  kept = λ name bytes h. cc;
}

-- What a read of a node keeps, by whether the node is the one that was read now.
kept-read_content :
    (decoder : Decoder) (name other : String) (bytes old : Bytes) (d : Drain)
    → get other (put name bytes d.seen) ≡ some old
    → (bytes ≡ old) ⊎ (get other d.seen ≡ some old)
kept-read_content decoder name other bytes old d h = elim (Bool-cases (name == other)) [
  | inl same ↦ inl (some-injective _ _ (ground (arith, get-put name other bytes d.seen)))
  | inr different ↦ inr (ground (arith, get-put name other bytes d.seen))
]

read_content-IsSound :
    (c : Cluster) (req : CollectRequest) (name : String) (bytes : Bytes) (d : Drain)
    → IsSound c req d
    → IsSound c req (read_content c.decoder name bytes d)
unfolding read_content IsMarked
read_content-IsSound c req name bytes d sound =
    let events = (parse c.decoder bytes).events in
    record {
      started = λ e h. (add-Memᴰ d.store events e (sound.started e h).0, (sound.started e h).1);
      finished = λ e h. (add-Memᴰ d.store events e (sound.finished e h).0, (sound.finished e h).1);
      kept = λ other old h. elim (kept-read_content c.decoder name other bytes old d h) [
        | inl same ↦
            subst (λ b. all (is_known (add d.store events).0) (parse c.decoder b).events ≡ true)
              same (add-is_known d.store events)
        | inr before ↦ is_known-add d.store events _ (sound.kept other old before)
      ];
    }

read_answer-IsSound :
    (c : Cluster) (req : CollectRequest) (name : String) (a : Answer) (d : Drain)
    → IsSound c req d
    → IsSound c req (read_answer c.decoder name a d)
unfolding read_answer read_failed IsMarked
read_answer-IsSound c req name (content bytes) d sound =
    read_content-IsSound c req name bytes d sound
read_answer-IsSound c req name log_rotated d sound = record {
  started = sound.started;
  finished = sound.finished;
  kept = sound.kept;
}
read_answer-IsSound c req name (failed message) d sound = record {
  started = sound.started;
  finished = sound.finished;
  kept = sound.kept;
}

read_sources-IsSound :
    (c : Cluster) (req : CollectRequest) (n i : ℕ) (names : List String) (d : Drain)
    → IsSound c req d
    → IsSound c req (read_sources c n i names d)
unfolding read_sources
read_sources-IsSound c req n i [] d sound = sound
read_sources-IsSound c req n i (name ∷ names) d sound =
    read_sources-IsSound c req n (i + 1) names _
      (read_answer-IsSound c req name (c.answer n i) d sound)

observe-IsMarked :
    (req : CollectRequest) (d : Drain) (nonce : String) (old : Option Event)
    → IsMarked req d nonce old
    → IsMarked req d nonce
        (observe old (find_marker (all_events d.store) req.marker_username nonce))
unfolding IsMarked observe all_events
observe-IsMarked req d nonce (some e) marked = marked
observe-IsMarked req d nonce none marked = λ e h.
    elim (find_marker_lem (all_events d.store) req.marker_username nonce) [
      | inl (m, found, inside, marks) ↦
          let same : m ≡ e = some-injective _ _ (cc (found, h)) in
          subst (λ x. Memᴰ x d.store.stored × (is_marker req.marker_username nonce x ≡ true)) same
            (sort_events-mem m d.store.stored inside, marks)
      | inr (missing, _) ↦ cc (missing, h)
    ]

round-IsSound :
    (c : Cluster) (req : CollectRequest) (n : ℕ) (d : Drain)
    → IsSound c req d
    → IsSound c req (round c req n d)
unfolding round look IsMarked
round-IsSound c req n d sound =
    let after = read_sources c n 0 req.sources (record d { failures = 0 }) in
    let read =
      read_sources-IsSound c req n 0 req.sources (record d { failures = 0 })
        (record { started = sound.started; finished = sound.finished; kept = sound.kept }) in
    record {
      started = observe-IsMarked req after req.start_nonce _ read.started;
      finished = observe-IsMarked req after req.end_nonce _ read.finished;
      kept = read.kept;
    }

pub drain-IsSound :
    (fuel : ℕ) (c : Cluster) (req : CollectRequest) (n : ℕ) (d last : Drain)
    → drain fuel c req n d ≡ some last
    → IsSound c req d
    → IsSound c req last
unfolding drain
drain-IsSound zero c req n d last h sound = cc h
drain-IsSound (suc fuel) c req n d last h sound =
    let next = round c req n d in
    let good = round-IsSound c req n d sound in
    elim (Bool-cases (is_last c n next)) [
      | inl stop ↦
          let same : next ≡ last = some-injective _ _ (ground (arith, stop, h)) in
          subst (IsSound c req) same good
      | inr onward ↦ drain-IsSound fuel c req (n + 1) next last (ground (arith, onward, h)) good
    ]
