-- ===== src/Audit/Reading.antt =====
-- Which sources the drain of pkg/audit/collector.go has read, and that it ends.
use evidra_bench.Base.{
  String, ℕ, zero, suc, ◌+◌, Bool, true, false, List, [], ◌∷◌, ◌++◌, Option, none, some, ◌≡◌, ap,
  ◌∙◌, refl, arith, all, get, put, get-put, eq_refl, and_iff, or_iff, inl, inr, Bool-cases, subst,
  ◌==◌,
}
use mathlib.Core.Option.{some-injective}
use evidra_bench.Audit.Parse.{Bytes, Decoder}
use evidra_bench.Audit.Collect.{
  Answer, content, log_rotated, failed, Cluster, CollectRequest, Drain, read_failed, read_content,
  read_answer, read_sources, look, round, is_last, drain,
}

has_bytes : Option Bytes → Bool
has_bytes none = false
has_bytes (some bytes) = true

-- The node has a last read.
unfoldable pub is_read : Drain → String → Bool
unfolding has_bytes
is_read d name = has_bytes (get name d.seen)

abbrev pub HasNoFailure : Drain → Type 0
HasNoFailure d = d.node_failures ≡ []

append_ne : (xs : List String) (y : String) → xs ++ (y ∷ []) ≡ [] → ⊥
append_ne [] y h = cc h
append_ne (x ∷ xs) y h = cc h

get-put_same :
    {V : Type 0} (name : String) (v : V) (m : List (String × V)) → get name (put name v m) ≡ some v
get-put_same name v m = ground (arith, get-put name name v m, eq_refl name)

is_read-put :
    (name other : String) (bytes : Bytes) (d : Drain)
    → is_read d other ≡ true
    → is_read (record d { seen = put name bytes d.seen }) other ≡ true
unfolding is_read has_bytes
is_read-put name other bytes d h = elim (Bool-cases (name == other)) [
  | inl same ↦
      let back : get other (put name bytes d.seen) ≡ some bytes =
        ground (arith, get-put name other bytes d.seen) in
      ap has_bytes back
  | inr different ↦
      let back : get other (put name bytes d.seen) ≡ get other d.seen =
        ground (arith, get-put name other bytes d.seen) in
      ap has_bytes back ∙ h
]

-- A read that did not fail leaves its node read; no read unreads a node.
read_answer-is_read :
    (decoder : Decoder) (name : String) (a : Answer) (d : Drain)
    → HasNoFailure (read_answer decoder name a d)
    → HasNoFailure d × (is_read (read_answer decoder name a d) name ≡ true)
unfolding read_answer read_failed read_content is_read has_bytes
read_answer-is_read decoder name (content bytes) d h =
    let back = get-put_same name bytes d.seen in (h, ap has_bytes back)
read_answer-is_read decoder name log_rotated d h = absurd (append_ne d.node_failures _ h)
read_answer-is_read decoder name (failed message) d h = absurd (append_ne d.node_failures _ h)

is_read-read_answer :
    (decoder : Decoder) (name other : String) (a : Answer) (d : Drain)
    → is_read d other ≡ true
    → is_read (read_answer decoder name a d) other ≡ true
unfolding read_answer read_failed read_content is_read has_bytes
is_read-read_answer decoder name other (content bytes) d h = is_read-put name other bytes d h
is_read-read_answer decoder name other log_rotated d h = h
is_read-read_answer decoder name other (failed message) d h = h

is_read-read_sources :
    (c : Cluster) (n i : ℕ) (names : List String) (other : String) (d : Drain)
    → is_read d other ≡ true
    → is_read (read_sources c n i names d) other ≡ true
unfolding read_sources
is_read-read_sources c n i [] other d h = h
is_read-read_sources c n i (name ∷ names) other d h =
    is_read-read_sources c n (i + 1) names other _
      (is_read-read_answer c.decoder name other (c.answer n i) d h)

-- A round that leaves no failure has read every source, and found none before.
read_sources-is_read :
    (c : Cluster) (n i : ℕ) (names : List String) (d : Drain)
    → HasNoFailure (read_sources c n i names d)
    → HasNoFailure d × (all (is_read (read_sources c n i names d)) names ≡ true)
unfolding read_sources all
read_sources-is_read c n i [] d h = (h, refl)
read_sources-is_read c n i (name ∷ names) d h =
    let next = read_answer c.decoder name (c.answer n i) d in
    let rest = read_sources-is_read c n (i + 1) names next h in
    let here = read_answer-is_read c.decoder name (c.answer n i) d rest.0 in
    (here.0, (and_iff _ _).1 (is_read-read_sources c n (i + 1) names name next here.1, rest.1))

round-is_read :
    (c : Cluster) (req : CollectRequest) (n : ℕ) (d : Drain)
    → HasNoFailure (round c req n d)
    → all (is_read (round c req n d)) req.sources ≡ true
unfolding round look is_read
round-is_read c req n d h = (read_sources-is_read c n 0 req.sources (record d { failures = 0 }) h).1

drain-last :
    (fuel : ℕ) (c : Cluster) (req : CollectRequest) (n : ℕ) (d : Drain)
    → is_last c n (round c req n d) ≡ true
    → drain (suc fuel) c req n d ≡ some (round c req n d)
unfolding drain
drain-last fuel c req n d h = simp h refl

drain-onward :
    (fuel : ℕ) (c : Cluster) (req : CollectRequest) (n : ℕ) (d : Drain)
    → is_last c n (round c req n d) ≡ false
    → drain (suc fuel) c req n d ≡ drain fuel c req (n + 1) (round c req n d)
unfolding drain
drain-onward fuel c req n d h = simp h refl

is_expired-is_last :
    (c : Cluster) (n : ℕ) (d : Drain) → c.is_expired n ≡ true → is_last c n d ≡ true
unfolding is_last
is_expired-is_last c n d h = (or_iff _ _).1 (inr h)

-- A drain that ends with no failed read has read every source.
pub drain-is_read :
    (fuel : ℕ) (c : Cluster) (req : CollectRequest) (n : ℕ) (d last : Drain)
    → drain fuel c req n d ≡ some last
    → HasNoFailure last
    → all (is_read last) req.sources ≡ true
unfolding drain
drain-is_read zero c req n d last h clean = cc h
drain-is_read (suc fuel) c req n d last h clean =
    let next = round c req n d in
    elim (Bool-cases (is_last c n next)) [
      | inl stop ↦
          let same : next ≡ last = some-injective _ _ (ground (arith, stop, h)) in
          subst (λ x. HasNoFailure x → all (is_read x) req.sources ≡ true) same
            (round-is_read c req n d) clean
      | inr onward ↦ drain-is_read fuel c req (n + 1) next last (ground (arith, onward, h)) clean
    ]

-- The drain ends by the round in which the deadline passes.
pub drain-ends :
    (k : ℕ) (c : Cluster) (req : CollectRequest) (n : ℕ) (d : Drain)
    → c.is_expired (k + n) ≡ true
    → (last : Drain) × (drain (suc k) c req n d ≡ some last)
drain-ends zero c req n d h' =
    let here : 0 + n ≡ n = omega arith in
    let h = subst (λ m. c.is_expired m ≡ true) here h' in
    (round c req n d, drain-last zero c req n d (is_expired-is_last c n (round c req n d) h))
drain-ends (suc k) c req n d h = elim (Bool-cases (is_last c n (round c req n d))) [
  | inl stop ↦ (round c req n d, drain-last (suc k) c req n d stop)
  | inr onward ↦
      let later : c.is_expired (k + (n + 1)) ≡ true =
        let shift : suc k + n ≡ k + (n + 1) = omega arith in
        subst (λ m. c.is_expired m ≡ true) shift h in
      let (last, ends) = drain-ends k c req (n + 1) (round c req n d) later in
      (last, drain-onward (suc k) c req n d onward ∙ ends)
]
