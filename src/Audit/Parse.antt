-- ===== src/Audit/Parse.antt =====
-- The decoding of an audit log: `Parse` of pkg/audit/events.go. The split of the bytes into lines
-- (bufio.Scanner) and the decoding of a line (encoding/json) are arguments.
use evidra_bench.Base.{
  String, ℕ, ◌+◌, List, [], ◌∷◌, Option, none, some, trim_space, is_empty, if◌then◌else◌,
}
use evidra_bench.Audit.Events.{Event}

abbrev pub Bytes : Type 0
Bytes = List ℕ

pub record ParseStats : Type 0 where
  pub lines : ℕ
  pub bad : ℕ
  pub events : List Event

pub record Decoder : Type 0 where
  pub scan : Bytes → List String
  pub decode : String → Option Event

-- A decoded event without an audit id is a bad line too.
unfoldable pub tally_event : Event → ParseStats → ParseStats
tally_event e st =
    if is_empty e.audit_id
    then record { lines = 1 + st.lines; bad = 1 + st.bad; events = st.events }
    else record { lines = 1 + st.lines; bad = st.bad; events = e ∷ st.events }

unfoldable pub tally_line : Option Event → ParseStats → ParseStats
tally_line none st = record { lines = 1 + st.lines; bad = 1 + st.bad; events = st.events }
tally_line (some e) st = tally_event e st

unfoldable pub parse_lines : (String → Option Event) → List String → ParseStats
parse_lines decode [] = record { lines = 0; bad = 0; events = [] }
parse_lines decode (text ∷ rest) =
    let st = parse_lines decode rest in
    let line = trim_space text in if is_empty line then st else tally_line (decode line) st

unfoldable pub parse : Decoder → Bytes → ParseStats
parse d bytes = parse_lines d.decode (d.scan bytes)
