-- ===== src/Audit/Events.antt =====
-- Audit events and their store: pkg/audit/events.go.
use Prim.Native.Nat.{Ordering}
use Prim.Native.String.{compare}
use evidra_bench.Base.{
  String, ℕ, ◌+◌, Bool, true, false, ◌||◌, List, [], ◌∷◌, ◌++◌, Option, none, some, ◌==◌, any,
  contains, concat, eqb, ltb, get_list, append_at, if◌then◌else◌,
}
use evidra_bench.Json.{Json}

pub record User : Type 0 where
  pub username : String
  pub uid : String
  pub groups : List String

pub record ObjectRef : Type 0 where
  pub resource : String
  pub namespace : String
  pub name : String
  pub api_group : String
  pub api_version : String
  pub subresource : String

pub record ResponseStatus : Type 0 where
  pub code : ℕ
  pub reason : String

-- Times count from the zero time, and a body that is missing is `none`.
pub record Event : Type 0 where
  pub level : String
  pub audit_id : String
  pub stage : String
  pub request_uri : String
  pub verb : String
  pub user : Option User
  pub user_extra : Option Json
  pub source_ips : List String
  pub user_agent : String
  pub object_ref : Option ObjectRef
  pub response_status : Option ResponseStatus
  pub stage_timestamps : List (String × ℕ)
  pub timestamp : ℕ
  pub annotations : List (String × String)
  pub request_object : Option Json
  pub response_object : Option Json

abbrev pub stage_response_started : String
stage_response_started = "ResponseStarted"

unfoldable pub terminal_stage : String → Bool
terminal_stage stage = stage == "ResponseComplete" || stage == "Panic"

unfoldable pub key_of : Event → String
key_of e = concat (e.audit_id ∷ "|" ∷ e.stage ∷ [])

unfoldable pub stage_time : String → List (String × ℕ) → Option ℕ
stage_time stage [] = none
stage_time stage ((s, t) ∷ rest) = if s == stage then some t else stage_time stage rest

-- The time of the event's own stage, unless it is missing or zero.
unfoldable pub effective_timestamp : Event → ℕ
effective_timestamp e = elim (stage_time e.stage e.stage_timestamps) [
  | none ↦ e.timestamp
  | some t ↦ if eqb t 0 then e.timestamp else t
]

-- `byKey` as the list of the stored events, whose keys differ, and `opStages`.
pub record Store : Type 0 where
  pub stored : List Event
  pub op_stages : List (String × List String)

abbrev pub new_store : Store
new_store = record { stored = []; op_stages = [] }

unfoldable pub has_key : String → List Event → Bool
has_key k [] = false
has_key k (e ∷ es) = key_of e == k || has_key k es

-- One round of `Add`: a stored key is passed over.
unfoldable pub add_event : Store → Event → Store
add_event s e = if has_key (key_of e) s.stored then s else record {
  stored = s.stored ++ (e ∷ []);
  op_stages = append_at e.audit_id e.stage s.op_stages;
}

unfoldable pub add : Store → List Event → Store × ℕ
add s [] = (s, 0)
add s (e ∷ es) =
    let (t, n) = add (add_event s e) es in (t, (if has_key (key_of e) s.stored then 0 else 1) + n)

unfoldable pub has_terminal : Store → String → Bool
has_terminal s audit_id = any terminal_stage (get_list audit_id s.op_stages)

-- By effective timestamp, then by key.
unfoldable pub precedes : Event → Event → Bool
precedes a b =
    let s = effective_timestamp a in
    let t = effective_timestamp b in
    if eqb s t
    then (elim (compare (key_of a) (key_of b)) [ Ordering.lt ↦ true | _ ↦ false ])
    else ltb s t

unfoldable pub insert_event : Event → List Event → List Event
insert_event e [] = e ∷ []
insert_event e (x ∷ xs) =
    let rest = x ∷ insert_event e xs in if precedes x e then rest else e ∷ x ∷ xs

unfoldable pub sort_events : List Event → List Event
sort_events [] = []
sort_events (e ∷ es) = insert_event e (sort_events es)

unfoldable pub all_events : Store → List Event
all_events s = sort_events s.stored

-- The ids in the order of their first events.
unfoldable pub ids_from : List String → List Event → List String
ids_from seen [] = []
ids_from seen (e ∷ es) =
    let rest = ids_from (if contains seen e.audit_id then seen else e.audit_id ∷ seen) es in
    if contains seen e.audit_id then rest else e.audit_id ∷ rest

unfoldable pub ops : Store → List String
ops s = ids_from [] (all_events s)
