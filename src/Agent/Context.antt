-- ===== src/Agent/Context.antt =====
-- The messages that the model sees in a turn: `buildContextWindow` of pkg/agent/loop.go.
use evidra_bench.Base.{
  ℕ, zero, suc, ◌+◌, ℤ, pos, negsuc, ◌&&◌, List, [], ◌∷◌, Option, none, some, leb, if◌then◌else◌,
}
use evidra_bench.Agent.Messages.{Message, is_assistant}

-- The list backwards, onto the second one.
unfoldable pub onto : List Message → List Message → List Message
onto [] acc = acc
onto (m ∷ ms) acc = onto ms (m ∷ acc)

-- The loop from the last message to the first: what is left of them, last first, and those that it has
-- passed. It ends at the n-th assistant message from the end.
unfoldable pub scan_back : ℕ → ℕ → List Message → List Message → Option (List Message)
scan_back n seen passed [] = none
scan_back n seen passed (m ∷ left) =
    let rest = scan_back n (if is_assistant m then seen + 1 else seen) (m ∷ passed) left in
    if is_assistant m && leb n (seen + 1) then some (m ∷ passed) else rest

unfoldable pub first_of : List Message → List Message
first_of [] = []
first_of (m ∷ ms) = m ∷ []

-- Without an assistant message, the last message alone.
unfoldable pub stateless : List Message → Option (List Message) → List Message
stateless backwards none = first_of backwards
stateless backwards (some kept) = kept

unfoldable pub or_all : List Message → Option (List Message) → List Message
or_all conversation none = conversation
or_all conversation (some kept) = kept

unfoldable pub recent : ℕ → List Message → List Message
recent zero conversation =
    let backwards = onto conversation [] in stateless backwards (scan_back 1 0 [] backwards)
recent (suc n) conversation = or_all conversation (scan_back (suc n) 0 [] (onto conversation []))

-- The system prompt and the task, and what the window keeps of the conversation after them.
unfoldable pub build_context_window : List Message → ℤ → List Message
build_context_window messages (negsuc n) = messages
build_context_window [] (pos n) = []
build_context_window (a ∷ []) (pos n) = a ∷ []
build_context_window (a ∷ b ∷ []) (pos n) = a ∷ b ∷ []
build_context_window (a ∷ b ∷ (c ∷ conversation)) (pos n) = a ∷ b ∷ recent n (c ∷ conversation)
