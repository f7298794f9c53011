-- ===== src/Agent/Recent.antt =====
-- What the model sees under a memory window: pkg/agent/loop.go.
use evidra_bench.Base.{
  ℕ, suc, ◌+◌, ◌<◌, pos, true, false, List, [], ◌∷◌, ◌++◌, Option, none, some, ◌≡◌, ◌⊎◌, refl, sym,
  subst, ap, ◌∙◌, arith, leb, count_of, inl, inr, Bool-cases,
}
use mathlib.Core.Option.{some-injective}
use evidra_bench.Agent.Messages.{Message, is_assistant}
use evidra_bench.Agent.Context.{onto, scan_back, or_all, recent, build_context_window}

append_assoc : (xs ys zs : List Message) → (xs ++ ys) ++ zs ≡ xs ++ (ys ++ zs)
append_assoc [] ys zs = refl
append_assoc (x ∷ xs) ys zs = ap (λ t. x ∷ t) (append_assoc xs ys zs)

onto-append : (ms acc : List Message) → onto ms acc ≡ onto ms [] ++ acc
unfolding onto
onto-append [] acc = refl
onto-append (m ∷ ms) acc =
    onto-append ms (m ∷ acc)
    ∙ (sym (append_assoc (onto ms []) (m ∷ []) acc)
        ∙ ap (λ t. t ++ acc) (sym (onto-append ms (m ∷ []))))

onto-onto : (ms acc out : List Message) → onto (onto ms acc) out ≡ onto acc (ms ++ out)
unfolding onto
onto-onto [] acc out = refl
onto-onto (m ∷ ms) acc out = onto-onto ms (m ∷ acc) out

append_nil : (ms : List Message) → ms ++ [] ≡ ms
append_nil [] = refl
append_nil (m ∷ ms) = ap (λ t. m ∷ t) (append_nil ms)

onto_twice : (ms : List Message) → onto (onto ms []) [] ≡ ms
unfolding onto
onto_twice ms = onto-onto ms [] [] ∙ append_nil ms

-- What the scan gives: it begins at an assistant message, the n-th from the end.
pub record IsCut (n : ℕ) (whole kept : List Message) : Type 0 where
  pub prefix : List Message
  pub parts : whole ≡ prefix ++ kept
  pub first : Message
  pub rest : List Message
  pub begins : kept ≡ first ∷ rest
  pub assistant : is_assistant first ≡ true
  pub enough : count_of is_assistant kept ≡ n

counted_more :
    (m : Message) (ms : List Message) (n seen : ℕ)
    → is_assistant m ≡ true
    → count_of is_assistant ms ≡ seen
    → n ≡ seen + 1
    → count_of is_assistant (m ∷ ms) ≡ n
unfolding count_of
counted_more m ms n seen here counted e = ground (arith, here, counted, e)

counted_same :
    (m : Message) (ms : List Message) (seen : ℕ)
    → is_assistant m ≡ false
    → count_of is_assistant ms ≡ seen
    → count_of is_assistant (m ∷ ms) ≡ seen
unfolding count_of
counted_same m ms seen other counted = ground (arith, other, counted)

-- The three ways of a round.
module _ (n seen : ℕ) (passed left : List Message) (m : Message) where
  scan_stops :
      is_assistant m ≡ true
      → leb n (seen + 1) ≡ true
      → scan_back n seen passed (m ∷ left) ≡ some (m ∷ passed)
  unfolding scan_back
  scan_stops here last = simp (here, last) refl

  scan_counts :
      is_assistant m ≡ true
      → leb n (seen + 1) ≡ false
      → scan_back n seen passed (m ∷ left) ≡ scan_back n (seen + 1) (m ∷ passed) left
  unfolding scan_back
  scan_counts here more = simp (here, more) refl

  scan_passes :
      is_assistant m ≡ false
      → scan_back n seen passed (m ∷ left) ≡ scan_back n seen (m ∷ passed) left
  unfolding scan_back
  scan_passes other = simp other refl

scan_back-IsCut :
    (n seen : ℕ) (passed left kept : List Message)
    → seen < n
    → count_of is_assistant passed ≡ seen
    → scan_back n seen passed left ≡ some kept
    → IsCut n (onto left passed) kept
unfolding onto
scan_back-IsCut n seen passed [] kept few counted h =
    let nothing : none ≡ some kept = unfold scan_back in h in cc nothing
scan_back-IsCut n seen passed (m ∷ left) kept few counted h = elim (Bool-cases (is_assistant m)) [
  | inl here ↦ elim (Bool-cases (leb n (seen + 1))) [
    | inl last ↦
        let same : m ∷ passed ≡ kept =
          some-injective _ _ (sym (scan_stops n seen passed left m here last) ∙ h) in
        subst (IsCut n (onto left (m ∷ passed))) same (record {
          prefix = onto left [];
          parts = onto-append left (m ∷ passed);
          first = m;
          rest = passed;
          begins = refl;
          assistant = here;
          enough = counted_more m passed n seen here counted (ground (arith, last, few));
        })
    | inr more ↦
        scan_back-IsCut n (seen + 1) (m ∷ passed) left kept (ground (arith, more))
          (counted_more m passed (seen + 1) seen here counted refl)
          (sym (scan_counts n seen passed left m here more) ∙ h)
  ]
  | inr other ↦
      scan_back-IsCut n seen (m ∷ passed) left kept few (counted_same m passed seen other counted)
        (sym (scan_passes n seen passed left m other) ∙ h)
]

scan_back-none :
    (n seen : ℕ) (passed left : List Message)
    → scan_back n seen passed left ≡ none
    → seen < n
    → seen + count_of is_assistant left < n
unfolding count_of
scan_back-none n seen passed [] h few = omega (arith, few)
scan_back-none n seen passed (m ∷ left) h few = elim (Bool-cases (is_assistant m)) [
  | inl here ↦ elim (Bool-cases (leb n (seen + 1))) [
    | inl last ↦ let clash = sym (scan_stops n seen passed left m here last) ∙ h in cc clash
    | inr more ↦
        let rest =
          scan_back-none n (seen + 1) (m ∷ passed) left
            (sym (scan_counts n seen passed left m here more) ∙ h) (ground (arith, more)) in
        ground (arith, rest, here)
  ]
  | inr other ↦
      let rest =
        scan_back-none n seen (m ∷ passed) left (sym (scan_passes n seen passed left m other) ∙ h)
          few in
      ground (arith, rest, other)
]

count_onto :
    (ms acc : List Message)
    → count_of is_assistant (onto ms acc) ≡ count_of is_assistant ms + count_of is_assistant acc
unfolding count_of onto
count_onto [] acc = omega arith
count_onto (m ∷ ms) acc = omega (arith, count_onto ms (m ∷ acc))

-- What is kept of a conversation: its end that begins at the n-th assistant message from the end, or all of it
-- where there are fewer.
pub IsRecent : ℕ → List Message → List Message → Type 0
IsRecent n conversation kept =
    IsCut n conversation kept ⊎ ((kept ≡ conversation) × (count_of is_assistant conversation < n))

none_counted : count_of is_assistant [] ≡ 0
unfolding count_of
none_counted = refl

or_all-IsRecent :
    (n : ℕ) (conversation : List Message) (found : Option (List Message))
    → scan_back (suc n) 0 [] (onto conversation []) ≡ found
    → IsRecent (suc n) conversation (or_all conversation found)
unfolding or_all IsRecent
or_all-IsRecent n conversation (some kept) h =
    let cut =
      scan_back-IsCut (suc n) 0 [] (onto conversation []) kept (omega arith)
        (unfold count_of in refl) h in
    inl (subst (λ w. IsCut (suc n) w kept) (onto_twice conversation) cut)
or_all-IsRecent n conversation none h =
    let few = scan_back-none (suc n) 0 [] (onto conversation []) h (omega arith) in
    inr (refl, omega (arith, few, count_onto conversation [], none_counted))

-- Under a window of `n + 1`, the model sees the system prompt, the task, and the end of the
-- conversation that begins at the (n+1)-th assistant message from the end; or all of the conversation
-- where it has fewer assistant messages.
pub build_context_window-IsRecent :
    (n : ℕ) (system task : Message) (conversation : List Message)
    → (kept : List Message) × (build_context_window (system ∷ task ∷ conversation) (pos (suc n))
        ≡ system ∷ task ∷ kept)
      × IsRecent (suc n) conversation kept
unfolding build_context_window recent IsRecent
build_context_window-IsRecent n system task [] = ([], refl, inr (refl, omega (arith, none_counted)))
build_context_window-IsRecent n system task (c ∷ conversation) =
    (_, refl, or_all-IsRecent n (c ∷ conversation) _ refl)
