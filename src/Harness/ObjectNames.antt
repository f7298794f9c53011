-- ===== src/Harness/ObjectNames.antt =====
-- The name of an object, that the diff writes and `filterDiffable` splits: pkg/snapshot/snapshot.go and
-- pkg/harness/snapshots.go.
use evidra_bench.Base.{
  String, false, List, ◌∷◌, ◌≡◌, ap, ◌∙◌, has_slash, split, split-slash, split-cons, concat,
}
use evidra_bench.Snapshot.Normalize.{Key, key_text}
use evidra_bench.Harness.Checkpoints.{first_part, namespace_part}

key_text-split :
    (k : Key)
    → has_slash k.kind ≡ false
    → has_slash k.namespace ≡ false
    → (first : String) × (rest : List String) × (split 47 (key_text k)
        ≡ k.kind ∷ k.namespace ∷ first ∷ rest)
unfolding key_text concat
key_text-split k kind_whole namespace_whole =
    let (first, rest, last) = split-cons 47 k.name in
    (
      first,
      rest,
      split-slash k.kind _ kind_whole
          ∙ ap (λ parts. k.kind ∷ parts)
              (split-slash k.namespace k.name namespace_whole
                ∙ ap (λ parts. k.namespace ∷ parts) last),
    )

-- From the name of a key whose kind and namespace have no slash, the filter reads back that kind and that
-- namespace, whatever the name of the object.
pub key_text_recovered :
    (k : Key)
    → has_slash k.kind ≡ false
    → has_slash k.namespace ≡ false
    → (first_part (split 47 (key_text k)) ≡ k.kind)
      × (namespace_part (split 47 (key_text k)) ≡ k.namespace)
unfolding first_part namespace_part
key_text_recovered k kind_whole namespace_whole =
    let (_, _, parts) = key_text-split k kind_whole namespace_whole in
    (ap first_part parts, ap namespace_part parts)
