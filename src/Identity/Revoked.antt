-- ===== src/Identity/Revoked.antt =====
-- What Teardown of pkg/environment/identity.go leaves behind.
use evidra_bench.Base.{String, List, [], ◌∷◌, ◌++◌, ◌≡◌, refl, sym, ap, ◌∙◌}
use mathlib.Core.List.{reverse, reverse-cons, append-nil, append_assoc}
use evidra_bench.Identity.Site.{delete, delete_namespace, World, Site}
use evidra_bench.Identity.Provision.{delete_files, teardown}
use evidra_bench.Identity.Tracked.{
  IsTracked, applied, told, applied_of, told_of, kctl-applied, kctl-told,
}

module _ (w : World) where
  delete_files-applied :
      (files : List String) (s : Site)
      → (applied (delete_files w files s).1.calls ≡ applied s.calls)
        × (told (delete_files w files s).1.calls ≡ told s.calls ++ reverse files)
  unfolding delete_files applied_of told_of
  delete_files-applied [] s = (refl, sym (append-nil (told s.calls)))
  delete_files-applied (f ∷ fs) s =
      let later = (delete_files w fs s).1 in
      let (same, gone) = delete_files-applied fs s in
      (
        kctl-applied w (delete f) later ∙ append-nil (applied later.calls) ∙ same,
        kctl-told w (delete f) later
            ∙ ap (λ l. l ++ f ∷ []) gone
            ∙ append_assoc (told s.calls) (reverse fs) (f ∷ [])
            ∙ ap (λ l. told s.calls ++ l) (sym (reverse-cons f fs)),
      )

  -- Teardown deletes what the bundle knows, from the last to the first.
  pub teardown-told :
      (s : Site)
      → IsTracked s
      → told (teardown w s).1.calls ≡ reverse (applied (teardown w s).1.calls)
  unfolding teardown applied_of told_of
  teardown-told s h =
      let after_files = (delete_files w s.files s).1 in
      let (same, gone) = delete_files-applied s.files s in
      kctl-told w delete_namespace after_files
      ∙ append-nil (told after_files.calls)
      ∙ gone
      ∙ ap (λ l. l ++ reverse s.files) h.kept
      ∙ ap reverse (
          h.known
          ∙ sym same
          ∙ sym (append-nil (applied after_files.calls))
          ∙ sym (kctl-applied w delete_namespace after_files))
