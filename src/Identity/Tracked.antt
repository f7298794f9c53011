-- ===== src/Identity/Tracked.antt =====
-- The bundle of pkg/environment/identity.go knows the objects that provisioning has applied: proofs about
-- Provision, WaitForAuthReady and Teardown.
use evidra_bench.Base.{
  false, String, Bool, true, List, [], ◌∷◌, ◌++◌, ◌≡◌, refl, sym, ap, ◌∙◌, Result, ok, err,
}
use mathlib.Core.List.{append-nil, append_assoc}
use evidra_bench.Identity.Site.{
  delete_namespace, view_config, get_probe, get_secret, create_token, Call, apply, delete, Entry,
  World, Site, IdentityError, Step, after, then_do, kctl,
}

unfoldable pub applied_of : Call → Bool → List String
applied_of (apply path) true = path ∷ []
applied_of _ _ = []

-- The files of the calls of `apply` that kubectl accepted, in order.
unfoldable pub applied : List Entry → List String
unfolding applied_of
applied [] = []
applied (e ∷ es) = applied_of e.call e.accepted ++ applied es

unfoldable pub told_of : Call → List String
told_of (delete path) = path ∷ []
told_of _ = []

-- The files whose objects kubectl was told to delete, in order.
unfoldable pub told : List Entry → List String
unfolding told_of
told [] = []
told (e ∷ es) = told_of e.call ++ told es

unfoldable pub deleted_of : Call → Bool → List String
deleted_of (delete path) true = path ∷ []
deleted_of _ _ = []

-- Those whose deletion kubectl accepted.
unfoldable pub deleted : List Entry → List String
unfolding deleted_of
deleted [] = []
deleted (e ∷ es) = deleted_of e.call e.accepted ++ deleted es

unfoldable pub refused_of : Call → Bool → List String
refused_of (delete path) false = path ∷ []
refused_of _ _ = []

-- Those whose deletion it refused.
unfoldable pub refused : List Entry → List String
unfolding refused_of
refused [] = []
refused (e ∷ es) = refused_of e.call e.accepted ++ refused es

-- What the calls say of one deletion.
told_split :
    (c : Call) (accepted : Bool) → refused_of c accepted ≡ [] → deleted_of c accepted ≡ told_of c
unfolding refused_of deleted_of told_of
told_split (delete path) true h = refl
told_split (delete path) false h = cc h
told_split (apply path) accepted h = refl
told_split delete_namespace accepted h = refl
told_split view_config accepted h = refl
told_split (create_token sa) accepted h = refl
told_split (get_secret sa) accepted h = refl
told_split (get_probe kubeconfig) accepted h = refl

none_before : (xs ys : List String) → xs ++ ys ≡ [] → xs ≡ []
none_before [] ys h = refl
none_before (x ∷ xs) ys h = cc h

none_after : (xs ys : List String) → xs ++ ys ≡ [] → ys ≡ []
none_after [] ys h = h
none_after (x ∷ xs) ys h = cc h

-- If no deletion is refused, what kubectl was told to delete is deleted.
pub deleted-told : (es : List Entry) → refused es ≡ [] → deleted es ≡ told es
unfolding deleted told refused
deleted-told [] h = refl
deleted-told (e ∷ es) h =
    let now = refused_of e.call e.accepted in
    ap (λ l. l ++ deleted es) (told_split e.call e.accepted (none_before now (refused es) h))
    ∙ ap (λ l. told_of e.call ++ l) (deleted-told es (none_after now (refused es) h))

applied-append : (xs ys : List Entry) → applied (xs ++ ys) ≡ applied xs ++ applied ys
unfolding applied
applied-append [] ys = refl
applied-append (x ∷ xs) ys =
    ap (λ l. applied_of x.call x.accepted ++ l) (applied-append xs ys)
    ∙ sym (append_assoc (applied_of x.call x.accepted) (applied xs) (applied ys))

told-append : (xs ys : List Entry) → told (xs ++ ys) ≡ told xs ++ told ys
unfolding told
told-append [] ys = refl
told-append (x ∷ xs) ys =
    ap (λ l. told_of x.call ++ l) (told-append xs ys)
    ∙ sym (append_assoc (told_of x.call) (told xs) (told ys))

-- The files of the bundle are those that were applied, and none of them was to be deleted.
pub record IsTracked (s : Site) : Type 0 where
  pub known : s.files ≡ applied s.calls
  pub kept : told s.calls ≡ []

abbrev pub Tracks : {A : Type 0} → Step A → Type 0
Tracks m = (s : Site) → IsTracked s → IsTracked (m s).1

after-IsTracked :
    {A B : Type 0} (r : Result IdentityError A × Site) (next : A → Step B)
    → IsTracked r.1
    → ((a : A) → Tracks (next a))
    → IsTracked (after r next).1
unfolding after
after-IsTracked (err e, s) next h later = h
after-IsTracked (ok a, s) next h later = later a s h

pub then_do-Tracks :
    {A B : Type 0} (first : Step A) (next : A → Step B)
    → Tracks first
    → ((a : A) → Tracks (next a))
    → Tracks (then_do first next)
unfolding then_do
then_do-Tracks first next h later s t = after-IsTracked (first s) next (h s t) later

module _ (w : World) where
  pub kctl-applied :
      (c : Call) (s : Site)
      → applied (kctl w c s).1.calls ≡ applied s.calls ++ applied_of c (w.answer s.calls c).0
  unfolding kctl
  kctl-applied c s =
      let a = w.answer s.calls c in
      applied-append s.calls (record { call = c; accepted = a.0; output = a.1 } ∷ [])
      ∙ ap (λ l. applied s.calls ++ l) (unfold applied in append-nil (applied_of c a.0))

  pub kctl-told : (c : Call) (s : Site) → told (kctl w c s).1.calls ≡ told s.calls ++ told_of c
  unfolding kctl
  kctl-told c s =
      let a = w.answer s.calls c in
      told-append s.calls (record { call = c; accepted = a.0; output = a.1 } ∷ [])
      ∙ ap (λ l. told s.calls ++ l) (unfold told in append-nil (told_of c))

  -- A call that neither applies nor deletes.
  pub kctl-IsTracked :
      (c : Call) (s : Site)
      → applied_of c (w.answer s.calls c).0 ≡ []
      → told_of c ≡ []
      → IsTracked s
      → IsTracked (kctl w c s).1
  unfolding kctl
  kctl-IsTracked c s quiet harmless h = record {
    known =
        h.known
        ∙ sym (
            kctl-applied c s ∙ ap (λ l. applied s.calls ++ l) quiet ∙ append-nil (applied s.calls));
    kept =
        kctl-told c s ∙ ap (λ l. told s.calls ++ l) harmless ∙ append-nil (told s.calls) ∙ h.kept;
  }
