-- ===== src/K8sutil/Upsert/Settles.antt =====
-- What calling a `CreateOrUpdate` function achieves at an API server with optimistic concurrency.
use mathlib.Core.Path.{subst}
use jupyter_operator.Common.{
  String, true, Option, none, some, List, ◌≡◌, refl, sym, ap, ◌∙◌, ◌⊎◌, inl, inr,
}
use jupyter_operator.Prog.{value, Prog}
use jupyter_operator.Prog.Run.{run}
use jupyter_operator.Kube.{Error, ok, err, is_not_found}
use jupyter_operator.Kube.Resource.{Client, Lister}
use jupyter_operator.Kube.Objects.{ServicePort, Service, IngressSpec, Ingress}
use jupyter_operator.K8sutil.Service.{create_or_update_service}
use jupyter_operator.K8sutil.Ingress.{create_or_update_ingress}
use jupyter_operator.K8sutil.Upsert.{
  Kind, upsert, service_kind, ingress_kind, create_or_update_service-eq-upsert,
  create_or_update_ingress-eq-upsert,
}
use jupyter_operator.K8sutil.Upsert.Laws.{
  IsMarked, is_managed_by_operator_iff, upsert_creates, upsert_updates,
}

-- Of a kind of object: what a user asks for with it, and the field that an update must not change.
pub record Face {Obj : Type 0} (k : Kind Obj) : Type 1 where
  pub Content : Type 0
  pub content_of : Obj → Content
  pub immutable_of : Obj → String

abbrev pub service_face : Face service_kind
service_face = record {
  Content = List ServicePort × List (String × String) × String;
  content_of = λ s. (s.spec.ports, s.spec.selector, s.spec.type);
  immutable_of = λ s. s.spec.cluster_ip;
}

abbrev pub ingress_face : Face ingress_kind
ingress_face = record { Content = IngressSpec; content_of = λ i. i.spec; immutable_of = λ i. "" }

-- `stored` is the object of the name of `x` that the API server has in a world.
module _ {W Obj : Type 0} (k : Kind Obj) (face : Face k) (c : Client W Obj) (l : Lister W Obj)
    (stored : W → Option Obj) (x : Obj) where
  -- The API server has an object with the labels and the content of `y`.
  abbrev pub Stores : Obj → W → Type 0
  Stores y w =
      (s : Obj) × (stored w ≡ some s)
      × ((k.meta_of s).labels ≡ (k.meta_of y).labels)
      × (face.content_of s ≡ face.content_of y)

  -- The API server accepts a create of what it does not have, if that says no resource version; and
  -- an update of what it has, if that says the resource version of the stored object and does not
  -- change the immutable field. It then has the labels and the content that were written.
  pub record IsServed : Type 0 where
    pub create_accepted :
        (w : W)
        → stored w ≡ none
        → (k.meta_of x).resource_version ≡ ""
        → ((c.create x w).0 ≡ none) × Stores x (c.create x w).1
    pub update_accepted :
        (s y : Obj) (w : W)
        → stored w ≡ some s
        → (k.meta_of y).name ≡ (k.meta_of x).name
        → (k.meta_of y).namespace ≡ (k.meta_of x).namespace
        → (k.meta_of y).resource_version ≡ (k.meta_of s).resource_version
        → face.immutable_of y ≡ face.immutable_of s
        → ((c.update y w).0 ≡ none) × Stores y (c.update y w).1

  -- The cache is up to date: it shows what the API server has, and that is marked as the operator's,
  -- if there is anything.
  abbrev pub IsCurrent : W → Type 0
  IsCurrent w =
      ((stored w ≡ none)
        × (e : Error) × (l.get (k.meta_of x).namespace (k.meta_of x).name w ≡ err e)
        × (is_not_found e ≡ true))
      ⊎ ((s : Obj) × (stored w ≡ some s)
          × (l.get (k.meta_of x).namespace (k.meta_of x).name w ≡ ok s)
          × IsMarked (k.meta_of s))

  -- The program succeeds, and the API server then has the desired labels and content.
  abbrev pub Settles : Prog W (Option Error) → W → Type 0
  Settles p w = (w' : W) × (run p w ≡ (value none, w')) × Stores x w'

  -- What an update writes keeps the existing resource version and immutable field, and the desired
  -- name, labels and content.
  record IsUpdate : Type 0 where
    same_name : (s : Obj) → (k.meta_of (k.merge s x)).name ≡ (k.meta_of x).name
    same_namespace : (s : Obj) → (k.meta_of (k.merge s x)).namespace ≡ (k.meta_of x).namespace
    same_labels : (s : Obj) → (k.meta_of (k.merge s x)).labels ≡ (k.meta_of x).labels
    same_content : (s : Obj) → face.content_of (k.merge s x) ≡ face.content_of x
    kept_version :
        (s : Obj) → (k.meta_of (k.merge s x)).resource_version ≡ (k.meta_of s).resource_version
    kept_immutable : (s : Obj) → face.immutable_of (k.merge s x) ≡ face.immutable_of s

  upsert-Settles :
      IsUpdate
      → IsServed
      → (k.meta_of x).resource_version ≡ ""
      → (w : W) → IsCurrent w
      → Settles (upsert k c l x) w
  upsert-Settles update server fresh w (inl (absent, e, missing, nf)) =
      let (accepted, stores) = server.create_accepted w absent fresh in
      (
        (c.create x w).1,
        upsert_creates k c l x w e missing nf ∙ ap (λ r. (value r, (c.create x w).1)) accepted,
        stores,
      )
  upsert-Settles update server fresh w (inr (s, there, found, marked)) =
      let y = k.merge s x in
      let (accepted, (s', there', labels, content)) =
        server.update_accepted s y w there (update.same_name s) (update.same_namespace s)
          (update.kept_version s) (update.kept_immutable s) in
      (
        (c.update y w).1,
        upsert_updates k c l x w s found ((is_managed_by_operator_iff (k.meta_of s)).1 marked)
            ∙ ap (λ r. (value r, (c.update y w).1)) accepted,
        (s', there', labels ∙ update.same_labels s, content ∙ update.same_content s),
      )

module _ {W : Type 0} (w : W) where
  -- Where the lister shows what the API server has, namely no service of that name or one with the
  -- operator's label, and the desired one says no resource version: `CreateOrUpdateService`
  -- succeeds, and the API server then has the desired labels, ports, selector and type. This
  -- supposes that the API server accepts each create of what is missing without a resource version,
  -- and each update that says the stored resource version and keeps the cluster IP.
  pub create_or_update_service-Settles :
      (c : Client W Service) (l : Lister W Service) (stored : W → Option Service) (svc : Service)
      → IsServed service_kind service_face c l stored svc
      → svc.meta.resource_version ≡ ""
      → IsCurrent service_kind service_face c l stored svc w
      → Settles service_kind service_face c l stored svc (create_or_update_service c l svc) w
  create_or_update_service-Settles c l stored svc server fresh start =
      subst (λ p. Settles service_kind service_face c l stored svc p w)
        (sym (create_or_update_service-eq-upsert c l svc))
        (upsert-Settles service_kind service_face c l stored svc
          (record {
            same_name = λ s. refl;
            same_namespace = λ s. refl;
            same_labels = λ s. refl;
            same_content = λ s. refl;
            kept_version = λ s. refl;
            kept_immutable = λ s. refl;
          })
          server fresh w start)

  -- Where the lister shows what the API server has, namely no ingress of that name or one with the
  -- operator's label, and the desired one says no resource version: `CreateOrUpdateIngress`
  -- succeeds, and the API server then has the desired labels, rules and TLS settings. This supposes
  -- that the API server accepts each create of what is missing without a resource version, and each
  -- update that says the stored resource version.
  pub create_or_update_ingress-Settles :
      (c : Client W Ingress) (l : Lister W Ingress) (stored : W → Option Ingress) (ing : Ingress)
      → IsServed ingress_kind ingress_face c l stored ing
      → ing.meta.resource_version ≡ ""
      → IsCurrent ingress_kind ingress_face c l stored ing w
      → Settles ingress_kind ingress_face c l stored ing (create_or_update_ingress c l ing) w
  create_or_update_ingress-Settles c l stored ing server fresh start =
      subst (λ p. Settles ingress_kind ingress_face c l stored ing p w)
        (sym (create_or_update_ingress-eq-upsert c l ing))
        (upsert-Settles ingress_kind ingress_face c l stored ing
          (record {
            same_name = λ s. refl;
            same_namespace = λ s. refl;
            same_labels = λ s. refl;
            same_content = λ s. refl;
            kept_version = λ s. refl;
            kept_immutable = λ s. refl;
          })
          server fresh w start)
