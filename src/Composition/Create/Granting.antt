-- ===== src/Composition/Create/Granting.antt =====
-- The rights that `Create` has granted when it returns without an error.
use composition_dynamic_cont.Common.{String, false, Option, none, some, ◌≡◌, refl, arith}
use composition_dynamic_cont.Common.Effect.{ok, Act, wrap, ◌>>=◌}
use composition_dynamic_cont.Common.Ensures.{
  Ensures, Ensures-pure, Leaves-then, Ensures-any, Ensures-lift, Ensures-ran, Ensures-wrap, Leaves,
  Leaves-if-false, Leaves-bind, Leaves-wrap, Leaves-map,
}
use composition_dynamic_cont.Kube.{GroupVersionResource, Object}
use composition_dynamic_cont.Meta.{
  CompositionDefinitionInfo, calculate_release_name, get_release_name, set_release_name,
}
use composition_dynamic_cont.Archive.{Info}
use composition_dynamic_cont.ChartInspector.{list_resources}
use composition_dynamic_cont.RbacGen.{generate, with_base_name, new_rbac_gen}
use composition_dynamic_cont.Rbac.{Rbac}
use composition_dynamic_cont.Rbac.Client.{View, IsStore, IsFaithful}
use composition_dynamic_cont.Rbac.Installer.{apply_rbac}
use composition_dynamic_cont.Rbac.Granted.{
  NamespacedGranted, ClusterRoleGranted, apply_rbac-Granted,
}
use composition_dynamic_cont.Composition.Env.{Env}
use composition_dynamic_cont.Composition.Steps.{
  reason_paused, paused_message, is_paused, run, deref, update_cr, get_package, generate_rbac,
  action_config,
}
use composition_dynamic_cont.Composition.Create.{
  install_rbac, install_release, record_created, create_active, create,
}

module _ {W : Type 0} (env : Env W) (view : View W env.client.Unstructured)
    (S : IsStore env.client view) (role_faithful : IsFaithful env.client.role (λ t. t.rules))
    (cluster_role_faithful : IsFaithful env.client.cluster_role (λ t. t.rules)) where
  -- The whole policy is granted.
  abbrev pub PolicyGranted : Rbac → W → Type 0
  PolicyGranted rbac w =
      NamespacedGranted env.client view S role_faithful cluster_role_faithful w rbac.namespaced
      × ClusterRoleGranted env.client view S role_faithful cluster_role_faithful w rbac.cluster_role

  -- The policy of the chart inspector's answer for a composition, its resource and its definition,
  -- for a release name and the service account of the controller.
  abbrev pub Generated :
      String → Object → GroupVersionResource → CompositionDefinitionInfo → Rbac → Type 0
  Generated name mg gvr info rbac =
      (w : W) × (w' : W) × (generate (list_resources env.http env.chart_inspector_url)
          (record { base_name = name; sa_name = env.sa_name; sa_namespace = env.sa_namespace })
          (record {
            composition_name = mg.name;
            composition_namespace = mg.namespace;
            composition_gvr = gvr;
            composition_definition_name = info.name;
            composition_definition_namespace = info.namespace;
            composition_definition_gvr = info.gvr;
          })
          w
        ≡ (ok rbac, w'))

  generate_rbac-Ensures :
      (name : String) (mg : Object) (gvr : GroupVersionResource) (info : CompositionDefinitionInfo)
      → Ensures (Generated name mg gvr info) (generate_rbac env name mg gvr info)
  unfolding generate_rbac with_base_name new_rbac_gen
  generate_rbac-Ensures name mg gvr info = Ensures-ran (generate_rbac env name mg gvr info)

  -- The release name of a composition, and the object with its label, as it was stored.
  abbrev pub IsNamed : Object → String → Object → Type 0
  IsNamed mg name mg₁ =
      (w : W) × (w' : W) × (calculate_release_name env.rand mg env.safe_release_name ≡ ok name)
      × (update_cr env (set_release_name mg name) w ≡ (ok mg₁, w'))

  -- The chart of a composition, the resource that its kind maps to and the definition of the chart.
  abbrev pub IsDefined : Object → Info → GroupVersionResource → CompositionDefinitionInfo → Type 0
  IsDefined mg pkg gvr info =
      ((w : W) × (w' : W) × (get_package env mg w ≡ (ok pkg, w')))
      × ((w : W) × (w' : W) × (env.gvk_to_gvr mg.gvk w ≡ (ok gvr, w')))
      × (pkg.composition_definition_info ≡ some info)

  apply_rbac-Leaves :
      (rbac : Rbac) → Leaves (PolicyGranted rbac) (apply_rbac env.client (some rbac))
  apply_rbac-Leaves rbac = record {
    at = λ w w' u ran.
        let (namespaced, cluster, _) =
          apply_rbac-Granted env.client view S role_faithful cluster_role_faithful rbac w w' ran in
        (namespaced, cluster);
  }

  deref-Ensures : {A : Type 0} (o : Option A) → Ensures (λ a. o ≡ some a) (deref {W = W} o)
  unfolding deref
  deref-Ensures none = record { at = λ w w' a ran. absurd (ground arith) }
  deref-Ensures (some x) = Ensures-pure x refl

  -- A policy that was generated for the release name and the object is granted.
  abbrev GrantedFor : String → Object → Info → W → Type 0
  GrantedFor name mg pkg w =
      (gvr : GroupVersionResource) × (info : CompositionDefinitionInfo) × (rbac : Rbac) × ((w₀ : W)
        × (w₁ : W) × (env.gvk_to_gvr mg.gvk w₀ ≡ (ok gvr, w₁)))
      × (pkg.composition_definition_info ≡ some info)
      × Generated name mg gvr info rbac
      × PolicyGranted rbac w

  install_rbac-Leaves :
      (mg : Object) (name : String) (pkg : Info)
      → Leaves (GrantedFor name mg pkg) (install_rbac env mg name pkg)
  unfolding install_rbac
  install_rbac-Leaves mg name pkg =
      Leaves-bind (Ensures-wrap "converting GVK to GVR" (Ensures-ran (env.gvk_to_gvr mg.gvk)))
        (λ gvr mapped. Leaves-bind (deref-Ensures pkg.composition_definition_info) (λ info defined.
          Leaves-bind
            (Ensures-wrap "generating RBAC using chart-inspector"
              (generate_rbac-Ensures name mg gvr info))
            (λ rbac generated.
              Leaves-map (λ v granted. (gvr, info, rbac, mapped, defined, generated, granted))
                (Leaves-wrap "installing rbac" (apply_rbac-Leaves rbac)))))

  -- What `Create` does once the RBAC is installed: the helm client, its configuration, the install or
  -- the upgrade, and the writes.
  abbrev pub deploy : String → Object → Info → Act W (Unit {0})
  deploy name mg pkg = wrap "creating helm client" (env.helm.new_client mg.namespace) >>= λ _.
      action_config env mg pkg >>= λ config.
      install_release env mg name pkg config >>= λ rel. record_created env mg pkg rel

  abbrev IsGranted : Object → W → Type 0
  IsGranted mg w' =
      (name : String) × (mg₁ : Object) × (pkg : Info) × (gvr : GroupVersionResource)
      × (info : CompositionDefinitionInfo) × (rbac : Rbac) × (granted : W) × IsNamed mg name mg₁
      × IsDefined mg₁ pkg gvr info
      × Generated (get_release_name (set_release_name mg name)) mg₁ gvr info rbac
      × PolicyGranted rbac granted
      × (deploy (get_release_name (set_release_name mg name)) mg₁ pkg granted ≡ (ok tt, w'))

  create_active-Leaves : (mg : Object) → Leaves (IsGranted mg) (create_active env mg)
  unfolding create_active
  create_active-Leaves mg =
      Leaves-bind
        (Ensures-lift (calculate_release_name env.rand mg env.safe_release_name) (λ _ h. h))
        (λ name named.
          let release_name = get_release_name (set_release_name mg name) in
          Leaves-bind (Ensures-ran (update_cr env (set_release_name mg name)))
            (λ mg₁ (w, w', wrote). Leaves-bind (Ensures-ran (get_package env mg₁)) (λ pkg got.
              Leaves-map
                (λ v (u, done, w₁, (gvr, info, rbac, mapped, defined, generated, granted), rest). (
                  name,
                  mg₁,
                  pkg,
                  gvr,
                  info,
                  rbac,
                  w₁,
                  (w, w', named, wrote),
                  (got, mapped, defined),
                  generated,
                  granted,
                  rest,
                ))
                (Leaves-then (λ _. deploy release_name mg₁ pkg)
                  (install_rbac-Leaves mg₁ release_name pkg)))))

  create-Leaves : (mg : Object) → is_paused env mg ≡ false → Leaves (IsGranted mg) (create env mg)
  unfolding create
  create-Leaves mg active =
      Leaves-bind (Ensures-any (wrap "creating dynamic client" env.new_dynamic)) (λ _ _.
        Leaves-if-false (is_paused env mg)
          (run (env.event mg reason_paused "Update" paused_message)) active
          (create_active-Leaves mg))

  -- If `Create` returns without an error on a composition that is not paused, then a policy has been
  -- generated from the chart inspector's answer for the composition, as it was stored with its
  -- release name, for the resource of its kind, and for the definition of its chart, and when helm is
  -- first called, in the world `granted`, every role of that policy, in every namespace, and its
  -- cluster role are stored with all the rules they want. All that `Create` does from there on is to
  -- install or upgrade the chart and to record it. The store has no other writers, and the
  -- conversion of roles and cluster roles reads back the rules it has written, but for empty lists
  -- that it omits.
  pub create-Granted :
      (mg : Object) (w w' : W)
      → is_paused env mg ≡ false
      → create env mg w ≡ (ok tt, w')
      → (name : String) × (mg₁ : Object) × (pkg : Info) × (gvr : GroupVersionResource)
        × (info : CompositionDefinitionInfo) × (rbac : Rbac) × (granted : W) × IsNamed mg name mg₁
        × IsDefined mg₁ pkg gvr info
        × Generated (get_release_name (set_release_name mg name)) mg₁ gvr info rbac
        × PolicyGranted rbac granted
        × (deploy (get_release_name (set_release_name mg name)) mg₁ pkg granted ≡ (ok tt, w'))
  create-Granted mg w w' active ran = (create-Leaves mg active).at w w' tt ran
