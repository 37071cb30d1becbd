-- ===== src/Rules/Parity/Orderless.antt =====
-- internal/rules/m8engine.go: the findings, and the order in which the maps of keys and of services
-- are run over.
use devdiag.Rules.Parity.Commands.{command_findings}
use devdiag.Rules.Parity.Sources.{extract_local_runtimes}
use devdiag.Rules.Host.{GoRuntime}
use devdiag.Rules.Parity.Engine.{
  compose_ports, shell_findings, container_findings, setup_findings, nothing_gathered, gather,
  Gathered, parity_findings,
}
use devdiag.Base.Number.{ℤ}
use devdiag.Rules.Parity.Services.{
  collect_compose_services, collect_ci_services, uncovered, names_of, check_service, service_named,
  service_findings, ServiceSpec, over_services,
}
use mathlib.Core.Path.{subst, ap₂}
use mathlib.Core.List.{Perm, Permᴰ, perm_middle}
use mathlib.Core.Logic.{∥∥₁_elim, ∥∥₁_prop}
use mathlib.Core.List.Perm
use devdiag.Base.{
  none, some, is_empty, ◌++◌, inr, inl, refl, ap, Bool-cases, ◌∙◌, sym, ◌≡◌, String, List, [], ◌∷◌,
  Bool, keep,
}
use devdiag.Base.Sort.{insert, sort}
use devdiag.Base.Sort.Unique.{sort-keep_of_Perm}
use devdiag.Base.Text.Order.{str_lt}
use devdiag.Schema.{CollectorResult, Evidence, Finding}
use devdiag.Rules.Parity.Keys.{
  ci_finding, deploy_finding, local_finding, missing_ci_keys, missing_deploy_keys,
  missing_local_keys, ParityConfig, of_keys, key_findings, ci_env_keys, local_env_keys_for_ci,
}
use devdiag.Rules.Parity.Engine.{evaluate}

-- `of_keys`, by the keys that are sorted already.
abbrev of_sorted : (List String → Finding) → List String → List Finding
of_sorted report [] = []
of_sorted report (k ∷ ks) = report (k ∷ ks) ∷ []

insert-of_sorted :
    (report : List String → Finding) (k : String) (ks : List String)
    → of_sorted report (insert str_lt k ks) ≡ report (insert str_lt k ks) ∷ []
unfolding insert
insert-of_sorted report k [] = refl
insert-of_sorted report k (x ∷ ks) = elim (Bool-cases (str_lt x k)) [
  | inl e ↦ rw e refl
  | inr e ↦ rw e refl
]

of_keys_lem :
    (report : List String → Finding) (ks : List String)
    → of_keys report ks ≡ of_sorted report (sort str_lt ks)
unfolding sort
of_keys_lem report [] = refl
of_keys_lem report (k ∷ ks) = sym (insert-of_sorted report k (sort str_lt ks))

of_keys_orderless :
    (report : List String → Finding) (p : String → Bool) {xs ys : List String}
    → Perm xs ys
    → of_keys report (keep p xs) ≡ of_keys report (keep p ys)
of_keys_orderless report p {xs} {ys} h =
    of_keys_lem report (keep p xs)
    ∙ (ap (of_sorted report) (sort-keep_of_Perm p h) ∙ sym (of_keys_lem report (keep p ys)))

swap-append {ℓ} : {A : Type ℓ} (xs ys zs : List A) → Perm (xs ++ (ys ++ zs)) (ys ++ (xs ++ zs))
swap-append [] ys zs = Perm.refl (ys ++ zs)
swap-append (x ∷ xs) ys zs =
    Perm.trans (Perm.cons x (swap-append xs ys zs)) (Perm.symm (perm_middle ys (xs ++ zs)))

abbrev of_name : (ServiceSpec → List Finding) → List ServiceSpec → String → List Finding
of_name check services name = elim (service_named name services) [ none ↦ [] | some s ↦ check s ]

of_name-Perm :
    (check : ServiceSpec → List Finding) (services : List ServiceSpec) {a b : String}
    → a ≡ b
    → Perm (of_name check services a) (of_name check services b)
of_name-Perm check services {a} {b} e =
    subst (λ c. Perm (of_name check services a) (of_name check services c)) e (Perm.refl _)

-- Two orders that differ by a permutation of the keys they are given.
module _ (o₁ o₂ : List String → List String)
    (same : (ks : List String) → Perm (o₁ ks) (o₂ ks)) where
  key_findings_orderless :
      (c : ParityConfig) (ci env : List Evidence)
      → key_findings o₁ c ci env ≡ key_findings o₂ c ci env
  unfolding key_findings missing_local_keys missing_deploy_keys missing_ci_keys
  key_findings_orderless c ci env =
      ap₂ ◌++◌ (of_keys_orderless local_finding _ (same (ci_env_keys c [] ci))) (
        ap₂ ◌++◌ (of_keys_orderless deploy_finding _ (same (ci_env_keys c [] ci)))
          (of_keys_orderless ci_finding _ (same (local_env_keys_for_ci c env))))

  over_services-Permᴰ :
      (check : ServiceSpec → List Finding) (services : List ServiceSpec) {xs ys : List String}
      → Permᴰ xs ys
      → Perm (over_services check services xs) (over_services check services ys)
  unfolding over_services
  over_services-Permᴰ check services Permᴰ.nil = Perm.refl []
  over_services-Permᴰ check services (Permᴰ.cons {a} {b} {l₁} {l₂} e d) =
      Perm.append (of_name-Perm check services e) (over_services-Permᴰ check services d)
  over_services-Permᴰ check services (Permᴰ.swap {a} {b} {a'} {b'} {l} e f) =
      Perm.trans
        (swap-append (of_name check services a) (of_name check services b)
          (over_services check services l))
        (Perm.append (of_name-Perm check services f)
          (Perm.append_right (over_services check services l) (of_name-Perm check services e)))
  over_services-Permᴰ check services (Permᴰ.trans c d) =
      Perm.trans (over_services-Permᴰ check services c) (over_services-Permᴰ check services d)

  over_services-Perm :
      (check : ServiceSpec → List Finding) (services : List ServiceSpec) {xs ys : List String}
      → Perm xs ys
      → Perm (over_services check services xs) (over_services check services ys)
  over_services-Perm check services h = ∥∥₁_elim h ∥∥₁_prop (over_services-Permᴰ check services)

  service_findings-Perm :
      (ci compose : List ServiceSpec) (ports : List ℤ)
      → Perm (service_findings o₁ ci compose ports) (service_findings o₂ ci compose ports)
  unfolding service_findings
  service_findings-Perm ci compose ports =
      Perm.append (over_services-Perm (check_service compose ports) ci (same (names_of ci)))
        (elim (Bool-cases (is_empty ci)) [
          | inl e ↦ rw e (Perm.refl [])
          | inr e ↦ rw e (over_services-Perm (uncovered ci) compose (same (names_of compose)))
        ])

  parity_findings-Perm :
      (go : GoRuntime) (g : Gathered)
      → Perm
          (parity_findings (record go { order_keys = o₁ }) g)
          (parity_findings (record go { order_keys = o₂ }) g)
  unfolding parity_findings
  parity_findings-Perm go g =
      Perm.append_left (setup_findings (extract_local_runtimes (go.order g.runtime) []) g.ci) (
        Perm.append_left (command_findings g.ci g.repo) (
          rw (key_findings_orderless g.config g.ci g.env) (
            Perm.append_left (key_findings o₂ g.config g.ci g.env) (
              Perm.append_right
                (container_findings g.devcontainer_image g.ci ++ shell_findings g.host_shell g.ci)
                (service_findings-Perm (collect_ci_services g.ci)
                  (collect_compose_services g.compose) (compose_ports g.compose))))))

  -- Go runs over a map in any order. For two orders of the keys, which differ by a permutation, the engine
  -- reports the same findings on every list of results, up to their order. The order of the map of
  -- runtime pins is the same on both sides.
  pub evaluate_orderless :
      (go : GoRuntime) (cs : List CollectorResult)
      → Perm
          (evaluate (record go { order_keys = o₁ }) cs)
          (evaluate (record go { order_keys = o₂ }) cs)
  unfolding evaluate
  evaluate_orderless go cs = elim (Bool-cases (is_empty (gather nothing_gathered cs).ci)) [
    | inl e ↦ rw e (Perm.refl [])
    | inr e ↦ rw e (parity_findings-Perm go (gather nothing_gathered cs))
  ]
