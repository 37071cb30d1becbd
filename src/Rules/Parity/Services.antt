-- ===== src/Rules/Parity/Services.antt =====
-- internal/rules/m8engine.go: the services of CI beside those of Compose. A map of services is the
-- list of them, with its keys in the order of insertion.
use devdiag.Base.{
  suc, ltb, String, List, [], ◌∷◌, ◌++◌, Option, none, some, Bool, true, false, not, ◌&&◌, ◌||◌,
  any, if◌then◌else◌, ◌=ₛ◌, ◌^^◌, is_blank, is_empty, length, has_prefix, trim_prefix, trim_space,
}
use devdiag.Base.Number.{ℤ, pos, atoi}
use devdiag.Base.Text.Parts.{cut_last, before, split_text, last_of}
use devdiag.Schema.{Severity, Evidence, Finding}
use devdiag.Rules.Found.{point_5, point_6, rule_finding}
use devdiag.Rules.Host.{eq_int}
use devdiag.Rules.Parity.Sources.{decode_source_segment, normalize_container_image, before_last}

pub record ServiceSpec : Type 0 where
  pub name : String
  pub image : String
  pub host_ports : List ℤ
  pub container_ports : List ℤ
  pub evidence : List Evidence

abbrev pub new_service_spec : String → ServiceSpec
new_service_spec name = record {
  name = name;
  image = "";
  host_ports = [];
  container_ports = [];
  evidence = [];
}

abbrev pub positive : Option ℤ → Option ℤ
positive (some (pos (suc n))) = some (pos (suc n))
positive _ = none

unfoldable pub parse_port_int : String → Option ℤ
parse_port_int value = positive (atoi (before (trim_space value) "/"))

abbrev pub with_port : Option ℤ → List ℤ → List ℤ
with_port none ports = ports
with_port (some p) ports = p ∷ ports

unfoldable pub apply_service_evidence : ServiceSpec → String → Evidence → ServiceSpec
apply_service_evidence spec field ev =
    let s = record spec { evidence = spec.evidence ++ ev ∷ [] } in
    if field =ₛ "image"
    then record s { image = trim_space ev.value }
    else if field =ₛ "host_port"
    then record s { host_ports = with_port (parse_port_int ev.value) s.host_ports }
    else if field =ₛ "container_port"
    then record s { container_ports = with_port (parse_port_int ev.value) s.container_ports }
    else s

-- The service and the field that a source names; a service of CI has its workflow and job before it.
abbrev pub service_part : List String → String
service_part [] = ""
service_part (p ∷ []) = p
service_part (p ∷ q ∷ []) = p
service_part (p ∷ q ∷ r ∷ ps) = elim (before_last (p ∷ q ∷ r ∷ ps)) [ none ↦ "" | some s ↦ s ]

unfoldable pub parse_ci_service_evidence_source : String → Option (String × String)
parse_ci_service_evidence_source source =
    let rest = trim_prefix source "ci_service__" in
    let parts = split_text rest "__" in
    let field = last_of rest parts in
    let service = service_part parts in
    if not (has_prefix source "ci_service__")
    then none
    else if ltb (length parts) 2
    then none
    else if is_blank service || is_blank field
    then none
    else some (decode_source_segment service, field)

unfoldable pub parse_service_evidence_source : String → Option (String × String)
parse_service_evidence_source source =
    if has_prefix source "compose_service__"
    then elim (cut_last (trim_prefix source "compose_service__") "__") [
      | none ↦ none
      | some (a, b) ↦ some (decode_source_segment a, b)
    ]
    else none

unfoldable pub service_named : String → List ServiceSpec → Option ServiceSpec
service_named name [] = none
service_named name (s ∷ ss) = if s.name =ₛ name then some s else service_named name ss

-- A spec without a name is taken for one that is not there.
abbrev pub spec_for : String → Option ServiceSpec → ServiceSpec
spec_for name none = new_service_spec name
spec_for name (some s) = if is_blank s.name then new_service_spec name else s

unfoldable pub put_service : ServiceSpec → List ServiceSpec → List ServiceSpec
put_service s [] = s ∷ []
put_service s (t ∷ ts) = if t.name =ₛ s.name then s ∷ ts else t ∷ put_service s ts

abbrev pub note_service : Option (String × String) → Evidence → List ServiceSpec → List ServiceSpec
note_service none ev services = services
note_service (some (name, field)) ev services =
    put_service (apply_service_evidence (spec_for name (service_named name services)) field ev)
      services

-- The loop of `collectCIServices` and of `collectComposeServices`, by how a source is parsed.
unfoldable pub collect_services :
    (String → Option (String × String)) → List ServiceSpec → List Evidence → List ServiceSpec
collect_services parse services [] = services
collect_services parse services (ev ∷ evs) =
    collect_services parse (note_service (parse ev.source) ev services) evs

unfoldable pub collect_ci_services : List Evidence → List ServiceSpec
collect_ci_services evidence = collect_services parse_ci_service_evidence_source [] evidence

unfoldable pub collect_compose_services : List Evidence → List ServiceSpec
collect_compose_services evidence = collect_services parse_service_evidence_source [] evidence

-- Also `legacyComposePortMatch`.
unfoldable pub ports_overlap : List ℤ → List ℤ → Bool
ports_overlap left right = any (λ p. any (eq_int p) right) left

unfoldable pub service_mismatch : ServiceSpec → ServiceSpec → Bool
service_mismatch ci compose =
    (not (is_blank ci.image)
      && (not (is_blank compose.image)
          && not (normalize_container_image ci.image =ₛ normalize_container_image compose.image)))
    || ((not (is_empty ci.host_ports)
          && (not (is_empty compose.host_ports)
              && not (ports_overlap ci.host_ports compose.host_ports)))
        || (not (is_empty ci.container_ports)
            && (not (is_empty compose.container_ports)
                && not (ports_overlap ci.container_ports compose.container_ports))))

abbrev pub unmatched_finding : ServiceSpec → Finding
unmatched_finding ci =
    rule_finding "F-CI-SERVICE-001" ("CI service " ^^ (ci.name ^^ " is not matched locally"))
      Severity.medium point_6
      ("CI defines service "
        ^^ (ci.name ^^ " but local compose does not define a matching service"))
      ci.evidence ("Local compose.yaml is missing a matching service definition" ∷ []) []

abbrev pub differing_finding : ServiceSpec → ServiceSpec → Finding
differing_finding ci compose =
    rule_finding "F-CI-SERVICE-001"
      ("CI service " ^^ (ci.name ^^ " differs from local compose service")) Severity.medium point_6
      ("CI service " ^^ (ci.name ^^ " image or ports do not match local compose"))
      (ci.evidence ++ compose.evidence) ("CI and local compose service definitions drifted" ∷ []) []

abbrev pub uncovered_finding : ServiceSpec → Finding
uncovered_finding compose =
    rule_finding "F-CI-SERVICE-002"
      ("Local compose service " ^^ (compose.name ^^ " is not defined in CI")) Severity.low point_5
      ("Local compose defines service "
        ^^ (compose.name ^^ " but CI does not define a matching service"))
      compose.evidence
      ("CI workflow may not start a local dependency required during development" ∷ []) []

-- A round of the loop over CI's services: Compose's services and the ports of its evidence.
unfoldable pub check_service : List ServiceSpec → List ℤ → ServiceSpec → List Finding
check_service compose ports ci = elim (service_named ci.name compose) [
  | none ↦
      if is_empty compose && ports_overlap ci.host_ports ports
      then []
      else unmatched_finding ci ∷ []
  | some c ↦ if service_mismatch ci c then differing_finding ci c ∷ [] else []
]

abbrev pub is_some_service : Option ServiceSpec → Bool
is_some_service none = false
is_some_service (some s) = true

unfoldable pub uncovered : List ServiceSpec → ServiceSpec → List Finding
uncovered ci c = if is_some_service (service_named c.name ci) then [] else uncovered_finding c ∷ []

-- What is found for each of the services that a list of names stands for.
unfoldable pub over_services :
    (ServiceSpec → List Finding) → List ServiceSpec → List String → List Finding
over_services check services [] = []
over_services check services (name ∷ names) =
    (elim (service_named name services) [ none ↦ [] | some s ↦ check s ])
    ++ over_services check services names

abbrev pub names_of : List ServiceSpec → List String
names_of [] = []
names_of (s ∷ ss) = s.name ∷ names_of ss

unfoldable pub service_findings :
    (List String → List String) → List ServiceSpec → List ServiceSpec → List ℤ → List Finding
service_findings order ci compose ports =
    over_services (check_service compose ports) ci (order (names_of ci))
    ++ (if is_empty ci then [] else over_services (uncovered ci) compose (order (names_of compose)))
