-- ===== src/Fix/Proposals.antt =====
-- internal/fix/planner.go: Resolve and ListAll, and the ranking of the proposals.
use devdiag.Base.{
  ◌&&◌, not, ◌*◌, if◌then◌else◌, ℕ, String, List, [], ◌∷◌, ◌++◌, Option, none, some, Bool, true,
  false, ◌^^◌, ltb, is_empty,
}
use devdiag.Schema.{FixClass, FixProposal, Finding, Report}
use devdiag.Fix.Blocklist.{Template}
use devdiag.Fix.Validate.{Checked, valid, invalid}
use devdiag.Fix.Registry.{lookup, is_applicable, bind_template}
use devdiag.Fix.Planner.{
  Host, ResolveOptions, Bound, find_target, build_evidence_map, evidence_for_finding,
  validate_evidence,
}

-- the map `order`, with 0 for a class that it lacks
unfoldable pub class_order : FixClass → ℕ
class_order FixClass.safe = 0
class_order FixClass.guarded = 1
class_order FixClass.manual = 2
class_order FixClass.blocked = 3
class_order (FixClass.other _) = 0

abbrev pub goes_before : FixProposal → FixProposal → Bool
goes_before a b = ltb (class_order a.class) (class_order b.class)

-- The inner loop: the element goes down past those that it goes before. The list has the part of the
-- array in front of it, the last element first.
unfoldable pub sink : FixProposal → List FixProposal → List FixProposal
sink p [] = p ∷ []
sink p (q ∷ qs) = let rest = sink p qs in if goes_before p q then q ∷ rest else p ∷ q ∷ qs

unfoldable pub rank_loop : List FixProposal → List FixProposal → List FixProposal
rank_loop front [] = front
rank_loop front (p ∷ ps) = rank_loop (sink p front) ps

unfoldable pub from_last : List FixProposal → List FixProposal → List FixProposal
from_last done [] = done
from_last done (p ∷ ps) = from_last (p ∷ done) ps

unfoldable pub rank_proposals : List FixProposal → List FixProposal
rank_proposals proposals = from_last [] (rank_loop [] proposals)

abbrev pub minutes : ℕ → ℕ
minutes n = n * 60000000000

unfoldable pub staleness : ResolveOptions → String
staleness opts =
    if ltb (minutes 30) opts.report_age
    then "Report is " ^^ opts.age_text ^^ " old; consider --fresh before applying"
    else if ltb (minutes 5) opts.report_age
    then "Report is " ^^ opts.age_text ^^ " old"
    else ""

unfoldable pub proposal_for :
    ResolveOptions → String → Template → List String → List String → FixProposal
proposal_for opts hint t args rollback = record {
  finding_id = opts.finding_id;
  hint_id = hint;
  title = t.title;
  class = t.class;
  bin = t.bin;
  args = args;
  rollback = rollback;
  confirm_message = t.confirm_message;
  blocked_reason = t.blocked_reason;
  required_evidence = t.required_evidence;
  source = opts.source;
  run_id = opts.run_id;
  staleness_warn = staleness opts;
}

abbrev pub is_manual : FixClass → Bool
is_manual FixClass.manual = true
is_manual _ = false

abbrev pub bound_proposal :
    ResolveOptions → String → Template → Option (List String × List String) → List FixProposal
bound_proposal opts hint t none = []
bound_proposal opts hint t (some (args, rollback)) = proposal_for opts hint t args rollback ∷ []

abbrev pub complete_proposal : ResolveOptions → String → Template → Checked Bound → List FixProposal
complete_proposal opts hint t (invalid err) = []
complete_proposal opts hint t (valid b) =
    if not (is_empty b.missing) && not (is_manual t.class)
    then []
    else bound_proposal opts hint t (bind_template t b.values)

-- One round of the loop over the hints: the proposal of a hint, or none. `bind` is what
-- `validateEvidence` answers for a template.
unfoldable pub propose :
    (Template → Checked Bound) → Host → ResolveOptions → String → Option Template → List FixProposal
propose bind host opts hint none = []
propose bind host opts hint (some t) =
    if is_applicable host.goos t then complete_proposal opts hint t (bind t) else []

unfoldable pub propose_all :
    (Template → Checked Bound)
    → Host
    → ResolveOptions
    → List Template
    → List String
    → List FixProposal
propose_all bind host opts registry [] = []
propose_all bind host opts registry (h ∷ hs) =
    propose bind host opts h (lookup h registry) ++ propose_all bind host opts registry hs

unfoldable pub resolve_target :
    Host → List Template → Report → ResolveOptions → Option Finding → Option (List FixProposal)
resolve_target host registry report opts none = none
resolve_target host registry report opts (some target) =
    let evidence = evidence_for_finding target (build_evidence_map report.collectors []) in
    let bind = λ (t : Template). validate_evidence host t evidence report.repo.root in
    some (rank_proposals (propose_all bind host opts registry target.fix_hints))

-- `Resolve`, with none for `ErrFindingNotFound`
unfoldable pub resolve : Host → List Template → Report → ResolveOptions → Option (List FixProposal)
resolve host registry report opts =
    resolve_target host registry report opts (find_target opts.finding_id report.findings)

abbrev or_nothing : Option (List FixProposal) → List FixProposal
or_nothing none = []
or_nothing (some ps) = ps

unfoldable pub list_loop :
    Host → List Template → Report → ResolveOptions → List Finding → List FixProposal
list_loop host registry report opts [] = []
list_loop host registry report opts (f ∷ fs) =
    let rest = list_loop host registry report opts fs in
    if is_empty f.fix_hints
    then rest
    else or_nothing (resolve host registry report (record opts { finding_id = f.id })) ++ rest

-- `ListAll`
unfoldable pub list_all : Host → List Template → Report → ResolveOptions → List FixProposal
list_all host registry report opts = list_loop host registry report opts report.findings
