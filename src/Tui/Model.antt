-- ===== src/Tui/Model.antt =====
-- internal/tui/model.go: the state of the view and how it is built. A session is a scan that runs
-- beside the view; the calls of sessions' cancel functions are kept as a list of session IDs. The
-- redaction engine, where there is one, is a function on reports; the digest of findings is a
-- parameter. The spinner and the options of a scan are left out.
use devdiag.Base.{
  ℕ, ◌+◌, String, List, [], ◌∷◌, ◌++◌, Option, none, some, Bool, true, false, if◌then◌else◌,
  is_blank,
}
use devdiag.Schema.{Report}
use devdiag.Scan.{Event}
use devdiag.Relevance.{ViewMode, actionable, policy_from_report, filter_report}
use devdiag.Tui.Derive.{InspectFinding, build_inspect_findings, sort_findings_by_severity}
use devdiag.Tui.Filters.{ActiveFilters, default_filters, apply_filters}

pub data ModelMode : Type 0 where
  scan_mode report_mode run_mode : ModelMode

pub data DetailPane : Type 0 where
  pane_detail pane_evidence : DetailPane

pub record Model : Type 0 where
  pub mode : ModelMode
  pub source_name : String
  pub status_bar_msg : String
  pub scanning : Bool
  pub events : List Event
  pub session : Option ℕ
  pub session_id : ℕ
  pub scan_err : Option String
  pub report : Option Report
  pub full_report : Option Report
  pub findings : List InspectFinding
  pub filtered : List InspectFinding
  pub selected : ℕ
  pub scroll_offset : ℕ
  pub verbose : Bool
  pub show_help : Bool
  pub filter_input : String
  pub filtering : Bool
  pub include_hidden : Bool
  pub show_hidden : Bool
  pub hidden_count : ℕ
  pub active_filters : ActiveFilters
  pub active_pane : DetailPane
  pub evidence_page : ℕ
  pub view_mode : ViewMode
  pub width : ℕ
  pub height : ℕ
  pub cancelled : List ℕ

-- What the view asks its runtime to do: nothing, to quit, to start a scan of a session, to wait for
-- the next event of a session, or to write the text that puts a command on the clipboard.
pub data Cmd : Type 0 where
  idle quit : Cmd
  start : ℕ → Cmd
  next_event : ℕ → Cmd
  copy : String → Cmd

abbrev pub blank_model : ModelMode → String → Bool → ViewMode → Model
blank_model mode source_name include_hidden view_mode = record {
  mode = mode;
  source_name = source_name;
  status_bar_msg = "";
  scanning = false;
  events = [];
  session = none;
  session_id = 0;
  scan_err = none;
  report = none;
  full_report = none;
  findings = [];
  filtered = [];
  selected = 0;
  scroll_offset = 0;
  verbose = false;
  show_help = false;
  filter_input = "";
  filtering = false;
  include_hidden = include_hidden;
  show_hidden = include_hidden;
  hidden_count = 0;
  active_filters = default_filters;
  active_pane = pane_detail;
  evidence_page = 0;
  view_mode = view_mode;
  width = 0;
  height = 0;
  cancelled = [];
}

unfoldable pub new_scan_model : Bool → Model
new_scan_model include_hidden = blank_model scan_mode "" include_hidden actionable

unfoldable pub start_scan : Model → Model × Cmd
start_scan m = (
  record m {
    session_id = m.session_id + 1;
    scanning = true;
    events = [];
    session = none;
    scan_err = none;
    report = none;
    full_report = none;
    findings = [];
    filtered = [];
    selected = 0;
    scroll_offset = 0;
    active_pane = pane_detail;
    evidence_page = 0;
  },
  start (m.session_id + 1),
)

unfoldable pub apply_active_filters : Model → Model
apply_active_filters m = record m {
  filtered = apply_filters m.findings m.active_filters;
  selected = 0;
  scroll_offset = 0;
}

abbrev pub cancel_of : Option ℕ → List ℕ → List ℕ
cancel_of none cs = cs
cancel_of (some id) cs = cs ++ id ∷ []

unfoldable pub cancel_scan : Model → Model
cancel_scan m = record m { cancelled = cancel_of m.session m.cancelled }

unfoldable pub rerun : Model → Model × Cmd
rerun m = elim m.mode [
  | scan_mode ↦ start_scan (cancel_scan m)
  | _ ↦ (
    record m {
      status_bar_msg =
          "Rerun disabled for loaded reports. Run 'devdiag inspect <path>' for a fresh scan.";
    },
    idle,
  )
]

module _ (digest : String → String) where
  unfoldable pub apply_visibility : Model → Report → Model
  apply_visibility m report =
      let policy = record (policy_from_report (some report) m.show_hidden) { view = m.view_mode } in
      let (shown, summary) = filter_report digest report policy in
      let found = sort_findings_by_severity (build_inspect_findings shown.findings) in
      record m {
        full_report = some report;
        report = some shown;
        hidden_count = summary.hidden;
        findings = found;
        filtered = apply_filters found m.active_filters;
        selected = 0;
        scroll_offset = 0;
        evidence_page = 0;
      }

  abbrev pub redacted : Option (Report → Report) → Report → Report
  redacted none report = report
  redacted (some redact) report = redact report

  -- `NewReportModel` of a report that is there
  unfoldable pub new_report_model :
      Option (Report → Report) → Report → String → ModelMode → Bool → ViewMode → Model
  new_report_model engine report source_name mode include_hidden view_mode =
      apply_visibility (blank_model mode source_name include_hidden view_mode)
        (redacted engine report)

  abbrev pub or_actionable : ViewMode → ViewMode
  or_actionable (ViewMode.other s) = if is_blank s then actionable else ViewMode.other s
  or_actionable v = v

  unfoldable pub with_view_mode : Model → ViewMode → Model
  with_view_mode m view_mode =
      let n = record m { view_mode = or_actionable view_mode } in
      elim n.full_report [ none ↦ n | some report ↦ apply_visibility n report ]
