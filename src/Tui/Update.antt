-- ===== src/Tui/Update.antt =====
-- internal/tui/update.go: how messages change the state of the view.
use devdiag.Tui.Moves.{
  next_finding, prev_finding, prev_evidence_page, next_evidence_page, selected_finding,
}
use devdiag.Base.{
  ◌||◌, ℕ, String, [], ◌∷◌, ◌++◌, Option, none, some, Bool, true, false, not, if◌then◌else◌, ◌==◌,
  ◌=ₛ◌, ◌^^◌, is_empty, trim_space,
}
use devdiag.Schema.{Report}
use devdiag.Scan.{Event}
use devdiag.Domain.{find_domain_by_tui_key}
use devdiag.Tui.Derive.{InspectFinding}
use devdiag.Tui.Model.{
  Model, Cmd, idle, quit, next_event, copy, pane_detail, pane_evidence, DetailPane, rerun,
  cancel_scan, apply_active_filters, apply_visibility, redacted,
}

pub data KeyType : Type 0 where
  enter escape backspace runes other : KeyType

-- A key: its name, its type, and the text that was typed.
pub record KeyMsg : Type 0 where
  pub name : String
  pub type : KeyType
  pub text : String

pub data Msg : Type 0 where
  resized : ℕ → ℕ → Msg
  scan_started : ℕ → Msg
  scan_event : ℕ → Event → Msg
  scan_done : ℕ → Option Report → Option String → Msg
  spinner_tick : Msg
  key : KeyMsg → Msg

abbrev pub first_command : Option InspectFinding → Option String
first_command none = none
first_command (some f) = elim f.suggested_commands [ [] ↦ none | c ∷ cs ↦ some c.command ]

unfoldable pub copy_suggested_command : Model → Model × Cmd
copy_suggested_command m = elim (first_command (selected_finding m)) [
  | none ↦ (record m { status_bar_msg = "No suggested command to copy" }, idle)
  | some c ↦ (record m { status_bar_msg = "Copy command: " ^^ c }, copy c)
]

abbrev pub fix_message : Option InspectFinding → String
fix_message none = "No finding selected"
fix_message (some f) =
    if is_empty f.finding.fixes
    then "No fix dry-run available for " ^^ f.finding.id
    else "Fix dry-run: devdiag fix " ^^ (f.finding.id ^^ " --dry-run")

unfoldable pub show_fix_dry_run : Model → Model
show_fix_dry_run m = record m { status_bar_msg = fix_message (selected_finding m) }

-- The text without its last character.
unfoldable pub without_last : String → String
without_last String.[] = String.[]
without_last (String.◌∷◌ c String.[]) = String.[]
without_last (String.◌∷◌ c (String.◌∷◌ d s)) = String.◌∷◌ c (without_last (String.◌∷◌ d s))

abbrev pub with_text : Model → String → Model
with_text m text = record m { active_filters = record m.active_filters { text = text } }

unfoldable pub handle_filter_key : Model → KeyMsg → KeyType → Model
handle_filter_key m k enter =
    apply_active_filters (record (with_text m (trim_space m.filter_input)) { filtering = false })
handle_filter_key m k escape =
    apply_active_filters (record (with_text m "") { filtering = false; filter_input = "" })
handle_filter_key m k backspace = record m { filter_input = without_last m.filter_input }
handle_filter_key m k runes = record m { filter_input = m.filter_input ^^ k.text }
handle_filter_key m k other = m

abbrev pub other_pane : DetailPane → DetailPane
other_pane pane_evidence = pane_detail
other_pane pane_detail = pane_evidence

abbrev pub filter_domain : Model → String → String → Model
filter_domain m name message = apply_active_filters (record m {
  active_filters = record m.active_filters { domain = name };
  status_bar_msg = message;
})

unfoldable pub domain_key : Model → String → Model
domain_key m name = elim (find_domain_by_tui_key name) [
  | none ↦ m
  | some d ↦ filter_domain m d.name ("Filter: " ^^ d.name)
]

-- What a key outside the filter's input asks for; any other key may choose a domain.
pub data Action : Type 0 where
  rerun_scan toggle_verbose show_evidence switch_pane page_down page_up copy_command refuse_command
        dry_run switch_hidden open_filter select_previous select_next clear_domain :
      Action
  choose_domain : String → Action

unfoldable pub action_of : String → Action
action_of name =
    if name =ₛ "r"
    then rerun_scan
    else if name =ₛ "v"
    then toggle_verbose
    else if name =ₛ "e"
    then show_evidence
    else if name =ₛ "tab"
    then switch_pane
    else if name =ₛ "pgdown"
    then page_down
    else if name =ₛ "pgup"
    then page_up
    else if name =ₛ "c"
    then copy_command
    else if name =ₛ "x"
    then refuse_command
    else if name =ₛ "f"
    then dry_run
    else if name =ₛ "h"
    then switch_hidden
    else if name =ₛ "/"
    then open_filter
    else if name =ₛ "up" || name =ₛ "k"
    then select_previous
    else if name =ₛ "down" || name =ₛ "j"
    then select_next
    else if name =ₛ "0"
    then clear_domain
    else choose_domain name

module _ (digest : String → String) where
  unfoldable pub toggle_hidden : Model → Model
  toggle_hidden m = elim m.full_report [
    | none ↦ m
    | some report ↦ apply_visibility digest (record m { show_hidden = not m.show_hidden }) report
  ]

  -- the keys outside the filter's input
  unfoldable pub act : Model → Action → Model × Cmd
  act m rerun_scan = rerun (record m { status_bar_msg = "" })
  act m toggle_verbose = (record m { verbose = not m.verbose }, idle)
  act m show_evidence = (record m { active_pane = pane_evidence; evidence_page = 0 }, idle)
  act m switch_pane = (record m { active_pane = other_pane m.active_pane }, idle)
  act m page_down = (next_evidence_page m, idle)
  act m page_up = (prev_evidence_page m, idle)
  act m copy_command = copy_suggested_command m
  act m refuse_command = (
    record m {
      status_bar_msg = "Command execution disabled until a read-only command registry is available";
    },
    idle,
  )
  act m dry_run = (show_fix_dry_run m, idle)
  act m switch_hidden = (toggle_hidden m, idle)
  act m open_filter = (record m { filtering = true; filter_input = "" }, idle)
  act m select_previous = (prev_finding m, idle)
  act m select_next = (next_finding m, idle)
  act m clear_domain = (filter_domain m "" "Domain filter cleared", idle)
  act m (choose_domain name) = (domain_key m name, idle)

  unfoldable pub handle_normal_key : Model → String → Model × Cmd
  handle_normal_key m name = act m (action_of name)

  unfoldable pub handle_key : Model → KeyMsg → Model × Cmd
  handle_key m k =
      if k.name =ₛ "q" || k.name =ₛ "ctrl+c"
      then (cancel_scan m, quit)
      else if k.name =ₛ "?"
      then (record m { show_help = not m.show_help }, idle)
      else if m.filtering
      then (handle_filter_key m k k.type, idle)
      else handle_normal_key m k.name

  abbrev pub is_session : Option ℕ → ℕ → Bool
  is_session none id = false
  is_session (some s) id = id == s

  -- The view of a report that a scan has brought.
  abbrev pub view_of : Option (Report → Report) → Model → Option Report → Model
  view_of engine m none = m
  view_of engine m (some report) = apply_visibility digest m (redacted digest engine report)

  unfoldable pub update : Option (Report → Report) → Model → Msg → Model × Cmd
  update engine m (resized width height) = (record m { width = width; height = height }, idle)
  update engine m (scan_started id) =
      (record m { scanning = true; session = some id; events = [] }, next_event id)
  update engine m (scan_event id e) =
      if is_session m.session id
      then (record m { events = m.events ++ e ∷ [] }, next_event id)
      else (m, idle)
  update engine m (scan_done id report error) =
      if is_session m.session id
      then (
        view_of engine (record m { scanning = false; report = report; scan_err = error }) report,
        idle,
      )
      else (m, idle)
  update engine m spinner_tick = (m, idle)
  update engine m (key k) = handle_key m k
