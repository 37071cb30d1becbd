-- ===== src/Tui/Examples.antt =====
-- The view at inputs: a key that moves the selection, and a finished scan with an event left.
use devdiag.Tui.Update.{handle_key, handle_normal_key, act, action_of}
use devdiag.Tui.Moves.{next_finding, adjust_scroll}
use devdiag.Base.{inl}
use devdiag.Tui.Derive.{derive_inspect_finding}
use devdiag.Base.Text.Split.{has_text}
use devdiag.Base.{
  inl, has_prefix, to_lower, suc, String, [], ◌∷◌, none, some, true, false, ◌≡◌, refl, arith,
  length,
}
use devdiag.Schema.{Finding, Severity}
use devdiag.Scan.{blank_event, scan_started}
use devdiag.Tui.Derive.{derive_inspect_finding, derive_mutation_risk}
use devdiag.Tui.Model.{Model, next_event, idle, new_scan_model}
use devdiag.Tui.Update.{key, KeyMsg, runes, update}
use devdiag.Tui.Moves.{max_visible_items}
use devdiag.Tui.Session.{ScanSession, pump}
use devdiag.Tui.Visible.{IsVisible, update-IsVisible}
use devdiag.Tui.Drained.{ended, pump_drains}

abbrev digest : String → String
digest s = s

abbrev down_key : KeyMsg
down_key = record { name = "down"; type = runes; text = "" }

abbrev tall : Model
tall = record (new_scan_model false) { height = 20; session = some 1; scanning = true }

abbrev permission_finding : Finding
permission_finding = record {
  id = "F-CACHE-001";
  title = "";
  severity = Severity.low;
  confidence = 0;
  layers = [];
  symptom = "";
  evidence = [];
  likely_causes = [];
  fixes = [];
  fix_hints = "fix-cache-permissions" ∷ [];
  redaction_status = "";
}

abbrev two_findings : Model
two_findings = record tall {
  filtered =
      derive_inspect_finding permission_finding
      ∷ derive_inspect_finding (record permission_finding { id = "F-CACHE-002" })
      ∷ [];
}

two_findings-IsVisible : IsVisible two_findings
unfolding new_scan_model max_visible_items
two_findings-IsVisible = record {
  in_list = inl (omega arith);
  below = omega arith;
  above = omega arith;
}

update-IsVisible_example : IsVisible (update digest none two_findings (key down_key)).0
update-IsVisible_example =
    update-IsVisible digest none two_findings (key down_key) refl two_findings-IsVisible

-- The key moves the selection.
moves_down : (update digest none two_findings (key down_key)).0.selected ≡ 1
unfolding update handle_key handle_normal_key act action_of next_finding adjust_scroll
    new_scan_model max_visible_items
moves_down = refl

abbrev finished_scan : ScanSession
finished_scan = record {
  id = 1;
  buffered = blank_event scan_started ∷ [];
  finished = true;
  report = none;
  error = some "no collectors";
}

pump_drains_example :
    pump digest none (suc (length finished_scan.buffered)) finished_scan tall (next_event 1)
    ≡ (ended digest none finished_scan tall, idle)
unfolding new_scan_model
pump_drains_example = pump_drains digest none finished_scan tall refl refl

-- The word `permissions` contains `rm`, which stands for a destructive command.
permissions_risk : derive_mutation_risk permission_finding ≡ "high"
unfolding derive_mutation_risk devdiag.Tui.Derive.risk_of has_text to_lower has_prefix
permissions_risk = refl
