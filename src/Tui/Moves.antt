-- ===== src/Tui/Moves.antt =====
-- internal/tui/update.go: how the selection, the window of the list and the pages of evidence move.
use devdiag.Base.{
  zero, ℕ, suc, ◌+◌, ◌-◌, ◌/◌, List, [], ◌∷◌, Option, none, some, if◌then◌else◌, ltb, leb, length,
}
use devdiag.Tui.Derive.{InspectFinding}
use devdiag.Tui.Model.{Model, pane_evidence}

unfoldable pub max_visible_items : Model → ℕ
max_visible_items m = let max_items = (m.height - 7) / 2 in if ltb max_items 1 then 1 else max_items

-- The first two tests of `adjustScroll`, then the last one; an offset is never negative.
abbrev pub near_selected : ℕ → ℕ → ℕ → ℕ
near_selected selected offset max_items =
    let up = if ltb selected offset then selected else offset in
    if leb (up + max_items) selected then selected - max_items + 1 else up

abbrev pub within_list : ℕ → ℕ → ℕ → ℕ
within_list offset count max_items =
    if ltb count (offset + max_items)
    then if ltb max_items count then count - max_items else 0
    else offset

unfoldable pub adjust_scroll : Model → Model
adjust_scroll m =
    let max_items = max_visible_items m in
    record m {
      scroll_offset =
          within_list (near_selected m.selected m.scroll_offset max_items) (length m.filtered)
            max_items;
    }

unfoldable pub next_finding : Model → Model
next_finding m =
    if ltb (m.selected + 1) (length m.filtered)
    then adjust_scroll (record m { selected = m.selected + 1; evidence_page = 0 })
    else m

unfoldable pub prev_finding : Model → Model
prev_finding m =
    if ltb 0 m.selected
    then adjust_scroll (record m { selected = m.selected - 1; evidence_page = 0 })
    else m

abbrev pub get_elem? : List InspectFinding → ℕ → Option InspectFinding
get_elem? [] i = none
get_elem? (f ∷ fs) zero = some f
get_elem? (f ∷ fs) (suc i) = get_elem? fs i

unfoldable pub selected_finding : Model → Option InspectFinding
selected_finding m = get_elem? m.filtered m.selected

abbrev pub pages_of : Option InspectFinding → ℕ
pages_of none = 1
pages_of (some f) =
    let pages = (length f.finding.evidence + 5 - 1) / 5 in if ltb pages 1 then 1 else pages

unfoldable pub evidence_page_count : Model → ℕ
evidence_page_count m = pages_of (selected_finding m)

unfoldable pub next_evidence_page : Model → Model
next_evidence_page m = record m {
  active_pane = pane_evidence;
  evidence_page =
      if ltb (m.evidence_page + 1) (evidence_page_count m)
      then m.evidence_page + 1
      else m.evidence_page;
}

unfoldable pub prev_evidence_page : Model → Model
prev_evidence_page m = record m {
  active_pane = pane_evidence;
  evidence_page = if ltb 0 m.evidence_page then m.evidence_page - 1 else m.evidence_page;
}
