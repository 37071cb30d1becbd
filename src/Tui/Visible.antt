-- ===== src/Tui/Visible.antt =====
-- The selected finding is one of the list and stands in the window that is drawn.
use devdiag.Schema.{Report}
use devdiag.Domain.{find_domain_by_tui_key}
use devdiag.Base.{
  Bool, Option, ◌-◌, inr, ltb, inl, Bool-cases, Option-cases, String, ℕ, ◌+◌, ◌<◌, ◌≤◌, ◌≡◌, ◌⊎◌,
  arith, length, true, false, none, some,
}
use devdiag.Tui.Model.{
  cancel_scan, apply_visibility, rerun, start_scan, apply_active_filters, Model,
}
use devdiag.Tui.Update.{
  show_fix_dry_run, first_command, KeyType, handle_normal_key, toggle_hidden, KeyMsg,
  copy_suggested_command, domain_key, handle_filter_key, enter, escape, backspace, runes, other,
  resized, scan_started, scan_event, scan_done, spinner_tick, key, Msg, Action, action_of, act,
  handle_key, update, is_session, view_of, choose_domain, rerun_scan, toggle_verbose, show_evidence,
  switch_pane, page_down, page_up, copy_command, refuse_command, dry_run, switch_hidden,
  open_filter, select_previous, select_next, clear_domain,
}
use devdiag.Tui.Moves.{
  prev_evidence_page, selected_finding, next_evidence_page, adjust_scroll, prev_finding,
  next_finding, max_visible_items, near_selected, within_list,
}

-- One of the list, or the place before an empty list; drawn in a window of `max_items` findings.
pub record IsShown (selected offset count max_items : ℕ) : Type 0 where
  pub in_list : (selected < count) ⊎ (selected ≡ 0)
  pub below : offset ≤ selected
  pub above : selected < offset + max_items

abbrev pub IsVisible : Model → Type 0
IsVisible m = IsShown m.selected m.scroll_offset (length m.filtered) (max_visible_items m)

max_visible_pos : (m : Model) → 0 < max_visible_items m
unfolding max_visible_items
max_visible_pos m = ground arith

adjusted :
    (selected offset count max_items : ℕ)
    → 0 < max_items
    → selected < count
    → IsShown selected
        (within_list (near_selected selected offset max_items) count max_items)
        count
        max_items
adjusted selected offset count max_items p h = ground arith

at_top : (count max_items : ℕ) → 0 < max_items → IsShown 0 0 count max_items
at_top count max_items p = ground arith

next_finding-IsVisible : (m : Model) → IsVisible m → IsVisible (next_finding m)
unfolding next_finding adjust_scroll max_visible_items
next_finding-IsVisible m v = elim (Bool-cases (ltb (m.selected + 1) (length m.filtered))) [
  | inl e ↦ rw e (
      adjusted (m.selected + 1) m.scroll_offset (length m.filtered) (max_visible_items m)
        (max_visible_pos m) (ground arith))
  | inr e ↦ rw e v
]

prev_finding-IsVisible : (m : Model) → IsVisible m → IsVisible (prev_finding m)
unfolding prev_finding adjust_scroll max_visible_items
prev_finding-IsVisible m v = elim (Bool-cases (ltb 0 m.selected)) [
  | inl e ↦ rw e (
      adjusted (m.selected - 1) m.scroll_offset (length m.filtered) (max_visible_items m)
        (max_visible_pos m) (ground arith))
  | inr e ↦ rw e v
]

filters-IsVisible : (m : Model) → IsVisible (apply_active_filters m)
unfolding apply_active_filters
filters-IsVisible m = at_top _ _ (max_visible_pos _)

filter_key-IsVisible :
    (m : Model) (k : KeyMsg) (t : KeyType) → IsVisible m → IsVisible (handle_filter_key m k t)
unfolding handle_filter_key max_visible_items
filter_key-IsVisible m k enter v = filters-IsVisible _
filter_key-IsVisible m k escape v = filters-IsVisible _
filter_key-IsVisible m k backspace v = v
filter_key-IsVisible m k runes v = v
filter_key-IsVisible m k other v = v

domain_key-IsVisible : (m : Model) (name : String) → IsVisible m → IsVisible (domain_key m name)
unfolding domain_key
domain_key-IsVisible m name v = elim (Option-cases (find_domain_by_tui_key name)) [
  | inl e ↦ rw (e, domain_key) v
  | inr (d, e) ↦ rw (e, domain_key) (filters-IsVisible _)
]

copy-IsVisible : (m : Model) → IsVisible m → IsVisible (copy_suggested_command m).0
unfolding copy_suggested_command max_visible_items
copy-IsVisible m v = elim (Option-cases (first_command (selected_finding m))) [
  | inl e ↦ rw (e, copy_suggested_command) v
  | inr (d, e) ↦ rw (e, copy_suggested_command) v
]

start_scan-IsVisible : (m : Model) → IsVisible (start_scan m).0
unfolding start_scan
start_scan-IsVisible m = at_top _ _ (max_visible_pos _)

rerun-IsVisible : (m : Model) → IsVisible m → IsVisible (rerun m).0
unfolding rerun start_scan cancel_scan max_visible_items
rerun-IsVisible m v = ground (arith, at_top 0 (max_visible_items m) (max_visible_pos m))

module _ (digest : String → String) where
  visibility-IsVisible : (m : Model) (r : Report) → IsVisible (apply_visibility digest m r)
  unfolding apply_visibility
  visibility-IsVisible m r = at_top _ _ (max_visible_pos _)

  toggle-IsVisible : (m : Model) → IsVisible m → IsVisible (toggle_hidden digest m)
  unfolding toggle_hidden max_visible_items
  toggle-IsVisible m v = elim (Option-cases m.full_report) [
    | inl e ↦ rw (e, toggle_hidden) v
    | inr (d, e) ↦ rw (e, toggle_hidden) (visibility-IsVisible _ d)
  ]

  act-IsVisible : (m : Model) (a : Action) → IsVisible m → IsVisible (act digest m a).0
  unfolding act next_evidence_page prev_evidence_page show_fix_dry_run max_visible_items
  act-IsVisible m rerun_scan v = rerun-IsVisible _ v
  act-IsVisible m toggle_verbose v = v
  act-IsVisible m show_evidence v = v
  act-IsVisible m switch_pane v = v
  act-IsVisible m page_down v = v
  act-IsVisible m page_up v = v
  act-IsVisible m copy_command v = copy-IsVisible m v
  act-IsVisible m refuse_command v = v
  act-IsVisible m dry_run v = v
  act-IsVisible m switch_hidden v = toggle-IsVisible m v
  act-IsVisible m open_filter v = v
  act-IsVisible m select_previous v = prev_finding-IsVisible m v
  act-IsVisible m select_next v = next_finding-IsVisible m v
  act-IsVisible m clear_domain v = filters-IsVisible _
  act-IsVisible m (choose_domain name) v = domain_key-IsVisible m name v

  key-IsVisible : (m : Model) (k : KeyMsg) → IsVisible m → IsVisible (handle_key digest m k).0
  unfolding handle_key handle_normal_key cancel_scan max_visible_items
  key-IsVisible m k v =
      ground (arith, act-IsVisible m (action_of k.name) v, filter_key-IsVisible m k k.type v)

  view-IsVisible :
      (engine : Option (Report → Report)) (m : Model) (r : Option Report)
      → IsVisible m
      → IsVisible (view_of digest engine m r)
  view-IsVisible engine m none v = v
  view-IsVisible engine m (some r) v = visibility-IsVisible m _

  -- A message that does not resize the terminal.
  abbrev pub keeps_size : Msg → Bool
  keeps_size (resized w h) = false
  keeps_size msg = true

  -- The selected finding is one of the filtered list, or the list is empty and the first place is
  -- selected, and it lies in the window that is drawn: every message keeps this, a key, an event or
  -- the report of a scan, but for one that resizes the terminal.
  pub update-IsVisible :
      (engine : Option (Report → Report)) (m : Model) (msg : Msg)
      → keeps_size msg ≡ true
      → IsVisible m
      → IsVisible (update digest engine m msg).0
  unfolding update max_visible_items
  update-IsVisible engine m (resized w h) e v = cc
  update-IsVisible engine m (scan_started id) e v = v
  update-IsVisible engine m (scan_event id ev) e v = ground arith
  update-IsVisible engine m (scan_done id r error) e v =
      elim (Bool-cases (is_session digest m.session id)) [
        | inl h ↦ rw h (view-IsVisible engine _ r v)
        | inr h ↦ rw h v
      ]
  update-IsVisible engine m spinner_tick e v = v
  update-IsVisible engine m (key k) e v = key-IsVisible m k v
