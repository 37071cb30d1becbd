-- ===== src/Tui/Drained.antt =====
-- A scan that has finished reaches the view.
use devdiag.Base.{
  ==_iff, ℕ, suc, String, List, [], ◌∷◌, ◌++◌, Option, some, true, false, ◌≡◌, refl, arith, ap, ◌∙◌,
  length,
}
use mathlib.Core.List.{append_assoc, append-nil}
use devdiag.Schema.{Report}
use devdiag.Scan.{Event}
use devdiag.Tui.Model.{Model, next_event, idle}
use devdiag.Tui.Update.{scan_event, scan_done, update, view_of}
use devdiag.Tui.Session.{ScanSession, next_message, pump}

module _ (digest : String → String) (engine : Option (Report → Report)) where
  abbrev pub ended_with : ScanSession → Model → List Event → Model
  ended_with s m events =
      view_of digest engine
        (record m { events = events; scanning = false; report = s.report; scan_err = s.error })
        s.report

  abbrev pub ended : ScanSession → Model → Model
  ended s m = ended_with s m (m.events ++ s.buffered)

  update-event :
      (m : Model) (id : ℕ) (e : Event)
      → m.session ≡ some id
      → update digest engine m (scan_event id e)
        ≡ (record m { events = m.events ++ e ∷ [] }, next_event id)
  unfolding update
  update-event m id e h = ground arith

  update-done :
      (m : Model) (id : ℕ) (r : Option Report) (error : Option String)
      → m.session ≡ some id
      → update digest engine m (scan_done id r error) ≡ (
        view_of digest engine (record m { scanning = false; report = r; scan_err = error }) r,
        idle,
      )
  unfolding update
  update-done m id r error h = ground arith

  abbrev over : ScanSession → List Event → ScanSession
  over s es = record s { buffered = es; finished = true }

  -- A round that takes an event.
  pump-event :
      (n : ℕ) (s : ScanSession) (e : Event) (es : List Event) (m : Model)
      → m.session ≡ some s.id
      → pump digest engine (suc n) (over s (e ∷ es)) m (next_event s.id)
        ≡ pump digest engine n
            (over s es)
            (record m { events = m.events ++ e ∷ [] })
            (next_event s.id)
  unfolding pump next_message
  pump-event n s e es m h = rw (update-event m s.id e h, (==_iff s.id s.id).1 refl) refl

  drains :
      (s : ScanSession) (es : List Event) (m : Model)
      → m.session ≡ some s.id
      → pump digest engine (suc (length es)) (over s es) m (next_event s.id)
        ≡ (ended (over s es) m, idle)
  drains s [] m h =
      unfold pump next_message in
      rw (update-done m s.id s.report s.error h, append-nil m.events) (ground arith)
  drains s (e ∷ es) m h =
      pump-event (suc (length es)) s e es m h
      ∙ drains s es (record m { events = m.events ++ e ∷ [] }) h
      ∙ ap (λ evs. (ended_with s m evs, idle)) (append_assoc m.events (e ∷ []) es)

  -- Where the scan of the view's session has finished, with any events still in its channel: after
  -- one round for each of these and one more the loop has ended, with no command left. The view has
  -- every event in its order behind those that it had, it no longer shows a scan, it has the scan's
  -- report and error, and shows the report's findings if there is one.
  pub pump_drains :
      (s : ScanSession) (m : Model)
      → s.finished ≡ true
      → m.session ≡ some s.id
      → pump digest engine (suc (length s.buffered)) s m (next_event s.id) ≡ (ended s m, idle)
  pump_drains s m f h =
      ap
        (λ b.
          pump digest engine (suc (length s.buffered)) (record s { finished = b }) m
            (next_event s.id))
        f
      ∙ drains s s.buffered m h
