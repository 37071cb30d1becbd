-- ===== src/Tui/Session.antt =====
-- internal/tui/update.go: `nextEvent`, and the loop in which the runtime carries out the command that
-- it asks for and hands its message to `Update`. A session's channel is the list of the events that
-- are buffered; where there is one, both branches of the `select` take it.
use devdiag.Base.{
  ℕ, zero, suc, String, List, [], ◌∷◌, Option, none, some, Bool, if◌then◌else◌, ◌==◌,
}
use devdiag.Schema.{Report}
use devdiag.Scan.{Event}
use devdiag.Tui.Model.{Model, Cmd, next_event}
use devdiag.Tui.Update.{Msg, scan_event, scan_done, update}

pub record ScanSession : Type 0 where
  pub id : ℕ
  pub buffered : List Event
  pub finished : Bool
  pub report : Option Report
  pub error : Option String

-- The message that the command brings and what is left of the session, none while it waits.
unfoldable pub next_message : ScanSession → Option (Msg × ScanSession)
next_message s = elim s.buffered [
  | [] ↦ if s.finished then some (scan_done s.id s.report s.error, s) else none
  | e ∷ es ↦ some (scan_event s.id e, record s { buffered = es })
]

module _ (digest : String → String) (engine : Option (Report → Report)) where
  -- So many rounds of the loop, from a state and the command that was asked for. It stops at a
  -- command that is not of the session, and waits where the session has no message yet.
  unfoldable pub pump : ℕ → ScanSession → Model → Cmd → Model × Cmd
  pump zero s m c = (m, c)
  pump (suc rounds) s m (next_event id) = elim (next_message s) [
    | none ↦ (m, next_event id)
    | some (msg, rest) ↦
        let (after, c) = update digest engine m msg in
        if id == s.id then pump rounds rest after c else (m, next_event id)
  ]
  pump (suc rounds) s m c = (m, c)
