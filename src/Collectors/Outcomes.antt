-- ===== src/Collectors/Outcomes.antt =====
-- What each result of a run has, however its collector ends.
use devdiag.Base.{
  ◌^^◌, Bool-cases, ℕ, String, Option, none, some, Bool, true, false, ◌≡◌, ◌⊎◌, refl, arith,
  is_blank, inl, inr,
}
use devdiag.Schema.{CollectorStatus, CollectorResult}
use devdiag.Collectors.{
  finalize_error, status_or_ok, Collector, Course, not_started, ended, abandoned, returned,
  panicked, ContextError, CollectError, run_one, finalize_result, timeout_result, outcome_of,
  with_name,
}

abbrev pub is_unset : CollectorStatus → Bool
is_unset CollectorStatus.unset = true
is_unset _ = false

-- A collector that did not do what it was asked to.
abbrev pub went_wrong : Course → Bool
went_wrong (not_started err) = true
went_wrong (ended ctx_err (returned res none)) = false
went_wrong (ended ctx_err (returned res (some err))) = true
went_wrong (ended ctx_err (panicked value)) = true
went_wrong (abandoned err) = true

abbrev pub is_failure : CollectorStatus → Bool
is_failure CollectorStatus.timeout = true
is_failure CollectorStatus.failed = true
is_failure _ = false

abbrev IsMarked : CollectorResult → Type 0
IsMarked res = (is_failure res.status ≡ true) × (res.partial_result ≡ true)

-- A result that can be told apart and whose status says what became of the collector.
abbrev pub IsSettled : Course → CollectorResult → Type 0
IsSettled course res =
    (is_unset res.status ≡ false)
    × (is_blank res.name ≡ false)
    × ((went_wrong course ≡ false) ⊎ IsMarked res)

named :
    (name : String) (res : CollectorResult)
    → is_blank name ≡ false
    → is_blank (with_name name res).name ≡ false
named name res h = ground arith

status_or_ok_set : (s : CollectorStatus) → is_unset (status_or_ok s) ≡ false
status_or_ok_set CollectorStatus.ok = refl
status_or_ok_set CollectorStatus.partial = refl
status_or_ok_set CollectorStatus.timeout = refl
status_or_ok_set CollectorStatus.permission_denied = refl
status_or_ok_set CollectorStatus.unavailable = refl
status_or_ok_set CollectorStatus.failed = refl
status_or_ok_set CollectorStatus.unset = refl
status_or_ok_set (CollectorStatus.other s) = refl

timeout-IsSettled :
    (name : String) (timeout : ℕ) (err : ContextError) (partial : Option CollectorResult)
    (course : Course)
    → is_blank name ≡ false
    → IsSettled course (timeout_result name timeout err partial)
unfolding timeout_result
timeout-IsSettled name timeout err none course h = (refl, h, inr (refl, refl))
timeout-IsSettled name timeout err (some res) course h = (refl, named name res h, inr (refl, refl))

error-IsSettled :
    (name : String) (timeout : ℕ) (ctx_err : Option ContextError) (res : CollectorResult)
    (err : CollectError) (course : Course)
    → is_blank name ≡ false
    → IsSettled course (finalize_error name timeout ctx_err (with_name name res) err)
error-IsSettled name timeout none res err course h = (refl, named name res h, inr (refl, refl))
error-IsSettled name timeout (some ctx_err) res err course h = elim (Bool-cases err.of_context) [
  | inl e ↦ rw e (timeout-IsSettled name timeout ctx_err (some (with_name name res)) course h)
  | inr e ↦ rw e (refl, named name res h, inr (refl, refl))
]

-- The result of a collector that has a name has a name and a status, and where the collector was not
-- started in time, returned an error, panicked or did not end in time, the status is timeout or failed
-- and the result is marked as partial.
pub run_one-IsSettled :
    (budget : ℕ) (col : Collector) (course : Course)
    → is_blank col.name ≡ false
    → IsSettled course (run_one budget col course)
unfolding run_one finalize_result outcome_of
run_one-IsSettled budget col (not_started err) h =
    timeout-IsSettled col.name _ err none (not_started err) h
run_one-IsSettled budget col (abandoned err) h =
    timeout-IsSettled col.name _ err none (abandoned err) h
run_one-IsSettled budget col (ended ctx_err (returned res none)) h =
    (status_or_ok_set res.status, named col.name res h, inl refl)
run_one-IsSettled budget col (ended ctx_err (returned res (some err))) h =
    error-IsSettled col.name _ ctx_err res err (ended ctx_err (returned res (some err))) h
run_one-IsSettled budget col (ended ctx_err (panicked value)) h =
    error-IsSettled col.name _ ctx_err (outcome_of col.name (panicked value)).result
      (record { text = "panic: " ^^ value; of_context = false }) (ended ctx_err (panicked value)) h
