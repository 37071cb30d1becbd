-- ===== src/Collectors.antt =====
-- internal/collectors/runner.go: collectors run at the same time, each within its time.
pub mod Outcomes
pub mod Arrivals
mod Examples
use devdiag.Base.{
  is_blank, ◌^^◌, if◌then◌else◌, ℕ, zero, suc, ◌/◌, String, List, [], ◌∷◌, ◌++◌, Option, none, some,
  Bool, true, false, ltb, any, ◌=ₛ◌, ◌&&◌, ◌||◌,
}
use devdiag.Schema.{CollectorStatus, CollectorResult}

-- What `ctx.Err()` can be.
pub data ContextError : Type 0 where
  deadline_exceeded canceled : ContextError

abbrev pub context_text : ContextError → String
context_text deadline_exceeded = "context deadline exceeded"
context_text canceled = "context canceled"

-- An error of a collector: its text, and whether it wraps an error of a context.
pub record CollectError : Type 0 where
  pub text : String
  pub of_context : Bool

pub record CollectorOutcome : Type 0 where
  pub result : CollectorResult
  pub err : Option CollectError

-- How a call of `Collect` ends.
pub data Ending : Type 0 where
  returned : CollectorResult → Option CollectError → Ending
  panicked : String → Ending

-- What the runner sees of a collector: its context is done before it starts; it ends, with what the
-- context says then; or it has not ended when the time after the context's end is over.
pub data Course : Type 0 where
  not_started : ContextError → Course
  ended : Option ContextError → Ending → Course
  abandoned : ContextError → Course

-- `timeout` is none where the collector has no method for it. Times are nanoseconds.
pub record Collector : Type 0 where
  pub name : String
  pub timeout : Option ℕ

abbrev pub blank_result : String → CollectorResult
blank_result name = record {
  name = name;
  status = CollectorStatus.unset;
  applicable = none;
  timeout_ms = 0;
  partial_result = false;
  evidence = [];
  notes = [];
}

unfoldable pub append_unique_note : List String → String → List String
append_unique_note notes note =
    if is_blank note
    then notes
    else if any (λ existing. existing =ₛ note) notes
    then notes
    else notes ++ note ∷ []

-- the result that a timeout starts from
abbrev pub timeout_start : String → Option CollectorResult → CollectorResult
timeout_start name none = blank_result name
timeout_start name (some res) = record res { name = if is_blank res.name then name else res.name }

unfoldable pub timeout_result : String → ℕ → ContextError → Option CollectorResult → CollectorResult
timeout_result name timeout err partial =
    let res = timeout_start name partial in
    record res {
      status = CollectorStatus.timeout;
      partial_result = true;
      timeout_ms = if ltb 0 timeout then timeout / 1000000 else res.timeout_ms;
      notes = append_unique_note res.notes (context_text err);
    }

abbrev pub status_or_ok : CollectorStatus → CollectorStatus
status_or_ok CollectorStatus.unset = CollectorStatus.ok
status_or_ok s = s

abbrev pub failed_result : CollectorResult → CollectError → CollectorResult
failed_result res err = record res {
  status = CollectorStatus.failed;
  notes = append_unique_note res.notes err.text;
  partial_result = true;
}

abbrev pub with_name : String → CollectorResult → CollectorResult
with_name name res = record res { name = if is_blank res.name then name else res.name }

abbrev pub finalize_error :
    String → ℕ → Option ContextError → CollectorResult → CollectError → CollectorResult
finalize_error name timeout none res err = failed_result res err
finalize_error name timeout (some ctx_err) res err =
    if err.of_context then timeout_result name timeout ctx_err (some res) else failed_result res err

abbrev pub finalize_named :
    String → ℕ → Option ContextError → CollectorResult → Option CollectError → CollectorResult
finalize_named name timeout ctx_err res none = record res { status = status_or_ok res.status }
finalize_named name timeout ctx_err res (some err) = finalize_error name timeout ctx_err res err

unfoldable pub finalize_result :
    String → ℕ → Option ContextError → CollectorOutcome → CollectorResult
finalize_result name timeout ctx_err outcome =
    finalize_named name timeout ctx_err (with_name name outcome.result) outcome.err

-- what a panic is turned into
unfoldable pub outcome_of : String → Ending → CollectorOutcome
outcome_of name (returned res err) = record { result = res; err = err }
outcome_of name (panicked value) =
    let text = "panic: " ^^ value in
    record {
      result = record (blank_result name) {
        status = CollectorStatus.failed;
        notes = text ∷ [];
        partial_result = true;
      };
      err = some (record { text = text; of_context = false });
    }

abbrev pub own_timeout : Option ℕ → ℕ
own_timeout none = 0
own_timeout (some t) = t

-- Of a collector for a runner whose own budget is the first argument
unfoldable pub timeout_for : ℕ → Collector → ℕ
timeout_for budget col = if ltb 0 (own_timeout col.timeout) then own_timeout col.timeout else budget

unfoldable pub run_one : ℕ → Collector → Course → CollectorResult
run_one budget col (not_started err) = timeout_result col.name (timeout_for budget col) err none
run_one budget col (ended ctx_err ending) =
    finalize_result col.name (timeout_for budget col) ctx_err (outcome_of col.name ending)
run_one budget col (abandoned err) = timeout_result col.name (timeout_for budget col) err none

-- `results[item.Index] = item.Result`, of an index in range
unfoldable pub set_at : ℕ → CollectorResult → List CollectorResult → List CollectorResult
set_at i res [] = []
set_at zero res (x ∷ xs) = res ∷ xs
set_at (suc i) res (x ∷ xs) = x ∷ set_at i res xs

-- the loop that reads the channel
unfoldable pub receive_all :
    List CollectorResult → List (ℕ × CollectorResult) → List CollectorResult
receive_all results [] = results
receive_all results ((i, res) ∷ items) = receive_all (set_at i res results) items

unfoldable pub blanks : List (Collector × Course) → List CollectorResult
blanks [] = []
blanks (c ∷ cs) = blank_result "" ∷ blanks cs

-- what the goroutines send, each with its index
unfoldable pub sent_from : ℕ → ℕ → List (Collector × Course) → List (ℕ × CollectorResult)
sent_from budget i [] = []
sent_from budget i ((col, course) ∷ cs) =
    (i, run_one budget col course) ∷ sent_from budget (suc i) cs

-- `RunWithObserver`, where the items come from the channel in the given order
unfoldable pub run_with_observer :
    List (Collector × Course) → List (ℕ × CollectorResult) → List CollectorResult
run_with_observer collectors arrivals = receive_all (blanks collectors) arrivals
