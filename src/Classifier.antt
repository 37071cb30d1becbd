-- ===== src/Classifier.antt =====
-- internal/repro/classifier/classifier.go: what the output of a failed command speaks of.
pub mod Rules
pub mod Streams
mod Examples
use devdiag.Base.{
  trim_space, ltb, to_lower, if◌then◌else◌, ℕ, zero, suc, String, List, [], ◌∷◌, Bool, true, false,
  ◌^^◌, ◌=ₛ◌, any,
}
use devdiag.Base.Text.Split.{split, has_text, text_length}
use devdiag.Classifier.Rules.{Rule}

pub record Classification : Type 0 where
  pub kind : String
  pub source_stream : String
  pub confidence : ℕ
  pub pattern_id : String
  pub excerpt : String

unfoldable pub has_pattern : Bool → String → String → Bool
has_pattern case_sensitive text pat =
    if case_sensitive then has_text text pat else has_text (to_lower text) (to_lower pat)

unfoldable pub contains_any_pattern : String → List String → Bool → Bool
contains_any_pattern text patterns case_sensitive = any (has_pattern case_sensitive text) patterns

unfoldable pub first_chars : ℕ → String → String
first_chars zero s = ""
first_chars (suc n) String.[] = ""
first_chars (suc n) (String.◌∷◌ c s) = String.◌∷◌ c (first_chars n s)

abbrev pub cut_line : ℕ → String → String
cut_line max_len line =
    if ltb max_len (text_length line) then first_chars max_len line ^^ "..." else line

unfoldable pub excerpt_from : List String → List String → ℕ → String
excerpt_from [] patterns max_len = ""
excerpt_from (line ∷ lines) patterns max_len =
    let rest = excerpt_from lines patterns max_len in
    if any (has_pattern false line) patterns then trim_space (cut_line max_len line) else rest

-- `extractExcerpt`, of a text of ASCII, where a byte is a character
unfoldable pub extract_excerpt : String → List String → ℕ → String
extract_excerpt text patterns max_len = excerpt_from (split b'\n' text) patterns max_len

abbrev pub joint : String → String → String
joint stdout stderr = stdout ^^ "\n" ^^ stderr

unfoldable pub text_of : Rule → String → String → String
text_of rule stdout stderr =
    if rule.source_stream =ₛ "stdout"
    then stdout
    else if rule.source_stream =ₛ "stderr"
    then stderr
    else joint stdout stderr

unfoldable pub stream_of : Rule → String → String
stream_of rule stdout =
    if rule.source_stream =ₛ "any"
    then if contains_any_pattern stdout rule.patterns rule.case_sensitive
      then "stdout"
      else "stderr"
    else rule.source_stream

abbrev pub classification : Rule → String → String → Classification
classification rule stdout stderr = record {
  kind = rule.kind;
  source_stream = stream_of rule stdout;
  confidence = rule.confidence;
  pattern_id = rule.id;
  excerpt = extract_excerpt (text_of rule stdout stderr) rule.patterns 120;
}

-- `Classify`
unfoldable pub classify : List Rule → String → String → List Classification
classify [] stdout stderr = []
classify (rule ∷ rules) stdout stderr =
    let rest = classify rules stdout stderr in
    if contains_any_pattern (text_of rule stdout stderr) rule.patterns rule.case_sensitive
    then classification rule stdout stderr ∷ rest
    else rest
