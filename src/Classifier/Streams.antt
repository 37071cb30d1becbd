-- ===== src/Classifier/Streams.antt =====
-- The stream that a classification names has one of the rule's patterns in it.
use devdiag.Base.{
  ◌=ₛ◌, if◌then◌else◌, String, List, [], ◌∷◌, Bool, true, false, ◌&&◌, ◌||◌, ◌≡◌, ◌⊎◌, inl, inr,
  refl, arith, any, all, All, Any, All-map, Bool-cases, ap, sym, ◌∙◌, to_lower,
}
use devdiag.Base.Text.Join.{lacks}
use devdiag.Base.Text.Split.{has_text}
use devdiag.Base.Text.Within.{within_either, to_lower-lines}
use devdiag.Classifier.Rules.{Rule}
use devdiag.Classifier.{
  Classification, has_pattern, contains_any_pattern, joint, text_of, stream_of, classify,
}

abbrev pub one_line : String → Bool
one_line pat = lacks "\n" (to_lower pat)

-- A rule like all built-in ones: for both streams, without regard to case, its patterns on one line.
abbrev pub IsPlain : Rule → Type 0
IsPlain rule =
    (rule.source_stream ≡ "any")
    × (rule.case_sensitive ≡ false)
    × (all one_line rule.patterns ≡ true)

abbrev pub named_text : String → String → String → String
named_text stream stdout stderr = if stream =ₛ "stdout" then stdout else stderr

abbrev pub IsShown : String → String → Classification → Rule → Type 0
IsShown stdout stderr c rule =
    (c.kind ≡ rule.kind)
    × (c.pattern_id ≡ rule.id)
    × (contains_any_pattern (named_text c.source_stream stdout stderr) rule.patterns false ≡ true)

has_pattern-joint :
    (stdout stderr pat : String)
    → one_line pat ≡ true
    → has_pattern false (joint stdout stderr) pat ≡ true
    → (has_pattern false stdout pat ≡ true) ⊎ (has_pattern false stderr pat ≡ true)
unfolding has_pattern
has_pattern-joint stdout stderr pat h k =
    within_either "\n" (to_lower stdout) (to_lower stderr) (to_lower pat) h
      (sym (ap (λ s. has_text s (to_lower pat)) (to_lower-lines stdout stderr)) ∙ k)

step :
    (j js a more b others : Bool)
    → (j || js) ≡ true
    → (j ≡ true → (a ≡ true) ⊎ (b ≡ true))
    → (js ≡ true → (more ≡ true) ⊎ (others ≡ true))
    → ((a || more) ≡ true) ⊎ ((b || others) ≡ true)
step true js a more b others h f g = elim (f refl) [
  | inl p ↦ inl (ground arith)
  | inr p ↦ inr (ground arith)
]
step false js a more b others h f g = elim (g h) [
  | inl p ↦ inl (ground arith)
  | inr p ↦ inr (ground arith)
]

first_of : (x y : Bool) → (x && y) ≡ true → x ≡ true
first_of x y h = ground arith

rest_of : (x y : Bool) → (x && y) ≡ true → y ≡ true
rest_of x y h = ground arith

any-joint :
    (stdout stderr : String) (pats : List String)
    → all one_line pats ≡ true
    → contains_any_pattern (joint stdout stderr) pats false ≡ true
    → (contains_any_pattern stdout pats false ≡ true)
      ⊎ (contains_any_pattern stderr pats false ≡ true)
unfolding contains_any_pattern
any-joint stdout stderr [] h k = absurd (ground arith)
any-joint stdout stderr (pat ∷ pats) h k =
    step (has_pattern false (joint stdout stderr) pat)
      (any (has_pattern false (joint stdout stderr)) pats) _ _ _ _ k
      (has_pattern-joint stdout stderr pat (first_of _ _ h))
      (any-joint stdout stderr pats (rest_of _ _ h))

text_of-plain :
    (rule : Rule) (stdout stderr : String)
    → IsPlain rule
    → text_of rule stdout stderr ≡ joint stdout stderr
unfolding text_of
text_of-plain rule stdout stderr h = rw h.0 refl

stream_of-plain :
    (rule : Rule) (stdout : String)
    → IsPlain rule
    → stream_of rule stdout
      ≡ (if contains_any_pattern stdout rule.patterns false then "stdout" else "stderr")
unfolding stream_of
stream_of-plain rule stdout h = rw (h.0, h.1) refl

not_both : (b : Bool) → b ≡ true → b ≡ false → ⊥
not_both b h k = ground arith

pattern_shown :
    (rule : Rule) (stdout stderr : String)
    → IsPlain rule
    → contains_any_pattern (text_of rule stdout stderr) rule.patterns rule.case_sensitive ≡ true
    → contains_any_pattern (named_text (stream_of rule stdout) stdout stderr) rule.patterns false
      ≡ true
pattern_shown rule stdout stderr h k =
    let found =
      ap (λ c. contains_any_pattern (joint stdout stderr) rule.patterns c) (sym h.1)
      ∙ ap (λ s. contains_any_pattern s rule.patterns rule.case_sensitive)
          (sym (text_of-plain rule stdout stderr h))
      ∙ k in
    elim (Bool-cases (contains_any_pattern stdout rule.patterns false)) [
      | inl e ↦ rw (stream_of-plain rule stdout h, e) e
      | inr e ↦ elim (any-joint stdout stderr rule.patterns h.2 found) [
        | inl here ↦ absurd (not_both _ here e)
        | inr there ↦ rw (stream_of-plain rule stdout h, e) there
      ]
    ]

-- Under rules like the built-in ones, each classification has the kind and the ID of a rule, and one of
-- that rule's patterns is in the output stream that the classification names.
pub classify-IsShown :
    (rules : List Rule) (stdout stderr : String)
    → All IsPlain rules
    → All (λ c. Any (IsShown stdout stderr c) rules) (classify rules stdout stderr)
unfolding classify
classify-IsShown [] stdout stderr h = tt
classify-IsShown (rule ∷ rules) stdout stderr h =
    let rest =
      All-map _ _ (classify rules stdout stderr) (λ c k. inr k)
        (classify-IsShown rules stdout stderr h.1) in
    elim (Bool-cases
      (contains_any_pattern (text_of rule stdout stderr) rule.patterns rule.case_sensitive)) [
        | inl e ↦ rw e (inl (refl, refl, pattern_shown rule stdout stderr h.0 e), rest)
        | inr e ↦ rw e rest
      ]
