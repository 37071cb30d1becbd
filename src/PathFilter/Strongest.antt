-- ===== src/PathFilter/Strongest.antt =====
-- A path has the strongest class of its segments.
use mathlib.Core.Path.{subst}
use devdiag.Base.{
  sym, ◌∙◌, eq_iff, ◌||◌, ◌=ₛ◌, if◌then◌else◌, ℕ, ◌≤◌, String, List, [], ◌∷◌, Option, none, some,
  Bool, true, ◌≡◌, ◌⊎◌, inl, inr, refl, arith, is_blank, ltb, Bool-cases, All, Any,
}
use devdiag.Base.Text.Split.{split}
use devdiag.Fix.Paths.{join}
use devdiag.PathFilter.{
  PathClass, project, class_priority, class_at, stronger, classify_segments, classify_path,
  relative_path,
}

-- the classes of the segments that have one, each at its place
abbrev pub add_class : Option PathClass → List PathClass → List PathClass
add_class none cs = cs
add_class (some c) cs = c ∷ cs

pub classes_of : (String → Bool) → String → List String → List PathClass
classes_of is_virtual_env prefix [] = []
classes_of is_virtual_env prefix (segment ∷ segments) =
    let path = join prefix segment in
    let skipped = classes_of is_virtual_env prefix segments in
    let taken =
      add_class (class_at is_virtual_env path segment) (classes_of is_virtual_env path segments) in
    if is_blank segment || segment =ₛ "." then skipped else taken

-- the strongest of the classes, the first one of those, and the given one where none is stronger
abbrev pub strongest : PathClass → List PathClass → PathClass
strongest class [] = class
strongest class (c ∷ cs) = strongest (stronger class (some c)) cs

abbrev pub IsStrongest : PathClass → List PathClass → PathClass → Type 0
IsStrongest start cs class =
    ((class ≡ start) ⊎ Any (λ c. class ≡ c) cs)
    × (class_priority start ≤ class_priority class)
    × All (λ c. class_priority c ≤ class_priority class) cs

stronger-start : (a b : PathClass) → class_priority a ≤ class_priority (stronger a (some b))
stronger-start a b = elim (Bool-cases (ltb (class_priority a) (class_priority b))) [
  | inl e ↦ rw e (ground arith)
  | inr e ↦ rw e (omega arith)
]

stronger-found : (a b : PathClass) → class_priority b ≤ class_priority (stronger a (some b))
stronger-found a b = elim (Bool-cases (ltb (class_priority a) (class_priority b))) [
  | inl e ↦ rw e (omega arith)
  | inr e ↦ rw e (ground arith)
]

stronger_either : (a b : PathClass) → (stronger a (some b) ≡ a) ⊎ (stronger a (some b) ≡ b)
stronger_either a b = elim (Bool-cases (ltb (class_priority a) (class_priority b))) [
  | inl e ↦ rw e (inr refl)
  | inr e ↦ rw e (inl refl)
]

le_trans : (a b c : ℕ) → a ≤ b → b ≤ c → a ≤ c
le_trans a b c h k = omega arith

origin_lem :
    (start c : PathClass) (cs : List PathClass) (class : PathClass)
    → (class ≡ stronger start (some c)) ⊎ Any (λ x. class ≡ x) cs
    → (class ≡ start) ⊎ Any (λ x. class ≡ x) (c ∷ cs)
origin_lem start c cs class (inr h) = inr (inr h)
origin_lem start c cs class (inl h) = elim (stronger_either start c) [
  | inl e ↦ inl (h ∙ e)
  | inr e ↦ inr (inl (h ∙ e))
]

strongest-IsStrongest :
    (start : PathClass) (cs : List PathClass) → IsStrongest start cs (strongest start cs)
strongest-IsStrongest start [] = (inl refl, omega arith, tt)
strongest-IsStrongest start (c ∷ cs) =
    let (origin, above, all) = strongest-IsStrongest (stronger start (some c)) cs in
    (
      origin_lem start c cs _ origin,
      le_trans _ _ _ (stronger-start start c) above,
      (le_trans _ _ _ (stronger-found start c) above, all),
    )

strongest-add :
    (class : PathClass) (found : Option PathClass) (cs : List PathClass)
    → strongest class (add_class found cs) ≡ strongest (stronger class found) cs
strongest-add class none cs = refl
strongest-add class (some c) cs = refl

classify_segments-strongest :
    (is_virtual_env : String → Bool) (prefix : String) (segments : List String) (class : PathClass)
    → classify_segments is_virtual_env prefix segments class
      ≡ strongest class (classes_of is_virtual_env prefix segments)
unfolding classify_segments classes_of
classify_segments-strongest is_virtual_env prefix [] class = refl
classify_segments-strongest is_virtual_env prefix (segment ∷ segments) class =
    elim (Bool-cases (is_blank segment || segment =ₛ ".")) [
      | inl e ↦ rw e (classify_segments-strongest is_virtual_env prefix segments class)
      | inr e ↦
          let path = join prefix segment in
          let found = class_at is_virtual_env path segment in
          rw e (
            classify_segments-strongest is_virtual_env path segments (stronger class found)
            ∙ sym (strongest-add class found (classes_of is_virtual_env path segments)))
    ]

no_classes :
    (is_virtual_env : String → Bool) (root r : String)
    → (is_blank r || r =ₛ ".") ≡ true
    → classes_of is_virtual_env root (split b'/' r) ≡ []
unfolding classes_of split
no_classes is_virtual_env root String.[] h = refl
no_classes is_virtual_env root (String.◌∷◌ c s) h =
    subst (λ r. classes_of is_virtual_env root (split b'/' r) ≡ [])
      (sym ((eq_iff (String.◌∷◌ c s) ".").0 h)) refl

-- The class of a path is that of a segment of its relative path, or project, and no segment has a class
-- of a higher priority.
pub classify_path-IsStrongest :
    (is_virtual_env : String → Bool) (root path : String)
    → IsStrongest project
        (classes_of is_virtual_env root (split b'/' (relative_path root path)))
        (classify_path is_virtual_env root path)
unfolding classify_path
classify_path-IsStrongest is_virtual_env root path =
    let r = relative_path root path in
    elim (Bool-cases (is_blank r || r =ₛ ".")) [
      | inl e ↦ rw (e, no_classes is_virtual_env root r e) (strongest-IsStrongest project [])
      | inr e ↦
          rw (e, classify_segments-strongest is_virtual_env root (split b'/' r) project)
            (strongest-IsStrongest project (classes_of is_virtual_env root (split b'/' r)))
    ]
