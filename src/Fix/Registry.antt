-- ===== src/Fix/Registry.antt =====
-- internal/fix/registry.go: the map of templates, kept as a list with one template for a hint ID, and
-- how a template takes its values. The order in which Go runs over a map of values is the order of
-- the list that stands for it.
use mathlib.Core.Path.{subst}
use devdiag.Base.{
  ◌∙◌, sym, ap, eq_iff, refl, inr, to_lower, arith, inl, ◌⊎◌, any, ◌||◌, is_blank, ◌=ₛ◌, Bool-cases,
  ◌≡◌, map, ◌^^◌, is_empty, if◌then◌else◌, String, List, [], ◌∷◌, Option, none, some, Bool, true,
  false, All,
}
use devdiag.Base.Text.Split.{has_text, replace_all}
use devdiag.Schema.{FixClass}
use devdiag.Fix.Blocklist.{Template, is_blocked_template}
use devdiag.Fix.Templates.{default_templates}

-- `r.templates[t.HintID] = t`
unfoldable pub store : Template → List Template → List Template
store t [] = t ∷ []
store t (k ∷ ks) = if k.hint_id =ₛ t.hint_id then t ∷ ks else k ∷ store t ks

abbrev pub as_blocked : Template → Template
as_blocked t = record t {
  class = FixClass.blocked;
  blocked_reason =
      if is_blank t.blocked_reason then "command matches blocklist" else t.blocked_reason;
}

unfoldable pub register : Template → List Template → List Template
register t templates = store (if is_blocked_template t then as_blocked t else t) templates

unfoldable pub register_all : List Template → List Template → List Template
register_all [] templates = templates
register_all (t ∷ ts) templates = register_all ts (register t templates)

unfoldable pub new_registry : List Template
new_registry = register_all default_templates []

unfoldable pub lookup : String → List Template → Option Template
lookup hint_id [] = none
lookup hint_id (t ∷ ts) = if t.hint_id =ₛ hint_id then some t else lookup hint_id ts

-- `t.IsApplicable()` on the platform `goos`
unfoldable pub is_applicable : String → Template → Bool
is_applicable goos t = is_empty t.platforms || any (λ p. to_lower p =ₛ to_lower goos) t.platforms

abbrev pub placeholder : String → String
placeholder k = "{{" ^^ k ^^ "}}"

-- one text, with every value put in its place
unfoldable pub bind_text : List (String × String) → String → String
bind_text [] text = text
bind_text ((k, v) ∷ values) text = bind_text values (replace_all text (placeholder k) v)

abbrev pub is_unbound : String → Bool
is_unbound text = has_text text "{{"

unfoldable pub bind_template :
    Template → List (String × String) → Option (List String × List String)
bind_template t values =
    let bound_args = map (bind_text values) t.args in
    let bound_rollback = map (bind_text values) t.rollback in
    if any is_unbound bound_args
    then none
    else if any is_unbound bound_rollback
    then none
    else some (bound_args, bound_rollback)

-- A template that may run has passed the blocklist.
abbrev pub IsGated : Template → Type 0
IsGated t = (t.class ≡ FixClass.blocked) ⊎ (is_blocked_template t ≡ false)

All-store :
    (P : Template → Type 0) (t : Template) (ts : List Template)
    → P t
    → All P ts
    → All P (store t ts)
unfolding store
All-store P t [] h k = (h, tt)
All-store P t (s ∷ ss) h k = elim (Bool-cases (s.hint_id =ₛ t.hint_id)) [
  | inl e ↦ rw e (h, k.1)
  | inr e ↦ rw e (k.0, All-store P t ss h k.1)
]

gate : (t : Template) → IsGated (if is_blocked_template t then as_blocked t else t)
gate t = elim (Bool-cases (is_blocked_template t)) [
  | inl e ↦ rw e (inl refl)
  | inr e ↦ inr (rw e e)
]

register_all-IsGated :
    (ts templates : List Template) → All IsGated templates → All IsGated (register_all ts templates)
unfolding register_all register
register_all-IsGated [] templates h = h
register_all-IsGated (t ∷ ts) templates h =
    register_all-IsGated ts (register t templates) (All-store IsGated _ templates (gate t) h)

first_taken :
    (found : Bool) (s t : Template) (rest : Option Template)
    → found ≡ true
    → (if found then some s else rest) ≡ some t
    → s ≡ t
first_taken true s t rest h e = cc
first_taken false s t rest h e = cc

lookup-of-All :
    (P : Template → Type 0) (id : String) (t : Template) (ts : List Template)
    → All P ts
    → lookup id ts ≡ some t
    → P t × (t.hint_id ≡ id)
unfolding lookup
lookup-of-All P id t [] h e = absurd (ground arith)
lookup-of-All P id t (s ∷ ss) h e = elim (Bool-cases (s.hint_id =ₛ id)) [
  | inl k ↦
      let same = first_taken (s.hint_id =ₛ id) s t (lookup id ss) k e in
      (subst P same h.0, sym (ap (λ x. x.hint_id) same) ∙ (eq_iff s.hint_id id).0 k)
  | inr k ↦ lookup-of-All P id t ss h.1 (ground arith)
]

-- A template that is looked up in a registry has the hint ID that was asked for, and it is either of
-- class blocked or passes the blocklist, whatever was registered.
pub lookup-IsGated :
    (ts : List Template) (id : String) (t : Template)
    → lookup id (register_all ts []) ≡ some t
    → IsGated t × (t.hint_id ≡ id)
lookup-IsGated ts id t e =
    lookup-of-All IsGated id t (register_all ts []) (register_all-IsGated ts [] tt) e
