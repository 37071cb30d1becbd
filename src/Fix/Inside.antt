-- ===== src/Fix/Inside.antt =====
-- What an accepted path promises: it lies where commands may touch it.
use devdiag.Fix.Cleaned.{StaysDown, clean-StaysDown}
use devdiag.Base.{
  not, ◌||◌, is_empty, Option-cases, ◌∙◌, sym, if◌then◌else◌, Option, Bool, ◌=ₛ◌, eq_iff, eq_iff,
  sym, ◌=ₛ◌, ◌∷◌, [], String, List, ◌++◌, ◌≡◌, ◌⊎◌, inl, inr, true, false, arith, Bool-cases, ap,
  some, none, refl, is_blank, Any,
}
use mathlib.Core.Path.{ap₂}
use devdiag.Base.Text.Split.{split}
use devdiag.Fix.Paths.{is_abs, FilePath, clean, path_text, rel_parts, ups, rel, join}
use devdiag.Fix.Validate.{
  valid, goes_above, is_up, is_below, in_allowed, within_root, validate_clean, allowed_prefixes,
}

abbrev pub IsBelow : List String → List String → Type 0
IsBelow base path = (rest : List String) × (path ≡ base ++ rest)

abbrev pub IsParent : List String → List String → Type 0
IsParent base path = (x : String) × (base ≡ path ++ x ∷ [])

true-ne-false : true ≡ false → ⊥
true-ne-false h = cc

stays : (xs : List String) → goes_above (".." ∷ xs) ≡ false → is_up (".." ∷ xs) ≡ false → ⊥
stays [] h k = ground arith
stays (x ∷ xs) h k = ground arith

up-eq :
    (b : String) (xs r : List String)
    → (if b =ₛ ".." then none else some (".." ∷ xs)) ≡ some r
    → r ≡ ".." ∷ xs
up-eq b xs r e = ground arith

else-eq :
    (same : Bool) (there rest r : Option (List String))
    → same ≡ false
    → (if same then there else rest) ≡ r
    → rest ≡ r
else-eq same there rest r h e = ground arith

-- A way that does not go up ends below its base.
rel_parts-IsBelow :
    (base path r : List String)
    → rel_parts base path ≡ some r
    → goes_above r ≡ false
    → is_up r ≡ false
    → IsBelow base path
unfolding rel_parts
rel_parts-IsBelow [] path r e h k = (path, refl)
rel_parts-IsBelow (b ∷ bs) [] r e h k =
    let q = up-eq b (ups bs []) r e in
    absurd (stays (ups bs []) (ap goes_above (sym q) ∙ h) (ap is_up (sym q) ∙ k))
rel_parts-IsBelow (b ∷ bs) (t ∷ ts) r e h k = elim (Bool-cases (b =ₛ t)) [
  | inl same ↦
      let (rest, q) = rel_parts-IsBelow bs ts r (ground arith) h k in
      (rest, ap₂ (◌∷◌) (sym ((eq_iff b t).0 same)) q)
  | inr differ ↦
      let q = up-eq b (ups bs (t ∷ ts)) r (else-eq (b =ₛ t) (rel_parts bs ts) _ _ differ e) in
      absurd (stays (ups bs (t ∷ ts)) (ap goes_above (sym q) ∙ h) (ap is_up (sym q) ∙ k))
]

ups_filled : (bs ts : List String) (t : String) → goes_above (".." ∷ ups bs (t ∷ ts)) ≡ true
ups_filled [] ts t = refl
ups_filled (b ∷ bs) ts t = refl

rel_parts-near :
    (base path r : List String)
    → rel_parts base path ≡ some r
    → goes_above r ≡ false
    → IsBelow base path ⊎ IsParent base path
unfolding rel_parts
rel_parts-near [] path r e h = inl (path, refl)
rel_parts-near (b ∷ []) [] r e h = inr (b, refl)
rel_parts-near (b ∷ c ∷ bs) [] r e h =
    let q = up-eq b (".." ∷ ups bs []) r e in absurd (true-ne-false (ap goes_above (sym q) ∙ h))
rel_parts-near (b ∷ bs) (t ∷ ts) r e h = elim (Bool-cases (b =ₛ t)) [
  | inl same ↦ elim (rel_parts-near bs ts r (ground arith) h) [
    | inl (rest, q) ↦ inl (rest, ap₂ (◌∷◌) (sym ((eq_iff b t).0 same)) q)
    | inr (x, q) ↦ inr (x, ap₂ (◌∷◌) ((eq_iff b t).0 same) q)
  ]
  | inr differ ↦
      let q = up-eq b (ups bs (t ∷ ts)) r (else-eq (b =ₛ t) (rel_parts bs ts) _ _ differ e) in
      absurd (true-ne-false (sym (ups_filled bs ts t) ∙ ap goes_above (sym q) ∙ h))
]

pub IsNear : FilePath → FilePath → Type 0
IsNear base path =
    (path.rooted ≡ base.rooted) × (IsBelow base.parts path.parts ⊎ IsParent base.parts path.parts)

rel_lem :
    (base path r : FilePath)
    → rel base path ≡ some r
    → (path.rooted ≡ base.rooted) × (rel_parts base.parts path.parts ≡ some r.parts)
unfolding rel
rel_lem base path r h = ground arith

below-level :
    (ps : List String) → (is_empty ps || not (goes_above ps)) ≡ true → goes_above ps ≡ false
below-level [] h = refl
below-level (p ∷ ps) h = ground arith

is_below_lem : (r : FilePath) → is_below (some r) ≡ true → goes_above r.parts ≡ false
unfolding is_below
is_below_lem r h = below-level r.parts h

is_below-IsNear : (base path : FilePath) → is_below (rel base path) ≡ true → IsNear base path
unfolding IsNear
is_below-IsNear base path h = elim (Option-cases (rel base path)) [
  | inl e ↦ absurd (true-ne-false (sym h ∙ ap is_below e ∙ unfold is_below in refl))
  | inr (r, e) ↦
      let (same, q) = rel_lem base path r e in
      (
        same,
        rel_parts-near base.parts path.parts r.parts q (is_below_lem r (sym (ap is_below e) ∙ h)),
      )
]

in_allowed-IsNear :
    (ds : List String) (path : FilePath)
    → in_allowed ds path ≡ true
    → Any (λ d. IsNear (clean d) path) ds
unfolding in_allowed
in_allowed-IsNear [] path h = absurd (ground arith)
in_allowed-IsNear (d ∷ ds) path h = elim (Bool-cases (is_below (rel (clean d) path))) [
  | inl e ↦ inl (is_below-IsNear (clean d) path e)
  | inr e ↦ inr (in_allowed-IsNear ds path (ground arith))
]

refused : (value p : String) (resolved : FilePath) → within_root value resolved none ≡ valid p → ⊥
unfolding within_root
refused value p resolved h = cc

taken :
    (value p : String) (resolved r : FilePath)
    → within_root value resolved (some r) ≡ valid p
    → (p ≡ path_text resolved) × (is_up r.parts ≡ false) × (goes_above r.parts ≡ false)
unfolding within_root
taken value p resolved r h = ground arith

within_root-IsBelow :
    (value p : String) (root resolved : FilePath)
    → within_root value resolved (rel root resolved) ≡ valid p
    → (p ≡ path_text resolved) × (resolved.rooted ≡ root.rooted) × IsBelow root.parts resolved.parts
within_root-IsBelow value p root resolved h = elim (Option-cases (rel root resolved)) [
  | inl e ↦ absurd (refused value p resolved (sym (ap (within_root value resolved) e) ∙ h))
  | inr (r, e) ↦
      let (text, level, above) =
        taken value p resolved r (sym (ap (within_root value resolved) e) ∙ h) in
      let (same, parts) = rel_lem root resolved r e in
      (text, same, rel_parts-IsBelow root.parts resolved.parts r.parts parts above level)
]

-- What an accepted text is, by the path that was asked for.
abbrev pub IsAccepted : String → String → String → Type 0
IsAccepted root path p =
    (is_abs path ≡ true)
      × (p ≡ path)
      × StaysDown (clean path).parts
      × Any (λ d. IsNear (clean d) (clean path)) allowed_prefixes
    ⊎ (is_abs path ≡ false) × (is_blank root ≡ true) × (p ≡ path) × StaysDown (split b'/' path)
    ⊎ (is_abs path ≡ false)
      × ((clean root).rooted ≡ true)
      × (q : FilePath) × (q ≡ clean (join (path_text (clean root)) path))
      × (p ≡ path_text q)
      × (q.rooted ≡ true)
      × StaysDown q.parts
      × IsBelow (clean root).parts q.parts

-- A path that the check accepts is an absolute one, answered as it is, that when cleaned lies under one
-- of the allowed directories or is the parent of one; or a relative one without `..`, answered as it
-- is, where no root is given; or else the root is absolute, and what is answered is the text of the
-- root and the path joined and cleaned, which begins at `/`, has no `..` in it and lies under the
-- root. The cleaned absolute path has no `..` either.
pub validate_clean-IsAccepted :
    (root value path p : String) → validate_clean root value path ≡ valid p → IsAccepted root path p
unfolding validate_clean
validate_clean-IsAccepted root value path p h = elim (Bool-cases (is_abs path)) [
  | inl e ↦ inl (
    e,
    ground arith,
    clean-StaysDown path (unfold clean in e),
    in_allowed-IsNear allowed_prefixes (clean path) (ground arith),
  )
  | inr e ↦ elim (Bool-cases (is_blank root)) [
    | inl k ↦ inr (inl (e, k, ground arith, ground arith))
    | inr k ↦
        let at_root : (clean root).rooted ≡ true = ground arith in
        let resolved = clean (join (path_text (clean root)) path) in
        let (text, same, below) =
          within_root-IsBelow value p (clean root) resolved (ground arith) in
        let rooted = same ∙ at_root in
        let plain = clean-StaysDown (join (path_text (clean root)) path) rooted in
        inr (inr (e, at_root, resolved, refl, text, rooted, plain, below))
  ]
]
