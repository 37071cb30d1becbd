-- ===== src/Fix/Planned.antt =====
-- Where a proposal comes from, and what a port is.
use mathlib.Core.Path.{subst}
use devdiag.Base.{
  ap, if◌then◌else◌, ◌&&◌, not, ◌≤◌, ℕ, String, List, [], ◌∷◌, Option, none, some, Bool, true,
  false, ◌≡◌, ◌↔◌, refl, arith, All, All-append, any, Bool-cases, inl, inr, is_empty,
}
use devdiag.Base.Number.{ℤ, pos, negsuc, atoi}
use devdiag.Schema.{FixProposal, Finding, Report}
use devdiag.Fix.Blocklist.{Template}
use devdiag.Fix.Validate.{Checked, valid, invalid, validate_port, port_of}
use devdiag.Fix.Registry.{lookup, is_applicable, bind_template, is_unbound}
use devdiag.Fix.Planner.{Host, ResolveOptions, Bound, find_target}
use devdiag.Fix.Proposals.{
  proposal_for, complete_proposal, bound_proposal, propose, propose_all, resolve, resolve_target,
  is_manual,
}
use devdiag.Fix.Ranked.{All-rank_proposals}

port_of_lem :
    (value : String) (z : Option ℤ) (n : ℕ)
    → (port_of value z ≡ valid n) ↔ ((z ≡ some (pos n)) × (1 ≤ n) × (n ≤ 65535))
port_of_lem value none n = ground arith
port_of_lem value (some (pos m)) n = ground arith
port_of_lem value (some (negsuc m)) n = ground arith

-- A text is accepted as the port `n` exactly where `Atoi` reads it as `n`, and `n` is from 1 to 65535.
pub validate_port_lem :
    (value : String) (n : ℕ)
    → (validate_port value ≡ valid n) ↔ ((atoi value ≡ some (pos n)) × (1 ≤ n) × (n ≤ 65535))
unfolding validate_port atoi
validate_port_lem String.[] n = ground arith
validate_port_lem (String.◌∷◌ c s) n = port_of_lem (String.◌∷◌ c s) (atoi (String.◌∷◌ c s)) n

-- the template that a proposal is of
abbrev pub IsOf : List Template → Host → ResolveOptions → FixProposal → Template → Type 0
IsOf registry host opts p t =
    (lookup p.hint_id registry ≡ some t)
    × (is_applicable host.goos t ≡ true)
    × (p.class ≡ t.class)
    × (p.bin ≡ t.bin)
    × (p.finding_id ≡ opts.finding_id)
    × (any is_unbound p.args ≡ false)
    × (any is_unbound p.rollback ≡ false)

both_pass :
    (a b : Bool) (r out : List String × List String)
    → (if a then none else if b then none else some r) ≡ some out
    → (a ≡ false) × (b ≡ false) × (r ≡ out)
both_pass true b r out h = absurd cc
both_pass false true r out h = absurd cc
both_pass false false r out h = (refl, refl, cc)

bind_template_done :
    (t : Template) (values : List (String × String)) (args rollback : List String)
    → bind_template t values ≡ some (args, rollback)
    → (any is_unbound args ≡ false) × (any is_unbound rollback ≡ false)
unfolding bind_template
bind_template_done t values args rollback h =
    let (a, b, q) = both_pass _ _ _ (args, rollback) h in
    (
      subst (λ xs. any is_unbound xs ≡ false) (ap (λ r. r.0) q) a,
      subst (λ xs. any is_unbound xs ≡ false) (ap (λ r. r.1) q) b,
    )

IsOf-bound :
    (registry : List Template) (host : Host) (opts : ResolveOptions) (hint : String) (t : Template)
    (values : List (String × String)) (out : Option (List String × List String))
    → lookup hint registry ≡ some t
    → is_applicable host.goos t ≡ true
    → bind_template t values ≡ out
    → All (λ p. (t : Template) × IsOf registry host opts p t) (bound_proposal opts hint t out)
unfolding proposal_for
IsOf-bound registry host opts hint t values none h k e = tt
IsOf-bound registry host opts hint t values (some (args, rollback)) h k e =
    let (u, v) = bind_template_done t values args rollback e in
    ((t, (h, k, refl, refl, refl, u, v)), tt)

IsOf-complete :
    (registry : List Template) (host : Host) (opts : ResolveOptions) (hint : String) (t : Template)
    (c : Checked Bound)
    → lookup hint registry ≡ some t
    → is_applicable host.goos t ≡ true
    → All (λ p. (t : Template) × IsOf registry host opts p t) (complete_proposal opts hint t c)
IsOf-complete registry host opts hint t (invalid err) h k = tt
IsOf-complete registry host opts hint t (valid b) h k =
    elim (Bool-cases (not (is_empty b.missing) && not (is_manual t.class))) [
      | inl e ↦ rw e tt
      | inr e ↦ rw e (IsOf-bound registry host opts hint t b.values _ h k refl)
    ]

IsOf-propose :
    (bind : Template → Checked Bound) (registry : List Template) (host : Host)
    (opts : ResolveOptions) (hint : String) (found : Option Template)
    → lookup hint registry ≡ found
    → All (λ p. (t : Template) × IsOf registry host opts p t) (propose bind host opts hint found)
unfolding propose
IsOf-propose bind registry host opts hint none h = tt
IsOf-propose bind registry host opts hint (some t) h =
    elim (Bool-cases (is_applicable host.goos t)) [
      | inl e ↦ rw e (IsOf-complete registry host opts hint t (bind t) h e)
      | inr e ↦ rw e tt
    ]

IsOf-propose_all :
    (bind : Template → Checked Bound) (registry : List Template) (host : Host)
    (opts : ResolveOptions) (hints : List String)
    → All
        (λ p. (t : Template) × IsOf registry host opts p t)
        (propose_all bind host opts registry hints)
unfolding propose_all
IsOf-propose_all bind registry host opts [] = tt
IsOf-propose_all bind registry host opts (h ∷ hs) =
    All-append _ _ _ (IsOf-propose bind registry host opts h (lookup h registry) refl)
      (IsOf-propose_all bind registry host opts hs)

some_inj : (a b : List FixProposal) → some a ≡ some b → a ≡ b
some_inj a b h = cc

IsOf-resolve_target :
    (host : Host) (registry : List Template) (report : Report) (opts : ResolveOptions)
    (found : Option Finding) (ps : List FixProposal)
    → resolve_target host registry report opts found ≡ some ps
    → All (λ p. (t : Template) × IsOf registry host opts p t) ps
unfolding resolve_target
IsOf-resolve_target host registry report opts none ps h = absurd cc
IsOf-resolve_target host registry report opts (some target) ps h =
    subst (All _) (some_inj _ ps h)
      (All-rank_proposals _ _ (IsOf-propose_all _ registry host opts target.fix_hints))

-- Each proposal that `resolve` returns is of the template that the registry has for its hint: the
-- template is for this platform, class and binary are the template's, the finding is the one asked
-- for, and neither arguments nor rollback have an open placeholder.
pub resolve-IsOf :
    (host : Host) (registry : List Template) (report : Report) (opts : ResolveOptions)
    (ps : List FixProposal)
    → resolve host registry report opts ≡ some ps
    → All (λ p. (t : Template) × IsOf registry host opts p t) ps
unfolding resolve
resolve-IsOf host registry report opts ps h =
    IsOf-resolve_target host registry report opts (find_target opts.finding_id report.findings) ps h
