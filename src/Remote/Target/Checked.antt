-- ===== src/Remote/Target/Checked.antt =====
-- What a parsed target can hold: nothing that a remote command line could take for more than a name.
use mathlib.Core.Path.{subst}
use devdiag.Base.{
  sym, ◌∙◌, trim_prefix, has_prefix, trim_space, has_prefix, ltb, ℕ, String, List, [], ◌∷◌, Option,
  none, some, Bool, true, false, ◌&&◌, ◌||◌, not, ◌≡◌, ◌=ₛ◌, leb, refl, arith, is_blank, Bool-cases,
  inl, inr,
}
use devdiag.Base.Number.{ℤ, pos, negsuc, atoi}
use devdiag.Base.Text.Split.{split}
use devdiag.Remote.Target.{
  cut, cut_last, Target, Kind, ssh, container, k8s, Parsed, target, refused, checked, is_identifier,
  container_parts, parse_container, k8s_target, k8s_of, parse_k8s, Url, in_range, with_port,
  url_target, host_parts, plain_parts, parse_ssh, canonical, parse, to_string,
}

abbrev pub is_safe : Target → Kind → Bool
is_safe t ssh =
    (is_blank t.user || is_identifier t.user)
    && is_identifier t.host
    && leb 1 t.port
    && leb t.port 65535
is_safe t container =
    is_identifier t.container_id
    && (t.runtime =ₛ "auto" || t.runtime =ₛ "docker" || t.runtime =ₛ "podman")
is_safe t k8s =
    (is_blank t.context || is_identifier t.context)
    && is_identifier t.namespace
    && is_identifier t.pod

abbrev AllSafe : Parsed → Type 0
AllSafe (refused e) = Unit
AllSafe (target t) = is_safe t t.kind ≡ true

AllSafe-checked :
    (ok : Bool) (t : Target) → (ok ≡ true → is_safe t t.kind ≡ true) → AllSafe (checked ok t)
AllSafe-checked true t h = h refl
AllSafe-checked false t h = tt

one_of : (i a d p : Bool) → i ≡ true → (not d && not p) ≡ false → (i && (a || d || p)) ≡ true
one_of i a d p h k = ground arith

all_four : (u h l m : Bool) → (u && h) ≡ true → l ≡ true → m ≡ true → (u && h && l && m) ≡ true
all_four u h l m k a b = ground arith

AllSafe-container_parts :
    (body : String) (parts : Option (String × String)) → AllSafe (container_parts body parts)
unfolding container_parts
AllSafe-container_parts body none = AllSafe-checked (is_identifier body) _ (λ h. ground arith)
AllSafe-container_parts body (some (runtime, name)) = elim (Bool-cases (is_blank name)) [
  | inl e ↦ rw e tt
  | inr e ↦ elim (Bool-cases (not (runtime =ₛ "docker") && not (runtime =ₛ "podman"))) [
    | inl k ↦ rw (e, k) tt
    | inr k ↦ rw (e, k) (AllSafe-checked (is_identifier name) _ (λ h. one_of _ _ _ _ h k))
  ]
]

AllSafe-k8s_target : (context namespace pod : String) → AllSafe (k8s_target context namespace pod)
unfolding k8s_target
AllSafe-k8s_target context namespace pod = elim (Bool-cases (is_blank namespace || is_blank pod)) [
  | inl e ↦ rw e tt
  | inr e ↦ rw e (
      AllSafe-checked
        ((is_blank context || is_identifier context)
          && is_identifier namespace
          && is_identifier pod)
        _ (λ h. h))
]

AllSafe-k8s_of : (parts : List String) → AllSafe (k8s_of parts)
unfolding k8s_of
AllSafe-k8s_of [] = tt
AllSafe-k8s_of (a ∷ []) = tt
AllSafe-k8s_of (a ∷ b ∷ []) = AllSafe-k8s_target "" a b
AllSafe-k8s_of (a ∷ b ∷ c ∷ []) = AllSafe-k8s_target a b c
AllSafe-k8s_of (a ∷ b ∷ c ∷ d ∷ ps) = tt

abbrev IsPort : Option ℕ → Type 0
IsPort none = Unit
IsPort (some n) = (leb 1 n ≡ true) × (leb n 65535 ≡ true)

in_range-IsPort : (z : Option ℤ) → IsPort (in_range z)
in_range-IsPort none = tt
in_range-IsPort (some (negsuc n)) = tt
in_range-IsPort (some (pos n)) = elim (Bool-cases (ltb n 1 || ltb 65535 n)) [
  | inl e ↦ rw e tt
  | inr e ↦ rw e (ground arith, ground arith)
]

AllSafe-with_port :
    (user host : String) (port : Option ℕ) → IsPort port → AllSafe (with_port user host port)
AllSafe-with_port user host none h = tt
AllSafe-with_port user host (some port) h = elim (Bool-cases (is_blank host)) [
  | inl e ↦ rw e tt
  | inr e ↦ rw e (
      AllSafe-checked ((is_blank user || is_identifier user) && is_identifier host) _
        (λ k. all_four (is_blank user || is_identifier user) (is_identifier host) _ _ k h.0 h.1))
]

AllSafe-url_target : (u : Option Url) → AllSafe (url_target u)
AllSafe-url_target none = tt
AllSafe-url_target (some u) = elim (Bool-cases u.password_set) [
  | inl e ↦ rw e tt
  | inr e ↦ elim (Bool-cases (is_blank u.url_port)) [
    | inl k ↦ rw (e, k) (AllSafe-with_port u.username u.hostname (some 22) (refl, refl))
    | inr k ↦
        rw (e, k)
          (AllSafe-with_port u.username u.hostname (in_range (atoi u.url_port))
            (in_range-IsPort (atoi u.url_port)))
  ]
]

AllSafe-host_parts :
    (user host : String) (parts : Option (String × String)) → AllSafe (host_parts user host parts)
AllSafe-host_parts user host none = AllSafe-with_port user host (some 22) (refl, refl)
AllSafe-host_parts user host (some (front, port)) = elim (Bool-cases (has_prefix host "[")) [
  | inl e ↦ rw e (AllSafe-with_port user host (some 22) (refl, refl))
  | inr e ↦ rw e (AllSafe-with_port user front (in_range (atoi port)) (in_range-IsPort (atoi port)))
]

AllSafe-plain_parts :
    (raw : String) (parts : Option (String × String)) → AllSafe (plain_parts raw parts)
unfolding plain_parts
AllSafe-plain_parts raw none = AllSafe-host_parts "" raw _
AllSafe-plain_parts raw (some (user, host)) = elim (Bool-cases (is_blank user)) [
  | inl e ↦ rw e tt
  | inr e ↦ rw e (AllSafe-host_parts user host _)
]

AllSafe-parse_container : (raw : String) → AllSafe (parse_container raw)
unfolding parse_container
AllSafe-parse_container raw = elim (Bool-cases (is_blank (trim_prefix raw "container:"))) [
  | inl e ↦ rw e tt
  | inr e ↦ rw e (
      AllSafe-container_parts (trim_prefix raw "container:")
        (cut b'/' (trim_prefix raw "container:")))
]

AllSafe-parse_k8s : (raw : String) → AllSafe (parse_k8s raw)
unfolding parse_k8s
AllSafe-parse_k8s raw = elim (Bool-cases (is_blank (trim_prefix raw "k8s:"))) [
  | inl e ↦ rw e tt
  | inr e ↦ rw e (AllSafe-k8s_of (split b'/' (trim_prefix raw "k8s:")))
]

AllSafe-parse_ssh :
    (parse_url : String → Option Url) (raw : String) → AllSafe (parse_ssh parse_url raw)
unfolding parse_ssh
AllSafe-parse_ssh parse_url raw = elim (Bool-cases (has_prefix raw "ssh://")) [
  | inl e ↦ rw e (AllSafe-url_target (parse_url raw))
  | inr e ↦ rw e (AllSafe-plain_parts raw (cut_last b'@' raw))
]

to_string-raw :
    (t : Target) (r : String) (k : Kind) → to_string (record t { raw = r }) k ≡ to_string t k
unfolding to_string
to_string-raw t r ssh = refl
to_string-raw t r container = refl
to_string-raw t r k8s = refl

is_safe-raw : (t : Target) (r : String) (k : Kind) → is_safe (record t { raw = r }) k ≡ is_safe t k
is_safe-raw t r ssh = refl
is_safe-raw t r container = refl
is_safe-raw t r k8s = refl

-- A parse that, where it gives a target, gives a safe one with its own text.
abbrev IsGood : Parsed → Type 0
IsGood (refused e) = Unit
IsGood (target t) = (is_safe t t.kind ≡ true) × (t.raw ≡ to_string t t.kind)

IsGood-canonical : (p : Parsed) → AllSafe p → IsGood (canonical p)
IsGood-canonical (refused e) h = tt
IsGood-canonical (target t) h = (
  is_safe-raw t (to_string t t.kind) t.kind ∙ h,
  sym (to_string-raw t (to_string t t.kind) t.kind),
)

IsGood-parse : (parse_url : String → Option Url) (given : String) → IsGood (parse parse_url given)
unfolding parse
IsGood-parse parse_url given = elim (Bool-cases (is_blank (trim_space given))) [
  | inl e ↦ rw e tt
  | inr e ↦ elim (Bool-cases (has_prefix (trim_space given) "container:")) [
    | inl k ↦ rw (e, k) (IsGood-canonical _ (AllSafe-parse_container (trim_space given)))
    | inr k ↦ elim (Bool-cases (has_prefix (trim_space given) "k8s:")) [
      | inl m ↦ rw (e, k, m) (IsGood-canonical _ (AllSafe-parse_k8s (trim_space given)))
      | inr m ↦ rw (e, k, m) (IsGood-canonical _ (AllSafe-parse_ssh parse_url (trim_space given)))
    ]
  ]
]

-- A target that is parsed, whatever the URL parser answers, is safe for its kind: host, container,
-- namespace and pod pass the check of identifiers, as user and context do where they are not empty, a
-- port is from 1 to 65535, and a container runtime is auto, docker or podman. Its raw text is the one
-- that the target is written as.
pub parse-IsSafe :
    (parse_url : String → Option Url) (given : String) (t : Target)
    → parse parse_url given ≡ target t
    → (is_safe t t.kind ≡ true) × (t.raw ≡ to_string t t.kind)
parse-IsSafe parse_url given t h = subst IsGood h (IsGood-parse parse_url given)
