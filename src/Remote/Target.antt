-- ===== src/Remote/Target.antt =====
-- internal/remote/target/target.go: a target is parsed, written and compared. `url.Parse` of net/url is
-- an argument, with none for an error.
pub mod Checked
mod Examples
use Prim.Native.Char.{Char, code}
use devdiag.Base.{
  has_prefix, trim_space, trim_prefix, is_blank, if◌then◌else◌, ℕ, String, List, [], ◌∷◌, Option,
  none, some, Bool, false, ◌&&◌, ◌||◌, not, ◌=ₛ◌, ◌^^◌, ◌==◌, ltb, leb,
}
use devdiag.Base.Number.{ℤ, pos, negsuc, atoi, itoa_nat}
use devdiag.Base.Text.Split.{split}

pub data Kind : Type 0 where
  ssh container k8s : Kind

pub record Target : Type 0 where
  pub kind : Kind
  pub raw : String
  pub user : String
  pub host : String
  pub port : ℕ
  pub container_id : String
  pub runtime : String
  pub context : String
  pub namespace : String
  pub pod : String
  pub container_name : String

abbrev pub blank_target : Kind → Target
blank_target kind = record {
  kind = kind;
  raw = "";
  user = "";
  host = "";
  port = 0;
  container_id = "";
  runtime = "";
  context = "";
  namespace = "";
  pod = "";
  container_name = "";
}

unfoldable pub to_string : Target → Kind → String
to_string t ssh =
    if not (t.port == 0) && not (t.port == 22)
    then t.user ^^ "@" ^^ t.host ^^ ":" ^^ itoa_nat t.port
    else if not (is_blank t.user)
    then t.user ^^ "@" ^^ t.host
    else t.host
to_string t container =
    if not (is_blank t.runtime) && not (t.runtime =ₛ "auto")
    then "container:" ^^ t.runtime ^^ "/" ^^ t.container_id
    else "container:" ^^ t.container_id
to_string t k8s =
    if not (is_blank t.context)
    then "k8s:" ^^ t.context ^^ "/" ^^ t.namespace ^^ "/" ^^ t.pod
    else "k8s:" ^^ t.namespace ^^ "/" ^^ t.pod

unfoldable pub is_any : String → Char → Bool
is_any String.[] c = false
is_any (String.◌∷◌ d s) c = code c == code d || is_any s c

unfoldable pub any_char : (Char → Bool) → String → Bool
any_char test String.[] = false
any_char test (String.◌∷◌ c s) = test c || any_char test s

-- `ValidateIdentifier`, without its message
unfoldable pub is_identifier : String → Bool
is_identifier value =
    not (is_blank value)
    && not (has_prefix value "-")
    && not (any_char (λ c. leb (code c) 32 || code c == 127) value)
    && not (any_char (is_any "|&;<>$\\`'\"") value)

pub data ParseError : Type 0 where
  empty_target no_container_id no_name_after_runtime unsupported_runtime bad_identifier no_k8s_id
        k8s_parts k8s_blank invalid_url has_password invalid_port no_host empty_user :
      ParseError

pub data Parsed : Type 0 where
  target : Target → Parsed
  refused : ParseError → Parsed

abbrev prepend : Char → Option (String × String) → Option (String × String)
prepend c none = none
prepend c (some (a, b)) = some (String.◌∷◌ c a, b)

-- what is around the first character `d`
unfoldable pub cut : ℕ → String → Option (String × String)
cut d String.[] = none
cut d (String.◌∷◌ c s) = let rest = cut d s in if code c == d then some ("", s) else prepend c rest

abbrev or_here : ℕ → Char → String → Option (String × String) → Option (String × String)
or_here d c s none = if code c == d then some ("", s) else none
or_here d c s (some (a, b)) = some (String.◌∷◌ c a, b)

-- what is around the last character `d`
unfoldable pub cut_last : ℕ → String → Option (String × String)
cut_last d String.[] = none
cut_last d (String.◌∷◌ c s) = or_here d c s (cut_last d s)

abbrev pub checked : Bool → Target → Parsed
checked ok t = if ok then target t else refused bad_identifier

unfoldable pub container_parts : String → Option (String × String) → Parsed
container_parts body none =
    checked (is_identifier body)
      (record (blank_target container) { runtime = "auto"; container_id = body })
container_parts body (some (runtime, name)) =
    if is_blank name
    then refused no_name_after_runtime
    else if not (runtime =ₛ "docker") && not (runtime =ₛ "podman")
    then refused unsupported_runtime
    else checked (is_identifier name)
        (record (blank_target container) { runtime = runtime; container_id = name })

unfoldable pub parse_container : String → Parsed
parse_container raw =
    let body = trim_prefix raw "container:" in
    if is_blank body then refused no_container_id else container_parts body (cut b'/' body)

unfoldable pub k8s_target : String → String → String → Parsed
k8s_target context namespace pod =
    if is_blank namespace || is_blank pod
    then refused k8s_blank
    else checked
        ((is_blank context || is_identifier context)
          && is_identifier namespace
          && is_identifier pod)
        (record (blank_target k8s) { context = context; namespace = namespace; pod = pod })

unfoldable pub k8s_of : List String → Parsed
k8s_of (namespace ∷ pod ∷ []) = k8s_target "" namespace pod
k8s_of (context ∷ namespace ∷ pod ∷ []) = k8s_target context namespace pod
k8s_of _ = refused k8s_parts

unfoldable pub parse_k8s : String → Parsed
parse_k8s raw =
    let body = trim_prefix raw "k8s:" in
    if is_blank body then refused no_k8s_id else k8s_of (split b'/' body)

-- What `url.Parse` finds of a URL: user name, whether a password is set, host name and port.
pub record Url : Type 0 where
  pub username : String
  pub password_set : Bool
  pub hostname : String
  pub url_port : String

abbrev pub ssh_target : String → String → ℕ → Parsed
ssh_target user host port =
    checked ((is_blank user || is_identifier user) && is_identifier host)
      (record (blank_target ssh) { user = user; host = host; port = port })

abbrev pub in_range : Option ℤ → Option ℕ
in_range none = none
in_range (some (negsuc n)) = none
in_range (some (pos n)) = if ltb n 1 || ltb 65535 n then none else some n

abbrev pub with_port : String → String → Option ℕ → Parsed
with_port user host none = refused invalid_port
with_port user host (some port) =
    if is_blank host then refused no_host else ssh_target user host port

abbrev pub url_target : Option Url → Parsed
url_target none = refused invalid_url
url_target (some u) =
    if u.password_set
    then refused has_password
    else with_port u.username u.hostname
        (if is_blank u.url_port then some 22 else in_range (atoi u.url_port))

abbrev pub host_parts : String → String → Option (String × String) → Parsed
host_parts user host none = with_port user host (some 22)
host_parts user host (some (front, port)) =
    if has_prefix host "["
    then with_port user host (some 22)
    else with_port user front (in_range (atoi port))

unfoldable pub plain_parts : String → Option (String × String) → Parsed
plain_parts raw none = host_parts "" raw (cut_last b':' raw)
plain_parts raw (some (user, host)) =
    if is_blank user then refused empty_user else host_parts user host (cut_last b':' host)

unfoldable pub parse_ssh : (String → Option Url) → String → Parsed
parse_ssh parse_url raw =
    if has_prefix raw "ssh://"
    then url_target (parse_url raw)
    else plain_parts raw (cut_last b'@' raw)

-- `t.Raw = t.String()`
abbrev pub canonical : Parsed → Parsed
canonical (refused e) = refused e
canonical (target t) = target (record t { raw = to_string t t.kind })

-- `Parse`
unfoldable pub parse : (String → Option Url) → String → Parsed
parse parse_url given =
    let raw = trim_space given in
    if is_blank raw
    then refused empty_target
    else if has_prefix raw "container:"
    then canonical (parse_container raw)
    else if has_prefix raw "k8s:"
    then canonical (parse_k8s raw)
    else canonical (parse_ssh parse_url raw)

-- `SameTarget`, of the two kinds in the first places
unfoldable pub same_target : Target → Target → Kind → Kind → Bool
same_target a b ssh ssh = a.user =ₛ b.user && a.host =ₛ b.host && a.port == b.port
same_target a b container container = a.runtime =ₛ b.runtime && a.container_id =ₛ b.container_id
same_target a b k8s k8s =
    a.context =ₛ b.context
    && a.namespace =ₛ b.namespace
    && a.pod =ₛ b.pod
    && a.container_name =ₛ b.container_name
same_target a b _ _ = false
