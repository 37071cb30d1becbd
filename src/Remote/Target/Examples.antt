-- ===== src/Remote/Target/Examples.antt =====
-- A host with a user, and one with a port and no user, whose text is not parsed again.
use devdiag.Base.{has_prefix, trim_space, String, Option, none, true, ◌≡◌, refl}
use devdiag.Base.Number.{atoi, itoa_nat}
use devdiag.Remote.Target.{
  Target, Kind, ssh, Url, Parsed, target, refused, empty_user, parse, to_string, blank_target,
  is_identifier,
}
use devdiag.Remote.Target.Checked.{is_safe, parse-IsSafe}

abbrev no_url : String → Option Url
no_url s = none

abbrev dev_host : Target
dev_host = record (blank_target ssh) { raw = "dev@host"; user = "dev"; host = "host"; port = 22 }

parse-IsSafe_example : (is_safe dev_host ssh ≡ true) × (dev_host.raw ≡ to_string dev_host ssh)
unfolding parse trim_space has_prefix devdiag.Remote.Target.parse_ssh
    devdiag.Remote.Target.plain_parts devdiag.Remote.Target.cut_last is_identifier
    devdiag.Remote.Target.any_char devdiag.Remote.Target.is_any to_string
parse-IsSafe_example = parse-IsSafe no_url " dev@host " dev_host refl

no_round_trip :
    (parse no_url "host:2222"
      ≡ target (record (blank_target ssh) { raw = "@host:2222"; host = "host"; port = 2222 }))
    × (parse no_url "@host:2222" ≡ refused empty_user)
unfolding parse trim_space has_prefix devdiag.Remote.Target.parse_ssh
    devdiag.Remote.Target.plain_parts devdiag.Remote.Target.cut_last atoi is_identifier
    devdiag.Remote.Target.any_char devdiag.Remote.Target.is_any to_string itoa_nat
no_round_trip = (refl, refl)
