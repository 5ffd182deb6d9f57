-- ===== src/Command/Service/Examples.antt =====
-- The status of the gateway on a machine with two services.
use monitor_agent.Base.{
  ◌≡◌, refl, none, List, [], ◌∷◌, ◌++◌, Text, lit, empty, inl, inr, All, is_space, contains,
  has_prefix, text_eq, Bool, true, not, ◌&&◌, arith,
}
use monitor_agent.Base.Strings.Words.{IsSolid}
use monitor_agent.Command.Host.{Host}
use monitor_agent.Command.Cli.{done}
use monitor_agent.Command.Service.{service_name, exec_status}
use monitor_agent.Command.Service.Listing.{Row, IsRow, listing, named, told, exec_status-listing}

abbrev services : List Row
services =
    record { pid = lit "87"; exit_code = lit "0"; label = lit "com.apple.mail" }
    ∷ record { pid = lit "-"; exit_code = lit "78"; label = lit "ai.openclaw.gateway" }
    ∷ []

solid : Text → Bool
solid [] = true
solid (c ∷ w) = not (is_space c) && solid w

solid-IsSolid : (w : Text) → solid w ≡ true → IsSolid w
unfolding solid
solid-IsSolid [] h = tt
solid-IsSolid (c ∷ w) h = (ground (arith, h), solid-IsSolid w (ground (arith, h)))

services-IsRow : All IsRow services
unfolding is_space lit solid
services-IsRow = (
  (
    (refl, solid-IsSolid (lit "87") refl),
    (refl, solid-IsSolid (lit "0") refl),
    (refl, solid-IsSolid (lit "com.apple.mail") refl),
  ),
  (
    (
      (refl, solid-IsSolid (lit "-") refl),
      (refl, solid-IsSolid (lit "78") refl),
      (refl, solid-IsSolid (lit "ai.openclaw.gateway") refl),
    ),
    tt,
  ),
)

abbrev mac : Host
mac = record {
  State = Unit;
  launchctl = λ args s. ((listing services, none), s);
  openclaw = λ timeout args s. ((empty, none), s);
  config_path = λ s. (empty, s);
  read_file = λ path s. (inr empty, s);
  write_file = λ path content s. (none, s);
  mkdir_all = λ path s. (none, s);
  stamp = λ s. (empty, s);
  dir = λ path. path;
  unmarshal = λ content. inl empty;
  marshal_indent = λ v. empty;
}

exec_status-listing_example :
    (exec_status mac tt).0 ≡ done (service_name ++ lit ": " ++ told (named services))
exec_status-listing_example = exec_status-listing mac tt services services-IsRow refl

gateway_stopped :
    service_name ++ lit ": " ++ told (named services)
    ≡ lit "ai.openclaw.gateway: not running (last exit: 78)"
unfolding named told contains has_prefix text_eq lit
gateway_stopped = refl
