-- ===== src/Pairing/Examples.antt =====
-- A pairing that is confirmed at the second poll.
use monitor_agent.Base.{◌*◌, Option, some, Text, lit, empty, text_eq, is_empty}
use monitor_agent.Base.Int.{pos, ◌+ℤ◌, ◌-ℤ◌}
use monitor_agent.Client.{ok, fail, do_request}
use monitor_agent.Crypto.{open_envelope, second}
use monitor_agent.Crypto.Examples.{bare, sealed}
use monitor_agent.Pairing.{
  StatusResp, Phase, waiting, polling, ended, paired, step, Reached, begin, go, received, take_key,
  take_opened, take_api_key, after_request, after_poll, request_pairing_code,
}
use monitor_agent.Pairing.Key.{Granted, paired-Granted}

abbrev whole : Text → Option Text
whole t = some t

abbrev confirmed : StatusResp
confirmed = record {
  status = lit "paired";
  pairing_code = empty;
  expires_in = pos 0;
  api_key_envelope = some (sealed (pos 1000));
}

abbrev Here : Phase → Type 0
Here = Reached bare whole (lit "private") (lit "node") (lit "host")

asked : Here (waiting (pos (1060 * second)))
unfolding step after_request request_pairing_code received ◌+ℤ◌ ◌-ℤ◌
asked = go begin (
  some (lit "PEM"),
  ok (some (record { pairing_code = lit "123456"; expires_in = pos 60 })),
  1000 * second,
)

polled : Here (polling (pos (1060 * second)))
unfolding step
polled = go asked (1001 * second)

again : Here (waiting (pos (1060 * second)))
unfolding step after_poll
again = go polled (fail do_request, 1004 * second)

polled_again : Here (polling (pos (1060 * second)))
unfolding step
polled_again = go again (1005 * second)

done : Here (ended (paired (lit "restart")))
unfolding step after_poll received take_key take_opened take_api_key open_envelope ◌-ℤ◌ text_eq lit
    is_empty
done = go polled_again (ok (some confirmed), 1008 * second)

paired-Granted_example :
    Granted bare whole (lit "private") (lit "node") (lit "host") (lit "restart")
paired-Granted_example =
    paired-Granted bare whole (lit "private") (lit "node") (lit "host") (lit "restart") done
