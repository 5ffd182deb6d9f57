-- ===== src/Transport/Examples.antt =====
-- A command that both brokers carry, and its way through the MQTT broker.
use mathlib.Core.List.{Perm}
use monitor_agent.Base.{
  ◌≡◌, ◌≤◌, refl, lit, empty, text_eq, true, false, none, some, [], ◌∷◌, Text, length, arith, List,
  inl, inr,
}
use monitor_agent.Base.Int.{pos}
use monitor_agent.Base.Merge.{alone}
use monitor_agent.Crypto.Examples.{bare}
use monitor_agent.Command.Json.{end, Fields}
use monitor_agent.Command.Host.{Host}
use monitor_agent.Command.Consumer.{Command, Consumer, handle_command}
use monitor_agent.Transport.Receive.{
  Payload, Hash, field_of, redis_encrypted, redis_params, mqtt_command, fetch_command_detail,
}
use monitor_agent.Transport.Agreement.{Carries}
use monitor_agent.Transport.Publish.{Message}
use monitor_agent.Transport.Channel.{
  Channel, capacity, fresh, Reach, begin, arrive, move, send, start, commands,
}
use monitor_agent.Transport.Channel.Fifo.{all_of, Reach-Fifo}
use monitor_agent.Transport.Channel.Delivered.{Moves, Reach-Delivered}
use monitor_agent.Transport.Session.{publish_all, handlers}
use monitor_agent.Transport.Session.Answered.{message_ids, finals, Reach-Answered}

abbrev restart : Payload
restart = record {
  command_id = lit "7";
  command_type = lit "restart";
  command_params = lit "{}";
  encrypted_payload = empty;
  is_encrypted = false;
}

abbrev restart_hash : Hash
restart_hash =
    (lit "command_params", lit "{}")
    ∷ (lit "command_type", lit "restart")
    ∷ (lit "is_encrypted", lit "0")
    ∷ []

restart-Carries : Carries restart_hash restart
unfolding field_of redis_encrypted lit text_eq
restart-Carries = record { type = refl; params = refl; payload = refl; encrypted = refl }

both_agree :
    fetch_command_detail (λ s. end) (lit "7") (some restart_hash)
    ≡ mqtt_command (λ s. end) (some restart)
unfolding fetch_command_detail mqtt_command redis_params field_of redis_encrypted lit text_eq
both_agree = refl

abbrev no_params : Text → Fields
no_params s = end

abbrev restart_command : Command
restart_command = record {
  id = lit "7";
  type = lit "restart";
  params = end;
  encrypted_payload = empty;
  is_encrypted = false;
}

-- A text that is no JSON has arrived, then a command, which is in the channel.
abbrev waiting : Channel
waiting = record fresh { buffered = restart_command ∷ [] }

waiting-Reach : Reach no_params (none ∷ some restart ∷ []) waiting
unfolding mqtt_command lit
waiting-Reach = move (arrive (some restart) (arrive none begin refl) refl) (send refl (omega arith))

Reach-Fifo_example :
    (commands no_params (none ∷ some restart ∷ []) ≡ all_of waiting)
    × (length waiting.buffered ≤ capacity)
Reach-Fifo_example = Reach-Fifo no_params waiting-Reach

Reach-Delivered_example :
    (t : Channel) × Moves no_params waiting t
    × (t.started ≡ commands no_params (none ∷ some restart ∷ []))
    × (t.buffered ≡ [])
    × (t.sending ≡ none)
Reach-Delivered_example = Reach-Delivered no_params waiting-Reach refl

abbrev host : Host
host = record {
  State = Unit;
  launchctl = λ args s. ((empty, none), s);
  openclaw = λ timeout args s. ((empty, none), s);
  config_path = λ s. (lit "/home/a/openclaw.json", s);
  read_file = λ path s. (inr empty, s);
  write_file = λ path content s. (none, s);
  mkdir_all = λ path s. (none, s);
  stamp = λ s. (lit "20260101-000000", s);
  dir = λ path. path;
  unmarshal = λ content. inl (lit "unexpected end of JSON input");
  marshal_indent = λ v. lit "{}";
}

abbrev consumer : Consumer
consumer = record {
  has_acker = true;
  has_progress = true;
  private_key = none;
  now = 1000;
  prims = bare;
  scan_id = λ id. pos 7;
  parse_envelope = λ payload. inl (lit "unexpected end of JSON input");
  parse_decrypted = λ plaintext. inl (lit "unexpected end of JSON input");
  open_error_text = λ e. lit "refused";
  panic_text = lit "incorrect nonce length";
}

abbrev handled : Channel
handled = record fresh { started = restart_command ∷ [] }

handled-Reach : Reach no_params (none ∷ some restart ∷ []) handled
handled-Reach = move waiting-Reach (start refl refl)

-- what the handler publishes
abbrev answers : List Message
answers = publish_all (lit "node") true (handle_command host consumer restart_command tt).0

Reach-Answered_example : Perm (message_ids (none ∷ some restart ∷ [])) (finals answers)
Reach-Answered_example =
    Reach-Answered (lit "node") true host consumer no_params (none ∷ some restart ∷ []) handled
      handled-Reach refl refl ((restart_command, tt) ∷ []) refl answers
      (unfold handlers in alone answers)
