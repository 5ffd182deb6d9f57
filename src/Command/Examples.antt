-- ===== src/Command/Examples.antt =====
-- The theorems of the commands on a machine that answers at once.
use monitor_agent.Base.{
  All, ◌≡◌, ◌↔◌, refl, true, Option, none, some, ◌⊎◌, inl, inr, [], ◌∷◌, Text, lit, empty, is_empty,
  is_some, trim_space, text_eq,
}
use monitor_agent.Base.Int.{pos}
use monitor_agent.Crypto.Examples.{bare}
use monitor_agent.Command.Json.{Json, text, obj, Fields, end, field, str_param, lookup}
use monitor_agent.Command.Host.{Host}
use monitor_agent.Command.Reply.{find_reply}
use monitor_agent.Command.Reply.First.{first_of, candidates, Filled, find_reply_lem}
use monitor_agent.Command.Executor.{execute}
use monitor_agent.Command.Message.{exec_message}
use monitor_agent.Command.Executor.Final.{IsFinal, execute-IsFinal}
use monitor_agent.Command.Message.Failure.{exec_message_failed}
use monitor_agent.Command.Consumer.{Command, Consumer, handle_command}
use monitor_agent.Command.Consumer.Reports.{reports, OneFinal, handle_command-reports}
use monitor_agent.Command.Consumer.Origin.{runs, Origin, handle_command-Origin}

-- The state is the text that was written last; the CLI fails and prints a line.
abbrev host : Host
host = record {
  State = Text;
  launchctl = λ args s. ((empty, none), s);
  openclaw = λ timeout args s. ((lit "gateway closed", some (lit "exit status 1")), s);
  config_path = λ s. (lit "/home/a/openclaw.json", s);
  read_file = λ path s. (inr s, s);
  write_file = λ path content s. (none, content);
  mkdir_all = λ path s. (none, s);
  stamp = λ s. (lit "20260101-000000", s);
  dir = λ path. path;
  unmarshal = λ content. inr (text content);
  marshal_indent = λ v. lit "{}";
}

abbrev message_params : Fields
message_params = field (lit "message") (text (lit "hello")) end

abbrev write_params : Fields
write_params =
    field (lit "action") (text (lit "write")) (field (lit "content") (text (lit "{}")) end)

execute-IsFinal_example : IsFinal (execute host (lit "openclaw_message") message_params empty).0
execute-IsFinal_example = execute-IsFinal host (lit "openclaw_message") message_params empty

exec_message_failed_example : ((exec_message host message_params empty).0.status ≡ 3) ↔ (
    (is_some (some (lit "exit status 1")) ≡ true)
    × (is_empty (trim_space (lit "gateway closed")) ≡ true))
exec_message_failed_example =
    exec_message_failed host message_params empty
      (unfold str_param lookup text_eq lit trim_space is_empty in refl)

abbrev no_json : Text → Option Json
no_json t = none

abbrev answered : Json
answered = obj (field (lit "reply") (text (lit "done")) end)

find_reply_lem_example :
    (find_reply no_json 9 answered ≡ first_of (candidates no_json 9 answered))
    × All Filled (candidates no_json 9 answered)
find_reply_lem_example = find_reply_lem no_json 9 answered

abbrev consumer : Consumer
consumer = record {
  has_acker = true;
  has_progress = true;
  private_key = some (lit "private");
  now = 1000;
  prims = bare;
  scan_id = λ id. pos 7;
  parse_envelope = λ payload. inl (lit "unexpected end of JSON input");
  parse_decrypted = λ plaintext. inl (lit "unexpected end of JSON input");
  open_error_text = λ e. lit "refused";
  panic_text = lit "incorrect nonce length";
}

abbrev encrypted : Command
encrypted = record {
  id = lit "7";
  type = empty;
  params = end;
  encrypted_payload = lit "{";
  is_encrypted = true;
}

handle_command-reports_example :
    OneFinal (lit "7") (reports (handle_command host consumer encrypted empty).0)
handle_command-reports_example = handle_command-reports host consumer encrypted empty

handle_command-Origin_example :
    (runs (handle_command host consumer encrypted empty).0 ≡ [])
    ⊎ ((t : Text) × (p : Fields) × (runs (handle_command host consumer encrypted empty).0
          ≡ (t, p) ∷ [])
        × Origin consumer encrypted t p)
handle_command-Origin_example = handle_command-Origin host consumer encrypted empty
