-- ===== src/Transport/Session/Answered.antt =====
-- Each message that carries a command is answered once.
use mathlib.Core.List.{Perm, filter_map, filter_map-append}
use mathlib.Core.List.Perm
use monitor_agent.Base.{
  ℕ, ◌≡◌, refl, ap, ◌∙◌, Bool, Option, none, some, List, [], ◌∷◌, Text, inl, inr, ◌==◌, Bool-cases,
  if◌then◌else◌, map,
}
use monitor_agent.Base.Merge.{flatten, Merge, Merge-Perm}
use monitor_agent.Command.Json.{Fields}
use monitor_agent.Command.Host.{Host}
use monitor_agent.Command.Consumer.{
  Command, Consumer, Event, ack, report, progress_sent, marked, executed, handle_command,
}
use monitor_agent.Command.Consumer.Reports.{reports, OneFinal, handle_command-reports}
use monitor_agent.Transport.Receive.{Payload, mqtt_command}
use monitor_agent.Transport.Publish.{Message, mqtt_report, publish_ack, publish_progress}
use monitor_agent.Transport.Channel.{Channel, Reach, commands}
use monitor_agent.Transport.Channel.Delivered.{started-commands}
use monitor_agent.Transport.Session.{publish, publish_all, handlers, final_of}

abbrev pub finals : List Message → List Text
finals = filter_map final_of

-- The id of a report, unless its status is 1.
abbrev final_id : Text × ℕ → Option Text
final_id r = if r.1 == 1 then none else some r.0

-- The ids of the messages that `json.Unmarshal` accepts.
abbrev pub message_ids : List (Option Payload) → List Text
message_ids [] = []
message_ids (none ∷ ms) = message_ids ms
message_ids (some p ∷ ms) = p.command_id ∷ message_ids ms

ids-commands :
    (parse_params : Text → Fields) (ms : List (Option Payload))
    → map (λ (cmd : Command). cmd.id) (commands parse_params ms) ≡ message_ids ms
unfolding commands mqtt_command
ids-commands parse_params [] = refl
ids-commands parse_params (none ∷ ms) = ids-commands parse_params ms
ids-commands parse_params (some p ∷ ms) = ap (λ l. p.command_id ∷ l) (ids-commands parse_params ms)

module _ (device : Text) (marshals : Bool) where
  finals-publish_all :
      (es : List Event) → finals (publish_all device marshals es) ≡ filter_map final_id (reports es)
  unfolding publish_all publish reports mqtt_report publish_ack publish_progress filter_map
  finals-publish_all [] = refl
  finals-publish_all (ack id ∷ es) = finals-publish_all es
  finals-publish_all (report id code out err ∷ es) = elim (Bool-cases (code == 1)) [
    | inl y ↦ rw y (finals-publish_all es)
    | inr n ↦ rw n (ap (λ l. id ∷ l) (finals-publish_all es))
  ]
  finals-publish_all (progress_sent r ∷ es) = elim (Bool-cases marshals) [
    | inl y ↦ rw y (finals-publish_all es)
    | inr n ↦ rw n (finals-publish_all es)
  ]
  finals-publish_all (marked ∷ es) = finals-publish_all es
  finals-publish_all (executed t p ∷ es) = finals-publish_all es

  finals-OneFinal :
      (id : Text) (rs : List (Text × ℕ)) → OneFinal id rs → filter_map final_id rs ≡ id ∷ []
  unfolding filter_map
  finals-OneFinal id rs (inl e) = rw e refl
  finals-OneFinal id rs (inr (inl e)) = rw e refl
  finals-OneFinal id rs (inr (inr e)) = rw e refl

  module _ (h : Host) (c : Consumer) where
    open h use {State}

    finals-handlers :
        (jobs : List (Command × State))
        → finals (flatten (handlers device marshals h c jobs))
          ≡ map (λ (j : Command × State). j.0.id) jobs
    unfolding handlers filter_map
    finals-handlers [] = refl
    finals-handlers ((cmd, s) ∷ jobs) =
        let es = (handle_command h c cmd s).0 in
        let one =
          finals-publish_all es
          ∙ finals-OneFinal cmd.id (reports es) (handle_command-reports h c cmd s) in
        rw
          (
            filter_map-append final_of (publish_all device marshals es)
                (flatten (handlers device marshals h c jobs)),
            one,
            finals-handlers jobs,
          )
          refl

    map-map :
        (jobs : List (Command × State))
        → map (λ (j : Command × State). j.0.id) jobs
          ≡ map (λ (cmd : Command). cmd.id) (map (λ (j : Command × State). j.0) jobs)
    map-map [] = refl
    map-map (j ∷ jobs) = ap (λ l. j.0.id ∷ l) (map-map jobs)

    -- If every message that arrived has reached its handler, the handlers have ended, and what they
    -- publish is interleaved in any way, then the final results published carry the ids of the
    -- messages that hold a command: one final result for each of them, and no other.
    pub Reach-Answered :
        (parse_params : Text → Fields) (ms : List (Option Payload)) (s : Channel)
        → Reach parse_params ms s
        → s.buffered ≡ []
        → s.sending ≡ none
        → (jobs : List (Command × State)) → map (λ (j : Command × State). j.0) jobs ≡ s.started
        → (out : List Message) → Merge (handlers device marshals h c jobs) out
        → Perm (message_ids ms) (finals out)
    Reach-Answered parse_params ms s r b e jobs j out m =
        let ids : map (λ (j : Command × State). j.0.id) jobs ≡ message_ids ms =
          map-map jobs
          ∙ ap (map (λ (cmd : Command). cmd.id)) (j ∙ started-commands parse_params r b e)
          ∙ ids-commands parse_params ms in
        rw (← ids, ← finals-handlers jobs) (Perm.filter_map final_of (Merge-Perm m))
