-- ===== src/Transport/Session.antt =====
-- The consumer on the MQTT broker, as `runAgent` wires it: the broker is its acknowledger, its
-- progress reporter and its reporter of results (cmd/agent/main.go, internal/command/consumer.go).
pub mod Answered
use monitor_agent.Base.{ℕ, Bool, Option, none, some, List, [], ◌∷◌, ◌++◌, Text, ◌==◌, if◌then◌else◌}
use monitor_agent.Command.Host.{Host}
use monitor_agent.Command.Consumer.{
  Command, Consumer, Event, ack, report, progress_sent, marked, executed, handle_command,
}
use monitor_agent.Transport.Publish.{
  Message, Body, result, mqtt_report, publish_ack, publish_progress,
}

abbrev pub published : Option Message → List Message
published none = []
published (some m) = m ∷ []

module _ (device : Text) (marshals : Bool) where
  -- What the broker publishes for a call of the consumer; a failure of the network is only logged.
  unfoldable pub publish : Event → List Message
  publish (ack id) = publish_ack device id ∷ []
  publish (report id code output err) = mqtt_report device id code output err ∷ []
  publish (progress_sent r) = published (publish_progress marshals device r)
  publish marked = []
  publish (executed t p) = []

  unfoldable pub publish_all : List Event → List Message
  unfolding publish
  publish_all [] = []
  publish_all (e ∷ es) = publish e ++ publish_all es

  module _ (h : Host) (c : Consumer) where
    open h use {State}

    -- the goroutines of `Run`, each with what its handler publishes from the state that it meets
    unfoldable pub handlers : List (Command × State) → List (List Message)
    unfolding publish_all
    handlers [] = []
    handlers ((cmd, s) ∷ jobs) = publish_all (handle_command h c cmd s).0 ∷ handlers jobs

-- The id of a final result: a result whose status is not 1, which is that of a command that runs.
abbrev pub final_of : Message → Option Text
final_of m = elim m.body [
  | result id code output err ↦ if code == 1 then none else some id
  | Body.ack id ↦ none
  | Body.progress r ↦ none
  | Body.status t ↦ none
]
