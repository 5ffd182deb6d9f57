-- ===== src/Transport/Channel.antt =====
-- internal/transport/mqtt_broker.go: the way of a command from the MQTT client through `cmdCh` to the
-- handlers that `Run` starts, as steps that interleave in any order. The client calls
-- `handleCommand` for one message at a time, since the options leave its `SetOrderMatters` alone.
pub mod Fifo
pub mod Delivered
use monitor_agent.Base.{
  ℕ, ◌<◌, ◌≡◌, Bool, true, false, Option, none, some, List, [], ◌∷◌, ◌++◌, Text, length,
}
use monitor_agent.Command.Json.{Fields}
use monitor_agent.Command.Consumer.{Command}
use monitor_agent.Transport.Receive.{Payload, mqtt_command}

abbrev pub capacity : ℕ
capacity = 32

pub record Channel : Type 0 where
  -- the command that `handleCommand` is about to send to `cmdCh`, if it is called
  pub sending : Option Command
  -- what `cmdCh` holds, the oldest first
  pub buffered : List Command
  -- the commands that `Run` has started a handler for, the oldest first
  pub started : List Command
  -- the context is cancelled
  pub cancelled : Bool
  -- `Run` has not returned
  pub running : Bool

abbrev pub fresh : Channel
fresh = record { sending = none; buffered = []; started = []; cancelled = false; running = true }

module _ (parse_params : Text → Fields) where
  -- The sends and the rounds of `Run`, without a new message and without a cancellation. `select` may
  -- take a command although the context is cancelled.
  pub data Move (s : Channel) : Channel → Type 0 where
    send :
        {cmd : Command}
        → s.sending ≡ some cmd
        → length s.buffered < capacity
        → Move s (record s { sending = none; buffered = s.buffered ++ cmd ∷ [] })
    start :
        {cmd : Command} {rest : List Command}
        → s.running ≡ true
        → s.buffered ≡ cmd ∷ rest
        → Move s (record s { buffered = rest; started = s.started ++ cmd ∷ [] })

  -- What is reached after these messages have arrived, the oldest first; a message is `none` where
  -- `json.Unmarshal` fails.
  pub data Reach : List (Option Payload) → Channel → Type 0 where
    begin : Reach [] fresh
    arrive :
        {ms : List (Option Payload)} {s : Channel} (m : Option Payload)
        → Reach ms s
        → s.sending ≡ none
        → Reach (ms ++ m ∷ []) (record s { sending = mqtt_command parse_params m })
    move : {ms : List (Option Payload)} {s t : Channel} → Reach ms s → Move s t → Reach ms t
    cancel :
        {ms : List (Option Payload)} {s : Channel}
        → Reach ms s
        → Reach ms (record s { cancelled = true })
    stop :
        {ms : List (Option Payload)} {s : Channel}
        → Reach ms s
        → s.cancelled ≡ true
        → Reach ms (record s { running = false })

  -- the commands of the messages, in order
  unfoldable pub commands : List (Option Payload) → List Command
  commands [] = []
  commands (m ∷ ms) = elim (mqtt_command parse_params m) [
    | none ↦ commands ms
    | some cmd ↦ cmd ∷ commands ms
  ]
