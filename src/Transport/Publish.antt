-- ===== src/Transport/Publish.antt =====
-- internal/transport/mqtt_broker.go and internal/transport/http_reporter.go: what is published for a
-- command.
use monitor_agent.Base.{
  ℕ, Bool, true, false, Option, none, some, ◌++◌, Text, lit, if◌then◌else◌, ◌&&◌,
}
use monitor_agent.Base.Int.{ℤ, pos, leb_ℤ}
use monitor_agent.Command.Consumer.{ProgressReport}

pub data Body : Type 0 where
  result : Text → ℕ → Text → Text → Body
  ack : Text → Body
  progress : ProgressReport → Body
  status : Text → Body

pub record Message : Type 0 where
  pub topic : Text
  pub retained : Bool
  pub body : Body

-- `fmt.Sprintf("%s/%s/…", mqttTopicPrefix, deviceID)`
unfoldable pub topic : Text → Text → Text
topic device kind = lit "openclaw/" ++ (device ++ (lit "/" ++ kind))

-- `ReportResult` of the MQTT broker
unfoldable pub mqtt_report : Text → Text → ℕ → Text → Text → Message
unfolding topic
mqtt_report device id code output err = record {
  topic = topic device (lit "result");
  retained = false;
  body = result id code output err;
}

-- `PublishAck`
unfoldable pub publish_ack : Text → Text → Message
unfolding topic
publish_ack device id = record { topic = topic device (lit "ack"); retained = false; body = ack id }

-- `PublishProgress`; `marshalled` is false where `json.Marshal` fails.
unfoldable pub publish_progress : Bool → Text → ProgressReport → Option Message
unfolding topic
publish_progress marshalled device r =
    if marshalled
    then some
        (record { topic = topic device (lit "progress"); retained = false; body = progress r })
    else none

-- the status that `NewMQTTBroker` sets as the will, publishes on a connection, and `Close` publishes
unfoldable pub presence : Text → Text → Message
unfolding topic
presence device t = record { topic = topic device (lit "status"); retained = true; body = status t }

-- the default of `NewMQTTBroker`
unfoldable pub keep_alive_of : ℤ → ℤ
keep_alive_of n = if leb_ℤ n (pos 0) then pos 60 else n

pub record CommandResult : Type 0 where
  pub id : ℤ
  pub status : ℕ
  pub result : Text
  pub error_message : Text

-- `ReportResult` of the HTTP reporter: `none` is the error for an invalid id. `scan_id` is
-- `fmt.Sscanf`, which leaves 0 where it finds no number.
unfoldable pub http_report : (Text → ℤ) → Text → ℕ → Text → Text → Option CommandResult
http_report scan_id id code output err =
    if leb_ℤ (scan_id id) (pos 0) && leb_ℤ (pos 0) (scan_id id)
    then none
    else some (record { id = scan_id id; status = code; result = output; error_message = err })
