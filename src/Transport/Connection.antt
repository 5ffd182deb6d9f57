-- ===== src/Transport/Connection.antt =====
-- `NewMQTTBroker` and `Close` of internal/transport/mqtt_broker.go: the options of the client, what is
-- called on a connection, and the retained status of the device.
pub mod Presence
use monitor_agent.Base.{
  ℕ, Bool, true, false, not, Option, none, some, List, [], ◌∷◌, ◌++◌, Text, lit, text_eq, is_empty,
  if◌then◌else◌,
}
use monitor_agent.Base.Int.{ℤ}
use monitor_agent.Transport.Publish.{Message, topic, presence, keep_alive_of}

pub record MqttConfig : Type 0 where
  pub broker_url : Text
  pub device_id : Text
  pub keep_alive : ℤ
  pub auto_reconnect : Bool
  pub username : Text
  pub password : Text
  pub use_tls : Bool

-- the options that are set on the client; times are in seconds
pub record Options : Type 0 where
  pub broker : Text
  pub client_id : Text
  pub keep_alive : ℤ
  pub auto_reconnect : Bool
  pub max_reconnect_interval : ℕ
  pub clean_session : Bool
  pub will : Message
  pub credentials : Option (Text × Text)
  pub min_tls_1_2 : Bool

unfoldable pub options_of : MqttConfig → Options
unfolding presence keep_alive_of
options_of cfg = record {
  broker = cfg.broker_url;
  client_id = lit "agent-" ++ cfg.device_id;
  keep_alive = keep_alive_of cfg.keep_alive;
  auto_reconnect = true;
  max_reconnect_interval = 30;
  clean_session = false;
  will = presence cfg.device_id (lit "offline");
  credentials = if not (is_empty cfg.username) then some (cfg.username, cfg.password) else none;
  min_tls_1_2 = cfg.use_tls;
}

pub data Call : Type 0 where
  publish : Message → Call
  subscribe : Text → Call
  disconnect : Call

-- the handler that `SetOnConnectHandler` is given; an error of the subscription is only logged
unfoldable pub on_connect : Text → List Call
unfolding presence topic
on_connect device =
    publish (presence device (lit "online")) ∷ subscribe (topic device (lit "cmd")) ∷ []

unfoldable pub close : Text → List Call
unfolding presence
close device = publish (presence device (lit "offline")) ∷ disconnect ∷ []

-- The end of `NewMQTTBroker`, by what `Connect` gives: the client's options, or the error.
unfoldable pub new_mqtt_broker : MqttConfig → Option Text → Option Text × Option Options
unfolding options_of
new_mqtt_broker cfg none = (none, some (options_of cfg))
new_mqtt_broker cfg (some err) = (some (lit "mqtt connect: " ++ err), none)
