-- ===== src/Transport/Connection/Presence.antt =====
-- What the server keeps as the status of the device while connections come and go.
use monitor_agent.Base.{
  ◌≡◌, refl, Option, none, some, List, [], ◌∷◌, Text, lit, text_eq, text_eq_refl, if◌then◌else◌,
}
use monitor_agent.Transport.Publish.{Message, topic, presence}
use monitor_agent.Transport.Connection.{
  MqttConfig, options_of, Call, publish, subscribe, disconnect, on_connect, close,
}

-- The retained messages of a server, the newest first, and the topics that the client is subscribed to.
pub record Server : Type 0 where
  pub retained : List Message
  pub topics : List Text

-- A server keeps the newest retained message of a topic.
abbrev pub retained_at : Text → List Message → Option Message
retained_at t [] = none
retained_at t (m ∷ ms) = if text_eq m.topic t then some m else retained_at t ms

abbrev pub keep_message : Message → Server → Server
keep_message m s = if m.retained then record s { retained = m ∷ s.retained } else s

abbrev pub serve : List Call → Server → Server
serve [] s = s
serve (publish m ∷ cs) s = serve cs (keep_message m s)
serve (subscribe t ∷ cs) s = serve cs (record s { topics = t ∷ s.topics })
serve (disconnect ∷ cs) s = serve cs s

pub data Phase : Type 0 where
  never up down closed : Phase

-- The life of a client with these options. A server publishes the will of a client whose connection
-- is lost; `Close` takes it back.
pub data Life (cfg : MqttConfig) : Phase → Server → Type 0 where
  born : (s : Server) → Life cfg never s
  connected : {s : Server} → Life cfg never s → Life cfg up (serve (on_connect cfg.device_id) s)
  reconnected : {s : Server} → Life cfg down s → Life cfg up (serve (on_connect cfg.device_id) s)
  lost : {s : Server} → Life cfg up s → Life cfg down (keep_message (options_of cfg).will s)
  ended : {s : Server} → Life cfg up s → Life cfg closed (serve (close cfg.device_id) s)

-- The status that the server keeps for the device in this phase.
abbrev pub Shown : Text → Phase → Server → Type 0
Shown device never s = Unit
Shown device up s =
    retained_at (topic device (lit "status")) s.retained ≡ some (presence device (lit "online"))
Shown device down s =
    retained_at (topic device (lit "status")) s.retained ≡ some (presence device (lit "offline"))
Shown device closed s =
    retained_at (topic device (lit "status")) s.retained ≡ some (presence device (lit "offline"))

newest :
    (device t : Text) (s : Server)
    → retained_at (topic device (lit "status")) (keep_message (presence device t) s).retained
      ≡ some (presence device t)
unfolding presence
newest device t s = rw (text_eq_refl (topic device (lit "status"))) refl

-- The server keeps the status "online" from a connection until it is lost or closed, and "offline"
-- from then on until the next connection.
pub Life-Shown :
    (cfg : MqttConfig) {p : Phase} {s : Server} → Life cfg p s → Shown cfg.device_id p s
unfolding on_connect close options_of
Life-Shown cfg (born s) = tt
Life-Shown cfg (connected {s} l) = newest cfg.device_id (lit "online") s
Life-Shown cfg (reconnected {s} l) = newest cfg.device_id (lit "online") s
Life-Shown cfg (lost {s} l) = newest cfg.device_id (lit "offline") s
Life-Shown cfg (ended {s} l) = newest cfg.device_id (lit "offline") s
