-- ===== src/Transport/Receive.antt =====
-- internal/transport/mqtt_broker.go and internal/transport/redis_broker.go: from a message to a
-- command.
use monitor_agent.Base.{
  Bool, true, false, not, ◌&&◌, ◌||◌, Option, none, some, List, [], ◌∷◌, ◌++◌, Text, lit, empty,
  is_empty, text_eq, if◌then◌else◌,
}
use monitor_agent.Command.Json.{Fields, end}
use monitor_agent.Command.Consumer.{Command}

-- what `json.Unmarshal` reads of an MQTT message
pub record Payload : Type 0 where
  pub command_id : Text
  pub command_type : Text
  pub command_params : Text
  pub encrypted_payload : Text
  pub is_encrypted : Bool

-- a hash of Redis: a key stands once
abbrev pub Hash : Type 0
Hash = List (Text × Text)

-- `len(data) == 0`
abbrev pub is_hash_empty : Hash → Bool
is_hash_empty [] = true
is_hash_empty (p ∷ ps) = false

-- `data[key]`
unfoldable pub field_of : Text → Hash → Text
field_of key [] = empty
field_of key (p ∷ ps) = if text_eq p.0 key then p.1 else field_of key ps

-- what `BLPop` gives: `goredis.Nil` or an error of the context, another error, or a key and a value
pub data Popped : Type 0 where
  nothing_there : Popped
  broken : Popped
  popped : List Text → Popped

-- how a round of `Run` of the Redis broker ends
pub data Round : Type 0 where
  again : Round
  slept : Round
  handed : Command → Round

unfoldable pub round_of : Option Command → Round
round_of none = again
round_of (some cmd) = handed cmd

-- `isEnc`
unfoldable pub redis_encrypted : Text → Bool
redis_encrypted s = text_eq s (lit "true") || text_eq s (lit "1")

-- `parse_params` is `json.Unmarshal` into a map; the nil map stands for an error.
module _ (parse_params : Text → Fields) where
  -- `handleCommand`; the message is `none` where `json.Unmarshal` fails.
  unfoldable pub mqtt_command : Option Payload → Option Command
  mqtt_command none = none
  mqtt_command (some p) = some (record {
    id = p.command_id;
    type = p.command_type;
    params = if is_empty p.command_params then end else parse_params p.command_params;
    encrypted_payload = p.encrypted_payload;
    is_encrypted = p.is_encrypted;
  })

  unfoldable pub redis_params : Text → Fields
  redis_params s = if not (is_empty s) && not (text_eq s (lit "map[]")) then parse_params s else end

  -- `fetchCommandDetail`; the hash is `none` where `HGetAll` fails.
  unfoldable pub fetch_command_detail : Text → Option Hash → Option Command
  unfolding redis_params redis_encrypted field_of
  fetch_command_detail id none = none
  fetch_command_detail id (some []) = none
  fetch_command_detail id (some (p ∷ ps)) =
      let get = λ (key : Text). field_of key (p ∷ ps) in
      some (record {
        id = id;
        type = get (lit "command_type");
        params = redis_params (get (lit "command_params"));
        encrypted_payload = get (lit "encrypted_payload");
        is_encrypted = redis_encrypted (get (lit "is_encrypted"));
      })

  -- a round of `Run` of the Redis broker, by what `HGetAll` gives for a key
  unfoldable pub redis_round : (Text → Option Hash) → Popped → Round
  unfolding fetch_command_detail round_of
  redis_round hashes nothing_there = again
  redis_round hashes broken = slept
  redis_round hashes (popped (queue ∷ id ∷ more)) =
      round_of (fetch_command_detail id (hashes (lit "agent:command:" ++ id)))
  redis_round hashes (popped _) = again
