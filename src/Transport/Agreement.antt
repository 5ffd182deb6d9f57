-- ===== src/Transport/Agreement.antt =====
-- The two brokers agree on a command.
use monitor_agent.Base.{
  ◌≡◌, refl, false, some, [], ◌∷◌, Text, lit, is_empty, text_eq, if◌then◌else◌,
}
use monitor_agent.Command.Json.{Fields, end}
use monitor_agent.Transport.Receive.{
  Payload, Hash, is_hash_empty, field_of, redis_params, redis_encrypted, mqtt_command,
  fetch_command_detail,
}

-- The hash has the fields of the message.
pub record Carries (h : Hash) (p : Payload) : Type 0 where
  pub type : field_of (lit "command_type") h ≡ p.command_type
  pub params : field_of (lit "command_params") h ≡ p.command_params
  pub payload : field_of (lit "encrypted_payload") h ≡ p.encrypted_payload
  pub encrypted : redis_encrypted (field_of (lit "is_encrypted") h) ≡ p.is_encrypted

module _ (parse_params : Text → Fields) where
  same_params :
      (s : Text)
      → text_eq s (lit "map[]") ≡ false
      → redis_params parse_params s ≡ (if is_empty s then end else parse_params s)
  unfolding redis_params
  same_params [] h = refl
  same_params (c ∷ s) h = rw h refl

  -- A hash that is not empty and has the fields of an MQTT message gives the same command as the
  -- message, unless the parameters are the text "map[]".
  pub fetch_command_detail-mqtt_command :
      (p : Payload) (h : Hash)
      → is_hash_empty h ≡ false
      → Carries h p
      → text_eq p.command_params (lit "map[]") ≡ false
      → fetch_command_detail parse_params p.command_id (some h) ≡ mqtt_command parse_params (some p)
  unfolding fetch_command_detail mqtt_command
  fetch_command_detail-mqtt_command p [] e c h = absurd (cc)
  fetch_command_detail-mqtt_command p (x ∷ xs) e c h =
      rw (c.type, c.params, c.payload, c.encrypted, same_params p.command_params h) refl
