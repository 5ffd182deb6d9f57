-- ===== src/Command/Consumer.antt =====
-- internal/command/consumer.go: what the consumer does with one command. The calls on the broker are
-- recorded as events; their errors are only logged, so they change nothing here.
pub mod Reports
pub mod Origin
use monitor_agent.Base.{
  ℕ, Bool, true, false, not, ◌&&◌, Option, none, some, ◌⊎◌, inl, inr, List, [], ◌∷◌, ◌++◌, Text,
  lit, text_eq, empty, is_empty, ◌==◌, if◌then◌else◌,
}
use monitor_agent.Base.Int.{ℤ, pos, leb_ℤ}
use monitor_agent.Crypto.{
  Primitives, Envelope, OpenError, Opened, opened, refused, panics, open_envelope,
}
use monitor_agent.Command.Json.{Fields, end, field}
use monitor_agent.Command.Host.{Host}
use monitor_agent.Command.Cli.{Result}
use monitor_agent.Command.Executor.{execute}

-- `transport.Command`; a nil map of parameters has no fields.
pub record Command : Type 0 where
  pub id : Text
  pub type : Text
  pub params : Fields
  pub encrypted_payload : Text
  pub is_encrypted : Bool

-- `transport.ProgressReport`; `SnapshotURL` is never set.
pub record ProgressReport : Type 0 where
  pub command_id : ℤ
  pub status : Text
  pub progress : ℕ
  pub current_step : Text
  pub total_steps : ℕ
  pub completed_steps : ℕ
  pub timestamp : ℕ

-- the struct that the plaintext is decoded into
pub record Decrypted : Type 0 where
  pub command_type : Text
  pub command_params : Fields
  pub params : Fields

pub data Event : Type 0 where
  ack : Text → Event
  report : Text → ℕ → Text → Text → Event
  progress_sent : ProgressReport → Event
  marked : Event
  executed : Text → Fields → Event

-- The fields of a `Consumer`, and what it calls: the clock, `fmt.Sscanf` of an id, `json.Unmarshal`,
-- the texts of errors.
pub record Consumer : Type 0 where
  pub has_acker : Bool
  pub has_progress : Bool
  pub private_key : Option Text
  pub now : ℕ
  pub prims : Primitives
  pub scan_id : Text → ℤ
  pub parse_envelope : Text → Text ⊎ Envelope
  pub parse_decrypted : Text → Text ⊎ Decrypted
  pub open_error_text : OpenError → Text
  pub panic_text : Text

abbrev has_fields : Fields → Bool
has_fields end = false
has_fields (field k v fs) = true

-- What a command asks for: a type and parameters to execute, an error to report, or a panic.
pub data Request : Type 0 where
  run : Text → Fields → Request
  reject : Text → Request
  crash : Request

pub decrypted_params : Decrypted → Fields
decrypted_params d =
    if not (has_fields d.command_params) && has_fields d.params then d.params else d.command_params

-- the block of `handleCommand` for an encrypted command
unfoldable pub decrypt : Consumer → Text → Request
unfolding decrypted_params
decrypt c payload = elim c.private_key [
  | none ↦ reject (lit "no private key for decryption")
  | some key ↦ elim (c.parse_envelope payload) [
    | inl err ↦ reject (lit "parse envelope: " ++ err)
    | inr env ↦ elim (open_envelope c.prims key c.now env) [
      | panics ↦ crash
      | refused e ↦ reject (lit "decrypt: " ++ c.open_error_text e)
      | opened plaintext ↦ elim (c.parse_decrypted plaintext) [
        | inl err ↦ reject (lit "unmarshal decrypted: " ++ err)
        | inr d ↦ run d.command_type (decrypted_params d)
      ]
    ]
  ]
]

unfoldable pub request_of : Consumer → Command → Request
unfolding decrypt
request_of c cmd =
    if cmd.is_encrypted && not (is_empty cmd.encrypted_payload)
    then decrypt c cmd.encrypted_payload
    else run cmd.type cmd.params

-- `sendProgress`
unfoldable pub send_progress : Consumer → Text → Text → ℕ → Text → ℕ → ℕ → List Event
send_progress c id status progress step total completed =
    let n = c.scan_id id in
    if not c.has_progress
    then []
    else if leb_ℤ n (pos 0) && leb_ℤ (pos 0) n
    then []
    else progress_sent (record {
      command_id = n;
      status = status;
      progress = progress;
      current_step = step;
      total_steps = total;
      completed_steps = completed;
      timestamp = c.now;
    })
      ∷ []

module _ (h : Host) where
  open h use {State}

  -- the end of `handleCommand`, once the type and the parameters are known
  unfoldable pub run_command : Consumer → Text → Text → Fields → State → List Event × State
  run_command c id command_type params s =
      let (r, s') = execute h command_type params s in
      (
        report id 1 empty empty
            ∷ (send_progress c id (lit "running") 0 (lit "开始执行") 1 0
                ++ ((if text_eq command_type (lit "openclaw_message") then marked ∷ [] else [])
                    ++ (executed command_type params
                        ∷ (send_progress c id
                              (if r.status == 3 then lit "failed" else lit "completed") 100
                              (lit "执行完成") 1 1
                            ++ report id r.status r.output r.error_message ∷ [])))),
        s',
      )

  unfoldable pub answer : Consumer → Text → Request → State → List Event × State
  unfolding run_command
  answer c id (run command_type params) s = run_command c id command_type params s
  answer c id (reject err) s = (report id 3 empty err ∷ [], s)
  answer c id crash s = (report id 3 empty (lit "panic: " ++ c.panic_text) ∷ [], s)

  -- `handleCommand`
  unfoldable pub handle_command : Consumer → Command → State → List Event × State
  unfolding answer request_of
  handle_command c cmd s =
      let (events, s') = answer c cmd.id (request_of c cmd) s in
      ((if c.has_acker then ack cmd.id ∷ [] else []) ++ events, s')
