-- ===== src/Transport/Channel/Fifo.antt =====
-- The commands are started in the order of their messages, each of them once.
use monitor_agent.Base.{
  ◌≤◌, ◌≡◌, refl, sym, ap, ◌∙◌, Option, none, some, List, [], ◌∷◌, ◌++◌, append_assoc, append-nil,
  arith, length, length-append, Text,
}
use monitor_agent.Command.Json.{Fields}
use monitor_agent.Command.Consumer.{Command}
use monitor_agent.Transport.Receive.{Payload, mqtt_command}
use monitor_agent.Transport.Channel.{
  Channel, capacity, Move, send, start, Reach, begin, arrive, move, cancel, stop, commands,
}

abbrev pub pending : Option Command → List Command
pending none = []
pending (some cmd) = cmd ∷ []

-- The commands on their way, those that are started first.
abbrev pub all_of : Channel → List Command
all_of s = s.started ++ (s.buffered ++ pending s.sending)

module _ (parse_params : Text → Fields) where
  commands-append :
      (ms : List (Option Payload)) (m : Option Payload)
      → commands parse_params (ms ++ m ∷ [])
        ≡ commands parse_params ms ++ pending (mqtt_command parse_params m)
  unfolding commands
  commands-append [] m = refl
  commands-append (x ∷ xs) m = ground (arith, commands-append xs m)

  Move-all_of : {s t : Channel} → Move parse_params s t → all_of t ≡ all_of s
  Move-all_of {s} (send {cmd} e l) =
      simp (e, append_assoc s.buffered (cmd ∷ []) [], append-nil (cmd ∷ []))
  Move-all_of {s} (start {cmd} {rest} r e) =
      simp (e, append_assoc s.started (cmd ∷ []) (rest ++ pending s.sending))

  Move-length :
      {s t : Channel}
      → Move parse_params s t
      → length s.buffered ≤ capacity
      → length t.buffered ≤ capacity
  Move-length {s} (send {cmd} e l) h = ground (arith, length-append s.buffered (cmd ∷ []))
  Move-length {s} (start {cmd} {rest} r e) h =
      let k : length s.buffered ≡ length (cmd ∷ rest) = ap length e in omega arith

  arrive-all_of :
      (s : Channel) (o : Option Command)
      → s.sending ≡ none
      → all_of (record s { sending = o }) ≡ all_of s ++ pending o
  arrive-all_of s o e =
      simp (e, append-nil s.buffered, append_assoc s.started s.buffered (pending o))

  -- In any interleaving, the commands of the messages that arrived are, in the order of arrival,
  -- those that a handler was started for, those in the channel, and the one that is being sent; and
  -- the channel holds at most 32.
  pub Reach-Fifo :
      {ms : List (Option Payload)} {s : Channel}
      → Reach parse_params ms s
      → (commands parse_params ms ≡ all_of s) × (length s.buffered ≤ capacity)
  unfolding commands
  Reach-Fifo begin = (refl, omega arith)
  Reach-Fifo (arrive {ms} {s} m r e) =
      let (h, k) = Reach-Fifo r in
      (
        commands-append ms m
            ∙ ap (λ l. l ++ pending (mqtt_command parse_params m)) h
            ∙ sym (arrive-all_of s (mqtt_command parse_params m) e),
        k,
      )
  Reach-Fifo (move r v) = let (h, k) = Reach-Fifo r in (h ∙ sym (Move-all_of v), Move-length v k)
  Reach-Fifo (cancel r) = Reach-Fifo r
  Reach-Fifo (stop r e) = Reach-Fifo r
