-- ===== src/Transport/Channel/Delivered.antt =====
-- While `Run` goes on, every command reaches its handler.
use monitor_agent.Base.{
  ◌≡◌, refl, sym, ◌∙◌, true, Option, none, List, [], ◌∷◌, ◌++◌, append_assoc, length, ◌<◌,
  append-nil, arith, Text, Option-cases, inl, inr,
}
use monitor_agent.Command.Json.{Fields}
use monitor_agent.Command.Consumer.{Command}
use monitor_agent.Transport.Receive.{Payload}
use monitor_agent.Transport.Channel.{Channel, capacity, Move, send, start, Reach, move, commands}
use monitor_agent.Transport.Channel.Fifo.{all_of, Reach-Fifo}

-- Moves, one after the other.
pub data Moves (parse_params : Text → Fields) : Channel → Channel → Type 0 where
  still : {s : Channel} → Moves parse_params s s
  then_move :
      {s t u : Channel} → Move parse_params s t → Moves parse_params t u → Moves parse_params s u

module _ (parse_params : Text → Fields) where
  Moves-trans :
      {s t u : Channel} → Moves parse_params s t → Moves parse_params t u → Moves parse_params s u
  Moves-trans still w = w
  Moves-trans (then_move v vs) w = then_move v (Moves-trans vs w)

  pub Reach-Moves :
      {ms : List (Option Payload)} {s t : Channel}
      → Reach parse_params ms s
      → Moves parse_params s t
      → Reach parse_params ms t
  Reach-Moves r still = r
  Reach-Moves r (then_move v vs) = Reach-Moves (move r v) vs

  -- Moves to a channel that is empty.
  record Emptied (s : Channel) : Type 0 where
    end : Channel
    moves : Moves parse_params s end
    empty : end.buffered ≡ []
    same_sending : end.sending ≡ s.sending
    same_running : end.running ≡ s.running
    all_started : end.started ≡ s.started ++ s.buffered

  start_buffered :
      (cmds : List Command) (s : Channel) → s.buffered ≡ cmds → s.running ≡ true → Emptied s
  start_buffered [] s e r = record {
    end = s;
    moves = still;
    empty = e;
    same_sending = refl;
    same_running = refl;
    all_started = simp (e, append-nil s.started);
  }
  start_buffered (cmd ∷ rest) s e r =
      let t =
        start_buffered rest (record s { buffered = rest; started = s.started ++ cmd ∷ [] }) refl
          r in
      record {
        end = t.end;
        moves = then_move (start r e) t.moves;
        empty = t.empty;
        same_sending = t.same_sending;
        same_running = t.same_running;
        all_started = t.all_started ∙ simp (e, append_assoc s.started (cmd ∷ []) rest);
      }

  pub started-commands :
      {ms : List (Option Payload)} {s : Channel}
      → Reach parse_params ms s
      → s.buffered ≡ []
      → s.sending ≡ none
      → s.started ≡ commands parse_params ms
  started-commands {ms} {s} r b e =
      let (h, _) = Reach-Fifo parse_params r in
      let k : all_of s ≡ s.started = simp (b, e, append-nil s.started) in sym (h ∙ k)

  -- While `Run` has not returned, there are moves after which every command is started: in the order
  -- of the messages that arrived, and with nothing left in the channel or on its way to it.
  pub Reach-Delivered :
      {ms : List (Option Payload)} {s : Channel}
      → Reach parse_params ms s
      → s.running ≡ true
      → (t : Channel) × Moves parse_params s t
        × (t.started ≡ commands parse_params ms)
        × (t.buffered ≡ [])
        × (t.sending ≡ none)
  Reach-Delivered {ms} {s} r run =
      let a = start_buffered s.buffered s refl run in
      elim (Option-cases s.sending) [
        | inl e ↦
            let idle = a.same_sending ∙ e in
            (a.end, a.moves, started-commands (Reach-Moves r a.moves) a.empty idle, a.empty, idle)
        | inr (cmd, e) ↦
            let room : length a.end.buffered < capacity = rw a.empty (omega arith) in
            let sends = send (a.same_sending ∙ e) room in
            let t1 : Channel = record a.end {
              sending = none;
              buffered = a.end.buffered ++ cmd ∷ [];
            } in
            let b = start_buffered t1.buffered t1 refl (a.same_running ∙ run) in
            let moves = Moves-trans a.moves (then_move sends b.moves) in
            (
              b.end,
              moves,
              started-commands (Reach-Moves r moves) b.empty b.same_sending,
              b.empty,
              b.same_sending,
            )
      ]
