-- ===== src/Command/Consumer/Reports.antt =====
-- The results that the consumer reports for one command.
use monitor_agent.Base.{
  ℕ, ◌≡◌, refl, ap, arith, Bool, true, false, ◌⊎◌, inl, List, [], ◌∷◌, ◌++◌, Text, lit, text_eq,
  if◌then◌else◌,
}
use monitor_agent.Command.Json.{Fields}
use monitor_agent.Command.Host.{Host}
use monitor_agent.Command.Executor.{execute}
use monitor_agent.Command.Executor.Final.{execute-IsFinal}
use monitor_agent.Command.Consumer.{
  Command, Consumer, Event, ack, report, progress_sent, marked, executed, Request, run, reject,
  crash, request_of, send_progress, run_command, answer, handle_command,
}

-- The ids and statuses of the reports among the events, in order.
unfoldable pub reports : List Event → List (Text × ℕ)
reports [] = []
reports (report id status out err ∷ es) = (id, status) ∷ reports es
reports (_ ∷ es) = reports es

reports-append : (es fs : List Event) → reports (es ++ fs) ≡ reports es ++ reports fs
unfolding reports
reports-append [] fs = refl
reports-append (report i st o e ∷ es) fs =
    ap (λ (l : List (Text × ℕ)). (i, st) ∷ l) (reports-append es fs)
reports-append (ack i ∷ es) fs = reports-append es fs
reports-append (progress_sent r ∷ es) fs = reports-append es fs
reports-append (marked ∷ es) fs = reports-append es fs
reports-append (executed t p ∷ es) fs = reports-append es fs

reports-send_progress :
    (c : Consumer) (id status : Text) (n : ℕ) (step : Text) (total completed : ℕ)
    → reports (send_progress c id status n step total completed) ≡ []
unfolding send_progress reports
reports-send_progress c id status n step total completed = ground arith

reports-marks : (b : Bool) → reports (if b then marked ∷ [] else []) ≡ []
unfolding reports
reports-marks true = refl
reports-marks false = refl

reports-acks : (b : Bool) (id : Text) → reports (if b then ack id ∷ [] else []) ≡ []
unfolding reports
reports-acks true id = refl
reports-acks false id = refl

-- What the reports of one command may be.
abbrev pub OneFinal : Text → List (Text × ℕ) → Type 0
OneFinal id rs = (rs ≡ (id, 3) ∷ []) ⊎ (rs ≡ (id, 1) ∷ (id, 2) ∷ []) ⊎ (rs ≡ (id, 1) ∷ (id, 3) ∷ [])

module _ (h : Host) (c : Consumer) where
  open h use {State}

  reports-run_command :
      (id t : Text) (p : Fields) (s : State)
      → reports (run_command h c id t p s).0 ≡ (id, 1) ∷ (id, (execute h t p s).0.status) ∷ []
  unfolding run_command reports
  reports-run_command id t p s =
      simp
        (reports-append, reports-send_progress, reports-marks (text_eq t (lit "openclaw_message")))

  run-OneFinal :
      (id t : Text) (p : Fields) (s : State) → OneFinal id (reports (run_command h c id t p s).0)
  run-OneFinal id t p s = rw reports-run_command (ground (arith, execute-IsFinal h t p s))

  answer-OneFinal :
      (id : Text) (r : Request) (s : State) → OneFinal id (reports (answer h c id r s).0)
  unfolding answer reports
  answer-OneFinal id (run t p) s = run-OneFinal id t p s
  answer-OneFinal id (reject err) s = inl refl
  answer-OneFinal id crash s = inl refl

  -- Of each command exactly one final result is reported, as the last report: status 3 alone, or
  -- status 1 and then status 2 or 3. All reports carry the id of the command.
  pub handle_command-reports :
      (cmd : Command) (s : State) → OneFinal cmd.id (reports (handle_command h c cmd s).0)
  unfolding handle_command
  handle_command-reports cmd s =
      rw (reports-append, reports-acks) (answer-OneFinal cmd.id (request_of c cmd) s)
