-- ===== src/Agent/Heartbeat/Extra.antt =====
-- When a heartbeat carries data.
use monitor_agent.Base.{
  ◌+◌, ◌≡◌, arith, true, Option, none, some, Text, Bool-cases, Option-cases, inl, inr,
  if◌then◌else◌,
}
use monitor_agent.Agent.Heartbeat.{
  Beats, Collected, Reading, Due, due, should_collect, attach, collect, beat,
}

-- The JSON of what was collected: that of the full data, or of the fallback where that failed.
pub collected_json : Reading → Option Text
collected_json r = elim r.info [
  | some c ↦ c.json
  | none ↦ elim r.fallback [ none ↦ none | some c ↦ c.json ]
]

attach-json :
    (sha1 : Text → Text) (b : Beats) (r : Reading) (d : Due) (c : Collected)
    → should_collect d ≡ true
    → (attach sha1 b r d c).1 ≡ c.json
unfolding attach
attach-json sha1 b r d c h = ground arith

collect-json :
    (sha1 : Text → Text) (b : Beats) (r : Reading) (d : Due)
    → should_collect d ≡ true
    → (collect sha1 b r d).1 ≡ collected_json r
unfolding collect collected_json
collect-json sha1 b r d h = elim (Option-cases r.info) [
  | inr (c, e) ↦ rw (e, collect, collected_json, attach-json sha1 b r d c h)
  | inl e ↦ elim (Option-cases r.fallback) [
    | inr (c, e') ↦ rw (e, e', collect, collected_json, attach-json sha1 b r d c h)
    | inl e' ↦ rw (e, e', collect, collected_json)
  ]
]

-- The data goes along whenever one of the three reasons holds and there is JSON to send. The hash of
-- the data sent before has no say.
pub beat-extra :
    (sha1 : Text → Text) (b : Beats) (r : Reading)
    → (beat sha1 b r).1 ≡ (
        if should_collect (due (record b { count = b.count + 1 }) r)
        then collected_json r
        else none)
unfolding beat
beat-extra sha1 b r =
    let b' : Beats = record b { count = b.count + 1 } in
    elim (Bool-cases (should_collect (due b' r))) [
      | inl yep ↦ simp (yep, collect-json sha1 b' r (due b' r) yep)
      | inr nope ↦ simp nope
    ]
