-- ===== src/Lib.antt =====
-- The monitor agent: a daemon that reports a machine to a server and runs the commands that the
-- server sends.
--
-- The parts and how they interact. `runAgent` (cmd/agent/main.go) starts one loop for each of
-- heartbeats, metrics, skills and logs. The loops upload by the uploader, which posts by the HTTP
-- client with its retries; what is refused goes to the file cache. The broker hands each command to
-- the consumer, which opens encrypted commands by the crypto envelope, has the executor run them, and
-- reports. The device gets its key by the pairing, under the key pair of its identity. The
-- configuration sets intervals and sizes; the logger buffers entries that the log loop uploads.
--
-- The modules:
--   Base              lists, texts as lists of runes, integers, Boolean tests
--   Cache             internal/cache/cache.go: New, Push, PopMetrics, PopLogs, dropOldest
--   Client            pkg/client/client.go: Post and its retries, Get, the API errors
--   Client.Request    pkg/client/client.go: New, SetAPIKey, the requests of Get and postOnce
--   Logger            pkg/logger/logger.go: buffer, Debug to Error, DrainEntries, EntryCount
--   Logger.Threads    pkg/logger/logger.go: buffer and DrainEntries called by several goroutines
--   State             internal/openclawstate/state.go: the time of the last message
--   Config            internal/config/config.go: applyDefaults, splitPathList, Validate, Load
--   Crypto            pkg/crypto/envelope.go: Seal and Open
--   Pairing           internal/pairing/pairing.go: RunPairing and its two requests
--   Identity          internal/identity/identity.go: LoadOrCreate
--   Identity.Shared   internal/identity/identity.go: several processes under lockIdentityDir
--   Identity.KeyStore  internal/identity/keystore.go, keystore_file.go, keystore_darwin.go
--   Identity.Pem      internal/identity/crypto.go: keys and their PEM blocks
--   Collector.Words   internal/collector/openclaw.go: parseInt, stripANSI, extractTableValue and others
--   Collector.Table   internal/collector/openclaw.go: parseTable, parseKeyValueTable and their parts
--   Collector.Cells   internal/collector/openclaw.go: the cells of an agent
--   Collector.Agents  internal/collector/openclaw.go: parseAgentsTable, parseAgentsLoose, the list
--   Collector.Sessions  internal/collector/openclaw.go: the session tables and their annotation
--   Collector.Fingerprint  internal/collector/openclaw.go: AgentsFingerprint
--   Collector.Env     internal/collector/openclaw.go: runQuickCLI, and what the machine answers
--   Collector.Extras  internal/collector/openclaw.go: the update, gateway, models and daemon status
--   Collector.Diagnosis  internal/collector/openclaw.go: parseDiagnosis
--   Collector.Status  internal/collector/openclaw.go: parseOpenClawStatusAll
--   Collector.Info    internal/collector/openclaw.go: CollectOpenClawInfo and its shorter variants
--   Collector.Skills  internal/collector/skills.go: ScanSkills
--   Collector.Metrics  internal/collector/metrics.go: Collect
--   Command.Cli       internal/command/executor.go: Result, runCLI, what the commands share
--   Command.Service   internal/command/executor.go: execLaunchctl, execRestart, execStatus
--   Command.ConfigFile  internal/command/executor.go: execConfig
--   Command.Message   internal/command/executor.go: execMessage
--   Command.Executor  internal/command/executor.go: Execute and the other commands
--   Command.Reply     internal/command/executor.go: extractAgentReply, findReplyString
--   Command.Consumer  internal/command/consumer.go: handleCommand, sendProgress
--   Device.Info       internal/device/info.go: Collect, normalizeMAC
--   Device.Store      internal/device/store.go: the files of the id and the API key
--   OpenclawCli       internal/openclawcli/path.go: resolveExecutable, CommandContext
--   OpenclawCli.Config  internal/openclawcli/path.go: ConfigPath
--   Transport.Receive  internal/transport/mqtt_broker.go, redis_broker.go: from a message to a command
--   Transport.Publish  internal/transport/mqtt_broker.go, http_reporter.go: what is published
--   Transport.Connection  internal/transport/mqtt_broker.go: NewMQTTBroker, Close, the retained status
--   Transport.Channel  internal/transport/mqtt_broker.go: cmdCh and Run, as interleaved steps
--   Transport.Session  cmd/agent/main.go, internal/command/consumer.go: the consumer on the MQTT broker
--   Uploader          internal/uploader/uploader.go, internal/device/register.go: the requests
--   Agent.PairingCode  cmd/agent/main.go: runPairingCodeCommand, runStatusCommand
--   Agent.Skills      cmd/agent/main.go: the skills loop
--   Agent.Startup     cmd/agent/main.go: the key, the transport, the revoked key
--   Agent.Runtime     cmd/agent/main.go: main, loadRuntime, retryConfig
--   Agent.Shutdown    cmd/agent/main.go, internal/transport/mqtt_broker.go: the goroutines, their
--                     WaitGroup, the handlers of commands, the end after a signal
--   Agent.Heartbeat   cmd/agent/main.go: sendHeartbeat up to the upload
--   Agent.Metrics     cmd/agent/main.go: the metrics loop
--   Agent.LogUpload   cmd/agent/main.go and internal/uploader/uploader.go: the log loop, UploadLogs
--   Agent.Recovery    cmd/agent/main.go: the recovery of cached data after the start
-- A module named Examples runs the theorems of its part on concrete data.
--
-- How the code is read. State that the code mutates is passed along. Times are nanoseconds and
-- lengths are numbers without a bound; `int` fields that can be negative are integers. Products of
-- an `int` and a duration are taken to fit 64 bits, except for the timeout of `execMessage` and the
-- intervals of `retryConfig`, whose wrap-around is written out. What runs concurrently is a step
-- relation: the MQTT client and `Run`, the goroutines of the agent and of the logger, the processes
-- on one identity. Handlers of commands interleave in what they publish, each from a state of the
-- machine of its own; how the commands themselves interleave on the machine is left open. Code of
-- other packages is a parameter: the primitives of Go's crypto packages (Crypto.Primitives, and
-- Identity.Keys for the wrappers of internal/identity/crypto.go), the processes, files and JSON of
-- the machine (Command.Host), the output of the openclaw CLI and its JSON (Collector.Env), the
-- digest and the lower case of runes beyond ASCII, `filepath.Join` (Config.Process). An object that
-- JSON decodes to is the list of its fields in the order in which Go ranges over the map.
--
-- Calls of the operating system may fail. A removal may leave its file, a failed write may leave part
-- of its file or what the machine says, and a failed read is what the code takes it for; theorems that
-- need such a call to succeed say so.
--
-- Fuel. The loop of `Push` runs on the files, the bytes that would be counted, and one: a round removes
-- a file or takes its bytes off the count, except for an empty file that cannot be removed. The
-- loop of `Post` runs on the number of attempts. `find_reply` runs on nine levels, the depths 0 to
-- 8 of the code. The loop of `RunPairing` has no bound and is a step relation.
--
-- Not modelled: the clients of MQTT and Redis, the keychain, the prints and flags of
-- cmd/agent/main.go, `Init` and `Sync` of the logger. They are calls of other libraries, reads of the
-- machine, or wiring.
pub mod Base
pub mod Cache
pub mod Logger
pub mod Client
pub mod State
pub mod Config
pub mod Crypto
pub mod Pairing
pub mod Identity
pub mod Command
pub mod Collector
pub mod Device
pub mod OpenclawCli
pub mod Transport
pub mod Uploader
pub mod Agent
