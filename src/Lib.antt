-- ===== src/Lib.antt =====
-- Models of the core of DigitDojo Shield, a host firewall daemon in Go, and what holds of them.
--
-- The daemon samples the traffic of its host (internal/detector), keeps a history of metrics and
-- attacks (internal/history), keeps a blacklist and a whitelist on disk (internal/storage, over
-- internal/blacklist and internal/whitelist), tells its subsystems of events (internal/events),
-- sends alerts (internal/alerts), manages its configuration (internal/config) and brings a desired
-- state into the host's firewall (internal/firewall).
--
-- Prelude: lists, sets as lists without repetition, association lists for Go's maps, sorting, Go's
-- strings as lists of bytes, integers where their sign matters, and values with errors.
-- Firewall.Address, Firewall.Backend: internal/firewall/backend/backend.go; `normalize` is
-- DesiredState.Normalize and `parse_name` is ParseName. Firewall.Contract has its interfaces, where
-- a call returns or panics and acts on a world `W`. Firewall.Registry:
-- internal/firewall/registry.go; `register`, `detect`, `resolve` and `describe` are the methods,
-- and `instantiate` the creation of a backend. Firewall.Controller:
-- internal/firewall/controller.go; `reconcile`, `cleanup` and `inspect` are the methods,
-- `execute_with_rollback` what the first two run. Config.Ip, Config.Settings:
-- internal/config/config.go. Config.Yaml: internal/config/yaml.go, with the YAML library as a
-- parameter. Config.Manager: internal/config/manager.go; the state has the files that the manager
-- writes. Storage.File: FileStore of internal/storage/storage.go; `save` has every step that can
-- fail, and `load` reads through a codec that is a parameter. Storage.State: State of the same file
-- over the two sets, with `new_state` for NewState and one function for each mutation. History:
-- internal/history/history.go; `record_sample` is Record. Detector.Engine:
-- internal/detector/detector.go. Detector.Daemon: the lifecycle and the loop of
-- internal/detector/daemon.go, whose steps under the lock are the steps of Detector.Lifecycle.
-- Events: internal/events/events.go. Alerts.Retry: internal/alerts/retry.go. Alerts.Manager and
-- Alerts.Dispatch: internal/alerts/registry.go and internal/alerts/manager.go. Api.Limiter,
-- Api.Level, Api.Budget, Api.Access, Api.Secrets: of internal/api/api.go, the rate limiter, the
-- middleware in front of every handler, and the configuration that a client sees and sends back
-- with the pages of lists; tokens are counted in billionths. Api.Handlers: the handlers that change
-- something; those of the configuration call Config.Manager and then Logs.Audit, as `finish` does.
-- Api.Reading: the handlers that read History and the two logs. Alerts.Service:
-- internal/alerts/alerts.go. Logs.Manager, Logs.Rotation, Logs.Query: internal/logger/manager.go;
-- `write`, `rotate`, `query` and `export` are its methods, and Logs.Scan is the loop over the lines
-- that both Query methods have. Logs.Audit: internal/audit/manager.go, with `record_action` for
-- Record. Logs.Strings: the functions of package strings that their filters call.
-- Firewall.Nftables: internal/firewall/nftables; Render is render.go, Parse and Driver are
-- backend.go, Probe is probe.go and environment.go. Guarded writes down the runs of nft.
-- Firewall.Iptables: internal/firewall/iptables/probe.go. App.New, App.Run, App.Configuration,
-- App.Sample, App.Observers: internal/app/app.go; Sample has internal/monitor/monitor.go too.
-- App.Reload puts `apply_configuration` into the manager of Config.Manager as its hook, as the
-- daemon does, and App.Again the handlers of the API in front. A module named Tests runs its
-- component at concrete inputs.
--
-- How the code is modelled. A method that changes its receiver is a function that returns the new
-- state, and an error is a value. A mutex is not modelled: a call that holds it is one step. A time
-- is a number of nanoseconds since year 1, so that 0 is Go's zero time. The natural numbers stand
-- for Go's int where the code counts, and ℤ where the sign matters; lengths and counters are taken
-- to stay below 2^63. Every loop is over a list or over the attempts that are left, so no fuel is
-- needed. What the code takes from the operating system or a library (net.ParseIP, the JSON and
-- YAML codecs, filepath, the clock, random identifiers, failing writes) is an argument; a theorem
-- that relies on the behaviour of such an argument names it as a hypothesis (IsLawfulCodec,
-- IsLawfulEnv, IsLawful of a backend, IsLawfulSort for sort.Slice), and the Tests modules give
-- instances of them.
--
-- What is not modelled: the streams and exports of the HTTP API, its routing and its listener, the
-- rounding of the limiter's floating-point tokens, internal/config/reload.go, the alert transports
-- of internal/alerts/httptransport, the plain logger, the system inventory, internal/sysctl, the
-- reading of host counters, the command lines: they read and write the operating system or the
-- network, or are left for later. Nor are modelled text beyond ASCII in ParseName and in the
-- filters of queries, an overflow of the backoff between two attempts of an alert, and the
-- interleaving of concurrent calls of Dispatch, which releases its lock between two deliveries.
-- strings.TrimSpace and ToLower are those of ASCII text, also for tokens and webhooks. Stop of the
-- detector cancels the context in the step in which it holds the lock, where the code does so right
-- after. The application's construction leaves out the calls that only register callbacks (SetApply
-- and the two subscriptions, whose callbacks are apply_configuration and the functions of
-- App.Observers) and the sampling interval. What nft does with a program is not modelled. The
-- messages of errors in replies of the API are not modelled. encoding/json is a codec of which a
-- theorem asks only that the lines it speaks of are decoded to what they were encoded from.
pub mod Prelude
pub mod Firewall
pub mod Config
pub mod Storage
pub mod History
pub mod Detector
pub mod Events
pub mod Alerts
pub mod Api
pub mod Logs
pub mod App
