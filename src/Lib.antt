-- ===== src/Lib.antt =====
-- netfilterd, the daemon of a network filter on a Raspberry Pi, which cmd/netfilterd/main.go puts
-- together: services on an SQLite database generate the configuration of nftables and dnsmasq from
-- policies, allow lists, block lists and rules, behind an HTTP interface.
--
-- The parts and the files that model them:
--   cmd/netfilterd/main.go          Daemon: main up to its server, with ApplyAll of services.go.
--   internal/services/validate.go   Validate, with a child per kind of value: ValidDomain is
--     Validate.valid_domain, and so on. The regular expressions are values of Regexp, matched by
--     derivatives; Regexp.Language says what a match means.
--   internal/models                 Models: a record for each row type.
--   internal/database               Db: the tables as lists of rows in the order of their ids, with
--     the counters of AUTOINCREMENT keys and the clock of CURRENT_TIMESTAMP. A statement is a
--     function on the tables, which fails where a constraint of the schema fails.
--   internal/database/migrations.go Migrations: the loop of Migrate.
--   internal/services/blocked.go    Blocked: BlockedService. Create is create_blocked, IsBlocked is
--     is_blocked.
--   internal/services/policy.go     Policy: PolicyService. CreateDomain is create_domain,
--     DevicePolicy is device_policy; Policy.Invariant says when the tables are consistent, and
--     Policy.Steps makes the operations the steps of a run.
--   internal/services/firewall.go   Firewall: the statements of FirewallService on the
--     tables. Its children model the rest: Firewall.Rules buildRuleLines, Firewall.Nftables
--     and Firewall.Ruleset generateConfig as a list of lines, Firewall.ActiveSet
--     ListActiveSetIPs, Firewall.Apply the method Apply as a list of effects, with
--     Executor.Run of internal/executor/executor.go.
--     Firewall.Ruleset.Forward takes what nft does on some lines as a parameter, and
--     Firewall.Ruleset.Chains has the chains of policies in the generated lines.
--   internal/services/doh.go        Firewall.Nftables: doh_resolver_ips.
--   internal/config/config.go       Config: the settings, their defaults and their overrides.
--   internal/services/network.go    Network: NetworkService, the scan and the table of devices.
--   internal/services/dns.go        Dns: DNSService, its table, its import and its directives.
--   internal/services/auth.go       Auth: AuthService, with bcrypt as a parameter.
--   internal/services/bandwidth.go  Bandwidth: BandwidthService, the limits and the commands of tc.
--   internal/services/hotspot.go    Hotspot: HotspotService, the configuration of hostapd.
--   internal/services/system.go     System: SystemService.
--   internal/services/audit.go      Audit: AuditService.
--   internal/services/trafficlog.go Traffic: TrafficLogService; Traffic.Lines has the lines that it
--     reads, by the patterns of Regexp.Submatch, Traffic.Journal the cursor behind which the journal
--     is read, and Traffic.Queries what is asked of it.
--   internal/handlers/auth.go       Login: the throttle and the handler of a login; Http.Accounts the
--     other handlers, with internal/handlers/middleware.go.
--   internal/handlers               Http: the state of the daemon, a request and an answer, with a
--     child for each file of handlers. Http.Params has what they read from a path. Http.Router has
--     the routes of router.go, and Http.Steps the daemon as a machine of steps: requests, goroutines
--     that run, tickers, entries of the journal, and time that goes by.
-- Policy asks Blocked before an allow list grows, Firewall reads the tables through Policy and uses
-- the validators on what it generates, Login calls Auth, and the handlers of Http call the services,
-- write the audit log and run Apply.
--
-- Common holds the shared notation and the lemmas on lists, tables and texts; Strings models what
-- the services use of Go's package strings; Host holds, as a parameter, what they use of the
-- packages net and encoding/json. Tests holds the runs at concrete inputs.
--
-- A text is a list of character codes, and the functions on texts are those of ASCII text. Go's int
-- and int64 are natural numbers: ids and counters do not overflow; a time is a number of seconds. A
-- loop follows its list, and needs no fuel; the digits of a number are written in one round more than
-- the number, which Strings.Decimal shows to be enough.
-- Not modelled: failures of the disk and of the driver, logging, the locks of the services (a
-- handler is one step, and a goroutine is one step that comes later), the attributes of cookies and
-- headers; JSON, templates and the matching of routes, which are others' code; the processes that
-- print the logs, and the pauses between their restarts; the intervals of the tickers; the texts of
-- errors; and the SQL of the migrations.
pub mod Common
pub mod Regexp
pub mod Strings
pub mod Host
pub mod Validate
pub mod Models
pub mod Db
pub mod Migrations
pub mod Blocked
pub mod Policy
pub mod Config
pub mod Firewall
pub mod Network
pub mod Dns
pub mod Auth
pub mod Login
pub mod Traffic
pub mod Http
pub mod Daemon
pub mod Audit
pub mod Bandwidth
pub mod Hotspot
pub mod System
mod Tests
