-- ===== src/Http.antt =====
-- internal/handlers: the daemon's HTTP interface. This file holds its state, a request, an answer,
-- and the pieces that the handlers share. What encoding/json makes of a request's body, what the
-- services get from outside, and which effects succeed, are parameters.
pub mod Params
pub mod Policies
pub mod Firewall
pub mod Blocked
pub mod Dns
pub mod Devices
pub mod Bandwidth
pub mod Settings
pub mod System
pub mod Accounts
pub mod Router
pub mod Steps
use rpi_network_filter.Common.{
  ℕ, Bool, Option, none, some, List, [], ◌∷◌, ◌++◌, Text, codes, Result, ok, err,
}
use rpi_network_filter.Config.{Config}
use rpi_network_filter.Host.{Host}
use rpi_network_filter.Models.{
  Policy, PolicyDomain, DevicePolicy, AllowedDomain, FirewallRule, BlockedDomain, Device,
  DnsBlockEntry, BandwidthLimit, User, Setting, AuditLog,
}
use rpi_network_filter.Db.{Db, Action, Error}
use rpi_network_filter.Audit.{log_action}
use rpi_network_filter.Auth.{Bcrypt}
use rpi_network_filter.Login.{Attempts, Credentials}
use rpi_network_filter.System.{SystemInfo, ConnectivityResult}
use rpi_network_filter.Traffic.{TrafficLog}
use rpi_network_filter.Traffic.Queries.{PagedResult, StatsSummary, TimePoint}
use rpi_network_filter.Firewall.Apply.{Effect, apply}

-- What the services get from outside: `works` tells which effects succeed, `last_insert_rowid` what
-- SQLite reports behind an update.
pub record Env : Type 0 where
  pub host : Host
  pub cfg : Config
  pub bcrypt : Bcrypt
  pub works : Effect → Bool
  pub read_file : Text → Option Text
  pub output : List Text → Option Text
  pub datetime : ℕ → Text
  pub strftime : Text → ℕ → Text
  pub last_insert_rowid : ℕ

-- What a handler starts in a goroutine.
pub data Job : Type 0 where
  apply_firewall_ apply_dns_ apply_hotspot_ reboot_ : Job

-- The state behind the handlers: the throttle, the tables, the history, the effects that were tried
-- so far, and the goroutines that have not run yet.
pub record Site : Type 0 where
  pub attempts : Attempts
  pub store : Db
  pub traffic : TrafficLog
  pub effects : List Effect
  pub jobs : List Job

pub record DeviceUpdate : Type 0 where
  pub alias : Text
  pub is_blocked : Bool

pub record DnsUpdate : Type 0 where
  pub domain : Text
  pub category : Text

pub record DnsText : Type 0 where
  pub text : Text
  pub category : Text

-- A request: the parameters of its path and its query, its cookie `session`, the client's address,
-- and what Decode makes of its body for each type, none on an error. `random` and `salt` are what is
-- drawn while it is served.
pub record Request : Type 0 where
  pub url_param : Text → Text
  pub query : Text → Text
  pub session : Option Text
  pub remote_addr : Text
  pub random : Option (List ℕ)
  pub salt : ℕ
  pub policy : Option Policy
  pub domain : Option PolicyDomain
  pub policy_id : Option ℕ
  pub rule : Option FirewallRule
  pub allowed_domain : Option AllowedDomain
  pub blocked_domain : Option BlockedDomain
  pub dns_entry : Option DnsUpdate
  pub dns_text : Option DnsText
  pub device : Option DeviceUpdate
  pub limit : Option BandwidthLimit
  pub settings : Option (List Setting)
  pub credentials : Option Credentials
  pub password : Option Text

-- The body of an answer: what is rendered or encoded, without the encoding. `failed` is a text
-- followed by that of an error.
pub data Body : Type 0 where
  message status_is username page redirect : Text → Body
  failed : Text → Error → Body
  created imported locked_for : ℕ → Body
  policy : Policy → Body
  policies : List Policy → Body
  domains : List PolicyDomain → Body
  assignments : List DevicePolicy → Body
  rules : List FirewallRule → Body
  allowed_domains : List AllowedDomain → Body
  texts : List Text → Body
  blocked_domains : List BlockedDomain → Body
  devices : List Device → Body
  dns_entries : List DnsBlockEntry → Body
  limits : List BandwidthLimit → Body
  settings : List Setting → Body
  info : SystemInfo → Body
  audit_log : List AuditLog → Body
  traffic : PagedResult → Body
  summary : StatsSummary → Body
  counts : List (Text × ℕ) → Body
  time_points : List TimePoint → Body
  connectivity : List ConnectivityResult → Body
  empty : Body
  dashboard : ℕ → ℕ → ℕ → ℕ → SystemInfo → Body

-- What an answer does to the cookie `session`.
pub data Cookie : Type 0 where
  untouched clear : Cookie
  set : Text → Cookie

pub record Reply : Type 0 where
  pub status : ℕ
  pub body : Body
  pub cookie : Cookie

abbrev pub Handler : Type 0
Handler = Site → Reply × Site

-- JSON, and JSONError with a fixed text.
abbrev pub json : ℕ → Body → Reply
json status body = record { status = status; body = body; cookie = untouched }

abbrev pub json_error : ℕ → Text → Reply
json_error status text = json status (message text)

-- JSONError with the text of an error behind another.
abbrev pub json_failure : ℕ → Text → Error → Reply
json_failure status text e = json status (failed text e)

abbrev pub ok_reply : Reply
ok_reply = json 200 (status_is (codes "ok"))

unfoldable pub answer : Reply → Handler
answer reply s = (reply, s)

-- The rest of a handler behind `if err := json.NewDecoder(r.Body).Decode(&v); err != nil`.
unfoldable pub with_body : {A : Type 0} → Option A → (A → Handler) → Handler
with_body none k s = (json_error 400 (codes "invalid request body"), s)
with_body (some a) k s = k a s

-- The answer to an error, or the rest of the handler.
unfoldable pub outcome : {A : Type 0} → Result Error A → (Error → Reply) → (A → Handler) → Handler
outcome (err e) failure k s = (failure e, s)
outcome (ok a) failure k s = k a s

-- A service's method on the tables, with the answer to each error, and the rest behind it.
unfoldable pub call : {A : Type 0} → Action A → (Error → Reply) → (A → Handler) → Handler
call action failure k s =
    let (result, store) = action s.store in outcome result failure k (record s { store = store })

unfoldable pub audit : Text → Text → Handler → Handler
audit action details k s = k (record s { store = log_action action details s.store })

-- The outcome of an Apply that the handler waits for: its effects, and an answer.
unfoldable pub applied : Result Error (Unit {0}) × List Effect → Text → Reply → Handler
applied (result, tried) prefix reply s =
    let s' = record s { effects = s.effects ++ tried } in
    elim result [ err e ↦ (json_failure 500 prefix e, s') | ok _ ↦ (reply, s') ]

-- `if err := h.firewall.Apply(); err != nil`, and the answer behind it.
unfoldable pub apply_firewall : Env → Text → Reply → Handler
apply_firewall env prefix reply s =
    applied (apply env.host env.cfg env.works s.store) prefix reply s

unfoldable pub start : Job → Handler → Handler
start job k s = k (record s { jobs = s.jobs ++ job ∷ [] })
