-- ===== src/Http/Router/Consistent.antt =====
-- Every handler keeps the tables of policies consistent.
pub mod Services
mod Endpoints
pub mod Others
use rpi_network_filter.Common.{
  ℕ, ◌≡◌, refl, inl, inr, Bool, true, false, Bool-cases, Option, none, some, Option-cases, List,
  Text, Result, ok, err, if◌then◌else◌,
}
use rpi_network_filter.Models.{User}
use rpi_network_filter.Db.{Db, Action, Error}
use rpi_network_filter.Audit.{log_action}
use rpi_network_filter.Policy.Invariant.{IsConsistent}
use rpi_network_filter.Firewall.Apply.{Effect, apply}
use rpi_network_filter.Http.{
  Env, Job, Site, Reply, Handler, answer, with_body, outcome, call, audit, applied, apply_firewall,
  start,
}
use rpi_network_filter.Http.Params.{RowId, parse_int, with_id, with_mac}

-- From consistent tables, the handler leaves consistent ones.
pub record Keeps (f : Handler) : Type 0 where
  pub kept : (s : Site) → IsConsistent s.store → IsConsistent (f s).1.store

pub record ActionKeeps {A : Type 0} (action : Action A) : Type 0 where
  pub kept : (s : Db) → IsConsistent s → IsConsistent (action s).1

-- A handler that does not change the tables, as one that answers at once.
pub same-Keeps : (f : Site → Reply) → Keeps (λ s. (f s, s))
same-Keeps f = record { kept = λ s c. c }

pub answer-Keeps : (reply : Reply) → Keeps (answer reply)
unfolding answer
answer-Keeps reply = record { kept = λ s c. c }

pub if-Keeps : (b : Bool) (f g : Handler) → Keeps f → Keeps g → Keeps (if b then f else g)
if-Keeps true f g hf hg = hf
if-Keeps false f g hf hg = hg

module _ {A : Type 0} where
  pub with_body-Keeps :
      (o : Option A) (k : A → Handler) → ((a : A) → Keeps (k a)) → Keeps (with_body o k)
  unfolding with_body
  with_body-Keeps none k h = record { kept = λ s c. c }
  with_body-Keeps (some a) k h = record { kept = (h a).kept }

  outcome-kept :
      (result : Result Error A) (failure : Error → Reply) (k : A → Handler) (s : Site)
      → ((a : A) → Keeps (k a))
      → IsConsistent s.store
      → IsConsistent (outcome result failure k s).1.store
  unfolding outcome
  outcome-kept (ok a) failure k s h c = (h a).kept s c
  outcome-kept (err e) failure k s h c = c

  pub call-Keeps :
      (action : Action A) (failure : Error → Reply) (k : A → Handler)
      → ActionKeeps action
      → ((a : A) → Keeps (k a))
      → Keeps (call action failure k)
  unfolding call
  call-Keeps action failure k h g = record {
    kept = λ s c.
        outcome-kept (action s.store).0 failure k (record s { store = (action s.store).1 }) g
          (h.kept s.store c);
  }

pub with_id-Keeps :
    (param error : Text) (k : RowId → Handler)
    → ((id : RowId) → Keeps (k id))
    → Keeps (with_id param error k)
unfolding with_id
with_id-Keeps param error k h = elim (Option-cases (parse_int param)) [
  | inl e ↦ record { kept = λ s c. rw (e, with_id) c }
  | inr (id, e) ↦ record { kept = λ s c. rw (e, with_id) ((h id).kept s c) }
]

pub with_mac-Keeps :
    (mac : Result Text Text) (k : Text → Handler)
    → ((m : Text) → Keeps (k m))
    → Keeps (with_mac mac k)
unfolding with_mac
with_mac-Keeps (err error) k h = record { kept = λ s c. c }
with_mac-Keeps (ok mac) k h = record { kept = (h mac).kept }

log_action-IsConsistent :
    (action details : Text) (s : Db) → IsConsistent s → IsConsistent (log_action action details s)
unfolding log_action
log_action-IsConsistent action details s c = record {
  policies = c.policies;
  domains = c.domains;
  devices = c.devices;
}

pub audit-Keeps : (action details : Text) (k : Handler) → Keeps k → Keeps (audit action details k)
unfolding audit
audit-Keeps action details k h = record {
  kept = λ s c. h.kept _ (log_action-IsConsistent action details s.store c);
}

pub start-Keeps : (job : Job) (k : Handler) → Keeps k → Keeps (start job k)
unfolding start
start-Keeps job k h = record { kept = λ s c. h.kept _ c }

applied-kept :
    (result : Result Error (Unit {0})) (tried : List Effect) (prefix : Text) (reply : Reply)
    (s : Site)
    → IsConsistent s.store
    → IsConsistent (applied (result, tried) prefix reply s).1.store
unfolding applied
applied-kept (ok _) tried prefix reply s c = c
applied-kept (err e) tried prefix reply s c = c

pub applied-Keeps :
    (outcome : Site → Result Error (Unit {0}) × List Effect) (prefix : Text) (reply : Reply)
    → Keeps (λ s. applied (outcome s) prefix reply s)
applied-Keeps outcome prefix reply = record {
  kept = λ s c. applied-kept (outcome s).0 (outcome s).1 prefix reply s c;
}

pub apply_firewall-Keeps :
    (env : Env) (prefix : Text) (reply : Reply) → Keeps (apply_firewall env prefix reply)
unfolding apply_firewall
apply_firewall-Keeps env prefix reply =
    applied-Keeps (λ s. apply env.host env.cfg env.works s.store) prefix reply
