-- ===== src/Http/Router/Applied.antt =====
-- internal/handlers/policies.go and firewall.go: handlers that run Apply before they answer.
pub mod Endpoints
use rpi_network_filter.Common.{
  ℕ, ◌≤◌, ◌<◌, ◌≡◌, refl, sym, ap, subst, ◌∙◌, inl, inr, Bool, true, false, Option, none, some,
  Option-cases, List, [], ◌∷◌, ◌++◌, Text, Result, ok, err, All, arith, if◌then◌else◌,
}
use rpi_network_filter.Models.{User, AllowedDomain}
use rpi_network_filter.Strings.{is_nil}
use rpi_network_filter.Db.{Db, Action, Error, domain_blocked, policy_not_found, default_policy_lock}
use rpi_network_filter.Firewall.Apply.{Effect, apply}
use rpi_network_filter.Firewall.Apply.Effects.{
  loading, Succeeds, IsOutcome, apply-IsOutcome, Result-cases,
}
use rpi_network_filter.Http.{
  Env, Site, Request, Reply, Handler, json_failure, answer, with_body, outcome, call, audit,
  applied, apply_firewall,
}
use rpi_network_filter.Http.Params.{RowId, parse_int, with_id, extract_mac, with_mac}
use rpi_network_filter.Http.Policies as Policies

module _ (env : Env) where
  -- The four effects of Apply under these tables were tried, behind those that were tried before,
  -- and each of them succeeded.
  abbrev pub IsLoaded : Site → Site → Type 0
  IsLoaded s s' =
      (s'.effects ≡ s.effects ++ loading env.host env.cfg s'.store)
      × All (Succeeds env.cfg.dry_run env.works) (loading env.host env.cfg s'.store)

  pub record Applies (f : Handler) : Type 0 where
    pub loaded : (s : Site) → (f s).0.status < 300 → IsLoaded s (f s).1

  -- A reply that reports no success.
  abbrev pub IsFailure : Reply → Type 0
  IsFailure reply = 300 ≤ reply.status

  pub answer-Applies : (reply : Reply) → IsFailure reply → Applies (answer reply)
  unfolding answer
  answer-Applies reply h = record { loaded = λ s k. absurd (omega arith) }

  pub if-Applies : (b : Bool) (f g : Handler) → Applies f → Applies g → Applies (if b then f else g)
  if-Applies true f g hf hg = hf
  if-Applies false f g hf hg = hg

  module _ {A : Type 0} where
    pub with_body-Applies :
        (o : Option A) (k : A → Handler) → ((a : A) → Applies (k a)) → Applies (with_body o k)
    unfolding with_body
    with_body-Applies none k h = record { loaded = λ s c. absurd (omega arith) }
    with_body-Applies (some a) k h = record { loaded = (h a).loaded }

    outcome-IsLoaded :
        (result : Result Error A) (failure : Error → Reply) (k : A → Handler) (s : Site)
        → ((e : Error) → IsFailure (failure e))
        → ((a : A) → Applies (k a))
        → (outcome result failure k s).0.status < 300
        → IsLoaded s (outcome result failure k s).1
    unfolding outcome
    outcome-IsLoaded (ok a) failure k s f h c = (h a).loaded s c
    outcome-IsLoaded (err e) failure k s f h c = absurd (omega (arith, f e))

    pub call-Applies :
        (action : Action A) (failure : Error → Reply) (k : A → Handler)
        → ((e : Error) → IsFailure (failure e))
        → ((a : A) → Applies (k a))
        → Applies (call action failure k)
    unfolding call
    call-Applies action failure k f h = record {
      loaded = λ s c.
          outcome-IsLoaded (action s.store).0 failure k (record s { store = (action s.store).1 }) f
            h c;
    }

  pub with_id-Applies :
      (param error : Text) (k : RowId → Handler)
      → ((id : RowId) → Applies (k id))
      → Applies (with_id param error k)
  unfolding with_id
  with_id-Applies param error k h = elim (Option-cases (parse_int param)) [
    | inl e ↦ record {
      loaded = λ s c. rw (e, with_id) (absurd (let bad = rw (e, with_id) at c in omega arith));
    }
    | inr (id, e) ↦ record {
      loaded = λ s c. rw (e, with_id) ((h id).loaded s (rw (e, with_id) at c));
    }
  ]

  pub with_mac-Applies :
      (mac : Result Text Text) (k : Text → Handler)
      → ((m : Text) → Applies (k m))
      → Applies (with_mac mac k)
  unfolding with_mac
  with_mac-Applies (err error) k h = record { loaded = λ s c. absurd (omega arith) }
  with_mac-Applies (ok mac) k h = record { loaded = (h mac).loaded }

  pub audit-Applies :
      (action details : Text) (k : Handler) → Applies k → Applies (audit action details k)
  unfolding audit
  audit-Applies action details k h = record { loaded = λ s c. h.loaded _ c }

  pub resolve-Applies :
      (domain : Text) (k : Handler) → Applies k → Applies (Policies.resolve env domain k)
  unfolding Policies.resolve
  resolve-Applies domain k h = record { loaded = λ s c. h.loaded _ c }

  applied-loaded :
      (es : List Effect) (o : Result Error (Unit {0}) × List Effect) (prefix : Text) (reply : Reply)
      (s : Site)
      → IsOutcome env.cfg.dry_run env.works es o
      → (applied o prefix reply s).0.status < 300
      → ((applied o prefix reply s).1.effects ≡ s.effects ++ es)
        × All (Succeeds env.cfg.dry_run env.works) es
  unfolding applied
  applied-loaded es o prefix reply s (inl (all, e)) c =
      rw (e, applied) (ap (λ p. s.effects ++ p.1) e, all)
  applied-loaded es o prefix reply s (inr (pre, x, post, y, split, before, failed, e)) c =
      absurd (let bad = rw (e, applied) at c in omega arith)

  applied-store :
      (o : Result Error (Unit {0}) × List Effect) (prefix : Text) (reply : Reply) (s : Site)
      → (applied o prefix reply s).1.store ≡ s.store
  unfolding applied
  applied-store (ok _, tried) prefix reply s = refl
  applied-store (err e, tried) prefix reply s = refl

  pub apply_firewall-Applies :
      (prefix : Text) (reply : Reply) → Applies (apply_firewall env prefix reply)
  unfolding apply_firewall
  apply_firewall-Applies prefix reply = record {
    loaded = λ s c.
        let o = apply env.host env.cfg env.works s.store in
        rw (applied-store o prefix reply s) (
          applied-loaded (loading env.host env.cfg s.store) o prefix reply s
            (apply-IsOutcome env.host env.cfg env.works s.store) c);
  }

-- A handler behind with_id that leaves the state as it is.
pub with_id-same :
    (param error : Text) (k : RowId → Handler) (s : Site)
    → ((id : RowId) → (k id s).1 ≡ s)
    → (with_id param error k s).1 ≡ s
unfolding with_id
with_id-same param error k s h = elim (Option-cases (parse_int param)) [
  | inl e ↦ rw (e, with_id) refl
  | inr (id, e) ↦ rw (e, with_id) (h id)
]

pub error_text-IsFailure :
    (status : ℕ) → 300 ≤ status → (e : Error) → 300 ≤ (Policies.error_text status e).status
error_text-IsFailure status h e = h

pub delete_error-IsFailure : (e : Error) → 300 ≤ (Policies.delete_error e).status
unfolding Policies.delete_error
delete_error-IsFailure policy_not_found = omega arith
delete_error-IsFailure default_policy_lock = omega arith
delete_error-IsFailure _ = omega arith

pub domain_error-IsFailure :
    (status : ℕ) → 300 ≤ status → (e : Error) → 300 ≤ (Policies.domain_error status e).status
unfolding Policies.domain_error
domain_error-IsFailure status h (domain_blocked match) = omega arith
domain_error-IsFailure status h _ = h
