-- ===== src/Login.antt =====
-- internal/handlers/auth.go: the throttle that AuthHandler keeps, a bucket of failures per client,
-- and the handler Login.
pub mod Lockout
pub mod Recovery
use rpi_network_filter.Common.{
  ℕ, ◌+◌, ◌-◌, ltb, leb, Bool, true, false, not, Option, none, some, List, [], ◌∷◌, Text, text_eq,
  Result, ok, err, if◌then◌else◌,
}
use rpi_network_filter.Db.{Db, Action, Error}
use rpi_network_filter.Auth.{Bcrypt, login}

-- `lock_until` is 0 for the zero time.
pub record LoginBucket : Type 0 where
  pub failures : ℕ
  pub first_hit : ℕ
  pub lock_until : ℕ

abbrev pub login_max_failures : ℕ
login_max_failures = 5

abbrev pub login_window : ℕ
login_window = 60

abbrev pub login_lockout : ℕ
login_lockout = 120

-- loginAttempts: a map, as the list of its entries.
abbrev pub Attempts : Type 0
Attempts = List (Text × LoginBucket)

unfoldable pub lookup : Text → Attempts → Option LoginBucket
lookup ip [] = none
lookup ip ((k, b) ∷ m) = let rest = lookup ip m in if text_eq k ip then some b else rest

unfoldable pub delete : Text → Attempts → Attempts
delete ip [] = []
delete ip ((k, b) ∷ m) = let rest = delete ip m in if text_eq k ip then rest else (k, b) ∷ rest

unfoldable pub insert : Text → LoginBucket → Attempts → Attempts
unfolding delete
insert ip b m = (ip, b) ∷ delete ip m

-- How long the client is locked out for, if it is.
unfoldable pub login_locked : ℕ → Text → Attempts → Option ℕ
unfolding lookup
login_locked now ip m = elim (lookup ip m) [
  | none ↦ none
  | some b ↦ if ltb now b.lock_until then some (b.lock_until - now) else none
]

abbrev pub fail_again : ℕ → LoginBucket → LoginBucket
fail_again now b = record b {
  failures = b.failures + 1;
  lock_until =
      if leb login_max_failures (b.failures + 1) then now + login_lockout else b.lock_until;
}

abbrev pub first_failure : ℕ → LoginBucket
first_failure now = record { failures = 1; first_hit = now; lock_until = 0 }

unfoldable pub record_login_failure : ℕ → Text → Attempts → Attempts
unfolding insert lookup
record_login_failure now ip m = elim (lookup ip m) [
  | none ↦ insert ip (first_failure now) m
  | some b ↦
      if ltb login_window (now - b.first_hit)
      then insert ip (first_failure now) m
      else insert ip (fail_again now b) m
]

unfoldable pub record_login_success : Text → Attempts → Attempts
unfolding delete
record_login_success ip m = delete ip m

-- The answers of the handler, with the status that each has.
pub data Response : Type 0 where
  too_many_requests : ℕ → Response
  bad_request unauthorized : Response
  logged_in : Text → Response

abbrev pub status : Response → ℕ
status (too_many_requests remaining) = 429
status bad_request = 400
status unauthorized = 401
status (logged_in token) = 200

-- A request's body: none if it is no JSON object of the shape.
pub record Credentials : Type 0 where
  pub username : Text
  pub password : Text

-- The handler's state: the throttle and the database.
pub record Server : Type 0 where
  pub attempts : Attempts
  pub store : Db

unfoldable pub handle_login :
    Bcrypt → Text → Option Credentials → Option (List ℕ) → Server → Response × Server
unfolding login_locked record_login_failure record_login_success login
handle_login bcrypt ip body random server =
    elim (login_locked server.store.now ip server.attempts) [
      | some remaining ↦ (too_many_requests remaining, server)
      | none ↦ elim body [
        | none ↦ (bad_request, server)
        | some req ↦
            let (result, store) = login bcrypt random req.username req.password server.store in
            elim result [
              | err e ↦ (
                unauthorized,
                record {
                  attempts = record_login_failure store.now ip server.attempts;
                  store = store;
                },
              )
              | ok token ↦ (
                logged_in token,
                record { attempts = record_login_success ip server.attempts; store = store },
              )
            ]
      ]
    ]
