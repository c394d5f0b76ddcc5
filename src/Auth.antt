-- ===== src/Auth.antt =====
-- internal/services/auth.go: AuthService, users and their sessions.
pub mod Sessions
pub mod Passwords
use rpi_network_filter.Common.{
  ℕ, ◌+◌, ◌-◌, ◌/◌, ◌%◌, ◌==◌, ltb, leb, ◌≡◌, Bool, true, false, not, Option, none, some, List, [],
  ◌∷◌, ◌++◌, Text, text_eq, Result, ok, err, any, find, keep, update_where, if◌then◌else◌,
}
use rpi_network_filter.Models.{User, Session}
use rpi_network_filter.Db.{
  Db, Action, Error, db, unique, no_rows, exec_failed, invalid_credentials, invalid_session,
  session_expired, user_not_found,
}

-- golang.org/x/crypto/bcrypt: `generate` under a salt that the library draws, and whether
-- CompareHashAndPassword accepts.
pub record Bcrypt : Type 0 where
  pub generate : ℕ → Text → Option Text
  pub compare : Text → Text → Bool

-- A hash accepts the password it was generated from.
pub record BcryptLaws (bcrypt : Bcrypt) : Type 0 where
  pub compare-generate :
      (salt : ℕ) (password hash : Text)
      → bcrypt.generate salt password ≡ some hash
      → bcrypt.compare hash password ≡ true

-- time.Now() and expiry count seconds; `24 * time.Hour`.
abbrev pub session_length : ℕ
session_length = 86400

abbrev pub hex_digit : ℕ → ℕ
hex_digit n = if ltb n 10 then b'0' + n else b'a' + (n - 10)

-- hex.EncodeToString
unfoldable pub encode_hex : List ℕ → Text
encode_hex [] = []
encode_hex (b ∷ bs) = hex_digit (b / 16) ∷ hex_digit (b % 16) ∷ encode_hex bs

-- generateToken, given the bytes that crypto/rand reads, if it can.
unfoldable pub generate_token : Option (List ℕ) → Option Text
unfolding encode_hex
generate_token none = none
generate_token (some bytes) = some (encode_hex bytes)

-- The user as far as the query selects it.
unfoldable pub validate_session : Text → Action User
validate_session token s = elim (find (λ x. text_eq x.token token) s.sessions) [
  | none ↦ (err invalid_session, s)
  | some x ↦ elim (find (λ u. u.id == x.user_id) s.users) [
    | none ↦ (err invalid_session, s)
    | some u ↦
        if ltb x.expires_at s.now
        then (
          err session_expired,
          record s { sessions = keep (λ y. not (text_eq y.token token)) s.sessions },
        )
        else (ok (record u { password_hash = []; created_at = 0 }), s)
  ]
]

unfoldable pub logout : Text → Action (Unit {0})
logout token s = (ok tt, record s { sessions = keep (λ x. not (text_eq x.token token)) s.sessions })

unfoldable pub clean_expired_sessions : Db → Db
clean_expired_sessions s = record s {
  sessions = keep (λ x. not (ltb x.expires_at s.now)) s.sessions;
}

module _ (bcrypt : Bcrypt) where
  unfoldable pub create_user : ℕ → Text → Text → Action (Unit {0})
  create_user salt username password s = elim (bcrypt.generate salt password) [
    | none ↦ (err exec_failed, s)
    | some hash ↦ if any (λ u. text_eq u.username username) s.users then (err (db unique), s) else (
      ok tt,
      record s {
        users =
            s.users
            ++ record {
              id = s.users_seq + 1;
              username = username;
              password_hash = hash;
              created_at = s.now;
            }
              ∷ [];
        users_seq = s.users_seq + 1;
      },
    )
  ]

  unfoldable pub reset_password : ℕ → Text → Text → Action (Unit {0})
  reset_password salt username password s = elim (bcrypt.generate salt password) [
    | none ↦ (err exec_failed, s)
    | some hash ↦
        if not (any (λ u. text_eq u.username username) s.users) then (err user_not_found, s) else (
          ok tt,
          record s {
            users =
                update_where (λ u. text_eq u.username username)
                  (λ u. record u { password_hash = hash }) s.users;
          },
        )
  ]

  -- The row that Login adds, unless the token is taken.
  unfoldable pub create_session : Text → ℕ → Action Text
  create_session token user_id s =
      if any (λ x. text_eq x.token token) s.sessions then (err (db unique), s) else (
        ok token,
        record s {
          sessions =
              s.sessions
              ++ record { token = token; user_id = user_id; expires_at = s.now + session_length }
                ∷ [];
        },
      )

  unfoldable pub login : Option (List ℕ) → Text → Text → Action Text
  unfolding generate_token create_session
  login random username password s = elim (find (λ u. text_eq u.username username) s.users) [
    | none ↦ (err invalid_credentials, s)
    | some u ↦
        if not (bcrypt.compare u.password_hash password)
        then (err invalid_credentials, s)
        else elim (generate_token random) [
          | none ↦ (err exec_failed, s)
          | some token ↦ create_session token u.id s
        ]
  ]
