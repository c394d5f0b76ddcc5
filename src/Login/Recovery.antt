-- ===== src/Login/Recovery.antt =====
-- A client that was locked out can log in again.
use rpi_network_filter.Common.{
  ℕ, ◌+◌, ◌≤◌, ◌≡◌, refl, ◌∙◌, ◌&&◌, leb, ltb, true, false, Option, none, some, List, ◌∷◌, Text,
  text_eq, length, suc, any, find, All, ok, arith, if◌then◌else◌,
}
use rpi_network_filter.Models.{User}
use rpi_network_filter.Db.{Db}
use rpi_network_filter.Auth.{Bcrypt, generate_token, create_session, login}
use rpi_network_filter.Login.{
  login_window, login_lockout, login_max_failures, Attempts, lookup, login_locked,
  record_login_success, logged_in, Credentials, handle_login,
}
use rpi_network_filter.Login.Lockout.{lookup-delete, fail_all, latest, login_locked-fail_all}

module _ (bcrypt : Bcrypt) (random : Option (List ℕ)) (req : Credentials) (token : Text) (s : Db)
    (u : User) where
  -- The credentials are those of a user, and the token that is drawn is new.
  abbrev pub IsKnown : Type 0
  IsKnown =
      (find (λ v. text_eq v.username req.username) s.users ≡ some u)
      × (bcrypt.compare u.password_hash req.password ≡ true)
      × (generate_token random ≡ some token)
      × (any (λ x. text_eq x.token token) s.sessions ≡ false)

  login-IsKnown : IsKnown → (login bcrypt random req.username req.password s).0 ≡ ok token
  unfolding login create_session
  login-IsKnown (found, accepts, drawn, fresh) =
      rw (found, login) (rw accepts (rw (drawn, login) (rw fresh refl)))

  accepted :
      (ip : Text) (m : Attempts)
      → IsKnown
      → login_locked s.now ip m ≡ none
      → let (response, server) =
          handle_login bcrypt ip (some req) random (record { attempts = m; store = s }) in
        (response ≡ logged_in token) × (lookup ip server.attempts ≡ none)
  unfolding handle_login record_login_success
  accepted ip m known free =
      rw (free, handle_login) (rw (login-IsKnown known, handle_login) (refl, lookup-delete ip m))

  open_again :
      (n last : ℕ) (b : ℕ)
      → last + login_lockout ≤ s.now
      → (if leb login_max_failures n && ltb s.now (last + login_lockout) then some b else none)
        ≡ none
  open_again n last b late = ground arith

  -- However often a client failed within a minute, two minutes after its last failure it logs in with
  -- the name and the password of a user, when the token that is drawn is new, and its failures are
  -- forgotten.
  pub handle_login-fail_all :
      (ip : Text) (t : ℕ) (ts : List ℕ) (m : Attempts)
      → lookup ip m ≡ none
      → All (λ v. v ≤ t + login_window) ts
      → latest t ts + login_lockout ≤ s.now
      → IsKnown
      → let (response, server) =
          handle_login bcrypt ip
            (some req)
            random
            (record { attempts = fail_all ip (t ∷ ts) m; store = s }) in
        (response ≡ logged_in token) × (lookup ip server.attempts ≡ none)
  handle_login-fail_all ip t ts m clean near late known =
      accepted ip (fail_all ip (t ∷ ts) m) known (
        login_locked-fail_all ip s.now t ts m clean near
        ∙ open_again (suc (length ts)) (latest t ts) _ late)
