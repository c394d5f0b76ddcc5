-- ===== src/Tests/Accounts.antt =====
-- Logins: the throttle and the sessions, with their theorems at concrete inputs.
use rpi_network_filter.Common.{
  ℕ, ◌+◌, ◌-◌, ◌≡◌, refl, true, false, ◌&&◌, leb, ltb, none, some, List, [], ◌∷◌, Text, codes,
  text_eq, In, ok, err, if◌then◌else◌, arith,
}
use rpi_network_filter.Models.{User}
use rpi_network_filter.Db.{Db, session_expired}
use rpi_network_filter.Auth.{
  Bcrypt, login, logout, validate_session, generate_token, create_session, session_length,
}
use rpi_network_filter.Auth.Sessions.{login-validate_session}
use rpi_network_filter.Login.Recovery.{IsKnown, handle_login-fail_all}
use rpi_network_filter.Login.{
  Credentials, logged_in, handle_login, lookup, login_locked, login_max_failures, login_lockout,
}
use rpi_network_filter.Login.Lockout.{
  fail_all, latest, login_locked-fail_all, login_locked-fail_all_other,
}
use rpi_network_filter.Tests.Data.{seeded, validation}

opened : Unit {0}
unfolding validation login logout validate_session generate_token create_session login_locked
    fail_all
opened = tt

abbrev tablet : Text
tablet = codes "192.168.4.5"

abbrev phone : Text
phone = codes "192.168.4.6"

abbrev times : List ℕ
times = 11 ∷ 12 ∷ 13 ∷ 14 ∷ []

login_locked-fail_all_example : login_locked 20 tablet (fail_all tablet (10 ∷ times) []) ≡ (
    if leb login_max_failures 5 && ltb 20 (latest 10 times + login_lockout)
    then some (latest 10 times + login_lockout - 20)
    else none)
unfolding opened
login_locked-fail_all_example =
    login_locked-fail_all tablet 20 10 times [] refl
      (omega arith, (omega arith, (omega arith, (omega arith, tt))))

differ : text_eq tablet phone ≡ false
unfolding opened
differ = refl

login_locked-fail_all_other_example :
    login_locked 20 phone (fail_all tablet (10 ∷ times) []) ≡ login_locked 20 phone []
login_locked-fail_all_other_example =
    login_locked-fail_all_other tablet phone 20 (10 ∷ times) [] differ

-- Passwords as their own hashes.
abbrev plain : Bcrypt
plain = record { generate = λ salt p. some p; compare = text_eq }

abbrev admin : User
admin = record { id = 1; username = codes "admin"; password_hash = codes "secret"; created_at = 0 }

abbrev staffed : Db
staffed = record seeded { users = admin ∷ []; users_seq = 1 }

signed_in :
    (login plain (some (171 ∷ [])) (codes "admin") (codes "secret") staffed).0 ≡ ok (codes "ab")
unfolding opened
signed_in = refl

login-validate_session_example :
    (u : User) × In u staffed.users
    × (u.username ≡ codes "admin")
    × (text_eq u.password_hash (codes "secret") ≡ true)
    × ((validate_session
          (codes "ab")
          (record (login plain (some (171 ∷ [])) (codes "admin") (codes "secret") staffed).1 {
            now = 200;
          })).0
        ≡ (if ltb (staffed.now + session_length) 200
            then err session_expired
            else ok (record u { password_hash = []; created_at = 0 })))
login-validate_session_example =
    login-validate_session plain (some (171 ∷ [])) (codes "admin") (codes "secret") (codes "ab")
      staffed 200 (refl, tt) signed_in

abbrev late_staff : Db
late_staff = record staffed { now = 140 }

abbrev admin_login : Credentials
admin_login = record { username = codes "admin"; password = codes "secret" }

recognized : IsKnown plain (some (171 ∷ [])) admin_login (codes "ab") late_staff admin
unfolding opened
recognized = (refl, refl, refl, refl)

untouched : lookup tablet [] ≡ none
unfolding lookup
untouched = refl

handle_login-fail_all_example :
    let (response, server) =
      handle_login plain tablet
        (some admin_login)
        (some (171 ∷ []))
        (record { attempts = fail_all tablet (10 ∷ times) []; store = late_staff }) in
    (response ≡ logged_in (codes "ab")) × (lookup tablet server.attempts ≡ none)
handle_login-fail_all_example =
    handle_login-fail_all plain (some (171 ∷ [])) admin_login (codes "ab") late_staff admin tablet
      10 times [] untouched (omega arith, (omega arith, (omega arith, (omega arith, tt))))
      (omega arith) recognized
