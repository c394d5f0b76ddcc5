-- ===== src/Http/Accounts.antt =====
-- internal/handlers/auth.go and middleware.go: who a request is from, and the handlers of AuthHandler.
use rpi_network_filter.Common.{
  ◌==◌, Option, none, some, [], ◌∷◌, Text, codes, ok, err, if◌then◌else◌,
}
use rpi_network_filter.Models.{User}
use rpi_network_filter.Auth.{validate_session, logout}
use rpi_network_filter.Login.{
  Response, too_many_requests, bad_request, unauthorized, logged_in, handle_login,
}
use rpi_network_filter.Http.{
  Env, Site, Request, Body, page, redirect, username, locked_for, set, clear, untouched, Reply,
  Handler, json, json_error, answer,
}

-- The text before the last colon.
unfoldable pub before_last_colon : Text → Option Text
before_last_colon [] = none
before_last_colon (c ∷ s) = elim (before_last_colon s) [
  | some t ↦ some (c ∷ t)
  | none ↦ if c == b':' then some [] else none
]

-- clientIP: the address without the port.
unfoldable pub client_ip : Text → Text
unfolding before_last_colon
client_ip addr = elim (before_last_colon addr) [ some (c ∷ t) ↦ c ∷ t | _ ↦ addr ]

-- `r.Cookie("session")` and ValidateSession: the user of a request, if it has a valid session.
unfoldable pub authenticate : Request → Site → Option User × Site
unfolding validate_session
authenticate r s = elim r.session [
  | none ↦ (none, s)
  | some token ↦
      let (result, store) = validate_session token s.store in
      let s' = record s { store = store } in
      elim result [ err e ↦ (none, s') | ok u ↦ (some u, s') ]
]

-- AuthRequired: to the login without a session; a cookie of no valid session is cleared.
unfoldable pub auth_required : Request → (User → Handler) → Handler
unfolding authenticate
auth_required r k s =
    let (user, s') = authenticate r s in
    elim user [
      | some u ↦ k u s'
      | none ↦ (
        record {
          status = 302;
          body = redirect (codes "/login");
          cookie = elim r.session [ none ↦ untouched | some _ ↦ clear ];
        },
        s',
      )
    ]

-- APIAuthRequired
unfoldable pub api_auth_required : Request → (User → Handler) → Handler
unfolding authenticate
api_auth_required r k s =
    let (user, s') = authenticate r s in
    elim user [
      | some u ↦ k u s'
      | none ↦ (
        json_error 401 (elim r.session [
          | none ↦ codes "authentication required"
          | some _ ↦ codes "invalid session"
        ]),
        s',
      )
    ]

unfoldable pub login_page : Request → Handler
unfolding authenticate
login_page r s =
    let (user, s') = authenticate r s in
    elim user [
      | some u ↦ (json 302 (redirect (codes "/")), s')
      | none ↦ (json 200 (page (codes "login.html")), s')
    ]

-- The answer of Login, with the cookie of a new session.
abbrev pub login_reply : Response → Reply
login_reply (too_many_requests remaining) = json 429 (locked_for remaining)
login_reply bad_request = json_error 400 (codes "invalid request body")
login_reply unauthorized = json_error 401 (codes "invalid credentials")
login_reply (logged_in token) = record {
  status = 200;
  body = Body.status_is (codes "ok");
  cookie = set token;
}

unfoldable pub login : Env → Request → Handler
unfolding client_ip handle_login
login env r s =
    let (response, server) =
      handle_login env.bcrypt (client_ip r.remote_addr) r.credentials r.random
        (record { attempts = s.attempts; store = s.store }) in
    (login_reply response, record s { attempts = server.attempts; store = server.store })

unfoldable pub log_out : Request → Handler
unfolding logout
log_out r s = (
  record { status = 200; body = Body.status_is (codes "ok"); cookie = clear },
  elim r.session [ none ↦ s | some token ↦ record s { store = (logout token s.store).1 } ],
)

unfoldable pub me : User → Handler
unfolding answer
me user = answer (json 200 (username user.username))
