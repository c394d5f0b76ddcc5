-- ===== src/Http/Router/Gate.antt =====
-- internal/handlers/middleware.go: what a request without a valid session can do.
use rpi_network_filter.Common.{
  ◌≡◌, refl, ap, ◌≢◌, ◌⊎◌, inl, inr, ltb, ◌==◌, Bool, true, false, Bool-cases, none, some,
  Option-cases, Text, text_eq, find, ok,
}
use rpi_network_filter.Models.{User}
use rpi_network_filter.Db.{Db}
use rpi_network_filter.Auth.{validate_session}
use rpi_network_filter.Firewall.Apply.Effects.{Result-cases}
use rpi_network_filter.Http.{Env, Site, Request}
use rpi_network_filter.Http.Accounts.{authenticate, auth_required, api_auth_required}
use rpi_network_filter.Http.Router.{Route, login_page_, login_, logout_, page_of, api, serve}

-- No token that the request carries is that of a valid session.
abbrev pub IsAnonymous : Request → Site → Type 0
IsAnonymous r s =
    (token : Text) → r.session ≡ some token → (u : User) → (validate_session token s.store).0 ≢ ok u

abbrev pub is_public : Route → Bool
is_public login_page_ = true
is_public login_ = true
is_public logout_ = true
is_public (page_of template) = false
is_public (api e) = false

-- The sessions are all that may differ.
abbrev pub SameButSessions : Site → Site → Type 0
SameButSessions s s' = s' ≡ record s { store = record s.store { sessions = s'.store.sessions } }

validate_session-store :
    (token : Text) (s : Db)
    → (validate_session token s).1 ≡ record s { sessions = (validate_session token s).1.sessions }
unfolding validate_session
validate_session-store token s =
    elim (Option-cases (find (λ x. text_eq x.token token) s.sessions)) [
      | inl e ↦ rw (e, validate_session) refl
      | inr (x, e) ↦ elim (Option-cases (find (λ u. u.id == x.user_id) s.users)) [
        | inl f ↦ rw (e, validate_session) (rw (f, validate_session) refl)
        | inr (u, f) ↦ elim (Bool-cases (ltb x.expires_at s.now)) [
          | inl g ↦ rw (e, validate_session) (rw (f, validate_session) (rw g refl))
          | inr g ↦ rw (e, validate_session) (rw (f, validate_session) (rw g refl))
        ]
      ]
    ]

authenticate-anonymous :
    (r : Request) (s : Site)
    → IsAnonymous r s
    → ((authenticate r s).0 ≡ none) × SameButSessions s (authenticate r s).1
unfolding authenticate
authenticate-anonymous r s h = elim (Option-cases r.session) [
  | inl e ↦ rw (e, authenticate) (refl, refl)
  | inr (token, e) ↦ elim (Result-cases (validate_session token s.store).0) [
    | inl (u, f) ↦ absurd (h token e u f)
    | inr (x, f) ↦
        rw (e, authenticate)
          (rw (f, authenticate)
            (refl, ap (λ d. record s { store = d }) (validate_session-store token s.store)))
  ]
]

-- A request that carries no token of a valid session gets, on every route but those of the login
-- and the logout, a redirect or the status 401, and leaves everything but the sessions as it is: the
-- tables, the throttle, the history, and what was done or started outside the program.
pub serve-IsAnonymous :
    (env : Env) (r : Request) (route : Route) (s : Site)
    → is_public route ≡ false
    → IsAnonymous r s
    → (((serve env r route s).0.status ≡ 302) ⊎ ((serve env r route s).0.status ≡ 401))
      × SameButSessions s (serve env r route s).1
unfolding serve auth_required api_auth_required
serve-IsAnonymous env r login_page_ s p h = absurd (cc p)
serve-IsAnonymous env r login_ s p h = absurd (cc p)
serve-IsAnonymous env r logout_ s p h = absurd (cc p)
serve-IsAnonymous env r (page_of template) s p h =
    let (nobody, same) = authenticate-anonymous r s h in rw (nobody, auth_required) (inl refl, same)
serve-IsAnonymous env r (api e) s p h =
    let (nobody, same) = authenticate-anonymous r s h in
    rw (nobody, api_auth_required) (inr refl, same)
