-- ===== src/Daemon/Admin.antt =====
-- What --init-admin and --reset-admin leave behind.
use rpi_network_filter.Common.{
  ℕ, ◌≡◌, ap, sym, subst, inl, inr, Bool, false, ◌||◌, Bool-cases, Option-cases, Option, none, some,
  List, [], Text, text_eq, ok, any,
}
use rpi_network_filter.Config.{Config}
use rpi_network_filter.Strings.{is_nil}
use rpi_network_filter.Db.{Db}
use rpi_network_filter.Auth.{BcryptLaws, create_user, reset_password, generate_token, login}
use rpi_network_filter.Auth.Passwords.{
  IsAccepted, create_user-IsAccepted, reset_password-IsAccepted, login-IsAccepted,
}
use rpi_network_filter.Firewall.Apply.{Effect}
use rpi_network_filter.Firewall.Apply.Effects.{Result-cases}
use rpi_network_filter.Http.{Env}
use rpi_network_filter.Daemon.{
  Flags, exit_success, no_config, no_database, admin_failed, run_admin, with_flags, start_up, main,
}

module _ (env : Env) (salt : ℕ) (flags : Flags) (laws : BcryptLaws env.bcrypt) where
  run_admin-IsAccepted :
      (s : Db)
      → (run_admin env salt flags s).0 ≡ exit_success
      → IsAccepted env.bcrypt flags.username flags.password (run_admin env salt flags s).1
  unfolding run_admin
  run_admin-IsAccepted s h = elim (Bool-cases flags.init_admin) [
    | inl e ↦ elim (Result-cases (create_user env.bcrypt salt flags.username flags.password s).0) [
      | inl (u, f) ↦
          rw (e, run_admin)
            (rw (f, run_admin)
              (rw e
                (create_user-IsAccepted env.bcrypt flags.username flags.password laws salt s f)))
      | inr (x, f) ↦
          let h' = rw (e, run_admin) at h in
          let bad : admin_failed x ≡ exit_success = (rw (f, run_admin) at h') in cc bad
    ]
    | inr e ↦
        elim (Result-cases (reset_password env.bcrypt salt flags.username flags.password s).0) [
          | inl (u, f) ↦
              rw (e, run_admin)
                (rw (f, run_admin)
                  (rw e (
                    reset_password-IsAccepted env.bcrypt flags.username flags.password laws salt s
                      f)))
          | inr (x, f) ↦
              let h' = rw (e, run_admin) at h in
              let bad : admin_failed x ≡ exit_success = (rw (f, run_admin) at h') in cc bad
        ]
  ]

  module _ (cert_exists : Text → Bool) (s' : Db) (effects : List Effect) where
    abbrev IsSetUp : Type 0
    IsSetUp = IsAccepted env.bcrypt flags.username flags.password s' × (effects ≡ [])

    start_up-IsAccepted :
        (cfg : Config) (s : Db)
        → start_up env salt cert_exists flags cfg s ≡ (exit_success, (some s', effects))
        → IsSetUp
    unfolding start_up
    start_up-IsAccepted cfg s h = elim (Bool-cases (flags.init_admin || flags.reset_admin)) [
      | inr e ↦ let h' = rw (e, start_up) at h in let bad = ap (λ r. r.0) h' in cc bad
      | inl e ↦ elim (Bool-cases (is_nil flags.password)) [
        | inl f ↦ let h' = rw f at (rw (e, start_up) at h) in let bad = ap (λ r. r.0) h' in cc bad
        | inr f ↦
            let h' = rw f at (rw (e, start_up) at h) in
            let done = run_admin-IsAccepted s (ap (λ r. r.0) h') in
            let stored : some (run_admin env salt flags s).1 ≡ some s' = ap (λ r. r.1.0) h' in
            let same : (run_admin env salt flags s).1 ≡ s' = cc stored in
            let unchanged : [] ≡ effects = ap (λ r. r.1.1) h' in
            (subst (IsAccepted env.bcrypt flags.username flags.password) same done, sym unchanged)
      ]
    ]

    main-IsAccepted :
        (load : Option Config) (open_ : Config → Option Db)
        → main env salt cert_exists flags load open_ ≡ (exit_success, (some s', effects))
        → IsSetUp
    unfolding main
    main-IsAccepted load open_ h = elim (Bool-cases flags.version) [
      | inl e ↦
          let bad : (exit_success, (none, [])) ≡ (exit_success, (some s', effects)) =
            (rw (e, main) at h) in
          cc bad
      | inr e ↦ elim (Option-cases load) [
        | inl f ↦
            let bad : (no_config, (none, [])) ≡ (exit_success, (some s', effects)) =
              (rw (f, main) at (rw (e, main) at h)) in
            cc bad
        | inr (loaded, f) ↦ elim (Option-cases (open_ (with_flags flags loaded))) [
          | inl g ↦
              let bad : (no_database, (none, [])) ≡ (exit_success, (some s', effects)) =
                (rw (g, main) at (rw (f, main) at (rw (e, main) at h))) in
              cc bad
          | inr (s, g) ↦
              start_up-IsAccepted (with_flags flags loaded) s
                (rw (g, main) at (rw (f, main) at (rw (e, main) at h)))
        ]
      ]
    ]

    -- When main succeeds and had opened the database, then --init-admin or --reset-admin had set the
    -- password of the user of that name: Login with the two returns the token that is drawn, if it
    -- is new, and the services tried no effect outside the program. It takes of bcrypt that a hash accepts
    -- the password it was generated from.
    pub main-login :
        (load : Option Config) (open_ : Config → Option Db) (random : Option (List ℕ))
        (token : Text)
        → main env salt cert_exists flags load open_ ≡ (exit_success, (some s', effects))
        → generate_token random ≡ some token
        → any (λ x. text_eq x.token token) s'.sessions ≡ false
        → ((login env.bcrypt random flags.username flags.password s').0 ≡ ok token) × (effects ≡ [])
    main-login load open_ random token h drawn fresh =
        let (accepted, none_tried) = main-IsAccepted load open_ h in
        (
          login-IsAccepted env.bcrypt flags.username flags.password random token s' accepted drawn
              fresh,
          none_tried,
        )
