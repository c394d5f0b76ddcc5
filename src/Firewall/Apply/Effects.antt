-- ===== src/Firewall/Apply/Effects.antt =====
-- What Apply does, effect by effect.
use rpi_network_filter.Common.{
  ◌≡◌, refl, ap, ◌⊎◌, inl, inr, Bool, true, false, ◌||◌, Bool-cases, List, [], ◌∷◌, ◌++◌, codes,
  Result, ok, err, All,
}
use rpi_network_filter.Config.{Config}
use rpi_network_filter.Host.{Host}
use rpi_network_filter.Db.{Db, Error, exec_failed, write_failed}
use rpi_network_filter.Firewall.{load_policy_snapshot}
use rpi_network_filter.Firewall.Apply.{
  Effect, write_file, exec, nftables_conf, dnsmasq_nftsets, perform, perform_all, apply_effects,
  apply,
}

-- A result is a value or an error.
pub Result-cases :
    {A : Type 0} (r : Result Error A) → ((a : A) × (r ≡ ok a)) ⊎ ((e : Error) × (r ≡ err e))
Result-cases (ok a) = inl (a, refl)
Result-cases (err e) = inr (e, refl)

-- The rules are written and loaded, and the directives of dnsmasq are written and loaded.
abbrev pub loading : Host → Config → Db → List Effect
loading host cfg s =
    write_file (codes "/etc/nftables.conf") (nftables_conf host cfg s)
    ∷ exec (codes "nft" ∷ codes "-f" ∷ codes "/etc/nftables.conf" ∷ [])
    ∷ write_file (codes "/etc/dnsmasq.d/netfilter-nftsets.conf")
        (dnsmasq_nftsets (load_policy_snapshot s))
    ∷ exec (codes "systemctl" ∷ codes "reload" ∷ codes "dnsmasq" ∷ [])
    ∷ []

-- The error of an effect that fails.
abbrev pub failure : Effect → Error
failure (write_file path text) = write_failed
failure (exec args) = exec_failed

module _ (dry_run : Bool) (works : Effect → Bool) where
  -- An effect that works, or any effect of a dry run.
  abbrev pub Succeeds : Effect → Type 0
  Succeeds e = (dry_run || works e) ≡ true

  -- All effects succeed and are tried in their order, or one fails, with its error, and those behind
  -- it are not tried.
  abbrev pub IsOutcome : List Effect → Result Error (Unit {0}) × List Effect → Type 0
  IsOutcome es outcome =
      (All Succeeds es × (outcome ≡ (ok tt, es)))
      ⊎ ((pre : List Effect) × (e : Effect) × (post : List Effect) × (es ≡ pre ++ e ∷ post)
          × All Succeeds pre
          × (dry_run ≡ false)
          × (works e ≡ false)
          × (outcome ≡ (err (failure e), pre ++ e ∷ [])))

  perform-cases :
      (e : Effect)
      → (Succeeds e × (perform dry_run works e ≡ ok tt))
        ⊎ ((dry_run ≡ false) × (works e ≡ false) × (perform dry_run works e ≡ err (failure e)))
  unfolding perform
  perform-cases (write_file path text) = elim (Bool-cases dry_run) [
    | inl e ↦ elim (Bool-cases (works (write_file path text))) [
      | inl f ↦ inl (rw e refl, rw f refl)
      | inr f ↦ inl (rw e refl, rw f (rw e refl))
    ]
    | inr e ↦ elim (Bool-cases (works (write_file path text))) [
      | inl f ↦ inl (rw e f, rw f refl)
      | inr f ↦ inr (e, f, rw f (rw e refl))
    ]
  ]
  perform-cases (exec args) = elim (Bool-cases dry_run) [
    | inl e ↦ inl (rw e refl, rw e refl)
    | inr e ↦ elim (Bool-cases (works (exec args))) [
      | inl f ↦ inl (rw e f, rw e (rw f refl))
      | inr f ↦ inr (e, f, rw e (rw f refl))
    ]
  ]

  perform_all-IsOutcome : (es : List Effect) → IsOutcome es (perform_all dry_run works es)
  unfolding perform_all
  perform_all-IsOutcome [] = inl (tt, refl)
  perform_all-IsOutcome (e ∷ es) = elim (perform-cases e) [
    | inr (real, fails, f) ↦ inr ([], e, es, refl, tt, real, fails, rw (f, perform_all) refl)
    | inl (succeeds, f) ↦ elim (perform_all-IsOutcome es) [
      | inl (h, o) ↦ inl ((succeeds, h), rw (f, o, perform_all) refl)
      | inr (pre, y, post, g, h, real, fails, o) ↦ inr (
        e ∷ pre,
        y,
        post,
        ap (λ r. e ∷ r) g,
        (succeeds, h),
        real,
        fails,
        rw (f, o, perform_all) refl,
      )
    ]
  ]

-- Apply tries to write /etc/nftables.conf with the ruleset of the tables, to load it by nft -f, to
-- write the directives of dnsmasq and to reload dnsmasq, in this order. It reports success and
-- tries all four exactly if each of them works or the run is dry; otherwise it stops behind the
-- first one that does not work, with the error of a failed write or of a failed command.
pub apply-IsOutcome :
    (host : Host) (cfg : Config) (works : Effect → Bool) (s : Db)
    → IsOutcome cfg.dry_run works (loading host cfg s) (apply host cfg works s)
unfolding apply apply_effects
apply-IsOutcome host cfg works s = perform_all-IsOutcome cfg.dry_run works (loading host cfg s)
