-- ===== src/Login/Lockout.antt =====
-- When a client is locked out.
use rpi_network_filter.Common.{
  ℕ, suc, ◌+◌, ◌-◌, ◌≤◌, ◌≡◌, refl, sym, ap, subst, ◌∙◌, inl, inr, leb, ltb, false, ◌&&◌,
  Bool-cases, Option-cases, none, some, List, [], ◌∷◌, Text, text_eq, text_eq_refl, text_eq_iff,
  length, All, arith, if◌then◌else◌,
}
use rpi_network_filter.Login.{
  LoginBucket, Attempts, lookup, delete, insert, login_locked, fail_again, first_failure,
  record_login_failure, login_window, login_lockout, login_max_failures,
}

pub lookup-delete : (ip : Text) (m : Attempts) → lookup ip (delete ip m) ≡ none
unfolding lookup delete
lookup-delete ip [] = refl
lookup-delete ip ((k, b) ∷ m) = elim (Bool-cases (text_eq k ip)) [
  | inl e ↦ rw e (lookup-delete ip m)
  | inr e ↦ rw (e, delete, lookup) (rw e (lookup-delete ip m))
]

lookup-insert : (ip : Text) (b : LoginBucket) (m : Attempts) → lookup ip (insert ip b m) ≡ some b
unfolding lookup insert
lookup-insert ip b m = rw (text_eq_refl ip) refl

module _ (ip other : Text) (differ : text_eq ip other ≡ false) where
  lookup-delete_other : (m : Attempts) → lookup other (delete ip m) ≡ lookup other m
  unfolding lookup delete
  lookup-delete_other [] = refl
  lookup-delete_other ((k, b) ∷ m) = elim (Bool-cases (text_eq k ip)) [
    | inl e ↦
        let same : text_eq k other ≡ false =
          ap (λ x. text_eq x other) ((text_eq_iff k ip).0 e) ∙ differ in
        rw (e, same) (lookup-delete_other m)
    | inr e ↦ elim (Bool-cases (text_eq k other)) [
      | inl f ↦ rw (e, f) refl
      | inr f ↦ rw (e, f) (lookup-delete_other m)
    ]
  ]

  lookup-insert_other :
      (b : LoginBucket) (m : Attempts) → lookup other (insert ip b m) ≡ lookup other m
  unfolding lookup insert
  lookup-insert_other b m = rw differ (lookup-delete_other m)

  lookup-record_login_failure_other :
      (now : ℕ) (m : Attempts) → lookup other (record_login_failure now ip m) ≡ lookup other m
  unfolding record_login_failure
  lookup-record_login_failure_other now m = elim (Option-cases (lookup ip m)) [
    | inl e ↦ rw (e, record_login_failure) (lookup-insert_other (first_failure now) m)
    | inr (b, e) ↦ elim (Bool-cases (ltb login_window (now - b.first_hit))) [
      | inl f ↦ rw (e, record_login_failure) (rw f (lookup-insert_other (first_failure now) m))
      | inr f ↦ rw (e, record_login_failure) (rw f (lookup-insert_other (fail_again now b) m))
    ]
  ]

-- Failed logins of a client at some times, one behind the other.
unfoldable pub fail_all : Text → List ℕ → Attempts → Attempts
unfolding record_login_failure
fail_all ip [] m = m
fail_all ip (t ∷ ts) m = fail_all ip ts (record_login_failure t ip m)

-- The last of some times.
abbrev pub latest : ℕ → List ℕ → ℕ
latest t [] = t
latest t (u ∷ ts) = latest u ts

-- A bucket after `n` failures in one window, the first and the last at the given times.
abbrev Tracks : ℕ → ℕ → ℕ → LoginBucket → Type 0
Tracks n first last b =
    (b.failures ≡ n)
    × (b.first_hit ≡ first)
    × (b.lock_until ≡ (if leb login_max_failures n then last + login_lockout else 0))

fail_again-Tracks :
    (n first last now : ℕ) (b : LoginBucket)
    → Tracks n first last b
    → Tracks (suc n) first now (fail_again now b)
fail_again-Tracks n first last now b (f, h, l) = (omega arith, h, ground arith)

lookup-record_login_failure :
    (now : ℕ) (ip : Text) (m : Attempts) (b : LoginBucket)
    → lookup ip m ≡ some b
    → now ≤ b.first_hit + login_window
    → lookup ip (record_login_failure now ip m) ≡ some (fail_again now b)
unfolding record_login_failure
lookup-record_login_failure now ip m b e h =
    let inside : ltb login_window (now - b.first_hit) ≡ false = ground arith in
    rw (e, record_login_failure) (rw inside (lookup-insert ip (fail_again now b) m))

lookup-first_failure :
    (now : ℕ) (ip : Text) (m : Attempts)
    → lookup ip m ≡ none
    → lookup ip (record_login_failure now ip m) ≡ some (first_failure now)
unfolding record_login_failure
lookup-first_failure now ip m e =
    rw (e, record_login_failure) (lookup-insert ip (first_failure now) m)

lookup-fail_all :
    (ip : Text) (n first last : ℕ) (ts : List ℕ) (m : Attempts) (b : LoginBucket)
    → lookup ip m ≡ some b
    → Tracks n first last b
    → All (λ t. t ≤ first + login_window) ts
    → (c : LoginBucket) × (lookup ip (fail_all ip ts m) ≡ some c)
      × Tracks (n + length ts) first (latest last ts) c
unfolding fail_all
lookup-fail_all ip n first last [] m b e k h = (b, e, rw (zero_more n) k)
  where
    zero_more : (n : ℕ) → n + 0 ≡ n
    zero_more n = omega arith
lookup-fail_all ip n first last (t ∷ ts) m b e k (w, h) =
    let inside : t ≤ b.first_hit + login_window = rw k.1 w in
    let (c, f, tracks) =
      lookup-fail_all ip (suc n) first t ts (record_login_failure t ip m) (fail_again t b)
        (lookup-record_login_failure t ip m b e inside) (fail_again-Tracks n first last t b k) h in
    (c, f, rw (one_more n (length ts)) tracks)
  where
    one_more : (n k : ℕ) → n + suc k ≡ suc n + k
    one_more n k = omega arith

login_locked-lookup :
    (now : ℕ) (ip : Text) (m : Attempts) (b : LoginBucket)
    → lookup ip m ≡ some b
    → login_locked now ip m ≡ (if ltb now b.lock_until then some (b.lock_until - now) else none)
unfolding login_locked
login_locked-lookup now ip m b e = rw (e, login_locked) refl

login_locked-none :
    (now : ℕ) (ip : Text) (m : Attempts) → lookup ip m ≡ none → login_locked now ip m ≡ none
unfolding login_locked
login_locked-none now ip m e = rw (e, login_locked) refl

-- A client without a bucket that fails to log in at some times, all within a minute of the first one,
-- is locked out exactly if it failed five times or more, for two minutes from the last failure on,
-- and is told the time that is left.
pub login_locked-fail_all :
    (ip : Text) (now t : ℕ) (ts : List ℕ) (m : Attempts)
    → lookup ip m ≡ none
    → All (λ u. u ≤ t + login_window) ts
    → login_locked now ip (fail_all ip (t ∷ ts) m) ≡ (
        if leb login_max_failures (suc (length ts)) && ltb now (latest t ts + login_lockout)
        then some (latest t ts + login_lockout - now)
        else none)
unfolding fail_all
login_locked-fail_all ip now t ts m e h =
    let (c, f, tracks) =
      lookup-fail_all ip 1 t t ts (record_login_failure t ip m) (first_failure t)
        (lookup-first_failure t ip m e) (refl, refl, refl) h in
    login_locked-lookup now ip (fail_all ip ts (record_login_failure t ip m)) c f
    ∙ locked (suc (length ts)) (latest t ts) c
        (subst (λ k. Tracks k t (latest t ts) c) (one_more (length ts)) tracks)
  where
    one_more : (n : ℕ) → 1 + n ≡ suc n
    one_more n = omega arith

    locked :
        (n last : ℕ) (c : LoginBucket)
        → Tracks n t last c
        → (if ltb now c.lock_until then some (c.lock_until - now) else none) ≡ (
            if leb login_max_failures n && ltb now (last + login_lockout)
            then some (last + login_lockout - now)
            else none)
    locked n last c (_, _, l) = elim (Bool-cases (leb login_max_failures n)) [
      | inl g ↦ rw (l, g) refl
      | inr g ↦ rw (l, g) (let never : ltb now 0 ≡ false = ground arith in rw never refl)
    ]

-- The failures of one client leave the lock of every other client as it is.
pub login_locked-fail_all_other :
    (ip other : Text) (now : ℕ) (ts : List ℕ) (m : Attempts)
    → text_eq ip other ≡ false
    → login_locked now other (fail_all ip ts m) ≡ login_locked now other m
unfolding fail_all
login_locked-fail_all_other ip other now [] m d = refl
login_locked-fail_all_other ip other now (t ∷ ts) m d =
    login_locked-fail_all_other ip other now ts (record_login_failure t ip m) d
    ∙ same_lookup (record_login_failure t ip m) m (lookup-record_login_failure_other ip other d t m)
  where
    same_lookup :
        (m n : Attempts)
        → lookup other m ≡ lookup other n
        → login_locked now other m ≡ login_locked now other n
    same_lookup m n e = elim (Option-cases (lookup other n)) [
      | inl f ↦ login_locked-none now other m (e ∙ f) ∙ sym (login_locked-none now other n f)
      | inr (b, f) ↦
          login_locked-lookup now other m b (e ∙ f) ∙ sym (login_locked-lookup now other n b f)
    ]
