-- ===== src/Auth/Login/Lockout.antt =====
-- The lockout after failed logins.
use mathlib.Core.Path.{subst}
use devsignal.Prelude.{
  ℕ, suc, ◌+◌, ◌<◌, ◌≡◌, refl, sym, ap, ◌∙◌, Bool, true, false, Option, none, some, List, [], ◌∷◌,
  All, length, Bool-cases, inl, inr, ◌==◌, ==_refl, lt→ltb, leb, arith,
}
use devsignal.Prelude.Text.{Text, text_eq, trim_space}
use devsignal.Auth.Passwords.{verify_password}
use devsignal.Auth.Store.{User, Store, update, get_user_by_email, set_users}
use devsignal.Prelude.Search.{find-map}
use devsignal.Auth.Rows.{fail_login, record_login_failure}
use devsignal.Auth.Service.{
  Env, Call, Outcome, failed, account_locked, wrong_credentials, status_active,
}
use devsignal.Auth.Login.{is_locked, is_ok, login_as, login_found, login}

abbrev pub found_user : Env → Text → Store → Option User
found_user env email st = get_user_by_email env.fold (trim_space email) st

-- A call, and the wrong password that it is made with.
abbrev pub Attempt : Type 0
Attempt = Call × Text

abbrev pub IsWrong : Env → Text → Attempt → Type 0
IsWrong env password_hash a =
    (a.0.up ≡ true) × (is_ok (verify_password env.passwords password_hash a.1) ≡ false)

-- The attempts in a row.
unfoldable pub attempts : Env → Text → Text → List Attempt → Store → Store
unfolding login
attempts env email user_agent [] st = st
attempts env email user_agent (a ∷ rest) st =
    attempts env email user_agent rest (login env a.0 email a.1 user_agent st).0

-- One attempt fails and counts.
wrong_attempt :
    (env : Env) (a : Attempt) (email user_agent : Text) (st : Store) (u : User)
    → found_user env email st ≡ some u
    → text_eq u.status status_active ≡ true
    → is_locked u.locked_until a.0.clock ≡ false
    → IsWrong env u.password_hash a
    → login env a.0 email a.1 user_agent st ≡ (
      record_login_failure env.policy.lockout_threshold env.policy.lockout_duration u.id a.0.now st,
      failed wrong_credentials,
    )
unfolding login login_found login_as
wrong_attempt env a email user_agent st u found active free wrong =
    rw (found, active, free, wrong.0, wrong.1) refl

email_kept :
    (q : User → Bool) (threshold lockout now : ℕ) (u : User)
    → (update q (fail_login threshold lockout now) u).email ≡ u.email
unfolding fail_login
email_kept q threshold lockout now u = elim (Bool-cases (q u)) [
  | inl e ↦ rw e refl
  | inr e ↦ rw e refl
]

-- The user that is found after a recorded failure.
found_after :
    (env : Env) (email : Text) (threshold lockout now : ℕ) (st : Store) (u : User)
    → found_user env email st ≡ some u
    → found_user env email (record_login_failure threshold lockout u.id now st)
      ≡ some (fail_login threshold lockout now u)
unfolding get_user_by_email record_login_failure set_users
found_after env email threshold lockout now st u found =
    let mine : User → Bool = λ v. v.id == u.id in
    let p : User → Bool = λ v. text_eq (env.fold v.email) (env.fold (trim_space email)) in
    let rest = find-map p (update mine (fail_login threshold lockout now)) st.users (λ v.
      ap (λ e. text_eq (env.fold e) (env.fold (trim_space email)))
        (email_kept mine threshold lockout now v)) in
    rw (rest, found, ==_refl u.id) refl

still_free :
    (env : Env) (now : ℕ) (u : User)
    → u.locked_until ≡ none
    → u.failed_logins + 1 < env.policy.lockout_threshold
    → (fail_login env.policy.lockout_threshold env.policy.lockout_duration now u).locked_until
      ≡ none
unfolding fail_login
still_free env now u free room = ground arith

now_locked :
    (env : Env) (now clock : ℕ) (u : User)
    → u.failed_logins + 1 ≡ env.policy.lockout_threshold
    → clock < now + env.policy.lockout_duration
    → is_locked
        (fail_login env.policy.lockout_threshold env.policy.lockout_duration now u).locked_until
        clock
      ≡ true
unfolding fail_login
now_locked env now clock u exact soon =
    let reached : leb env.policy.lockout_threshold (u.failed_logins + 1) ≡ true = ground arith in
    rw reached (lt→ltb clock (now + env.policy.lockout_duration) soon)

-- Below the threshold the failures are counted, and nothing is locked.
counted :
    (env : Env) (email user_agent : Text) (tries : List Attempt) (st : Store) (u : User)
    → found_user env email st ≡ some u
    → text_eq u.status status_active ≡ true
    → u.locked_until ≡ none
    → u.failed_logins + length tries < env.policy.lockout_threshold
    → All (IsWrong env u.password_hash) tries
    → (v : User) × (found_user env email (attempts env email user_agent tries st) ≡ some v)
      × (v.failed_logins ≡ u.failed_logins + length tries)
      × (v.locked_until ≡ none)
      × (v.password_hash ≡ u.password_hash)
      × (v.status ≡ u.status)
unfolding attempts fail_login
counted env email user_agent [] st u found active free room wrong =
    (u, found, omega arith, free, refl, refl)
counted env email user_agent (a ∷ tries) st u found active free room wrong =
    let threshold = env.policy.lockout_threshold in
    let lockout = env.policy.lockout_duration in
    let u' = fail_login threshold lockout a.0.now u in
    let after = record_login_failure threshold lockout u.id a.0.now st in
    let next : (login env a.0 email a.1 user_agent st).0 ≡ after =
      ap (λ (r : Store × Outcome). r.0)
        (wrong_attempt env a email user_agent st u found active (rw free refl) wrong.0) in
    let rest =
      counted env email user_agent tries after u'
        (found_after env email threshold lockout a.0.now st u found) active
        (still_free env a.0.now u free (omega arith)) (omega (arith, room)) wrong.1 in
    subst
      (λ s.
        (v : User) × (found_user env email (attempts env email user_agent tries s) ≡ some v)
        × (v.failed_logins ≡ u.failed_logins + suc (length tries))
        × (v.locked_until ≡ none)
        × (v.password_hash ≡ u.password_hash)
        × (v.status ≡ u.status))
      (sym next) (rest.0, rest.1, omega (arith, rest.2), rest.3, rest.4, rest.5)

-- The lock holds for every password.
locked_out :
    (env : Env) (call : Call) (email password user_agent : Text) (st : Store) (u : User)
    → found_user env email st ≡ some u
    → is_locked u.locked_until call.clock ≡ true
    → login env call email password user_agent st ≡ (st, failed account_locked)
unfolding login login_found login_as
locked_out env call email password user_agent st u found locked = rw (found, locked) refl

-- The failure that reaches the threshold locks the account for everyone: for an active user without
-- failures and lock, after one wrong password less than the threshold and one more, each recorded by
-- the database, every login is refused as locked, also with the right password, and changes nothing,
-- as long as the clock is before the time of the last failure plus the lockout duration.
pub lockout :
    (env : Env) (email user_agent : Text) (tries : List Attempt) (last : Attempt) (st : Store)
    (u : User) (call : Call) (password : Text)
    → found_user env email st ≡ some u
    → text_eq u.status status_active ≡ true
    → u.failed_logins ≡ 0
    → u.locked_until ≡ none
    → suc (length tries) ≡ env.policy.lockout_threshold
    → All (IsWrong env u.password_hash) tries
    → IsWrong env u.password_hash last
    → call.clock < last.0.now + env.policy.lockout_duration
    → let after =
        (login env last.0 email last.1 user_agent (attempts env email user_agent tries st)).0 in
      login env call email password user_agent after ≡ (after, failed account_locked)
lockout env email user_agent tries last st u call password found active none_yet free exact wrong
      wrong_last soon =
    let below =
      counted env email user_agent tries st u found active free (omega (arith, none_yet, exact))
        wrong in
    let v = below.0 in
    let before = attempts env email user_agent tries st in
    let threshold = env.policy.lockout_threshold in
    let duration = env.policy.lockout_duration in
    let is_active : text_eq v.status status_active ≡ true =
      ap (λ s. text_eq s status_active) below.5 ∙ active in
    let wrong' : IsWrong env v.password_hash last =
      subst (λ h. IsWrong env h last) (sym below.4) wrong_last in
    let step =
      ap (λ (r : Store × Outcome). r.0)
        (wrong_attempt env last email user_agent before v below.1 is_active
          (ap (λ l. is_locked l last.0.clock) below.3) wrong') in
    subst (λ s. login env call email password user_agent s ≡ (s, failed account_locked)) (sym step)
      (locked_out env call email password user_agent
        (record_login_failure threshold duration v.id last.0.now before)
        (fail_login threshold duration last.0.now v)
        (found_after env email threshold duration last.0.now before v below.1)
        (now_locked env last.0.now call.clock v (omega (arith, below.2, none_yet, exact)) soon))
