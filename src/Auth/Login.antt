-- ===== src/Auth/Login.antt =====
-- internal/auth/service.go: Login and Register.
pub mod Lockout
use devsignal.Prelude.{
  ℕ, zero, suc, ◌+◌, ◌*◌, Bool, true, false, not, ◌&&◌, ◌||◌, Option, none, some, List, [], ◌∷◌,
  ◌++◌, map, length, ltb, leb, ◌==◌, if◌then◌else◌, bytes,
}
use devsignal.Prelude.Text.{Text, text_eq, trim_space}
use devsignal.Auth.Audit.{Event, Entry, append}
use devsignal.Auth.Passwords.{
  Lib, Verified, password_ok, hash_password, verify_password, needs_rehash,
}
use devsignal.Auth.Store.{
  User, Session, RefreshToken, Store, is_none, get_live_session_by_hash, get_refresh_by_hash,
  get_user_by_id, get_user_by_email, create_session, create_refresh_token, create_user, set_audit,
}
use devsignal.Auth.Rows.{
  record_login_failure, record_login_success, update_user_password_hash, revoke_session,
  touch_session, mark_refresh_used, revoke_refresh_family, revoke_sessions_for_family,
}
use devsignal.Auth.Service.{
  AuthError, email_taken, account_locked, suspended, token_invalid, token_replayed, weak_password,
  wrong_credentials, db_error, Policy, Tokens, Identity, Call, Env, Outcome, signed_in, failed,
  identity, audit, tokens, open_session, issue, status_active,
}

-- `user.LockedUntil.Valid && user.LockedUntil.Time.After(s.clock.Now())`
abbrev pub is_locked : Option ℕ → ℕ → Bool
is_locked none clock = false
is_locked (some t) clock = ltb clock t

abbrev pub is_ok : Verified → Bool
is_ok password_ok = true
is_ok _ = false

abbrev pub user_event : Env → Text → User → Event
user_event env action u = record {
  actor_id = some u.id;
  tenant_id = some u.tenant_id;
  action = action;
  subject = env.uuid_text u.id;
  metadata = none;
}

-- The transaction of a login whose password is right.
unfoldable pub complete_login : Env → Call → User → Text → Text → Store → Store
unfolding record_login_success needs_rehash hash_password update_user_password_hash issue audit
complete_login env call u password user_agent st =
    let recorded = record_login_success u.id call.now st in
    let rehashed =
      if needs_rehash env.passwords u.password_hash
      then update_user_password_hash u.id
          (hash_password env.passwords env.version call.salt password) recorded
      else recorded in
    audit env call (user_event env (bytes "user.login") u) (issue env call u.id user_agent rehashed)

-- The two transactions a login may end in. A failure that the database does not record is logged only.
unfoldable pub login_as : Env → Call → User → Text → Text → Store → Store × Outcome
unfolding verify_password record_login_failure complete_login
login_as env call u password user_agent st =
    if is_locked u.locked_until call.clock
    then (st, failed account_locked)
    else if not (text_eq u.status status_active)
    then (st, failed suspended)
    else if not (is_ok (verify_password env.passwords u.password_hash password))
    then (
      (if call.up
          then record_login_failure env.policy.lockout_threshold env.policy.lockout_duration u.id
              call.now st
          else st),
      failed wrong_credentials,
    )
    else if call.up
    then (
      complete_login env call u password user_agent st,
      signed_in (tokens env call) (identity u),
    )
    else (st, failed db_error)

login_found : Env → Call → Option User → Text → Text → Store → Store × Outcome
unfolding login_as
login_found env call none password user_agent st = (st, failed wrong_credentials)
login_found env call (some u) password user_agent st = login_as env call u password user_agent st

unfoldable pub login : Env → Call → Text → Text → Text → Store → Store × Outcome
unfolding login_found get_user_by_email trim_space
login env call email password user_agent st =
    login_found env call (get_user_by_email env.fold (trim_space email) st) password user_agent st

-- The unique email decides between the two ends of the transaction.
register_as : Env → Call → Text → Text → Text → Option User → Store → Store × Outcome
unfolding hash_password create_user issue audit
register_as env call email password user_agent (some taken) st = (st, failed email_taken)
register_as env call email password user_agent none st =
    let u : User = record {
      id = call.user_id;
      tenant_id = call.tenant_id;
      email = email;
      password_hash = hash_password env.passwords env.version call.salt password;
      status = status_active;
      failed_logins = 0;
      locked_until = none;
      last_login_at = none;
    } in
    (
      audit env call (user_event env (bytes "user.registered") u)
          (issue env call u.id user_agent (create_user call.tenant_id u st)),
      signed_in (tokens env call) (identity u),
    )

unfoldable pub register : Env → Call → Text → Text → Text → Store → Store × Outcome
unfolding register_as get_user_by_email trim_space
register env call email password user_agent st =
    let address = trim_space email in
    if ltb (length password) env.policy.min_password_len
    then (st, failed weak_password)
    else if call.up
    then register_as env call address password user_agent (get_user_by_email env.fold address st) st
    else (st, failed db_error)
