-- ===== src/Auth/Access.antt =====
-- internal/auth/service.go: Authenticate and Logout.
pub mod Sessions
use devsignal.Prelude.{
  ℕ, zero, suc, ◌+◌, ◌*◌, Bool, true, false, not, ◌&&◌, ◌||◌, Option, none, some, List, [], ◌∷◌,
  ◌++◌, map, length, ltb, leb, ◌==◌, if◌then◌else◌, bytes,
}
use devsignal.Prelude.Text.{Text, text_eq, trim_space}
use devsignal.Auth.Audit.{Event, Entry, append}
use devsignal.Auth.Passwords.{
  Lib, Verified, password_ok, hash_password, verify_password, needs_rehash,
}
use devsignal.Auth.Store.{
  User, Session, RefreshToken, Store, is_none, get_live_session_by_hash, get_refresh_by_hash,
  get_user_by_id, get_user_by_email, create_session, create_refresh_token, create_user, set_audit,
}
use devsignal.Auth.Rows.{
  record_login_failure, record_login_success, update_user_password_hash, revoke_session,
  touch_session, mark_refresh_used, revoke_refresh_family, revoke_sessions_for_family,
}
use devsignal.Auth.Service.{
  AuthError, email_taken, account_locked, suspended, token_invalid, token_replayed, weak_password,
  wrong_credentials, db_error, Policy, Tokens, Identity, Call, Env, Outcome, signed_in, failed,
  identity, audit, tokens, open_session, issue, status_active,
}

pub data Authenticated : Type 0 where
  known : Identity → Authenticated
  rejected : Authenticated

authenticate_user : Call → Session → Option User → Store → Store × Authenticated
unfolding touch_session
authenticate_user call s none st = (st, rejected)
authenticate_user call s (some u) st =
    if not (text_eq u.status status_active)
    then (st, rejected)
    else ((if call.up then touch_session s.id call.now st else st), known (identity u))

authenticate_session : Call → Option Session → Store → Store × Authenticated
unfolding authenticate_user get_user_by_id
authenticate_session call none st = (st, rejected)
authenticate_session call (some s) st = authenticate_user call s (get_user_by_id s.user_id st) st

unfoldable pub authenticate : Env → Call → Text → Store → Store × Authenticated
unfolding authenticate_session get_live_session_by_hash
authenticate env call secret st =
    authenticate_session call (get_live_session_by_hash (env.sha256 secret) call.now st) st

logout_session : Env → Call → Option Session → Store → Store × Option AuthError
unfolding revoke_session audit
logout_session env call none st = (st, none)
logout_session env call (some s) st =
    if call.up
    then (
      audit env call
          (record {
            actor_id = some s.user_id;
            tenant_id = none;
            action = bytes "user.logout";
            subject = env.uuid_text s.id;
            metadata = none;
          })
          (revoke_session s.id call.now st),
      none,
    )
    else (st, some db_error)

unfoldable pub logout : Env → Call → Text → Store → Store × Option AuthError
unfolding logout_session get_live_session_by_hash
logout env call secret st =
    logout_session env call (get_live_session_by_hash (env.sha256 secret) call.now st) st
