-- ===== src/Auth/Refresh.antt =====
-- internal/auth/service.go: Refresh, with the revocation of a replayed token's family.
pub mod Replay
use devsignal.Prelude.{
  ℕ, zero, suc, ◌+◌, ◌*◌, Bool, true, false, not, ◌&&◌, ◌||◌, Option, none, some, List, [], ◌∷◌,
  ◌++◌, map, length, ltb, leb, ◌==◌, if◌then◌else◌, bytes,
}
use devsignal.Prelude.Text.{Text, text_eq, trim_space}
use devsignal.Auth.Audit.{Event, Entry, append}
use devsignal.Auth.Passwords.{
  Lib, Verified, password_ok, hash_password, verify_password, needs_rehash,
}
use devsignal.Auth.Store.{
  User, Session, RefreshToken, Store, is_none, get_live_session_by_hash, get_refresh_by_hash,
  get_user_by_id, get_user_by_email, create_session, create_refresh_token, create_user, set_audit,
}
use devsignal.Auth.Rows.{
  record_login_failure, record_login_success, update_user_password_hash, revoke_session,
  touch_session, mark_refresh_used, revoke_refresh_family, revoke_sessions_for_family,
}
use devsignal.Auth.Service.{
  AuthError, email_taken, account_locked, suspended, token_invalid, token_replayed, weak_password,
  wrong_credentials, db_error, Policy, Tokens, Identity, Call, Env, Outcome, signed_in, failed,
  identity, audit, tokens, open_session, issue, status_active,
}

-- The event of a replay; its metadata count the tokens.
replay_event : Env → RefreshToken → Text → Event
replay_event env t revoked = record {
  actor_id = some t.user_id;
  tenant_id = none;
  action = bytes "auth.refresh_replayed";
  subject = env.uuid_text t.family_id;
  metadata = some revoked;
}

-- `marshal` prints the metadata of a count of revoked tokens.
unfoldable pub revoke_family : Env → Call → (ℕ → Text) → RefreshToken → Store → Store
unfolding revoke_refresh_family revoke_sessions_for_family audit replay_event
revoke_family env call marshal t st =
    if call.up
    then (let (revoked, n) = revoke_refresh_family t.family_id call.now st in
        audit env call (replay_event env t (marshal n))
          (revoke_sessions_for_family t.family_id call.now revoked))
    else st

-- What Refresh finds before its transaction.
pub data Checked : Type 0 where
  unknown : Checked
  replayed : RefreshToken → Checked
  inactive : Checked
  may_rotate : RefreshToken → User → Checked

check_user : RefreshToken → Option User → Checked
check_user t none = unknown
check_user t (some u) = if text_eq u.status status_active then may_rotate t u else inactive

check_token : ℕ → Option RefreshToken → Store → Checked
unfolding check_user get_user_by_id
check_token clock none st = unknown
check_token clock (some t) st =
    if not (is_none t.used_at)
    then replayed t
    else if not (is_none t.revoked_at) || not (ltb clock t.expires_at)
    then unknown
    else check_user t (get_user_by_id t.user_id st)

unfoldable pub check_refresh : Env → Call → Text → Store → Checked
unfolding check_token get_refresh_by_hash
check_refresh env call secret st =
    check_token call.clock (get_refresh_by_hash (env.sha256 secret) st) st

-- The transaction of Refresh.
unfoldable pub rotate : Env → Call → RefreshToken → Text → Store → Store
unfolding open_session mark_refresh_used revoke_session
rotate env call t user_agent st = revoke_session t.session_id call.now (
    mark_refresh_used t.id call.refresh_id call.now
      (open_session env call t.family_id t.user_id user_agent st))

unfoldable pub finish_refresh : Env → Call → (ℕ → Text) → Text → Checked → Store → Store × Outcome
unfolding revoke_family rotate
finish_refresh env call marshal user_agent unknown st = (st, failed token_invalid)
finish_refresh env call marshal user_agent (replayed t) st =
    (revoke_family env call marshal t st, failed token_replayed)
finish_refresh env call marshal user_agent inactive st = (st, failed suspended)
finish_refresh env call marshal user_agent (may_rotate t u) st =
    if call.up
    then (rotate env call t user_agent st, signed_in (tokens env call) (identity u))
    else (st, failed db_error)

-- The check and the transaction read the database apart: `others` is what other transactions commit
-- between them.
unfoldable pub refresh :
    Env → Call → (ℕ → Text) → (Store → Store) → Text → Text → Store → Store × Outcome
unfolding check_refresh finish_refresh
refresh env call marshal others secret user_agent st =
    finish_refresh env call marshal user_agent (check_refresh env call secret st) (others st)
