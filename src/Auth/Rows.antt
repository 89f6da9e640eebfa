-- ===== src/Auth/Rows.antt =====
-- internal/store/auth.sql.go: the updates, row by row.
use devsignal.Prelude.{
  ℕ, ◌+◌, Bool, true, false, ◌&&◌, none, some, List, [], ◌∷◌, filter, length, leb, ◌==◌,
  if◌then◌else◌,
}
use devsignal.Prelude.Text.{Text}
use devsignal.Auth.Store.{
  User, Session, RefreshToken, Store, is_none, update, set_users, set_sessions, set_tokens,
}

-- failed_logins + 1 >= threshold sets the lock, in the same statement.
unfoldable pub fail_login : ℕ → ℕ → ℕ → User → User
fail_login threshold lockout now u = record {
  id = u.id;
  tenant_id = u.tenant_id;
  email = u.email;
  password_hash = u.password_hash;
  status = u.status;
  failed_logins = u.failed_logins + 1;
  locked_until =
      if leb threshold (u.failed_logins + 1) then some (now + lockout) else u.locked_until;
  last_login_at = u.last_login_at;
}

unfoldable pub succeed_login : ℕ → User → User
succeed_login now u = record {
  id = u.id;
  tenant_id = u.tenant_id;
  email = u.email;
  password_hash = u.password_hash;
  status = u.status;
  failed_logins = 0;
  locked_until = none;
  last_login_at = some now;
}

unfoldable pub set_password_hash : Text → User → User
set_password_hash h u = record {
  id = u.id;
  tenant_id = u.tenant_id;
  email = u.email;
  password_hash = h;
  status = u.status;
  failed_logins = u.failed_logins;
  locked_until = u.locked_until;
  last_login_at = u.last_login_at;
}

unfoldable pub revoke_session_row : ℕ → Session → Session
revoke_session_row now s = record {
  id = s.id;
  user_id = s.user_id;
  token_hash = s.token_hash;
  user_agent = s.user_agent;
  last_seen_at = s.last_seen_at;
  expires_at = s.expires_at;
  revoked_at = some now;
}

unfoldable pub touch_session_row : ℕ → Session → Session
touch_session_row now s = record {
  id = s.id;
  user_id = s.user_id;
  token_hash = s.token_hash;
  user_agent = s.user_agent;
  last_seen_at = now;
  expires_at = s.expires_at;
  revoked_at = s.revoked_at;
}

unfoldable pub revoke_token_row : ℕ → RefreshToken → RefreshToken
revoke_token_row now t = record {
  id = t.id;
  family_id = t.family_id;
  user_id = t.user_id;
  session_id = t.session_id;
  token_hash = t.token_hash;
  used_at = t.used_at;
  replaced_by = t.replaced_by;
  revoked_at = some now;
  expires_at = t.expires_at;
}

unfoldable pub use_token_row : ℕ → ℕ → RefreshToken → RefreshToken
use_token_row replaced_by now t = record {
  id = t.id;
  family_id = t.family_id;
  user_id = t.user_id;
  session_id = t.session_id;
  token_hash = t.token_hash;
  used_at = some now;
  replaced_by = some replaced_by;
  revoked_at = t.revoked_at;
  expires_at = t.expires_at;
}

unfoldable pub record_login_failure : ℕ → ℕ → ℕ → ℕ → Store → Store
unfolding fail_login set_users
record_login_failure threshold lockout id now st =
    set_users (update (λ u. u.id == id) (fail_login threshold lockout now)) st

unfoldable pub record_login_success : ℕ → ℕ → Store → Store
unfolding succeed_login set_users
record_login_success id now st = set_users (update (λ u. u.id == id) (succeed_login now)) st

unfoldable pub update_user_password_hash : ℕ → Text → Store → Store
unfolding set_password_hash set_users
update_user_password_hash id h st = set_users (update (λ u. u.id == id) (set_password_hash h)) st

unfoldable pub revoke_session : ℕ → ℕ → Store → Store
unfolding revoke_session_row set_sessions
revoke_session id now st =
    set_sessions (update (λ s. s.id == id && is_none s.revoked_at) (revoke_session_row now)) st

unfoldable pub touch_session : ℕ → ℕ → Store → Store
unfolding touch_session_row set_sessions
touch_session id now st = set_sessions (update (λ s. s.id == id) (touch_session_row now)) st

unfoldable pub mark_refresh_used : ℕ → ℕ → ℕ → Store → Store
unfolding use_token_row set_tokens
mark_refresh_used id replaced_by now st =
    set_tokens (update (λ t. t.id == id) (use_token_row replaced_by now)) st

-- The tokens of a family that are not revoked yet.
abbrev pub in_family : ℕ → RefreshToken → Bool
in_family family t = t.family_id == family && is_none t.revoked_at

unfoldable pub revoke_refresh_family : ℕ → ℕ → Store → Store × ℕ
unfolding revoke_token_row set_tokens
revoke_refresh_family family now st = (
  set_tokens (update (in_family family) (revoke_token_row now)) st,
  length (filter (in_family family) st.refresh_tokens),
)

-- SELECT session_id FROM refresh_token WHERE family_id = $1
unfoldable pub of_family : ℕ → ℕ → List RefreshToken → Bool
of_family family session [] = false
of_family family session (t ∷ ts) =
    let rest = of_family family session ts in
    if t.family_id == family && t.session_id == session then true else rest

unfoldable pub revoke_sessions_for_family : ℕ → ℕ → Store → Store
unfolding revoke_session_row of_family set_sessions
revoke_sessions_for_family family now st =
    set_sessions
      (update (λ s. of_family family s.id st.refresh_tokens && is_none s.revoked_at)
        (revoke_session_row now))
      st
