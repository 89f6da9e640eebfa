-- ===== src/Auth/Service.antt =====
-- internal/auth/service.go: what the operations share.
use devsignal.Prelude.{ℕ, ◌+◌, ◌*◌, Bool, none, bytes}
use devsignal.Prelude.Text.{Text}
use devsignal.Auth.Audit.{Event, append}
use devsignal.Auth.Passwords.{Lib}
use devsignal.Auth.Store.{
  User, Session, RefreshToken, Store, create_session, create_refresh_token, set_audit,
}

pub data AuthError : Type 0 where
  email_taken : AuthError
  account_locked : AuthError
  suspended : AuthError
  token_invalid : AuthError
  token_replayed : AuthError
  weak_password : AuthError
  wrong_credentials : AuthError
  db_error : AuthError

pub record Policy : Type 0 where
  pub session_ttl : ℕ
  pub refresh_ttl : ℕ
  pub lockout_threshold : ℕ
  pub lockout_duration : ℕ
  pub min_password_len : ℕ

abbrev pub hour : ℕ
hour = 3_600_000_000

abbrev pub default_policy : Policy
default_policy = record {
  session_ttl = 24 * hour;
  refresh_ttl = 30 * 24 * hour;
  lockout_threshold = 10;
  lockout_duration = 900_000_000;
  min_password_len = 12;
}

pub record Tokens : Type 0 where
  pub session_token : Text
  pub refresh_token : Text
  pub expires_at : ℕ

pub record Identity : Type 0 where
  pub user_id : ℕ
  pub tenant_id : ℕ

-- The two clocks (the injected one, and the database's now()), whether the transaction goes through,
-- and the ids and secrets that it draws.
pub record Call : Type 0 where
  pub clock : ℕ
  pub now : ℕ
  pub up : Bool
  pub session_id : ℕ
  pub session_secret : Text
  pub refresh_id : ℕ
  pub refresh_secret : Text
  pub family_id : ℕ
  pub user_id : ℕ
  pub tenant_id : ℕ
  pub audit_id : ℕ
  pub salt : Text

-- The parts that do not change: the hash of tokens and of the audit log, the password library with
-- argon2.Version, the folding of an email's case, the text of an
-- id, and the policy.
pub record Env : Type 0 where
  pub sha256 : Text → Text
  pub passwords : Lib
  pub version : Text
  pub fold : Text → Text
  pub uuid_text : ℕ → Text
  pub policy : Policy

pub data Outcome : Type 0 where
  signed_in : Tokens → Identity → Outcome
  failed : AuthError → Outcome

abbrev pub identity : User → Identity
identity u = record { user_id = u.id; tenant_id = u.tenant_id }

unfoldable pub audit : Env → Call → Event → Store → Store
unfolding append set_audit
audit env call ev st = set_audit (append env.sha256 call.audit_id ev st.audit_log) st

abbrev pub tokens : Env → Call → Tokens
tokens env call = record {
  session_token = call.session_secret;
  refresh_token = call.refresh_secret;
  expires_at = call.clock + env.policy.session_ttl;
}

abbrev pub new_session : Env → Call → ℕ → Text → Session
new_session env call user_id user_agent = record {
  id = call.session_id;
  user_id = user_id;
  token_hash = env.sha256 call.session_secret;
  user_agent = user_agent;
  last_seen_at = call.now;
  expires_at = call.clock + env.policy.session_ttl;
  revoked_at = none;
}

abbrev pub new_refresh_token : Env → Call → ℕ → ℕ → RefreshToken
new_refresh_token env call family_id user_id = record {
  id = call.refresh_id;
  family_id = family_id;
  user_id = user_id;
  session_id = call.session_id;
  token_hash = env.sha256 call.refresh_secret;
  used_at = none;
  replaced_by = none;
  revoked_at = none;
  expires_at = call.clock + env.policy.refresh_ttl;
}

-- A session and the refresh token for it.
unfoldable pub open_session : Env → Call → ℕ → ℕ → Text → Store → Store
unfolding create_session create_refresh_token
open_session env call family_id user_id user_agent st =
    create_refresh_token (new_refresh_token env call family_id user_id)
      (create_session (new_session env call user_id user_agent) st)

-- `issue`: the first refresh token of a new family.
unfoldable pub issue : Env → Call → ℕ → Text → Store → Store
unfolding open_session
issue env call user_id user_agent st = open_session env call call.family_id user_id user_agent st

abbrev pub status_active : Text
status_active = bytes "active"
