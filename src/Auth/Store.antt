-- ===== src/Auth/Store.antt =====
-- internal/store/auth.sql.go: the tables of users, sessions and refresh tokens, and their statements.
-- Ids are numbers, times microseconds, and `now` is the database's clock.
use devsignal.Prelude.{ℕ, Bool, true, false, ◌&&◌, Option, none, some, List, ◌∷◌, map, ltb, ◌==◌}
unfoldable pub use devsignal.Prelude.Search.{find, update}
use devsignal.Prelude.Text.{Text, text_eq}
use devsignal.Auth.Audit.{Entry}

pub record User : Type 0 where
  pub id : ℕ
  pub tenant_id : ℕ
  pub email : Text
  pub password_hash : Text
  pub status : Text
  pub failed_logins : ℕ
  pub locked_until : Option ℕ
  pub last_login_at : Option ℕ

pub record Session : Type 0 where
  pub id : ℕ
  pub user_id : ℕ
  pub token_hash : Text
  pub user_agent : Text
  pub last_seen_at : ℕ
  pub expires_at : ℕ
  pub revoked_at : Option ℕ

pub record RefreshToken : Type 0 where
  pub id : ℕ
  pub family_id : ℕ
  pub user_id : ℕ
  pub session_id : ℕ
  pub token_hash : Text
  pub used_at : Option ℕ
  pub replaced_by : Option ℕ
  pub revoked_at : Option ℕ
  pub expires_at : ℕ

pub record Store : Type 0 where
  pub tenants : List ℕ
  pub users : List User
  pub sessions : List Session
  pub refresh_tokens : List RefreshToken
  pub audit_log : List Entry

abbrev pub is_none : Option ℕ → Bool
is_none none = true
is_none (some n) = false

abbrev pub live_session : Text → ℕ → Session → Bool
live_session token_hash now s =
    text_eq s.token_hash token_hash && is_none s.revoked_at && ltb now s.expires_at

unfoldable pub get_live_session_by_hash : Text → ℕ → Store → Option Session
unfolding find
get_live_session_by_hash token_hash now st = find (live_session token_hash now) st.sessions

unfoldable pub get_refresh_by_hash : Text → Store → Option RefreshToken
unfolding find
get_refresh_by_hash token_hash st = find (λ t. text_eq t.token_hash token_hash) st.refresh_tokens

unfoldable pub get_user_by_id : ℕ → Store → Option User
unfolding find
get_user_by_id id st = find (λ u. u.id == id) st.users

-- The column is a citext: `fold` is the database's folding of case.
unfoldable pub get_user_by_email : (Text → Text) → Text → Store → Option User
unfolding find
get_user_by_email fold email st = find (λ u. text_eq (fold u.email) (fold email)) st.users

unfoldable pub create_session : Session → Store → Store
create_session s st = record {
  tenants = st.tenants;
  users = st.users;
  sessions = s ∷ st.sessions;
  refresh_tokens = st.refresh_tokens;
  audit_log = st.audit_log;
}

unfoldable pub create_refresh_token : RefreshToken → Store → Store
create_refresh_token t st = record {
  tenants = st.tenants;
  users = st.users;
  sessions = st.sessions;
  refresh_tokens = t ∷ st.refresh_tokens;
  audit_log = st.audit_log;
}

unfoldable pub create_user : ℕ → User → Store → Store
create_user tenant u st = record {
  tenants = tenant ∷ st.tenants;
  users = u ∷ st.users;
  sessions = st.sessions;
  refresh_tokens = st.refresh_tokens;
  audit_log = st.audit_log;
}

unfoldable pub set_users : (User → User) → Store → Store
set_users f st = record {
  tenants = st.tenants;
  users = map f st.users;
  sessions = st.sessions;
  refresh_tokens = st.refresh_tokens;
  audit_log = st.audit_log;
}

unfoldable pub set_sessions : (Session → Session) → Store → Store
set_sessions f st = record {
  tenants = st.tenants;
  users = st.users;
  sessions = map f st.sessions;
  refresh_tokens = st.refresh_tokens;
  audit_log = st.audit_log;
}

unfoldable pub set_tokens : (RefreshToken → RefreshToken) → Store → Store
set_tokens f st = record {
  tenants = st.tenants;
  users = st.users;
  sessions = st.sessions;
  refresh_tokens = map f st.refresh_tokens;
  audit_log = st.audit_log;
}

unfoldable pub set_audit : List Entry → Store → Store
set_audit log st = record {
  tenants = st.tenants;
  users = st.users;
  sessions = st.sessions;
  refresh_tokens = st.refresh_tokens;
  audit_log = log;
}
