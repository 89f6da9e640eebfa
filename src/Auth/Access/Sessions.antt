-- ===== src/Auth/Access/Sessions.antt =====
-- Which sessions authenticate, and what a logout ends.
use devsignal.Prelude.{
  ℕ, ◌<◌, ◌≡◌, ◌≢◌, refl, sym, ap, ◌∙◌, Bool, true, false, not, ◌&&◌, Option, none, some, List, [],
  ◌∷◌, map, All, Bool-cases, inl, inr, ◌==◌, if◌then◌else◌, arith,
}
use devsignal.Prelude.Text.{Text, text_eq, text_eq_iff}
use devsignal.Auth.Store.{
  User, Session, Store, is_none, update, live_session, get_live_session_by_hash, get_user_by_id,
  set_sessions, set_audit,
}
use devsignal.Prelude.Search.{find-none, find-selects}
use devsignal.Auth.Rows.{revoke_session, revoke_session_row, touch_session}
use devsignal.Auth.Service.{Env, Call, Identity, identity, audit, status_active}
use devsignal.Auth.Access.{
  Authenticated, known, rejected, authenticate, authenticate_session, authenticate_user, logout,
  logout_session,
}

-- The session and the user that stand behind an identity.
pub record Behind (env : Env) (call : Call) (secret : Text) (st : Store) (i : Identity)
    : Type 0 where
  pub session : Session
  pub user : User
  pub found : get_live_session_by_hash (env.sha256 secret) call.now st ≡ some session
  pub hashed : session.token_hash ≡ env.sha256 secret
  pub not_revoked : is_none session.revoked_at ≡ true
  pub not_expired : call.now < session.expires_at
  pub owner : get_user_by_id session.user_id st ≡ some user
  pub active : user.status ≡ status_active
  pub who : i ≡ identity user

rejected_lem : (i : Identity) → rejected ≢ known i
rejected_lem i e = cc

known_lem : (i j : Identity) → known i ≡ known j → i ≡ j
known_lem i j e = cc

-- The answer, by the test of the user's status.
answer : Call → Session → User → Store → Bool → Authenticated
answer call s u st is_active =
    (if◌then◌else◌ {A = Store × Authenticated} (not is_active) (st, rejected)
      ((if call.up then touch_session s.id call.now st else st), known (identity u))).1

user_case :
    (env : Env) (call : Call) (secret : Text) (st : Store) (i : Identity) (s : Session)
    (o : Option User)
    → get_live_session_by_hash (env.sha256 secret) call.now st ≡ some s
    → get_user_by_id s.user_id st ≡ o
    → (authenticate_user call s o st).1 ≡ known i
    → Behind env call secret st i
unfolding authenticate_user get_live_session_by_hash answer
user_case env call secret st i s none found owner h = absurd (rejected_lem i h)
user_case env call secret st i s (some u) found owner h =
    let live = find-selects (live_session (env.sha256 secret) call.now) st.sessions s found in
    elim (Bool-cases (text_eq u.status status_active)) [
      | inr e ↦ absurd (rejected_lem i (sym (ap (answer call s u st) e) ∙ h))
      | inl e ↦ record {
        session = s;
        user = u;
        found = found;
        hashed = ground (arith, text_eq_iff s.token_hash (env.sha256 secret), live);
        not_revoked = ground (arith, live);
        not_expired = ground (arith, live);
        owner = owner;
        active = (text_eq_iff u.status status_active).0 e;
        who = known_lem i (identity u) (sym h ∙ ap (answer call s u st) e);
      }
    ]

session_case :
    (env : Env) (call : Call) (secret : Text) (st : Store) (i : Identity) (o : Option Session)
    → get_live_session_by_hash (env.sha256 secret) call.now st ≡ o
    → (authenticate_session call o st).1 ≡ known i
    → Behind env call secret st i
unfolding authenticate_session
session_case env call secret st i none found h = absurd (rejected_lem i h)
session_case env call secret st i (some s) found h =
    user_case env call secret st i s (get_user_by_id s.user_id st) found refl h

-- A secret authenticates as someone only by a session that stores its hash, is not revoked and has
-- not expired at the database's time, and whose user is active; the identity is that user's.
pub authenticate-Behind :
    (env : Env) (call : Call) (secret : Text) (st : Store) (i : Identity)
    → (authenticate env call secret st).1 ≡ known i
    → Behind env call secret st i
unfolding authenticate
authenticate-Behind env call secret st i h =
    session_case env call secret st i (get_live_session_by_hash (env.sha256 secret) call.now st)
      refl h

-- After the revocation no session with the hash is live.
none_live :
    (h : Text) (id now later : ℕ) (ss : List Session)
    → All (λ r. text_eq r.token_hash h ≡ true → r.id ≡ id) ss
    → All
        (λ r. live_session h later r ≡ false)
        (map (update (λ r. r.id == id && is_none r.revoked_at) (revoke_session_row now)) ss)
unfolding revoke_session_row
none_live h id now later [] u = tt
none_live h id now later (r ∷ ss) u =
    (row (text_eq r.token_hash h) refl, none_live h id now later ss u.1)
  where
    row :
        (b : Bool)
        → text_eq r.token_hash h ≡ b
        → live_session h later
            (update (λ r. r.id == id && is_none r.revoked_at) (revoke_session_row now) r)
          ≡ false
    row true e = ground (arith, u.0 e)
    row false e = ground arith

-- After a logout, the secret that was logged out is rejected at every later call: for a secret of a
-- live session, where no other session stores the same hash and the database runs the transaction.
-- The refresh tokens stay as they were.
pub logout_ends :
    (env : Env) (call later : Call) (secret : Text) (st : Store) (s : Session)
    → get_live_session_by_hash (env.sha256 secret) call.now st ≡ some s
    → All (λ r. text_eq r.token_hash (env.sha256 secret) ≡ true → r.id ≡ s.id) st.sessions
    → call.up ≡ true
    → let after = (logout env call secret st).0 in
      ((authenticate env later secret after).1 ≡ rejected)
      × (after.refresh_tokens ≡ st.refresh_tokens)
unfolding logout logout_session authenticate authenticate_session get_live_session_by_hash audit
    set_audit revoke_session set_sessions
logout_ends env call later secret st s found unique up =
    let gone = none_live (env.sha256 secret) s.id call.now later.now st.sessions unique in
    rw (found, up) (rw (find-none (live_session (env.sha256 secret) later.now) _ gone) refl, refl)
