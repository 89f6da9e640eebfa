-- ===== src/Auth/Refresh/Replay.antt =====
-- Reuse of a refresh token: the family is revoked, and a rotated token is used up.
use mathlib.Core.Path.{subst}
use devsignal.Prelude.{
  ℕ, ◌≡◌, ◌≢◌, refl, ap, Bool, true, false, ◌&&◌, some, List, [], ◌∷◌, map, All, All-map,
  Bool-cases, inl, inr, ◌==◌, ==_refl, arith,
}
use devsignal.Prelude.Text.{Text, text_eq}
use devsignal.Auth.Store.{
  create_session, create_refresh_token, set_tokens, set_sessions, set_audit, User, Session,
  RefreshToken, Store, is_none, find, update, get_refresh_by_hash,
}
use devsignal.Prelude.Search.{find-map, find-All}
use devsignal.Auth.Rows.{
  mark_refresh_used, revoke_session, revoke_token_row, revoke_session_row, revoke_refresh_family,
  revoke_sessions_for_family, in_family, of_family, use_token_row,
}
use devsignal.Auth.Service.{
  new_refresh_token, audit, Env, Call, Outcome, signed_in, failed, token_replayed, tokens, identity,
  open_session, Tokens, Identity,
}
use devsignal.Auth.Refresh.{
  may_rotate, check_refresh, check_token, revoke_family, rotate, refresh, finish_refresh,
}

-- Every token of the family is revoked, and every session of one of them.
pub record IsRevoked (family : ℕ) (st : Store) : Type 0 where
  pub tokens_revoked :
      All (λ t. (t.family_id == family) ≡ true → is_none t.revoked_at ≡ false) st.refresh_tokens
  pub sessions_revoked :
      All
        (λ s. of_family family s.id st.refresh_tokens ≡ true → is_none s.revoked_at ≡ false)
        st.sessions

revoked_tokens :
    (family now : ℕ) (ts : List RefreshToken)
    → All
        (λ t. (t.family_id == family) ≡ true → is_none t.revoked_at ≡ false)
        (map (update (in_family family) (revoke_token_row now)) ts)
unfolding revoke_token_row
revoked_tokens family now [] = tt
revoked_tokens family now (t ∷ ts) = (ground arith, revoked_tokens family now ts)

revoked_sessions :
    (family now : ℕ) (ts : List RefreshToken) (ss : List Session)
    → All
        (λ s. of_family family s.id ts ≡ true → is_none s.revoked_at ≡ false)
        (map
          (update (λ s. of_family family s.id ts && is_none s.revoked_at) (revoke_session_row now))
          ss)
unfolding revoke_session_row
revoked_sessions family now ts [] = tt
revoked_sessions family now ts (s ∷ ss) = (
  elim (Bool-cases (of_family family s.id ts && is_none s.revoked_at)) [
    | inl e ↦ rw e (λ _. refl)
    | inr e ↦ rw e (λ h. ground arith)
  ],
  revoked_sessions family now ts ss,
)

revoke_family-IsRevoked :
    (env : Env) (call : Call) (marshal : ℕ → Text) (t : RefreshToken) (st : Store)
    → call.up ≡ true
    → IsRevoked t.family_id (revoke_family env call marshal t st)
unfolding revoke_family revoke_refresh_family revoke_sessions_for_family set_tokens set_sessions
    audit set_audit
revoke_family-IsRevoked env call marshal t st up = rw up (record {
  tokens_revoked = revoked_tokens t.family_id call.now st.refresh_tokens;
  sessions_revoked =
      revoked_sessions t.family_id call.now
        (map (update (in_family t.family_id) (revoke_token_row call.now)) st.refresh_tokens)
        st.sessions;
})

-- A refresh token that was used before is refused as replayed whenever it is presented, and where
-- the database runs the transaction, afterwards every refresh token of its family is revoked and so
-- is every session that belongs to one of them, whatever other transactions commit in between.
pub replay_revokes :
    (env : Env) (call : Call) (marshal : ℕ → Text) (others : Store → Store)
    (secret user_agent : Text) (st : Store) (t : RefreshToken)
    → get_refresh_by_hash (env.sha256 secret) st ≡ some t
    → is_none t.used_at ≡ false
    → call.up ≡ true
    → let (after, outcome) = refresh env call marshal others secret user_agent st in
      (outcome ≡ failed token_replayed) × IsRevoked t.family_id after
unfolding refresh check_refresh check_token finish_refresh
replay_revokes env call marshal others secret user_agent st t found used up =
    rw (found, used) (refl, revoke_family-IsRevoked env call marshal t (others st) up)

Refused : Outcome → Type 0
Refused (signed_in tok i) = ⊥
Refused (failed e) = Unit

token_revoked :
    (st : Store) (t : RefreshToken) (h : Text)
    → IsRevoked t.family_id st
    → get_refresh_by_hash h st ≡ some t
    → is_none t.revoked_at ≡ false
unfolding get_refresh_by_hash
token_revoked st t h r found =
    find-All _ (λ y. (y.family_id == t.family_id) ≡ true → is_none y.revoked_at ≡ false)
      st.refresh_tokens t (All-map _ _ st.refresh_tokens (λ y g _. g) r.tokens_revoked) found
      (==_refl t.family_id)

-- A revoked family never signs anyone in again: no refresh of a token that belongs to it succeeds,
-- whatever the transactions of others and the state of the database.
pub revoked_stays_out :
    (env : Env) (call : Call) (marshal : ℕ → Text) (others : Store → Store)
    (secret user_agent : Text) (st : Store) (t : RefreshToken) (tok : Tokens) (i : Identity)
    → IsRevoked t.family_id st
    → get_refresh_by_hash (env.sha256 secret) st ≡ some t
    → (refresh env call marshal others secret user_agent st).1 ≢ signed_in tok i
unfolding refresh check_refresh check_token finish_refresh Refused
revoked_stays_out env call marshal others secret user_agent st t tok i r found e =
    subst Refused e (elim (Bool-cases (is_none t.used_at)) [
      | inl unused ↦ rw (found, unused, token_revoked st t (env.sha256 secret) r found) tt
      | inr used ↦ rw (found, used) tt
    ])

used_hash :
    (q : RefreshToken → Bool) (by now : ℕ) (t : RefreshToken)
    → (update q (use_token_row by now) t).token_hash ≡ t.token_hash
unfolding use_token_row
used_hash q by now t = elim (Bool-cases (q t)) [ inl e ↦ rw e refl | inr e ↦ rw e refl ]

-- What a completed rotation leaves behind for the token that was presented.
rotated_token :
    (env : Env) (call : Call) (t : RefreshToken) (secret user_agent : Text) (st : Store)
    → text_eq (env.sha256 call.refresh_secret) (env.sha256 secret) ≡ false
    → get_refresh_by_hash (env.sha256 secret) st ≡ some t
    → get_refresh_by_hash (env.sha256 secret) (rotate env call t user_agent st)
      ≡ some (use_token_row call.refresh_id call.now t)
unfolding rotate get_refresh_by_hash mark_refresh_used revoke_session set_tokens set_sessions
    open_session create_session create_refresh_token find
rotated_token env call t secret user_agent st fresh found =
    let mine : RefreshToken → Bool = λ y. y.id == t.id in
    let hash : RefreshToken → Bool = λ y. text_eq y.token_hash (env.sha256 secret) in
    let spend : RefreshToken → RefreshToken =
      update mine (use_token_row call.refresh_id call.now) in
    let rest =
      find-map hash spend st.refresh_tokens (λ y.
        ap (λ h. text_eq h (env.sha256 secret)) (used_hash mine call.refresh_id call.now y)) in
    rw
      (
        used_hash mine call.refresh_id call.now (new_refresh_token env call t.family_id t.user_id),
        fresh,
        rest,
        found,
        ==_refl t.id,
      )
      refl

used_lem : (by now : ℕ) (t : RefreshToken) → is_none (use_token_row by now t).used_at ≡ false
unfolding use_token_row
used_lem by now t = refl

family_lem : (by now : ℕ) (t : RefreshToken) → (use_token_row by now t).family_id ≡ t.family_id
unfolding use_token_row
family_lem by now t = refl

-- A refresh token works once: after a refresh that succeeded, and with a new secret whose hash
-- differs, presenting the same secret is refused as replayed at any later call, and revokes the
-- family where the database runs that transaction.
pub refresh_once :
    (env : Env) (first second : Call) (marshal : ℕ → Text) (others : Store → Store)
    (secret user_agent : Text) (st : Store) (t : RefreshToken) (u : User)
    → check_refresh env first secret st ≡ may_rotate t u
    → get_refresh_by_hash (env.sha256 secret) st ≡ some t
    → first.up ≡ true
    → second.up ≡ true
    → text_eq (env.sha256 first.refresh_secret) (env.sha256 secret) ≡ false
    → let (after, outcome) = refresh env first marshal (λ s. s) secret user_agent st in
      let (later, again) = refresh env second marshal others secret user_agent after in
      (outcome ≡ signed_in (tokens env first) (identity u))
      × (again ≡ failed token_replayed)
      × IsRevoked t.family_id later
unfolding refresh finish_refresh
refresh_once env first second marshal others secret user_agent st t u checked found up up' fresh =
    let after = rotate env first t user_agent st in
    let revoked =
      replay_revokes env second marshal others secret user_agent after
        (use_token_row first.refresh_id first.now t)
        (rotated_token env first t secret user_agent st fresh found)
        (used_lem first.refresh_id first.now t) up' in
    rw (checked, up)
      (
        refl,
        revoked.0,
        subst (λ f. IsRevoked f (refresh env second marshal others secret user_agent after).0)
            (family_lem first.refresh_id first.now t) revoked.1,
      )
