-- ===== src/Auth/Examples.antt =====
-- The theorems about internal/auth at a concrete store, and tests.
use devsignal.Prelude.{
  ℕ, ◌+◌, ◌*◌, ◌≡◌, ◌⊎◌, refl, true, false, Option, none, some, List, [], ◌∷◌, All, bytes, arith,
}
use devsignal.Prelude.Text.{Text, text_eq, trim_space, is_space}
use devsignal.Auth.Audit.{Event, Entry, append, verify_from, entry_of}
use devsignal.Auth.Audit.Chain.{
  verify_log, HasId, IsSized, SameHistory, Collision, verify-append, log_pinned,
}
use devsignal.Auth.Passwords.{Lib, verify_password}
use devsignal.Auth.Store.{
  User, Session, RefreshToken, Store, get_live_session_by_hash, get_refresh_by_hash, get_user_by_id,
  get_user_by_email,
}
use devsignal.Auth.Service.{
  Env, Call, Policy, failed, token_replayed, account_locked, identity, status_active,
}
use devsignal.Auth.Login.{login}
use devsignal.Auth.Login.Lockout.{Attempt, IsWrong, found_user, attempts, lockout}
use devsignal.Auth.Refresh.{refresh}
use devsignal.Auth.Refresh.Replay.{IsRevoked, replay_revokes}
use devsignal.Auth.Access.{known, authenticate}
use devsignal.Auth.Access.Sessions.{Behind, authenticate-Behind}

-- A stand-in of 32 bytes for SHA-256.
abbrev weigh : ℕ → Text → ℕ
weigh acc [] = acc
weigh acc (c ∷ s) = weigh (acc * 257 + c + 1) s

abbrev toy_hash : Text → Text
toy_hash s = weigh 0 s ∷ bytes "0000000000000000000000000000000"

-- A password library that keeps every text as it is, and finds a password in the stored key.
abbrev toy_lib : Lib
toy_lib = record {
  scan = λ s. some (record { memory = 65_536; time = 3; threads = 4 });
  print = λ p. bytes "m=65536,t=3,p=4";
  decode_base64 = λ s. some s;
  encode_base64 = λ s. s;
  id_key = λ plain salt p n. plain;
}

abbrev policy : Policy
policy = record {
  session_ttl = 100;
  refresh_ttl = 1000;
  lockout_threshold = 2;
  lockout_duration = 50;
  min_password_len = 3;
}

abbrev env : Env
env = record {
  sha256 = toy_hash;
  passwords = toy_lib;
  version = bytes "19";
  fold = λ s. s;
  uuid_text = λ n. n ∷ [];
  policy = policy;
}

abbrev call_at : ℕ → Text → Text → Call
call_at clock session_secret refresh_secret = record {
  clock = clock;
  now = clock;
  up = true;
  session_id = 20;
  session_secret = session_secret;
  refresh_id = 30;
  refresh_secret = refresh_secret;
  family_id = 40;
  user_id = 50;
  tenant_id = 60;
  audit_id = 70;
  salt = bytes "salt";
}

abbrev ann : User
ann = record {
  id = 1;
  tenant_id = 2;
  email = bytes "ann@x.io";
  password_hash = bytes "$argon2id$v=19$m$salt$pass";
  status = status_active;
  failed_logins = 0;
  locked_until = none;
  last_login_at = none;
}

abbrev session : Option ℕ → Session
session revoked_at = record {
  id = 3;
  user_id = 1;
  token_hash = toy_hash (bytes "s1");
  user_agent = [];
  last_seen_at = 0;
  expires_at = 100;
  revoked_at = revoked_at;
}

abbrev token : Option ℕ → Option ℕ → RefreshToken
token used_at revoked_at = record {
  id = 4;
  family_id = 9;
  user_id = 1;
  session_id = 3;
  token_hash = toy_hash (bytes "r1");
  used_at = used_at;
  replaced_by = none;
  revoked_at = revoked_at;
  expires_at = 1000;
}

abbrev store : Option ℕ → Option ℕ → Store
store used_at revoked_at = record {
  tenants = 2 ∷ [];
  users = ann ∷ [];
  sessions = session revoked_at ∷ [];
  refresh_tokens = token used_at revoked_at ∷ [];
  audit_log = [];
}

abbrev marshal : ℕ → Text
marshal n = n ∷ []

abbrev quiet : Store → Store
quiet st = st

abbrev first : Call
first = call_at 10 (bytes "s2") (bytes "r2")

abbrev second : Call
second = call_at 20 (bytes "s3") (bytes "r3")

found_token :
    (used_at revoked_at : Option ℕ)
    → get_refresh_by_hash (toy_hash (bytes "r1")) (store used_at revoked_at)
      ≡ some (token used_at revoked_at)
unfolding get_refresh_by_hash text_eq
found_token used_at revoked_at = refl

other_hash : text_eq (toy_hash (bytes "r2")) (toy_hash (bytes "r1")) ≡ false
unfolding text_eq
other_hash = refl

replay_revokes_example :
    let (after, outcome) = refresh env first marshal quiet (bytes "r1") [] (store (some 5) none) in
    (outcome ≡ failed token_replayed) × IsRevoked 9 after
replay_revokes_example =
    replay_revokes env first marshal quiet (bytes "r1") [] (store (some 5) none)
      (token (some 5) none) (found_token (some 5) none) refl refl

dead-IsRevoked : IsRevoked 9 (store none (some 7))
dead-IsRevoked = record { tokens_revoked = (λ e. refl, tt); sessions_revoked = (λ e. refl, tt) }

abbrev rival : Call
rival = call_at 10 (bytes "s3") (bytes "r3")

signed_in_ann : (authenticate env first (bytes "s1") (store none none)).1 ≡ known (identity ann)
unfolding authenticate get_live_session_by_hash get_user_by_id text_eq
signed_in_ann = refl

authenticate-Behind_example : Behind env first (bytes "s1") (store none none) (identity ann)
authenticate-Behind_example =
    authenticate-Behind env first (bytes "s1") (store none none) (identity ann) signed_in_ann

found_session :
    get_live_session_by_hash (toy_hash (bytes "s1")) 10 (store none none) ≡ some (session none)
unfolding get_live_session_by_hash text_eq
found_session = refl

abbrev guess : Attempt
guess = (first, bytes "guess")

IsWrong-guess : IsWrong env ann.password_hash guess
unfolding verify_password text_eq
IsWrong-guess = (refl, refl)

found_ann : found_user env (bytes "ann@x.io") (store none none) ≡ some ann
unfolding get_user_by_email trim_space is_space text_eq
found_ann = refl

active_ann : text_eq ann.status status_active ≡ true
unfolding text_eq
active_ann = refl

lockout_example :
    let before = attempts env (bytes "ann@x.io") [] (guess ∷ []) (store none none) in
    let after = (login env first (bytes "ann@x.io") (bytes "guess") [] before).0 in
    login env second (bytes "ann@x.io") (bytes "pass") [] after ≡ (after, failed account_locked)
lockout_example =
    lockout env (bytes "ann@x.io") [] (guess ∷ []) guess (store none none) ann second (bytes "pass")
      found_ann active_ann refl refl refl (IsWrong-guess, tt) IsWrong-guess (omega arith)

abbrev event : Event
event = record {
  actor_id = some 1;
  tenant_id = none;
  action = bytes "user.login";
  subject = bytes "ann";
  metadata = none;
}

abbrev log : List Entry
log = append toy_hash 1 event []

log_lem : verify_log toy_hash log ≡ some 0
log_lem = verify-append toy_hash [] 1 event tt (λ e. omega (arith, e)) (unfold verify_from in refl)

one_id : All HasId log
unfolding append entry_of
one_id = ((λ e. omega (arith, e)), tt)

sized : All IsSized log
unfolding append entry_of
sized = (
  record { action_size = omega arith; subject_size = omega arith; metadata_size = omega arith },
  tt,
)

log_pinned_example : SameHistory log log ⊎ Collision toy_hash
log_pinned_example =
    log_pinned toy_hash log log (λ x. refl) refl one_id one_id sized sized log_lem log_lem refl
