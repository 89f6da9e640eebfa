-- ===== src/Auth/Audit.antt =====
-- internal/auth/audit.go: the hash chain of the audit log. Texts are their bytes; `sha256` is the
-- hash function, and the metadata are what json.Marshal makes of them.
pub mod Encoding
pub mod Chain
use devsignal.Prelude.{
  ℕ, zero, suc, ◌+◌, ◌*◌, ◌/◌, ◌%◌, ◌^◌, Bool, true, false, not, Option, none, some, List, [], ◌∷◌,
  ◌++◌, map, length, if◌then◌else◌, bytes, ◌==◌,
}
use devsignal.Prelude.Text.{Text, text_eq}

pub record Event : Type 0 where
  pub actor_id : Option ℕ
  pub tenant_id : Option ℕ
  pub action : Text
  pub subject : Text
  pub metadata : Option Text

-- A row of audit_log; the id of an absent actor or tenant is null.
pub record Entry : Type 0 where
  pub id : ℕ
  pub actor_id : Option ℕ
  pub tenant_id : Option ℕ
  pub action : Text
  pub subject : Text
  pub metadata : Text
  pub prev_hash : Text
  pub entry_hash : Text

-- binary.BigEndian.PutUint64
unfoldable pub big_endian : ℕ → ℕ → Text
big_endian zero n = []
big_endian (suc k) n = n / 256 ^ k % 256 ∷ big_endian k n

unfoldable pub field : Text → Text
unfolding big_endian
field f = big_endian 8 (length f) ++ f

-- What chainHash writes into the hash.
unfoldable pub payload : Text → Text → Text → Text → Text
unfolding field
payload prev action subject metadata = prev ++ (field action ++ (field subject ++ field metadata))

unfoldable pub chain_hash : (Text → Text) → Text → Text → Text → Text → Text
unfolding payload
chain_hash sha256 prev action subject metadata = sha256 (payload prev action subject metadata)

-- GetLastAuditHash; no row is a genesis link.
unfoldable pub last_hash : Text → List Entry → Text
last_hash prev [] = prev
last_hash prev (e ∷ es) = last_hash e.entry_hash es

abbrev pub or_empty : Option Text → Text
or_empty none = bytes "{}"
or_empty (some m) = m

-- The row that is inserted, with the id that the database gives it.
unfoldable pub entry_of : (Text → Text) → ℕ → Text → Event → Entry
unfolding chain_hash
entry_of sha256 id prev ev = record {
  id = id;
  actor_id = ev.actor_id;
  tenant_id = ev.tenant_id;
  action = ev.action;
  subject = ev.subject;
  metadata = or_empty ev.metadata;
  prev_hash = prev;
  entry_hash = chain_hash sha256 prev ev.action ev.subject (or_empty ev.metadata);
}

unfoldable pub append : (Text → Text) → ℕ → Event → List Entry → List Entry
unfolding entry_of last_hash
append sha256 id ev log = log ++ entry_of sha256 id (last_hash [] log) ev ∷ []

-- The loop of VerifyChain from a previous hash. A panic, where `meta` or `subjects` are too short, is
-- `none`.
unfoldable pub verify_from : (Text → Text) → Text → List Entry → List Text → List Text → Option ℕ
unfolding chain_hash
verify_from sha256 prev [] meta subjects = some 0
verify_from sha256 prev (e ∷ es) (m ∷ meta) (s ∷ subjects) =
    let rest = verify_from sha256 e.entry_hash es meta subjects in
    if not (text_eq (chain_hash sha256 prev e.action s m) e.entry_hash) then some e.id else rest
verify_from sha256 prev (e ∷ es) _ _ = none

unfoldable pub verify_chain : (Text → Text) → List Entry → List Text → List Text → Option ℕ
unfolding verify_from
verify_chain sha256 entries meta subjects = verify_from sha256 [] entries meta subjects
