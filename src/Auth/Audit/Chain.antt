-- ===== src/Auth/Audit/Chain.antt =====
-- The audit log verifies, and its last hash stands for its whole history.
use mathlib.Core.Option.{some-injective}
use devsignal.Prelude.{
  ℕ, ◌^◌, ◌<◌, ◌≡◌, ◌≢◌, ◌↔◌, ◌⊎◌, inl, inr, refl, false≢true, ap, sym, ◌∙◌, Option, some, List, [],
  ◌∷◌, ◌++◌, map, All, length, arith, Bool-cases,
}
use devsignal.Prelude.Text.{Text, text_eq, text_eq_iff}
use devsignal.Auth.Audit.{
  Event, Entry, payload, chain_hash, last_hash, entry_of, append, verify_from,
}
use devsignal.Auth.Audit.Encoding.{payload-injective}

-- VerifyChain on a log and the columns that it is given with it.
abbrev pub verify_log_from : (Text → Text) → Text → List Entry → Option ℕ
verify_log_from sha256 prev log =
    verify_from sha256 prev log (map (λ e. e.metadata) log) (map (λ e. e.subject) log)

abbrev pub verify_log : (Text → Text) → List Entry → Option ℕ
verify_log sha256 log = verify_log_from sha256 [] log

-- Every entry carries the hash of its fields and of the hash before it.
abbrev pub Linked : (Text → Text) → Text → List Entry → Type 0
Linked sha256 prev [] = Unit
Linked sha256 prev (e ∷ log) =
    (chain_hash sha256 prev e.action e.subject e.metadata ≡ e.entry_hash)
    × Linked sha256 e.entry_hash log

-- The ids of the database start at 1.
abbrev pub HasId : Entry → Type 0
HasId e = e.id ≢ 0

verify_from_lem :
    (sha256 : Text → Text) (prev : Text) (log : List Entry)
    → All HasId log
    → (verify_log_from sha256 prev log ≡ some 0) ↔ Linked sha256 prev log
unfolding verify_from
verify_from_lem sha256 prev [] h = (λ e. tt, λ l. refl)
verify_from_lem sha256 prev (e ∷ log) h =
    let want = chain_hash sha256 prev e.action e.subject e.metadata in
    let rest = verify_from_lem sha256 e.entry_hash log h.1 in
    elim (Bool-cases (text_eq want e.entry_hash)) [
      | inl p ↦ rw p (λ v. ((text_eq_iff want e.entry_hash).0 p, rest.0 v), λ l. rest.1 l.1)
      | inr p ↦ rw p (
        (λ v. absurd (h.0 (some-injective e.id 0 v))),
        (λ l. absurd (false≢true (sym p ∙ (text_eq_iff want e.entry_hash).1 l.0))),
      )
    ]

Linked-append :
    (sha256 : Text → Text) (prev : Text) (log : List Entry) (id : ℕ) (ev : Event)
    → Linked sha256 prev log
    → Linked sha256 prev (log ++ entry_of sha256 id (last_hash prev log) ev ∷ [])
unfolding entry_of last_hash
Linked-append sha256 prev [] id ev h = (refl, tt)
Linked-append sha256 prev (e ∷ log) id ev h = (h.0, Linked-append sha256 e.entry_hash log id ev h.1)

All-append_one :
    (log : List Entry) (e : Entry) → All HasId log → HasId e → All HasId (log ++ e ∷ [])
All-append_one [] e h k = (k, tt)
All-append_one (d ∷ log) e h k = (h.0, All-append_one log e h.1 k)

-- A log that verifies still does after any event is appended, whatever the hash function, where the
-- ids of its entries and the new one are not zero.
pub verify-append :
    (sha256 : Text → Text) (log : List Entry) (id : ℕ) (ev : Event)
    → All HasId log
    → id ≢ 0
    → verify_log sha256 log ≡ some 0
    → verify_log sha256 (append sha256 id ev log) ≡ some 0
unfolding append entry_of
verify-append sha256 log id ev h n v =
    let e = entry_of sha256 id (last_hash [] log) ev in
    (verify_from_lem sha256 [] (log ++ e ∷ []) (All-append_one log e h n)).1
      (Linked-append sha256 [] log id ev ((verify_from_lem sha256 [] log h).0 v))

-- Two different texts with one hash.
abbrev pub Collision : (Text → Text) → Type 0
Collision sha256 = (x : Text) × (y : Text) × (x ≢ y) × (sha256 x ≡ sha256 y)

pub record IsSized (e : Entry) : Type 0 where
  pub action_size : length e.action < 2 ^ 64
  pub subject_size : length e.subject < 2 ^ 64
  pub metadata_size : length e.metadata < 2 ^ 64

-- What the chain covers of an entry.
abbrev pub SameFields : Entry → Entry → Type 0
SameFields e f =
    (e.action ≡ f.action)
    × (e.subject ≡ f.subject)
    × (e.metadata ≡ f.metadata)
    × (e.entry_hash ≡ f.entry_hash)

abbrev pub SameHistory : List Entry → List Entry → Type 0
SameHistory [] [] = Unit
SameHistory (e ∷ es) (f ∷ fs) = SameFields e f × SameHistory es fs
SameHistory _ _ = ⊥

-- Entries with one hash have the same previous hash and fields, or show a collision.
entry_pinned :
    (sha256 : Text → Text) (p q : Text) (e f : Entry)
    → length p ≡ length q
    → IsSized e
    → IsSized f
    → chain_hash sha256 p e.action e.subject e.metadata ≡ e.entry_hash
    → chain_hash sha256 q f.action f.subject f.metadata ≡ f.entry_hash
    → e.entry_hash ≡ f.entry_hash
    → ((p ≡ q) × SameFields e f) ⊎ Collision sha256
unfolding chain_hash
entry_pinned sha256 p q e f n se sf le lf h =
    let x = payload p e.action e.subject e.metadata in
    let y = payload q f.action f.subject f.metadata in
    elim (Bool-cases (text_eq x y)) [
      | inl t ↦ inl (
          let same =
            payload-injective p q e.action f.action e.subject f.subject e.metadata f.metadata n
              se.action_size sf.action_size se.subject_size sf.subject_size se.metadata_size
              sf.metadata_size ((text_eq_iff x y).0 t) in
          (same.0, (same.1, same.2, same.3, h)))
      | inr t ↦ inr (x, y, (λ s. false≢true (sym t ∙ (text_eq_iff x y).1 s)), le ∙ h ∙ sym lf)
    ]

hash_size :
    (sha256 : Text → Text) (p : Text) (e : Entry)
    → ((x : Text) → length (sha256 x) ≡ 32)
    → length (chain_hash sha256 p e.action e.subject e.metadata) ≡ 32
unfolding chain_hash
hash_size sha256 p e len = len (payload p e.action e.subject e.metadata)

history_pinned :
    (sha256 : Text → Text) (p q : Text) (es fs : List Entry)
    → ((x : Text) → length (sha256 x) ≡ 32)
    → length p ≡ length q
    → length es ≡ length fs
    → All IsSized es
    → All IsSized fs
    → Linked sha256 p es
    → Linked sha256 q fs
    → last_hash p es ≡ last_hash q fs
    → ((p ≡ q) × SameHistory es fs) ⊎ Collision sha256
unfolding last_hash
history_pinned sha256 p q [] [] len n m se sf le lf h = inl (h, tt)
history_pinned sha256 p q [] (f ∷ fs) len n m se sf le lf h = absurd (omega arith)
history_pinned sha256 p q (e ∷ es) [] len n m se sf le lf h = absurd (omega arith)
history_pinned sha256 p q (e ∷ es) (f ∷ fs) len n m se sf le lf h =
    let size : length e.entry_hash ≡ length f.entry_hash =
      sym (ap length le.0)
      ∙ hash_size sha256 p e len
      ∙ sym (hash_size sha256 q f len)
      ∙ ap length lf.0 in
    elim (history_pinned sha256 e.entry_hash f.entry_hash es fs len size (omega (arith, m)) se.1
      sf.1 le.1 lf.1 h) [
        | inr collision ↦ inr collision
        | inl rest ↦ elim (entry_pinned sha256 p q e f n se.0 sf.0 le.0 lf.0 rest.0) [
          | inr collision ↦ inr collision
          | inl first ↦ inl (first.0, (first.1, rest.1))
        ]
      ]

-- The last hash of the log stands for all of it: two logs of the same length that both verify and end
-- in the same hash agree in the action, subject, metadata and hash of every entry, or else two
-- different texts with the same hash are found. The hash function returns 32 bytes, and no field is
-- longer than 2 ^ 64 - 1 bytes. Actor, tenant and time of an entry are not covered.
pub log_pinned :
    (sha256 : Text → Text) (es fs : List Entry)
    → ((x : Text) → length (sha256 x) ≡ 32)
    → length es ≡ length fs
    → All HasId es
    → All HasId fs
    → All IsSized es
    → All IsSized fs
    → verify_log sha256 es ≡ some 0
    → verify_log sha256 fs ≡ some 0
    → last_hash [] es ≡ last_hash [] fs
    → SameHistory es fs ⊎ Collision sha256
log_pinned sha256 es fs len m ie jf se sf ve vf h =
    elim (history_pinned sha256 [] [] es fs len refl m se sf
      ((verify_from_lem sha256 [] es ie).0 ve) ((verify_from_lem sha256 [] fs jf).0 vf) h) [
        | inl same ↦ inl same.1
        | inr collision ↦ inr collision
      ]

Linked-prefix :
    (sha256 : Text → Text) (prev : Text) (es fs : List Entry)
    → Linked sha256 prev (es ++ fs)
    → Linked sha256 prev es
Linked-prefix sha256 prev [] fs h = tt
Linked-prefix sha256 prev (e ∷ es) fs h = (h.0, Linked-prefix sha256 e.entry_hash es fs h.1)

All-prefix : (es fs : List Entry) → All HasId (es ++ fs) → All HasId es
All-prefix [] fs h = tt
All-prefix (e ∷ es) fs h = (h.0, All-prefix es fs h.1)

-- The chain alone does not show that the latest entries are missing: where a log of non-zero ids
-- verifies, so does the log without any number of entries at its end.
pub truncated_verifies :
    (sha256 : Text → Text) (es fs : List Entry)
    → All HasId (es ++ fs)
    → verify_log sha256 (es ++ fs) ≡ some 0
    → verify_log sha256 es ≡ some 0
truncated_verifies sha256 es fs h v =
    (verify_from_lem sha256 [] es (All-prefix es fs h)).1
      (Linked-prefix sha256 [] es fs ((verify_from_lem sha256 [] (es ++ fs) h).0 v))
