-- ===== src/Auth/Passwords.antt =====
-- internal/auth/password.go: the encoded argon2id hash. Texts are their bytes.
use devsignal.Prelude.{
  ℕ, ◌*◌, Bool, true, not, ◌||◌, Option, none, some, List, [], ◌∷◌, ◌++◌, length, ltb, ◌==◌,
  if◌then◌else◌, bytes,
}
use devsignal.Prelude.Text.{Text, text_eq}

abbrev pub argon_time : ℕ
argon_time = 3

abbrev pub argon_memory : ℕ
argon_memory = 64 * 1024

abbrev pub argon_threads : ℕ
argon_threads = 4

abbrev pub argon_key_len : ℕ
argon_key_len = 32

pub record Params : Type 0 where
  pub memory : ℕ
  pub time : ℕ
  pub threads : ℕ

-- What the code takes from elsewhere: fmt.Sscanf and its printing counterpart for the parameters,
-- base64.RawStdEncoding, and argon2.IDKey of a password, a salt, the parameters and a length.
pub record Lib : Type 0 where
  pub scan : Text → Option Params
  pub print : Params → Text
  pub decode_base64 : Text → Option Text
  pub encode_base64 : Text → Text
  pub id_key : Text → Text → Params → ℕ → Text

pub data Verified : Type 0 where
  password_ok : Verified
  invalid_credentials : Verified
  bad_hash_format : Verified

-- strings.Split, with the part that is being read.
unfoldable pub split_from : ℕ → Text → Text → List Text
split_from sep cur [] = cur ∷ []
split_from sep cur (c ∷ s) =
    let next = split_from sep [] s in
    let same = split_from sep (cur ++ c ∷ []) s in if c == sep then cur ∷ next else same

unfoldable pub hash_parts : Text → List Text
unfolding split_from
hash_parts encoded = split_from b'$' [] encoded

unfoldable pub current_params : Params
current_params = record { memory = argon_memory; time = argon_time; threads = argon_threads }

-- HashPassword with the salt that it draws; `version` prints argon2.Version.
unfoldable pub hash_password : Lib → Text → Text → Text → Text
unfolding current_params
hash_password lib version salt plain =
    let key = lib.id_key plain salt current_params argon_key_len in
    bytes "$argon2id$v="
    ++ (version
        ++ (bytes "$"
            ++ (lib.print current_params
                ++ (bytes "$"
                    ++ (lib.encode_base64 salt ++ (bytes "$" ++ lib.encode_base64 key))))))

-- The comparison of the derived key with the stored one.
unfoldable pub compare_key : Lib → Params → Text → Option Text → Option Text → Verified
compare_key lib p plain (some salt) (some want) =
    if text_eq (lib.id_key plain salt p (length want)) want
    then password_ok
    else invalid_credentials
compare_key lib p plain _ _ = bad_hash_format

unfoldable pub verify_parts : Lib → Text → Option Params → Text → Text → Verified
unfolding compare_key
verify_parts lib plain none salt key = bad_hash_format
verify_parts lib plain (some p) salt key =
    compare_key lib p plain (lib.decode_base64 salt) (lib.decode_base64 key)

unfoldable pub verify_split : Lib → Text → List Text → Verified
unfolding verify_parts
verify_split lib plain (a ∷ b ∷ c ∷ d ∷ e ∷ f ∷ []) =
    if not (text_eq b (bytes "argon2id"))
    then bad_hash_format
    else verify_parts lib plain (lib.scan d) e f
verify_split lib plain _ = bad_hash_format

unfoldable pub verify_password : Lib → Text → Text → Verified
unfolding hash_parts verify_split
verify_password lib encoded plain = verify_split lib plain (hash_parts encoded)

unfoldable pub weaker : Option Params → Bool
weaker none = true
weaker (some p) = ltb p.memory argon_memory || ltb p.time argon_time || ltb p.threads argon_threads

unfoldable pub rehash_split : Lib → List Text → Bool
unfolding weaker
rehash_split lib (a ∷ b ∷ c ∷ d ∷ e ∷ f ∷ []) = weaker (lib.scan d)
rehash_split lib _ = true

unfoldable pub needs_rehash : Lib → Text → Bool
unfolding hash_parts rehash_split
needs_rehash lib encoded = rehash_split lib (hash_parts encoded)
