-- ===== src/Middleware/Authentication.antt =====
-- middleware/authentication.go. The keys' files, the signatures of github.com/evrblk/evrblk-go/authn and
-- the metadata of a request are parameters.
mod Laws
pub mod Cached
mod Requests
mod Runs
use yellowstone_common.Common.{
  ℕ, zero, suc, ◌+◌, ◌*◌, ◌-◌, ◌^◌, leb, ltb, if◌then◌else◌, ◌&&◌, Bool, true, false, is_empty,
  Option, none, some, List, [], ◌∷◌, ◌++◌, Bytes,
}
use yellowstone_common.Common.Compare.{equal, has_prefix}
use yellowstone_common.Common.Int.{ℤ, pos, negsuc}
use yellowstone_common.Common.Options.{◌>>=◌}
use yellowstone_common.Common.Text.{codes}

pub record ApiKey : Type 0 where
  pub id : Bytes
  pub body : Bytes

-- `authn`: whether the two verifications return no error, `GetDateOfTimestamp`, and
-- `HashBravoSecretWithDate`, which may fail. `Message` is `authn.VTProtoMessage`.
pub record Authn (Message Date : Type 0) : Type 0 where
  pub verify_alfa_signature : Bytes → ℤ → ℕ → Bytes → Message → Bytes → Bytes → Bool
  pub verify_bravo_signature : Bytes → ℤ → ℕ → Bytes → Message → Bytes → Bytes → Bool
  pub get_date_of_timestamp : ℤ → Date
  pub hash_bravo_secret_with_date : Bytes → Date → Option Bytes

abbrev pub signature_key : Bytes
signature_key = codes "evrblk-signature"

abbrev pub api_key_key : Bytes
api_key_key = codes "evrblk-api-key-id"

abbrev pub timestamp_key : Bytes
timestamp_key = codes "evrblk-timestamp"

-- `NewAuthenticationMiddleware`: the keys that are cached at first.
unfoldable pub new_authentication_middleware : List (Bytes × ApiKey)
new_authentication_middleware = []

-- `m.keys[id]`
abbrev pub lookup : Bytes → List (Bytes × ApiKey) → Option ApiKey
lookup k [] = none
lookup k ((j, key) ∷ keys) = let rest = lookup k keys in if equal k j then some key else rest

-- `len(md.Get(k)) != 1`, and `md.Get(k)[0]`
abbrev pub single : List Bytes → Option Bytes
single [] = none
single (v ∷ []) = some v
single (v ∷ w ∷ vs) = none

-- `getApiKey`; `read_file` gives the file of an id in `authKeysPath`.
unfoldable pub get_api_key :
    (Bytes → Option Bytes) → List (Bytes × ApiKey) → Bytes → List (Bytes × ApiKey) × Option ApiKey
get_api_key read_file keys id = elim (lookup id keys) [
  | some key ↦ (keys, some key)
  | none ↦ elim (read_file id) [
    | none ↦ (keys, none)
    | some body ↦ let key : ApiKey = record { id = id; body = body } in ((id, key) ∷ keys, some key)
  ]
]

-- What `Unary` reads of the metadata, which is none for a context without any: the signature, the id of
-- the key and the timestamp. `atoi` is `strconv.Atoi`.
unfoldable pub credentials :
    (Bytes → Option ℤ) → Option (Bytes → List Bytes) → Option (Bytes × Bytes × ℤ)
credentials atoi none = none
credentials atoi (some md) = single (md signature_key) >>= λ signature.
    single (md api_key_key) >>= λ id.
    single (md timestamp_key) >>= λ text. atoi text >>= λ timestamp. some (signature, id, timestamp)

module _ {Message Date : Type 0} (authn : Authn Message Date) (service_name : Bytes) where
  -- `verifySignature`: whether it returns no error. `message` is none for a request that is no
  -- `VTProtoMessage`, and `now` is the clock.
  unfoldable pub verify_signature : Option Message → ApiKey → Bytes → ℤ → ℕ → Bytes → Bool
  verify_signature none key signature timestamp now method = false
  verify_signature (some message) key signature timestamp now method =
      if has_prefix key.id (codes "key_alfa_")
      then authn.verify_alfa_signature signature timestamp now key.body message service_name method
      else (if has_prefix key.id (codes "key_bravo_")
          then (elim (authn.hash_bravo_secret_with_date key.body
              (authn.get_date_of_timestamp timestamp)) [
                | none ↦ false
                | some hashed ↦
                    authn.verify_bravo_signature signature timestamp now hashed message service_name
                      method
              ])
          else false)

  -- `Unary` up to the call of the handler: the keys that are cached, and whether it is called. `method` is
  -- `path.Base` of the full method. Every refusal is `errUnauthenticated`.
  unfoldable pub unary :
      (Bytes → Option Bytes)
      → (Bytes → Option ℤ)
      → List (Bytes × ApiKey)
      → Option (Bytes → List Bytes)
      → Option Message
      → ℕ
      → Bytes
      → List (Bytes × ApiKey) × Bool
  unary read_file atoi keys metadata message now method = elim (credentials atoi metadata) [
    | none ↦ (keys, false)
    | some (signature, id, timestamp) ↦
        let (keys', found) = get_api_key read_file keys id in
        elim found [
          | none ↦ (keys', false)
          | some key ↦ (keys', verify_signature message key signature timestamp now method)
        ]
  ]
