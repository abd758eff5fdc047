-- ===== src/Middleware/Authentication/Cached.antt =====
-- middleware/authentication.go: what a request finds in the cache of the keys, and what it leaves there.
use yellowstone_common.Common.{
  ℕ, ◌≡◌, refl, sym, ap, ◌∙◌, Bool, false, Option, none, some, List, ◌∷◌, Bytes, Option-cases, ◌⊎◌,
  inl, inr,
}
use yellowstone_common.Common.Int.{ℤ}
use yellowstone_common.Middleware.Authentication.{
  ApiKey, Authn, lookup, credentials, get_api_key, verify_signature, unary,
}
use yellowstone_common.Middleware.Authentication.Laws.{api_key_held, api_key_absent, api_key_read}

-- What a look for a key finds, in the cache or else in the files.
abbrev pub found_body : (Bytes → Option Bytes) → List (Bytes × ApiKey) → Bytes → Option Bytes
found_body read_file keys id = elim (lookup id keys) [
  | some key ↦ some key.body
  | none ↦ read_file id
]

get_api_key-found_body :
    (read_file : Bytes → Option Bytes) (keys : List (Bytes × ApiKey)) (id : Bytes)
    → get_api_key read_file keys id ≡ get_api_key (found_body read_file keys) keys id
get_api_key-found_body read_file keys id = elim (Option-cases (lookup id keys)) [
  | inl missing ↦ elim (Option-cases (read_file id)) [
    | inl absent ↦
        api_key_absent read_file keys id missing absent
        ∙ sym (
            api_key_absent (found_body read_file keys) keys id missing
              (rw (missing, found_body) absent))
    | inr (body, there) ↦
        api_key_read read_file keys id body missing there
        ∙ sym (
            api_key_read (found_body read_file keys) keys id body missing
              (rw (missing, found_body) there))
  ]
  | inr (key, held) ↦
      api_key_held read_file keys id key held
      ∙ sym (api_key_held (found_body read_file keys) keys id key held)
]

module _ {Message Date : Type 0} (authn : Authn Message Date) (service_name : Bytes)
    (atoi : Bytes → Option ℤ) where
  pub unary-found_body :
      (read_file : Bytes → Option Bytes) (keys : List (Bytes × ApiKey))
      (metadata : Option (Bytes → List Bytes)) (message : Option Message) (now : ℕ) (method : Bytes)
      → unary authn service_name read_file atoi keys metadata message now method
        ≡ unary authn service_name (found_body read_file keys) atoi keys metadata message now method
  unfolding unary
  unary-found_body read_file keys metadata message now method =
      elim (Option-cases (credentials atoi metadata)) [
        | inl refused ↦ rw (refused, unary) refl
        | inr ((signature, id, timestamp), read) ↦
            rw (read, unary)
              (ap
                (λ (g : List (Bytes × ApiKey) × Option ApiKey).
                  elim g.1 as (λ o. List (Bytes × ApiKey) × Bool) [
                    | none ↦ (g.0, false)
                    | some key ↦ (
                      g.0,
                      verify_signature authn service_name message key signature timestamp now
                          method,
                    )
                  ])
                (get_api_key-found_body read_file keys id))
      ]

  unary_cached :
      (read_file : Bytes → Option Bytes) (keys : List (Bytes × ApiKey))
      (metadata : Option (Bytes → List Bytes)) (message : Option Message) (now : ℕ)
      (method signature id : Bytes) (timestamp : ℤ)
      → credentials atoi metadata ≡ some (signature, id, timestamp)
      → (unary authn service_name read_file atoi keys metadata message now method).0
        ≡ (get_api_key read_file keys id).0
  unfolding unary
  unary_cached read_file keys metadata message now method signature id timestamp read =
      elim (Option-cases (get_api_key read_file keys id).1) [
        | inl e ↦ rw (read, unary, e) refl
        | inr (key, e) ↦ rw (read, unary, e) refl
      ]

  -- A request leaves the cache as it is, or adds the key in a file.
  pub unary-keys :
      (read_file : Bytes → Option Bytes) (keys : List (Bytes × ApiKey))
      (metadata : Option (Bytes → List Bytes)) (message : Option Message) (now : ℕ) (method : Bytes)
      → let after = (unary authn service_name read_file atoi keys metadata message now method).0 in
        (after ≡ keys)
        ⊎ ((id : Bytes) × (body : Bytes) × (read_file id ≡ some body)
            × (after ≡ (id, record { id = id; body = body }) ∷ keys))
  unfolding unary
  unary-keys read_file keys metadata message now method =
      elim (Option-cases (credentials atoi metadata)) [
        | inl refused ↦ inl (rw (refused, unary) refl)
        | inr ((signature, id, timestamp), read) ↦
            let cached =
              unary_cached read_file keys metadata message now method signature id timestamp read in
            elim (Option-cases (lookup id keys)) [
              | inr (key, held) ↦
                  inl (cached ∙ ap (λ r. r.0) (api_key_held read_file keys id key held))
              | inl missing ↦ elim (Option-cases (read_file id)) [
                | inl absent ↦
                    inl (cached ∙ ap (λ r. r.0) (api_key_absent read_file keys id missing absent))
                | inr (body, there) ↦ inr (
                  id,
                  body,
                  there,
                  cached ∙ ap (λ r. r.0) (api_key_read read_file keys id body missing there),
                )
              ]
            ]
      ]
