-- ===== src/Middleware/Authentication/Laws.antt =====
-- middleware/authentication.go: which requests reach the handler, and the cache of the keys.
use yellowstone_common.Common.{
  ℕ, ◌≡◌, ◌≢◌, refl, sym, ap, ◌∙◌, arith, Bool, true, false, Option, none, some, List, [], ◌∷◌,
  Bytes, Option-cases, Bool-cases, inl, inr,
}
use yellowstone_common.Common.Compare.{equal, equal→≡}
use yellowstone_common.Common.Int.{ℤ}
use yellowstone_common.Common.Options.{bound_some}
use yellowstone_common.Middleware.Authentication.{
  ApiKey, Authn, signature_key, api_key_key, timestamp_key, lookup, single, credentials,
  get_api_key, verify_signature, unary,
}

-- The keys that are cached are those of the files.
pub record IsFaithful (read_file : Bytes → Option Bytes) (keys : List (Bytes × ApiKey))
    : Type 0 where
  pub own_file :
      (id : Bytes) (key : ApiKey)
      → lookup id keys ≡ some key
      → (key.id ≡ id) × (read_file id ≡ some key.body)

-- The key of a file.
abbrev pub file_key : Bytes → Option Bytes → Option ApiKey
file_key id none = none
file_key id (some body) = some (record { id = id; body = body })

pub api_key_held :
    (read_file : Bytes → Option Bytes) (keys : List (Bytes × ApiKey)) (id : Bytes) (key : ApiKey)
    → lookup id keys ≡ some key
    → get_api_key read_file keys id ≡ (keys, some key)
unfolding get_api_key
api_key_held read_file keys id key held = rw (held, get_api_key)

pub api_key_absent :
    (read_file : Bytes → Option Bytes) (keys : List (Bytes × ApiKey)) (id : Bytes)
    → lookup id keys ≡ none
    → read_file id ≡ none
    → get_api_key read_file keys id ≡ (keys, none)
unfolding get_api_key
api_key_absent read_file keys id missing none_there = rw (missing, none_there, get_api_key)

pub api_key_read :
    (read_file : Bytes → Option Bytes) (keys : List (Bytes × ApiKey)) (id body : Bytes)
    → lookup id keys ≡ none
    → read_file id ≡ some body
    → get_api_key read_file keys id
      ≡ ((id, record { id = id; body = body }) ∷ keys, some (record { id = id; body = body }))
unfolding get_api_key
api_key_read read_file keys id body missing there = rw (missing, there, get_api_key)

IsFaithful-extended :
    (read_file : Bytes → Option Bytes) (keys : List (Bytes × ApiKey)) (id body : Bytes)
    → IsFaithful read_file keys
    → read_file id ≡ some body
    → IsFaithful read_file ((id, record { id = id; body = body }) ∷ keys)
IsFaithful-extended read_file keys id body faithful there = record {
  own_file = λ j key held. elim (Bool-cases (equal j id)) [
    | inl same ↦
        let j≡id = equal→≡ j id same in
        let found : Path (Option ApiKey) (some (record { id = id; body = body })) (some key) =
          rw same at held in
        let k≡ : Path ApiKey (record { id = id; body = body }) key = cc found in
        (sym (ap (λ k. k.id) k≡) ∙ sym j≡id, ap read_file j≡id ∙ there ∙ ap (λ k. some k.body) k≡)
    | inr other ↦ faithful.own_file j key (rw other at held)
  ];
}

-- With faithful keys, the key found is that of the file, and the keys stay faithful.
get_api_key-file :
    (read_file : Bytes → Option Bytes) (keys : List (Bytes × ApiKey)) (id : Bytes)
    → IsFaithful read_file keys
    → ((get_api_key read_file keys id).1 ≡ file_key id (read_file id))
      × IsFaithful read_file (get_api_key read_file keys id).0
get_api_key-file read_file keys id faithful = elim (Option-cases (lookup id keys)) [
  | inl missing ↦ elim (Option-cases (read_file id)) [
    | inl absent ↦ rw (api_key_absent read_file keys id missing absent, absent) (refl, faithful)
    | inr (body, there) ↦
        rw (api_key_read read_file keys id body missing there, there)
          (refl, IsFaithful-extended read_file keys id body faithful there)
  ]
  | inr (key, held) ↦
      let (same, there) = faithful.own_file id key held in
      rw (api_key_held read_file keys id key held, there)
        (ap (λ j. some (record { id = j; body = key.body })) same, faithful)
]

module _ {Message Date : Type 0} (authn : Authn Message Date) (service_name : Bytes) where
  -- Whether the handler is called, with the keys read from their files.
  abbrev pub admits :
      Option Message → ℕ → Bytes → (Bytes → Option Bytes) → Option (Bytes × Bytes × ℤ) → Bool
  admits message now method read_file none = false
  admits message now method read_file (some (signature, id, timestamp)) =
      elim (file_key id (read_file id)) [
        | none ↦ false
        | some key ↦ verify_signature authn service_name message key signature timestamp now method
      ]

  -- With the cached keys those of the files: the call of the handler depends on the files and not on what
  -- is cached, and the cached keys are those of the files again.
  pub unary-files :
      (read_file : Bytes → Option Bytes) (atoi : Bytes → Option ℤ) (keys : List (Bytes × ApiKey))
      → (metadata : Option (Bytes → List Bytes)) (message : Option Message) (now : ℕ)
        (method : Bytes)
      → IsFaithful read_file keys
      → let (keys', called) =
          unary authn service_name read_file atoi keys metadata message now method in
        (called ≡ admits message now method read_file (credentials atoi metadata))
        × IsFaithful read_file keys'
  unfolding unary
  unary-files read_file atoi keys metadata message now method faithful =
      elim (Option-cases (credentials atoi metadata)) [
        | inl refused ↦ rw (refused, unary) (refl, faithful)
        | inr ((signature, id, timestamp), read) ↦
            let (file, kept) = get_api_key-file read_file keys id faithful in
            elim (Option-cases (get_api_key read_file keys id).1) [
              | inl e ↦
                  let f : file_key id (read_file id) ≡ none = sym file ∙ e in
                  rw (read, unary, e, admits, f) (refl, kept)
              | inr (key, e) ↦
                  let f : file_key id (read_file id) ≡ some key = sym file ∙ e in
                  rw (read, unary, e, admits, f) (refl, kept)
            ]
      ]

single-some : (vs : List Bytes) (v : Bytes) → single vs ≡ some v → vs ≡ v ∷ []
single-some [] v e = absurd (ground arith)
single-some (x ∷ []) v e = ap (λ y. y ∷ []) (cc e)
single-some (x ∷ y ∷ vs) v e = absurd (ground arith)

true≢false : (b : Bool) → b ≡ true → b ≢ false
true≢false b e f = cc

file_key-some :
    (id : Bytes) (o : Option Bytes) (key : ApiKey)
    → file_key id o ≡ some key
    → (key.id ≡ id) × (o ≡ some key.body)
file_key-some id none key e = absurd (ground arith)
file_key-some id (some body) key e =
    let same : Path ApiKey (record { id = id; body = body }) key = cc e in
    (sym (ap (λ k. k.id) same), ap (λ k. some k.body) same)

module _ {Message Date : Type 0} (authn : Authn Message Date) (service_name : Bytes)
    (read_file : Bytes → Option Bytes) (atoi : Bytes → Option ℤ) where
  -- A request that carries one signature, one id of a key and one timestamp, a number, and whose signature
  -- is verified with the key in the file of that id.
  pub record Signed (md : Bytes → List Bytes) (message : Option Message) (now : ℕ) (method : Bytes)
      : Type 0 where
    pub signature : Bytes
    pub id : Bytes
    pub text : Bytes
    pub timestamp : ℤ
    pub key : ApiKey
    pub one_signature : md signature_key ≡ signature ∷ []
    pub one_id : md api_key_key ≡ id ∷ []
    pub one_timestamp : md timestamp_key ≡ text ∷ []
    pub number : atoi text ≡ some timestamp
    pub own_id : key.id ≡ id
    pub key_file : read_file id ≡ some key.body
    pub verified :
        verify_signature authn service_name message key signature timestamp now method ≡ true

  Signed-admits :
      (md : Bytes → List Bytes) (message : Option Message) (now : ℕ)
      (method signature id text : Bytes)
      → (timestamp : ℤ) → md signature_key ≡ signature ∷ []
      → md api_key_key ≡ id ∷ []
      → md timestamp_key ≡ text ∷ []
      → atoi text ≡ some timestamp
      → admits authn service_name message now method read_file (some (signature, id, timestamp))
        ≡ true
      → Signed md message now method
  Signed-admits md message now method signature id text timestamp e1 e2 e3 e4 h =
      elim (Option-cases (file_key id (read_file id))) [
        | inl none_there ↦ absurd (true≢false _ h (rw (admits, none_there) refl))
        | inr (key, there) ↦
            let (own, body) = file_key-some id (read_file id) key there in
            record {
              signature = signature;
              id = id;
              text = text;
              timestamp = timestamp;
              key = key;
              one_signature = e1;
              one_id = e2;
              one_timestamp = e3;
              number = e4;
              own_id = own;
              key_file = body;
              verified = rw (admits, there) at h;
            }
      ]

  -- With the cached keys those of the files, the handler is called only for a signed request.
  pub unary-Signed :
      (keys : List (Bytes × ApiKey)) (md : Bytes → List Bytes) (message : Option Message) (now : ℕ)
      (method : Bytes)
      → IsFaithful read_file keys
      → (unary authn service_name read_file atoi keys (some md) message now method).1 ≡ true
      → Signed md message now method
  unfolding credentials
  unary-Signed keys md message now method faithful h =
      let (called, kept) =
        unary-files authn service_name read_file atoi keys (some md) message now method faithful in
      let h' = sym called ∙ h in
      elim (Option-cases (credentials atoi (some md))) [
        | inl refused ↦
            absurd (
              true≢false _ h' (ap (admits authn service_name message now method read_file) refused))
        | inr (c, read) ↦
            let (signature, e1, r1) = bound_some (single (md signature_key)) _ read in
            let (id, e2, r2) = bound_some (single (md api_key_key)) _ r1 in
            let (text, e3, r3) = bound_some (single (md timestamp_key)) _ r2 in
            let (timestamp, e4, r4) = bound_some (atoi text) _ r3 in
            Signed-admits md message now method signature id text timestamp
              (single-some (md signature_key) signature e1) (single-some (md api_key_key) id e2)
              (single-some (md timestamp_key) text e3) e4
              (ap (admits authn service_name message now method read_file) (r4 ∙ sym read) ∙ h')
      ]
