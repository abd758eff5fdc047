-- ===== src/Middleware/Authentication/Requests.antt =====
-- middleware/authentication.go: one request after another, while the files of the keys change.
use yellowstone_common.Common.{
  ℕ, ◌≡◌, refl, sym, ap, ◌∙◌, arith, true, Option, some, List, [], ◌∷◌, Bytes, Option-cases,
  Bool-cases, ◌⊎◌, inl, inr, subst,
}
use yellowstone_common.Common.Compare.{equal, equal→≡}
use yellowstone_common.Common.Int.{ℤ}
use yellowstone_common.Middleware.Authentication.{
  ApiKey, Authn, lookup, signature_key, api_key_key, timestamp_key, new_authentication_middleware,
  verify_signature, unary,
}
use yellowstone_common.Middleware.Authentication.Laws.{IsFaithful, unary-Signed}
use yellowstone_common.Middleware.Authentication.Cached.{unary-found_body, unary-keys, found_body}

-- A request, with the files as they are while it is served.
pub record Request (Message : Type 0) : Type 0 where
  pub read_file : Bytes → Option Bytes
  pub metadata : Option (Bytes → List Bytes)
  pub message : Option Message
  pub now : ℕ
  pub method : Bytes

-- At one of the requests the file of the id held the body.
abbrev pub EverHeld : {Message : Type 0} → Bytes → Bytes → List (Request Message) → Type 0
EverHeld id body [] = ⊥
EverHeld id body (r ∷ rs) = (r.read_file id ≡ some body) ⊎ EverHeld id body rs

module _ {Message Date : Type 0} (authn : Authn Message Date) (service_name : Bytes)
    (atoi : Bytes → Option ℤ) where
  -- The keys that are cached behind requests, the latest first.
  abbrev pub cached_keys : List (Request Message) → List (Bytes × ApiKey)
  cached_keys [] = new_authentication_middleware
  cached_keys (r ∷ rs) =
      let keys = cached_keys rs in
      (unary authn service_name r.read_file atoi keys r.metadata r.message r.now r.method).0

  -- Every key that is cached was in the file of its id at one of the requests.
  record HeldOnce (rs : List (Request Message)) (keys : List (Bytes × ApiKey)) : Type 0 where
    own_file :
        (id : Bytes) (key : ApiKey)
        → lookup id keys ≡ some key
        → (key.id ≡ id) × EverHeld id key.body rs

  HeldOnce-read :
      (r : Request Message) (rs : List (Request Message)) (keys : List (Bytes × ApiKey))
      (id body : Bytes)
      → HeldOnce rs keys
      → r.read_file id ≡ some body
      → HeldOnce (r ∷ rs) ((id, record { id = id; body = body }) ∷ keys)
  HeldOnce-read r rs keys id body once there = record {
    own_file = λ j key held. elim (Bool-cases (equal j id)) [
      | inl same ↦
          let j≡id = equal→≡ j id same in
          let found : Path (Option ApiKey) (some (record { id = id; body = body })) (some key) =
            rw same at held in
          let k≡ : Path ApiKey (record { id = id; body = body }) key = cc found in
          (
            sym (ap (λ k. k.id) k≡) ∙ sym j≡id,
            inl (ap r.read_file j≡id ∙ there ∙ ap (λ k. some k.body) k≡),
          )
      | inr other ↦ let (own, before) = once.own_file j key (rw other at held) in (own, inr before)
    ];
  }

  HeldOnce-later :
      (r : Request Message) (rs : List (Request Message)) (keys : List (Bytes × ApiKey))
      → HeldOnce rs keys
      → HeldOnce (r ∷ rs) keys
  HeldOnce-later r rs keys once = record {
    own_file = λ id key held. let (own, before) = once.own_file id key held in (own, inr before);
  }

  cached_keys-HeldOnce : (rs : List (Request Message)) → HeldOnce rs (cached_keys rs)
  unfolding new_authentication_middleware
  cached_keys-HeldOnce [] = record { own_file = λ id key held. absurd (ground (arith, held)) }
  cached_keys-HeldOnce (r ∷ rs) =
      let before = cached_keys-HeldOnce rs in
      elim (unary-keys authn service_name atoi r.read_file (cached_keys rs) r.metadata r.message
        r.now r.method) [
          | inl same ↦
              subst (HeldOnce (r ∷ rs)) (sym same) (HeldOnce-later r rs (cached_keys rs) before)
          | inr (id, body, there, same) ↦
              subst (HeldOnce (r ∷ rs)) (sym same)
                (HeldOnce-read r rs (cached_keys rs) id body before there)
        ]

  found_body-EverHeld :
      (r : Request Message) (rs : List (Request Message)) (keys : List (Bytes × ApiKey))
      (id body : Bytes)
      → HeldOnce rs keys
      → found_body r.read_file keys id ≡ some body
      → EverHeld id body (r ∷ rs)
  found_body-EverHeld r rs keys id body once found = elim (Option-cases (lookup id keys)) [
    | inl missing ↦ inl (rw (missing, found_body) at found)
    | inr (key, held) ↦
        let same : Path (Option Bytes) (some key.body) (some body) =
          rw (held, found_body) at found in
        inr (subst (λ x. EverHeld id x rs) (cc same) (once.own_file id key held).1)
  ]

  found_body-IsFaithful :
      (read_file : Bytes → Option Bytes) (rs : List (Request Message))
      (keys : List (Bytes × ApiKey))
      → HeldOnce rs keys
      → IsFaithful (found_body read_file keys) keys
  found_body-IsFaithful read_file rs keys once = record {
    own_file = λ id key held. ((once.own_file id key held).0, rw (held, found_body) refl);
  }

  -- The request carries one signature, one id of a key and one timestamp, a number, and its signature is verified
  -- with a key that was in the file of that id at one of the requests.
  pub record EverSigned (md : Bytes → List Bytes) (r : Request Message)
      (rs : List (Request Message)) : Type 0 where
    pub signature : Bytes
    pub id : Bytes
    pub text : Bytes
    pub timestamp : ℤ
    pub key : ApiKey
    pub one_signature : md signature_key ≡ signature ∷ []
    pub one_id : md api_key_key ≡ id ∷ []
    pub one_timestamp : md timestamp_key ≡ text ∷ []
    pub number : atoi text ≡ some timestamp
    pub own_id : key.id ≡ id
    pub key_file : EverHeld id key.body (r ∷ rs)
    pub verified :
        verify_signature authn service_name r.message key signature timestamp r.now r.method ≡ true

  -- After any requests to a new middleware, while the files of the keys may change: the handler is called only for a
  -- request with one signature, one id of a key and one timestamp, a number, whose signature is verified with a key
  -- that the file of that id held at this request or at one before.
  pub unary-EverSigned :
      (rs : List (Request Message)) (r : Request Message) (md : Bytes → List Bytes)
      → (unary authn service_name r.read_file atoi
          (cached_keys rs)
          (some md)
          r.message
          r.now
          r.method).1
        ≡ true
      → EverSigned md r rs
  unary-EverSigned rs r md h =
      let keys = cached_keys rs in
      let once = cached_keys-HeldOnce rs in
      let s =
        unary-Signed authn service_name (found_body r.read_file keys) atoi keys md r.message r.now
          r.method (found_body-IsFaithful r.read_file rs keys once)
          (ap (λ o. o.1)
              (sym (
                unary-found_body authn service_name atoi r.read_file keys (some md) r.message r.now
                  r.method))
            ∙ h) in
      record {
        signature = s.signature;
        id = s.id;
        text = s.text;
        timestamp = s.timestamp;
        key = s.key;
        one_signature = s.one_signature;
        one_id = s.one_id;
        one_timestamp = s.one_timestamp;
        number = s.number;
        own_id = s.own_id;
        key_file = found_body-EverHeld r rs keys s.id s.key.body once s.key_file;
        verified = s.verified;
      }
