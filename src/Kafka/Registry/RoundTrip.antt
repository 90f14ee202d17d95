-- ===== src/Kafka/Registry/RoundTrip.antt =====
-- What is framed is read back, byte for byte, and what is not framed passes unchanged.
use omnia_backends.Base.{
  ℕ, ◌/◌, ◌%◌, ◌<◌, ◌≡◌, refl, ap, Option, none, some, ◌∷◌, All, arith, Option-cases, inl, inr, ◌⊎◌,
}
use omnia_backends.Base.Results.{ok, map_err, >>=-eq-ok, map_err-eq-ok}
use omnia_backends.Kafka.Registry.{
  Bytes, Payload, Schema, Libraries, rejection, from_be_bytes, encode_payload, decode_payload,
  encode, decode, frame, unframe, check, fetch_latest, fetch_by_id,
}

-- A framed payload is read back with its schema's id, for every id of 32 bits.
pub decode_payload-encode_payload :
    (id : ℕ) (payload : Bytes)
    → id < 4294967296
    → decode_payload (encode_payload id payload)
      ≡ some (record { registry_id = id; content = payload })
unfolding decode_payload encode_payload
decode_payload-encode_payload id payload h =
    ap (λ n. some (record { registry_id = n; content = payload })) (omega arith)

bytes_of_id :
    (a b c d : ℕ)
    → a < 256
    → b < 256
    → c < 256
    → d < 256
    → (from_be_bytes a b c d / 16777216 % 256 ≡ a)
      × (from_be_bytes a b c d / 65536 % 256 ≡ b)
      × (from_be_bytes a b c d / 256 % 256 ≡ c)
      × (from_be_bytes a b c d % 256 ≡ d)
      × (from_be_bytes a b c d < 4294967296)
unfolding from_be_bytes
bytes_of_id a b c d ha hb hc hd = omega arith

-- The other way: what `decode` accepts is what `encode` writes of its parts, so no two buffers carry
-- the same id and data.
pub encode_payload-decode_payload :
    (buffer : Bytes) (p : Payload)
    → All (λ b. b < 256) buffer
    → decode_payload buffer ≡ some p
    → (encode_payload p.registry_id p.content ≡ buffer) × (p.registry_id < 4294967296)
unfolding decode_payload encode_payload
encode_payload-decode_payload (m ∷ a ∷ b ∷ c ∷ d ∷ rest) p v h =
    ground (arith, bytes_of_id a b c d v.1.0 v.1.1.0 v.1.1.1.0 v.1.1.1.1.0)
encode_payload-decode_payload _ p v h = cc

module _ (l : Libraries) where
  open l use {Validator}

  -- What `encode` sends: the buffer as it came for a topic with no schema, else the buffer framed, and
  -- only once it passed the topic's latest schema.
  pub encode_sends :
      (topic buffer sent : Bytes)
      → encode l topic buffer ≡ ok sent
      → ((fetch_latest l topic ≡ ok none) × (sent ≡ buffer))
        ⊎ ((s : Schema Validator) × (fetch_latest l topic ≡ ok (some s))
            × (check l s buffer ≡ ok tt)
            × (sent ≡ encode_payload s.id buffer))
  unfolding encode
  encode_sends topic buffer sent h =
      let (latest, fetched, framed) =
        >>=-eq-ok (map_err rejection (fetch_latest l topic)) _ sent h in
      sends latest (map_err-eq-ok rejection (fetch_latest l topic) latest fetched) framed
    where
      sends :
          (latest : Option (Schema Validator))
          → fetch_latest l topic ≡ ok latest
          → frame l buffer latest ≡ ok sent
          → ((fetch_latest l topic ≡ ok none) × (sent ≡ buffer))
            ⊎ ((s : Schema Validator) × (fetch_latest l topic ≡ ok (some s))
                × (check l s buffer ≡ ok tt)
                × (sent ≡ encode_payload s.id buffer))
      sends none e k = inl (e, cc)
      sends (some s) e k =
          let (_, passed, out) = >>=-eq-ok (check l s buffer) _ sent k in inr (s, e, passed, cc)

  -- What `decode` delivers: an unframed payload as it came, or a framed one's data, and only once it
  -- passed the schema that its header names.
  pub decode_delivers :
      (buffer out : Bytes)
      → decode l buffer ≡ ok out
      → ((decode_payload buffer ≡ none) × (out ≡ buffer))
        ⊎ ((framed : Payload) × (s : Schema Validator) × (decode_payload buffer ≡ some framed)
            × (fetch_by_id l framed.registry_id ≡ ok s)
            × (check l s framed.content ≡ ok tt)
            × (out ≡ framed.content))
  unfolding decode
  decode_delivers buffer out h = elim (Option-cases (decode_payload buffer)) [
    | inl e ↦ inl (e, ground (arith, e))
    | inr (framed, e) ↦
        let k : unframe l framed ≡ ok out = ground (arith, e) in
        let (s, fetched, rest) =
          >>=-eq-ok (map_err rejection (fetch_by_id l framed.registry_id)) _ out k in
        let (_, passed, last) = >>=-eq-ok (check l s framed.content) _ out rest in
        inr (framed, s, e, map_err-eq-ok rejection _ s fetched, passed, cc)
  ]

  reframed :
      (s : Schema Validator) (buffer : Bytes)
      → fetch_by_id l s.id ≡ ok s
      → check l s buffer ≡ ok tt
      → unframe l (record { registry_id = s.id; content = buffer }) ≡ ok buffer
  unfolding unframe
  reframed s buffer by_id passed = rw (by_id, passed) refl

  -- A payload sent under the topic's schema comes back as it was, where the registry answers the
  -- schema's id with the same schema and the id has 32 bits.
  pub decode-encode :
      (topic buffer sent : Bytes) (s : Schema Validator)
      → fetch_latest l topic ≡ ok (some s)
      → fetch_by_id l s.id ≡ ok s
      → s.id < 4294967296
      → encode l topic buffer ≡ ok sent
      → decode l sent ≡ ok buffer
  unfolding decode
  decode-encode topic buffer sent s latest by_id small h = elim (encode_sends topic buffer sent h) [
    | inl (none', _) ↦ ground (arith, latest, none')
    | inr (s', latest', passed, framed) ↦
        let same' : s' ≡ s = cc in
        let passed' : check l s buffer ≡ ok tt = rw same' at passed in
        rw (framed, same', decode_payload-encode_payload s.id buffer small, decode)
          (reframed s buffer by_id passed')
  ]
