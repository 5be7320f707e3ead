-- ===== src/Keys/Codec.antt =====
-- pkg/keys/keys.go: identifiers as database keys.
use blipblop.Base.{
  Text, ◌≡◌, refl, ◌⊎◌, inl, inr, ◌<◌, some, [], ◌∷◌, ◌++◌, list_eq, nat_eq, length, arith,
  list_beq, Option-cases, sym, ap, ◌∙◌,
}
use blipblop.Errs.{ok}
use blipblop.Keys.{
  KeyId, tag_uid, tag_name, tag_idx, uuid_len, index, name, encode, encode_prefixed, strip_prefix,
  decode, decode_rest, parse_bytes,
}

-- What the constructors of the package make.
pub record IsKeyId (id : KeyId) : Type 0 where
  pub known : (id.tag ≡ tag_uid) ⊎ ((id.tag ≡ tag_name) ⊎ (id.tag ≡ tag_idx))
  pub uid_size : id.tag ≡ tag_uid → length id.raw ≡ uuid_len
  pub filled : 0 < length id.raw

strip_prefix-append : (prefix rest : Text) → strip_prefix prefix (prefix ++ rest) ≡ some rest
unfolding strip_prefix
strip_prefix-append [] rest = refl
strip_prefix-append (p ∷ prefix) rest = ground (arith, strip_prefix-append prefix rest)

strip_prefix_sound :
    (prefix key rest : Text) → strip_prefix prefix key ≡ some rest → key ≡ prefix ++ rest
unfolding strip_prefix
strip_prefix_sound [] key rest h = ground arith
strip_prefix_sound (p ∷ prefix) [] rest h = cc
strip_prefix_sound (p ∷ prefix) (k ∷ key) rest h =
    ground (arith, strip_prefix_sound prefix key rest)

pub decode-encode : (id : KeyId) → IsKeyId id → decode (encode id) ≡ ok id
unfolding decode encode
decode-encode id w = ground (arith, w.known, w.uid_size, w.filled)

pub decode_sound : (b : Text) (id : KeyId) → decode b ≡ ok id → IsKeyId id × (encode id ≡ b)
unfolding decode encode
decode_sound [] id h = cc
decode_sound (tag ∷ payload) id h =
    (record { known = ground arith; uid_size = ground arith; filled = ground arith }, ground arith)

-- ParseBytes of the key of a well-formed identifier returns the identifier.
pub parse_bytes-encode_prefixed :
    (prefix : Text) (id : KeyId)
    → IsKeyId id
    → parse_bytes prefix (encode_prefixed id prefix) ≡ ok id
unfolding parse_bytes encode_prefixed decode_rest
parse_bytes-encode_prefixed prefix id w =
    ap decode_rest (strip_prefix-append prefix (encode id)) ∙ decode-encode id w

-- An identifier that ParseBytes returns is well formed, and its key is the key that was read.
pub parse_bytes_sound :
    (prefix key : Text) (id : KeyId)
    → parse_bytes prefix key ≡ ok id
    → IsKeyId id × (encode_prefixed id prefix ≡ key)
unfolding parse_bytes encode_prefixed decode_rest
parse_bytes_sound prefix key id h = elim (Option-cases (strip_prefix prefix key)) [
  | inl e ↦ absurd (cc (ap decode_rest e, h))
  | inr (rest, e) ↦
      let (w, same) = decode_sound rest id (sym (ap decode_rest e) ∙ h) in
      (w, rw same (sym (strip_prefix_sound prefix key rest e)))
]

-- Two identifiers with one database key under one prefix are the same identifier.
pub encode_prefixed_injective :
    (prefix : Text) (a b : KeyId) → encode_prefixed a prefix ≡ encode_prefixed b prefix → a ≡ b
unfolding encode_prefixed encode
encode_prefixed_injective [] a b h = cc
encode_prefixed_injective (p ∷ prefix) a b h = encode_prefixed_injective prefix a b (ground arith)

-- The constructors of the package make well-formed identifiers.
pub index-IsKeyId : (s : Text) (id : KeyId) → index s ≡ ok id → IsKeyId id
unfolding index list_beq
index-IsKeyId [] id h = cc
index-IsKeyId (c ∷ s) id h = record {
  known = ground arith;
  uid_size = ground arith;
  filled = ground arith;
}

pub name-IsKeyId : (s : Text) (id : KeyId) → name s ≡ ok id → IsKeyId id
unfolding name list_beq
name-IsKeyId [] id h = cc
name-IsKeyId (c ∷ s) id h = record {
  known = ground arith;
  uid_size = ground arith;
  filled = ground arith;
}

pub uuid-IsKeyId : (u : Text) → length u ≡ uuid_len → IsKeyId (record { tag = tag_uid; raw = u })
uuid-IsKeyId u h = record { known = inl refl; uid_size = λ _. h; filled = omega arith }
