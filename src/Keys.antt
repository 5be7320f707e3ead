-- ===== src/Keys.antt =====
-- pkg/keys/keys.go: the identifiers of stored resources and their encoding as database keys.
-- A UUID is its 16 bytes; github.com/google/uuid is the parameter `Uuids`.
pub mod Codec
pub mod Parsing
use blipblop.Base.{
  ℕ, Text, ◌≡◌, Bool, true, false, not, ◌||◌, Option, none, some, List, [], ◌∷◌, ◌++◌,
  if◌then◌else◌, ◌==◌, list_eq, nat_eq, length, leb, ltb, codes,
}
use blipblop.Errs.{
  Err, Result, ok, err, panic, ◌>>=◌, ◌>>◌, guard, empty_name, empty_index, bad_encoding, bad_tag,
  bad_uuid_len, bad_prefix, not_a_uuid, no_uid_or_name, bad_uuid, unparsable_uid,
}

abbrev pub uuid_len : ℕ
uuid_len = 16

abbrev pub tag_uid : ℕ
tag_uid = 1

abbrev pub tag_name : ℕ
tag_name = 2

abbrev pub tag_idx : ℕ
tag_idx = 3

-- The tag is a byte; Go's zero value has tag 0.
pub record KeyId : Type 0 where
  pub tag : ℕ
  pub raw : Text

-- What the program uses of github.com/google/uuid. `uuid.UUID` is an array of 16 bytes.
pub record Uuids : Type 0 where
  pub parse : Text → Option Text
  pub to_string : Text → Text
  pub parse-nil : parse [] ≡ none
  pub length-parse : (s u : Text) → parse s ≡ some u → length u ≡ uuid_len
  pub parse-to_string : (u : Text) → length u ≡ uuid_len → parse (to_string u) ≡ some u

unfoldable pub index : Text → Result KeyId
index s = if s == [] then err empty_name else ok (record { tag = tag_idx; raw = s })

unfoldable pub name : Text → Result KeyId
name s = if s == [] then err empty_name else ok (record { tag = tag_name; raw = s })

unfoldable pub uuid : Text → Result KeyId
uuid u = ok (record { tag = tag_uid; raw = u })

unfoldable pub as_uuid : KeyId → Result Text
as_uuid id = do
  guard (id.tag == tag_uid) not_a_uuid
  guard (length id.raw == uuid_len) bad_uuid_len
  ok id.raw

unfoldable pub encode : KeyId → Text
encode id = id.tag ∷ id.raw

unfoldable pub encode_prefixed : KeyId → Text → Text
unfolding encode
encode_prefixed id prefix = prefix ++ encode id

-- `bytes.HasPrefix`, with the rest of the key
strip_prefix : Text → Text → Option Text
strip_prefix [] key = some key
strip_prefix (p ∷ prefix) [] = none
strip_prefix (p ∷ prefix) (k ∷ key) = if p == k then strip_prefix prefix key else none

decode_payload : ℕ → Text → Result KeyId
decode_payload tag payload =
    if tag == tag_name
    then (do guard (not (length payload == 0)) empty_name; ok (record { tag = tag; raw = payload }))
    else if tag == tag_uid
    then (do
      guard (length payload == uuid_len) bad_uuid_len
      ok (record { tag = tag; raw = payload }))
    else if tag == tag_idx
    then (do
      guard (not (length payload == 0)) empty_index
      ok (record { tag = tag; raw = payload }))
    else err bad_tag

unfoldable pub decode : Text → Result KeyId
unfolding decode_payload
decode [] = err bad_encoding
decode (tag ∷ payload) = do
  guard (not (length payload == 0)) bad_encoding
  decode_payload tag payload

decode_rest : Option Text → Result KeyId
decode_rest none = err bad_prefix
decode_rest (some rest) = decode rest

unfoldable pub parse_bytes : Text → Text → Result KeyId
unfolding strip_prefix decode_rest
parse_bytes prefix full_key = decode_rest (strip_prefix prefix full_key)

module _ (u : Uuids) where
  or_bad_uuid : Option Text → Result Text
  or_bad_uuid none = err bad_uuid
  or_bad_uuid (some x) = ok x

  -- `ID.String`
  unfoldable pub to_text : KeyId → Text
  unfolding as_uuid
  to_text id =
      if id.tag == tag_uid
      then elim (as_uuid id) [ ok x ↦ u.to_string x | _ ↦ [] ]
      else if id.tag == tag_name || id.tag == tag_idx
      then id.raw
      else []

  unfoldable pub name_str : KeyId → Text
  name_str id = if id.tag == tag_name || id.tag == tag_idx then id.raw else []

  unfoldable pub uuid_str : KeyId → Text
  unfolding as_uuid
  uuid_str id =
      if id.tag == tag_uid then elim (as_uuid id) [ ok x ↦ u.to_string x | _ ↦ [] ] else []

  unfoldable pub from_uid_or_name : Text → Text → Result KeyId
  unfolding or_bad_uuid uuid name
  from_uid_or_name uid nm =
      if not (uid == [])
      then (do x ← or_bad_uuid (u.parse uid); uuid x)
      else if not (nm == [])
      then name nm
      else err no_uid_or_name

  unfoldable pub parse_str : Text → Result KeyId
  unfolding from_uid_or_name
  parse_str s = elim (from_uid_or_name s []) [
    | ok uid ↦ ok uid
    | _ ↦ elim (from_uid_or_name [] s) [ ok uid ↦ ok uid | _ ↦ err unparsable_uid ]
  ]
