-- ===== src/Keys/Parsing.antt =====
-- pkg/keys/keys.go: identifiers from the text that a user types.
use blipblop.Base.{
  Text, ◌≡◌, ◌≢◌, refl, ◌⊎◌, inl, inr, none, some, [], ◌∷◌, list_eq, nat_eq, arith, list_beq,
  Option-cases,
}
use blipblop.Errs.{ok}
use blipblop.Keys.{KeyId, tag_uid, tag_name, Uuids, to_text, parse_str}
use blipblop.Keys.Codec.{IsKeyId}

module _ (u : Uuids) where
  -- ParseStr reads text that is a UUID as that UUID and any other text that is not empty as a name.
  pub parse_str_cases :
      (s : Text)
      → s ≢ []
      → ((x : Text) × (u.parse s ≡ some x)
          × (parse_str u s ≡ ok (record { tag = tag_uid; raw = x })))
        ⊎ ((u.parse s ≡ none) × (parse_str u s ≡ ok (record { tag = tag_name; raw = s })))
  unfolding parse_str list_beq
  parse_str_cases [] h = absurd (h refl)
  parse_str_cases (c ∷ s) h = elim (Option-cases (u.parse (c ∷ s))) [
    | inl e ↦ inr (e, rw (e, parse_str))
    | inr (x, e) ↦ inl (x, e, rw (e, parse_str))
  ]

  -- A well-formed UUID identifier that is printed and parsed again is the same identifier.
  pub parse_str-to_text_uid :
      (id : KeyId) → IsKeyId id → id.tag ≡ tag_uid → parse_str u (to_text u id) ≡ ok id
  unfolding to_text
  parse_str-to_text_uid id w e =
      let read = u.parse-to_string id.raw (w.uid_size e) in
      let shown : to_text u id ≡ u.to_string id.raw = ground (arith, w.uid_size e) in
      elim (parse_str_cases (u.to_string id.raw) (λ p. cc (p, read, u.parse-nil))) [
        | inl (x, p, q) ↦ ground (arith, shown, q, p, read)
        | inr (p, q) ↦ absurd (cc (p, read))
      ]
