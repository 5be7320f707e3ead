-- ===== src/Repo/Reading.antt =====
-- pkg/repository/repository.go: the reads of a repository, and the entries that a write makes.
use blipblop.Base.{
  Text, ◌≡◌, ◌≢◌, refl, ◌∙◌, ◌⊎◌, inl, inr, none, some, [], ◌∷◌, list_eq, nat_eq, ==_refl, ==_ne,
  list_beq, length, Option-cases,
}
use blipblop.Errs.{ok, err, empty_name, Result-cases}
use blipblop.Keys
use blipblop.Keys.{KeyId, Uuids, tag_uid, tag_name, tag_idx, uuid_len, encode, encode_prefixed}
use blipblop.Keys.Codec.{decode-encode, uuid-IsKeyId}
use blipblop.Kv.{Kv, ScanKv}
use blipblop.Repo.{Resource, Prefixes, load, follow, put_entries}
use blipblop.Repo.Prefix.{differ_sound, IsApart}

module _ (kv : Kv) (s : kv.Store) where
  pub get-set_self : (k v : Text) → kv.get (kv.set s k v) k ≡ some v
  get-set_self k v = rw (kv.get-set, ==_refl)

  pub get-set_ne : (k v j : Text) → k ≢ j → kv.get (kv.set s k v) j ≡ kv.get s j
  get-set_ne k v j h = rw (kv.get-set, ==_ne k j h)

abbrev pub uid_id : Text → KeyId
uid_id u = record { tag = tag_uid; raw = u }

abbrev pub name_id : Text → KeyId
name_id t = record { tag = tag_name; raw = t }

abbrev pub idx_id : Text → KeyId
idx_id t = record { tag = tag_idx; raw = t }

-- `keys.Name` and `keys.Index` fail on the empty text alone.
pub name_cases :
    (t : Text)
    → ((t ≡ []) × (Keys.name t ≡ err empty_name) × (Keys.index t ≡ err empty_name))
      ⊎ ((t ≢ []) × (Keys.name t ≡ ok (name_id t)) × (Keys.index t ≡ ok (idx_id t)))
unfolding Keys.name Keys.index list_beq
name_cases [] = inl (refl, refl, refl)
name_cases (c ∷ t) = inr (λ e. cc, refl, refl)

module _ (db : ScanKv) (r : Resource) (p : Prefixes) (apart : IsApart p) where
  open db use {kv}

  pub key_uid_ne_name : (a b : KeyId) → encode_prefixed a p.iprefix ≢ encode_prefixed b p.prefix
  unfolding encode_prefixed
  key_uid_ne_name a b = differ_sound p.iprefix p.prefix (encode a) (encode b) apart.name_uid

  pub key_uid_ne_idx : (a b : KeyId) → encode_prefixed a p.idxprefix ≢ encode_prefixed b p.prefix
  unfolding encode_prefixed
  key_uid_ne_idx a b = differ_sound p.idxprefix p.prefix (encode a) (encode b) apart.idx_uid

  pub key_idx_ne_name : (a b : KeyId) → encode_prefixed a p.iprefix ≢ encode_prefixed b p.idxprefix
  unfolding encode_prefixed
  key_idx_ne_name a b = differ_sound p.iprefix p.idxprefix (encode a) (encode b) apart.name_idx

  module _ (s : kv.Store) (uid idx nm : KeyId) (b : Text) where
    pub put_entries_uid :
        kv.get (put_entries db r p s uid idx nm b) (encode_prefixed uid p.prefix) ≡ some b
    unfolding put_entries
    put_entries_uid =
        get-set_ne kv _ _ _ _ (key_uid_ne_name nm uid)
        ∙ get-set_ne kv _ _ _ _ (key_uid_ne_idx idx uid)
        ∙ get-set_self kv _ _ _

    pub put_entries_idx :
        kv.get (put_entries db r p s uid idx nm b) (encode_prefixed idx p.idxprefix)
        ≡ some (encode uid)
    unfolding put_entries
    put_entries_idx = get-set_ne kv _ _ _ _ (key_idx_ne_name nm idx) ∙ get-set_self kv _ _ _

    pub put_entries_name :
        kv.get (put_entries db r p s uid idx nm b) (encode_prefixed nm p.iprefix)
        ≡ some (encode uid)
    unfolding put_entries
    put_entries_name = get-set_self kv _ _ _

    -- Any other key keeps its value.
    pub put_entries_other :
        (k : Text)
        → encode_prefixed uid p.prefix ≢ k
        → encode_prefixed idx p.idxprefix ≢ k
        → encode_prefixed nm p.iprefix ≢ k
        → kv.get (put_entries db r p s uid idx nm b) k ≡ kv.get s k
    unfolding put_entries
    put_entries_other k hu hi hn =
        get-set_ne kv _ _ _ _ hn ∙ get-set_ne kv _ _ _ _ hi ∙ get-set_ne kv _ _ _ _ hu

  module _ (s : kv.Store) where
    pub load-eq :
        (key b : Text) (x : r.T)
        → kv.get s key ≡ some b
        → r.unmarshal b ≡ some x
        → load db r p s key ≡ ok x
    unfolding load
    load-eq key b x h e = rw (h, e)

    -- An entry that holds an encoded UID leads to the resource under that UID.
    pub follow-eq :
        (entry u : Text)
        → length u ≡ uuid_len
        → kv.get s entry ≡ some (encode (uid_id u))
        → follow db r p s entry ≡ load db r p s (encode_prefixed (uid_id u) p.prefix)
    unfolding follow
    follow-eq entry u n h = rw (h, decode-encode (uid_id u) (uuid-IsKeyId u n))

module _ (db : ScanKv) (r : Resource) (p : Prefixes) where
  open db use {kv}

  -- A load that succeeds has found bytes that decode.
  pub load-ok :
      (s : kv.Store) (key : Text) (z : r.T)
      → load db r p s key ≡ ok z
      → (b : Text) × (kv.get s key ≡ some b) × (r.unmarshal b ≡ some z)
  unfolding load
  load-ok s key z h = elim (Option-cases (kv.get s key)) [
    | inl e ↦ absurd (cc (rw e at h))
    | inr (b, e) ↦ elim (Option-cases (r.unmarshal b)) [
      | inl d ↦ absurd (cc (rw (e, d) at h))
      | inr (y, d) ↦ (b, e, d ∙ cc (rw (e, d) at h))
    ]
  ]

  -- An entry that leads to a resource holds an identifier whose key holds the resource.
  pub follow-ok :
      (s : kv.Store) (entry : Text) (z : r.T)
      → follow db r p s entry ≡ ok z
      → (item : Text) × (uid : KeyId) × (kv.get s entry ≡ some item)
        × (Keys.decode item ≡ ok uid)
        × (load db r p s (encode_prefixed uid p.prefix) ≡ ok z)
  unfolding follow
  follow-ok s entry z h = elim (Option-cases (kv.get s entry)) [
    | inl e ↦ absurd (cc (rw e at h))
    | inr (item, e) ↦ elim (Result-cases (Keys.decode item)) [
      | inl (uid, d) ↦ (item, uid, e, d, rw (e, d) at h)
      | inr (inl (x, d)) ↦ absurd (cc (rw (e, d) at h))
      | inr (inr d) ↦ absurd (cc (rw (e, d) at h))
    ]
  ]

  pub follow-eq_of_get :
      (s : kv.Store) (entry item : Text) (uid : KeyId)
      → kv.get s entry ≡ some item
      → Keys.decode item ≡ ok uid
      → follow db r p s entry ≡ load db r p s (encode_prefixed uid p.prefix)
  unfolding follow
  follow-eq_of_get s entry item uid e d = rw (e, d)

  -- A resource that is read through an entry is still read so after any change that keeps the
  -- entry and keeps every resource key that had a value.
  pub follow-keeps :
      (s s' : kv.Store) (entry : Text) (z : r.T)
      → kv.get s' entry ≡ kv.get s entry
      → ((id : KeyId)
          → kv.get s (encode_prefixed id p.prefix) ≢ none
          → kv.get s' (encode_prefixed id p.prefix) ≡ kv.get s (encode_prefixed id p.prefix))
      → follow db r p s entry ≡ ok z
      → follow db r p s' entry ≡ ok z
  unfolding load
  follow-keeps s s' entry z same keeps h =
      let (item, uid, e, d, l) = follow-ok s entry z h in
      let (b, g, m) = load-ok s (encode_prefixed uid p.prefix) z l in
      follow-eq_of_get s' entry item uid (same ∙ e) d ∙ rw (keeps uid (λ n. cc (n, g)) ∙ g, m)
