-- ===== src/Repo/Deleting.antt =====
-- pkg/repository/repository.go: `Delete` by UID, key by key.
use blipblop.Base.{
  Text, ◌≡◌, ◌≢◌, refl, sym, ◌∙◌, ◌⊎◌, inl, inr, true, Option, none, some, List, [], ◌∷◌, ◌++◌,
  ◌==◌, list_eq, nat_eq, ==_refl, ==_ne, Bool-cases, list_beq_iff, Any,
}
use blipblop.Errs.{ok, err, repo_not_found}
use blipblop.Keys
use blipblop.Keys.{KeyId, tag_uid, tag_name, tag_idx, encode, encode_prefixed}
use blipblop.Keys.Codec.{encode_prefixed_injective}
use blipblop.Kv.{Kv, ScanKv}
use blipblop.Repo.{Resource, Prefixes, load, follow, delete_by_uid, delete_entry, points_to}
use blipblop.Repo.Prefix.{IsApart, differ_sound}
use blipblop.Repo.Reading.{load-ok, follow-eq_of_get}

module _ (kv : Kv) (s : kv.Store) where
  pub get-delete_self : (k : Text) → kv.get (kv.delete s k) k ≡ none
  get-delete_self k = rw (kv.get-delete, ==_refl)

  pub get-delete_ne : (k j : Text) → k ≢ j → kv.get (kv.delete s k) j ≡ kv.get s j
  get-delete_ne k j h = rw (kv.get-delete, ==_ne k j h)

module _ (db : ScanKv) (r : Resource) (p : Prefixes) where
  open db use {kv}

  -- A key that the loop dropped was listed, and pointed to the identifier.
  delete_entry_cases :
      (s : kv.Store) (id : KeyId) (ks : List Text) (j : Text)
      → (kv.get (delete_entry db r p s id ks) j ≡ kv.get s j)
        ⊎ ((kv.get (delete_entry db r p s id ks) j ≡ none)
            × Any (λ k. k ≡ j) ks
            × (points_to db r p id (kv.get s j) ≡ true))
  unfolding delete_entry
  delete_entry_cases s id [] j = inl refl
  delete_entry_cases s id (k ∷ ks) j = elim (Bool-cases (points_to db r p id (kv.get s k))) [
    | inl hit ↦ elim (Bool-cases (k == j)) [
      | inl same ↦
          let e : k ≡ j = (list_beq_iff k j).0 same in
          inr (rw (hit, e) (get-delete_self kv s j), inl e, rw e at hit)
      | inr other ↦ inl (rw (hit, kv.get-delete, other))
    ]
    | inr miss ↦
        rw miss (elim (delete_entry_cases s id ks j) [
          | inl e ↦ inl e
          | inr (e, m, t) ↦ inr (e, inr m, t)
        ])
  ]

  -- The key is one of a name entry or of an index entry.
  abbrev IsEntry : Text → Type 0
  IsEntry j =
      ((rest : Text) × (j ≡ p.iprefix ++ rest)) ⊎ ((rest : Text) × (j ≡ p.idxprefix ++ rest))

  delete_by_uid_cases :
      (s : kv.Store) (id : KeyId) (j : Text)
      → encode_prefixed id p.prefix ≢ j
      → (kv.get (delete_by_uid db r p s id) j ≡ kv.get s j)
        ⊎ ((kv.get (delete_by_uid db r p s id) j ≡ none)
            × IsEntry j
            × (points_to db r p id (kv.get s j) ≡ true))
  unfolding delete_by_uid
  delete_by_uid_cases s id j off =
      let s₁ = delete_entry db r p s id (db.keys s p.iprefix) in
      let s₂ = delete_entry db r p s₁ id (db.keys s₁ p.idxprefix) in
      let last = get-delete_ne kv s₂ (encode_prefixed id p.prefix) j off in
      elim (delete_entry_cases s id (db.keys s p.iprefix) j) [
        | inl e₁ ↦ elim (delete_entry_cases s₁ id (db.keys s₁ p.idxprefix) j) [
          | inl e₂ ↦ inl (last ∙ e₂ ∙ e₁)
          | inr (e₂, m, t) ↦ inr (last ∙ e₂, inr ((db.keys_iff s₁ p.idxprefix j).0 m).0, rw e₁ at t)
        ]
        | inr (e₁, m, t) ↦ elim (delete_entry_cases s₁ id (db.keys s₁ p.idxprefix) j) [
          | inl e₂ ↦ inr (last ∙ e₂ ∙ e₁, inl ((db.keys_iff s p.iprefix j).0 m).0, t)
          | inr (e₂, _, _) ↦ inr (last ∙ e₂, inl ((db.keys_iff s p.iprefix j).0 m).0, t)
        ]
      ]

  points_to_sound :
      (id uid : KeyId) (o : Option Text) (item : Text)
      → o ≡ some item
      → Keys.decode item ≡ ok uid
      → points_to db r p id o ≡ true
      → encode uid ≡ encode id
  unfolding points_to
  points_to_sound id uid o item e d t =
      (list_beq_iff (encode uid) (encode id)).0 (rw (e, d, points_to) at t)

  module _ (apart : IsApart p) where
    key_ne_entry : (id : KeyId) (j : Text) → IsEntry j → j ≢ encode_prefixed id p.prefix
    unfolding encode_prefixed
    key_ne_entry id j (inl (rest, e)) h =
        differ_sound p.iprefix p.prefix rest (encode id) apart.name_uid (sym e ∙ h)
    key_ne_entry id j (inr (rest, e)) h =
        differ_sound p.idxprefix p.prefix rest (encode id) apart.idx_uid (sym e ∙ h)

    -- After Delete by UID, an entry that held the UID leads to no resource, whether or not it was
    -- the entry that the loop dropped; the entry is not the UID's own key, and the key ranges of
    -- the repository do not meet.
    pub follow-delete_by_uid :
        (s : kv.Store) (id : KeyId) (entry item : Text)
        → encode_prefixed id p.prefix ≢ entry
        → kv.get s entry ≡ some item
        → Keys.decode item ≡ ok id
        → follow db r p (delete_by_uid db r p s id) entry ≡ err repo_not_found
    follow-delete_by_uid s id entry item off e d = elim (delete_by_uid_cases s id entry off) [
      | inl kept ↦
          follow-eq_of_get db r p (delete_by_uid db r p s id) entry item id (kept ∙ e) d
          ∙ load-deleted
      | inr (gone, _, _) ↦ unfold follow in rw gone
    ]
      where
        load-deleted :
            load db r p (delete_by_uid db r p s id) (encode_prefixed id p.prefix)
            ≡ err repo_not_found
        load-deleted = unfold load delete_by_uid in rw get-delete_self

    -- After Delete by UID, an entry that led to the resource of another UID still leads to it; the
    -- entry is not the deleted UID's own key, and the key ranges of the repository do not meet.
    pub follow-delete_by_uid_ne :
        (s : kv.Store) (id uid : KeyId) (entry item : Text) (z : r.T)
        → encode_prefixed id p.prefix ≢ entry
        → kv.get s entry ≡ some item
        → Keys.decode item ≡ ok uid
        → uid ≢ id
        → load db r p s (encode_prefixed uid p.prefix) ≡ ok z
        → follow db r p (delete_by_uid db r p s id) entry ≡ ok z
    follow-delete_by_uid_ne s id uid entry item z off e d other l =
        follow-eq_of_get db r p (delete_by_uid db r p s id) entry item uid (kept ∙ e) d ∙ loaded
      where
        kept : kv.get (delete_by_uid db r p s id) entry ≡ kv.get s entry
        kept = elim (delete_by_uid_cases s id entry off) [
          | inl k ↦ k
          | inr (_, _, t) ↦ absurd (
              other (
                encode_prefixed_injective [] uid id
                  (unfold encode_prefixed in points_to_sound id uid _ item e d t)))
        ]

        key_kept :
            kv.get (delete_by_uid db r p s id) (encode_prefixed uid p.prefix)
            ≡ kv.get s (encode_prefixed uid p.prefix)
        key_kept =
            elim (delete_by_uid_cases s id (encode_prefixed uid p.prefix)
              (λ h. other (sym (encode_prefixed_injective p.prefix id uid h)))) [
                | inl k ↦ k
                | inr (_, m, _) ↦ absurd (key_ne_entry uid _ m refl)
              ]

        loaded : load db r p (delete_by_uid db r p s id) (encode_prefixed uid p.prefix) ≡ ok z
        loaded =
            let (b, g, m) = load-ok db r p s (encode_prefixed uid p.prefix) z l in
            unfold load in rw (key_kept ∙ g, m)
