-- ===== src/Repo/Updating.antt =====
-- pkg/repository/repository.go: `Update`.
use blipblop.Base.{
  ◌+◌, ℕ, Text, ◌≡◌, ◌≢◌, refl, sym, ap, ◌∙◌, inl, inr, none, some, ◌==◌, nat_eq, Option-cases,
  Bool-cases,
}
use blipblop.Errs.{Err, ok, err, IsAtomic, Result-cases}
use blipblop.Keys.{KeyId, tag_uid, tag_name, tag_idx, encode_prefixed}
use blipblop.Kv.{ScanKv}
use blipblop.Api.{Meta}
use blipblop.Repo.{
  u64, Resource, Prefixes, follow, get, update_resource, write_by_tag, carry_meta, update_through,
  then_read,
}
use blipblop.Repo.Prefix.{IsApart}
use blipblop.Repo.Reading.{
  get-set_self, get-set_ne, load-eq, load-ok, follow-ok, follow-eq_of_get, key_uid_ne_name,
  key_uid_ne_idx,
}

module _ (db : ScanKv) (r : Resource) (p : Prefixes) (apart : IsApart p) where
  open db use {kv}

  -- The write of bytes `b`, which decode to `y`, for the resource that `id` names.
  pub record Wrote (s : kv.Store) (id : KeyId) (b : Text) (y : r.T) : Type 0 where
    pub uid : KeyId
    pub result : write_by_tag db r p none s id b ≡ (ok y, kv.set s (encode_prefixed uid p.prefix) b)
    pub read : get db r p none (kv.set s (encode_prefixed uid p.prefix) b) id ≡ ok y

  through-Wrote :
      (s : kv.Store) (entry b : Text) (e y : r.T)
      → ((uid : KeyId) → entry ≢ encode_prefixed uid p.prefix)
      → follow db r p s entry ≡ ok e
      → r.marshal y ≡ some b
      → (uid : KeyId) × (update_through db r p none s entry b
          ≡ (ok tt, kv.set s (encode_prefixed uid p.prefix) b))
        × (follow db r p (kv.set s (encode_prefixed uid p.prefix) b) entry ≡ ok y)
  unfolding update_through
  through-Wrote s entry b e y off h m =
      let (item, uid, g, d, l) = follow-ok db r p s entry e h in
      let key = encode_prefixed uid p.prefix in
      (
        uid,
        rw (g, d),
        follow-eq_of_get db r p (kv.set s key b) entry item uid
              (get-set_ne kv s key b entry (λ same. off uid (sym same)) ∙ g) d
            ∙ load-eq db r p apart (kv.set s key b) key b y (get-set_self kv s key b)
                (r.unmarshal-marshal y b m),
      )

  write_by_tag-Wrote :
      (s : kv.Store) (id : KeyId) (b : Text) (e y : r.T)
      → get db r p none s id ≡ ok e
      → r.marshal y ≡ some b
      → Wrote s id b y
  unfolding write_by_tag get
  write_by_tag-Wrote s id b e y h m = elim (Bool-cases (id.tag == tag_uid)) [
    | inl at_uid ↦
        let key = encode_prefixed id p.prefix in
        let (b₀, g, _) = load-ok db r p s key e (rw (at_uid, get) at h) in
        let done =
          load-eq db r p apart (kv.set s key b) key b y (get-set_self kv s key b)
            (r.unmarshal-marshal y b m) in
        record {
          uid = id;
          result = rw (at_uid, write_by_tag) (rw g (ap (λ q. (q, kv.set s key b)) done));
          read = rw (at_uid, get) done;
        }
    | inr not_uid ↦ elim (Bool-cases (id.tag == tag_name)) [
      | inl at_name ↦
          let (uid, w, read) =
            through-Wrote s (encode_prefixed id p.iprefix) b e y
              (λ uid. key_uid_ne_name db r p apart id uid) (rw (not_uid, at_name, get) at h) m in
          record {
            uid = uid;
            result =
                rw (not_uid, at_name, write_by_tag)
                  (ap (then_read db r p (λ t. follow db r p t (encode_prefixed id p.iprefix))) w
                    ∙ ap (λ q. (q, kv.set s (encode_prefixed uid p.prefix) b)) read);
            read = rw (not_uid, at_name, get) read;
          }
      | inr not_name ↦ elim (Bool-cases (id.tag == tag_idx)) [
        | inl at_idx ↦
            let (uid, w, read) =
              through-Wrote s (encode_prefixed id p.idxprefix) b e y
                (λ uid. key_uid_ne_idx db r p apart id uid)
                (rw (not_uid, not_name, at_idx, get) at h) m in
            record {
              uid = uid;
              result =
                  rw (not_uid, not_name, at_idx, write_by_tag)
                    (ap (then_read db r p (λ t. follow db r p t (encode_prefixed id p.idxprefix))) w
                      ∙ ap (λ q. (q, kv.set s (encode_prefixed uid p.prefix) b)) read);
              read = rw (not_uid, not_name, at_idx, get) read;
            }
        | inr not_idx ↦ absurd (cc (rw (not_uid, not_name, not_idx, get) at h))
      ]
    ]
  ]

  -- What an `Update` that returned `y` has done to the resource `before` of `id`.
  pub record Updated (now : ℕ) (s : kv.Store) (id : KeyId) (x y : r.T) (s' : kv.Store)
      : Type 0 where
    pub before : r.T
    pub uid : KeyId
    pub bytes : Text
    pub found : get db r p none s id ≡ ok before
    pub carried : y ≡ carry_meta db r p now before x
    pub kept :
        ((r.meta y).uid ≡ (r.meta before).uid)
        × ((r.meta y).created ≡ (r.meta before).created)
        × ((r.meta y).name ≡ (r.meta x).name)
    pub counted :
        ((r.meta y).resource_version ≡ u64 ((r.meta before).resource_version + 1))
        × ((r.meta y).generation ≡ u64 ((r.meta before).generation + 1))
    pub state : s' ≡ kv.set s (encode_prefixed uid p.prefix) bytes
    pub read : get db r p none s' id ≡ ok y

  carried_meta :
      (now : ℕ) (before x y : r.T)
      → y ≡ carry_meta db r p now before x
      → r.meta y ≡ record (r.meta x) {
        uid = (r.meta before).uid;
        created = (r.meta before).created;
        updated = now;
        resource_version = u64 ((r.meta before).resource_version + 1);
        generation = u64 ((r.meta before).generation + 1);
      }
  unfolding carry_meta
  carried_meta now before x y e = ap r.meta e ∙ r.meta-with_meta x _

  -- A successful Update returns the given resource with the stored one's UID and creation time and
  -- with its version and generation counted up; Get with the same identifier then returns it, and
  -- the store changed at one UID's key only; the key ranges of the repository do not meet. Contexts
  -- are not done.
  pub update_resource-Updated :
      (now : ℕ) (s s' : kv.Store) (id : KeyId) (x y : r.T)
      → update_resource db r p none now s id x ≡ (ok y, s')
      → Updated now s id x y s'
  unfolding update_resource
  update_resource-Updated now s s' id x y h = elim (Result-cases (get db r p none s id)) [
    | inr (inl (e, g)) ↦ absurd (cc (rw (g, update_resource) at h))
    | inr (inr g) ↦ absurd (cc (rw (g, update_resource) at h))
    | inl (before, g) ↦ elim (Option-cases (r.marshal (carry_meta db r p now before x))) [
      | inl m ↦ absurd (cc (rw (g, m, update_resource) at h))
      | inr (b, m) ↦
          let w = write_by_tag-Wrote s id b before (carry_meta db r p now before x) g m in
          let done : (
            ok (carry_meta db r p now before x),
            kv.set s (encode_prefixed w.uid p.prefix) b,
          )
              ≡ (ok y, s') =
            sym w.result ∙ rw (g, m, update_resource) at h in
          let same : carry_meta db r p now before x ≡ y = cc done in
          let moved : kv.set s (encode_prefixed w.uid p.prefix) b ≡ s' = cc done in
          record {
            before = before;
            uid = w.uid;
            bytes = b;
            found = g;
            carried = sym same;
            kept =
                let e = carried_meta now before x y (sym same) in
                (
                  ap (λ (m : Meta). m.uid) e,
                  ap (λ (m : Meta). m.created) e,
                  ap (λ (m : Meta). m.name) e,
                );
            counted =
                let e = carried_meta now before x y (sym same) in
                (ap (λ (m : Meta). m.resource_version) e, ap (λ (m : Meta). m.generation) e);
            state = sym moved;
            read = rw (← moved, ← same) w.read;
          }
    ]
  ]

  -- An `Update` of a resource that is not there fails and changes nothing.
  pub update_resource_missing :
      (now : ℕ) (s : kv.Store) (id : KeyId) (x : r.T) (e : Err)
      → get db r p none s id ≡ err e
      → update_resource db r p none now s id x ≡ (err e, s)
  unfolding update_resource
  update_resource_missing now s id x e g = rw (g, update_resource)

  -- Update of a resource that Get finds succeeds if the new value can be marshalled, with the
  -- carried-over metadata, and Get then returns the new value; the key ranges of the repository do
  -- not meet. Contexts are not done.
  pub update_resource_succeeds :
      (now : ℕ) (s : kv.Store) (id : KeyId) (x e : r.T) (b : Text)
      → get db r p none s id ≡ ok e
      → r.marshal (carry_meta db r p now e x) ≡ some b
      → (uid : KeyId) × (update_resource db r p none now s id x
          ≡ (ok (carry_meta db r p now e x), kv.set s (encode_prefixed uid p.prefix) b))
        × (get db r p none (kv.set s (encode_prefixed uid p.prefix) b) id
            ≡ ok (carry_meta db r p now e x))
  unfolding update_resource
  update_resource_succeeds now s id x e b g m =
      let w = write_by_tag-Wrote s id b e (carry_meta db r p now e x) g m in
      (w.uid, rw (g, m, update_resource) w.result, w.read)

  -- An Update that fails leaves the store as it was; the key ranges of the repository do not meet.
  -- Contexts are not done.
  pub update_resource-IsAtomic :
      (now : ℕ) (s : kv.Store) (id : KeyId) (x : r.T)
      → IsAtomic s (update_resource db r p none now s id x)
  unfolding update_resource
  update_resource-IsAtomic now s id x = elim (Result-cases (get db r p none s id)) [
    | inr (inl (e, g)) ↦ rw (g, update_resource) refl
    | inr (inr g) ↦ rw (g, update_resource) refl
    | inl (before, g) ↦ elim (Option-cases (r.marshal (carry_meta db r p now before x))) [
      | inl m ↦ rw (g, m, update_resource) refl
      | inr (b, m) ↦ rw (update_resource_succeeds now s id x before b g m).1 tt
    ]
  ]
