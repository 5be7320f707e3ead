-- ===== src/Leases/Release.antt =====
-- internal/infra/lease_manager.go: `Release` and `Revoke`.
use blipblop.Base.{
  Text, ◌≡◌, ◌≢◌, refl, sym, ◌∙◌, ◌⊎◌, inl, inr, Bool, true, false, none, some, [], ◌==◌, list_eq,
  nat_eq, list_beq_iff, list_beq, ==_ne, Bool-cases,
}
use blipblop.Errs.{Err, ok, err, ◌>>=◌, repo_not_found, not_holder, invalid_token, invalid_holder}
use blipblop.Keys
use blipblop.Keys.{KeyId, Uuids, uuid_len, encode_prefixed}
use blipblop.Keys.Parsing.{parse_str_cases}
use blipblop.Kv.{ScanKv}
use blipblop.Repo
use blipblop.Repo.Prefix.{lease_prefixes, lease_prefixes-IsApart}
use blipblop.Repo.Reading.{name_cases, idx_id, uid_id, key_uid_ne_idx}
use blipblop.Repo.Deleting.{follow-delete_by_uid}
use blipblop.Api.{Lease}
use blipblop.Leases.{
  LeaseCodec, lease_resource, Manager, get, release, revoke, release_lease, release_checks,
  may_release,
}
use blipblop.Leases.Grants.{get-read}

module _ (db : ScanKv) (c : LeaseCodec) (u : Uuids) (mac : Text → Text → Text) (m : Manager) where
  open db use {kv}

  abbrev entry_key : Text → Text
  entry_key resource = encode_prefixed (idx_id resource) lease_prefixes.idxprefix

  -- The index entry of the resource leads to the UID that its lease carries.
  pub record Linked (s : kv.Store) (resource : Text) (l : Lease) : Type 0 where
    pub uid : Text
    pub item : Text
    pub entry : kv.get s (entry_key resource) ≡ some item
    pub leads : Keys.decode item ≡ ok (uid_id uid)
    pub carries : u.parse l.meta.uid ≡ some uid

  -- the lease may be ended by the caller
  pub record MayEnd (holder token : Text) (l : Lease) : Type 0 where
    pub proved : l.status.token_hash ≡ mac m.key token
    pub is_mine : l.config.node_id ≡ holder

  parse_str-parse : (t v : Text) → u.parse t ≡ some v → Keys.parse_str u t ≡ ok (uid_id v)
  parse_str-parse t v e = elim (parse_str_cases u t (λ h. cc (h, e, u.parse-nil))) [
    | inl (x, p, q) ↦ cc (p, q, e)
    | inr (p, q) ↦ absurd (cc (p, e))
  ]

  delete-Linked :
      (s : kv.Store) (resource : Text) (l : Lease) (k : Linked s resource l)
      → resource ≢ []
      → (s' : kv.Store) × (Repo.delete db (lease_resource c) lease_prefixes none s (uid_id k.uid)
          ≡ (ok tt, s'))
        × (get db c u mac m none s' resource ≡ err repo_not_found)
  unfolding Repo.delete Repo.get
  delete-Linked s resource l k full = (
    Repo.delete_by_uid db (lease_resource c) lease_prefixes s (uid_id k.uid),
    refl,
    get-read db c u mac m _ resource full
        ∙ follow-delete_by_uid db (lease_resource c) lease_prefixes lease_prefixes-IsApart s
            (uid_id k.uid) (entry_key resource) k.item
            (λ h.
              key_uid_ne_idx db (lease_resource c) lease_prefixes lease_prefixes-IsApart
                (idx_id resource) (uid_id k.uid) (sym h))
            k.entry k.leads,
  )

  named_of_get :
      (s : kv.Store) (resource : Text) (l : Lease)
      → get db c u mac m none s resource ≡ ok l
      → resource ≢ []
  unfolding get
  named_of_get s resource l h e = elim (name_cases resource) [
    | inl (_, _, i) ↦ absurd (cc (rw (i, get) at h))
    | inr (full, _, _) ↦ full e
  ]

  -- `release` reads what `Get` reads.
  pub checks_of_get :
      (s : kv.Store) (resource holder token : Text) (force : Bool)
      → holder ≢ []
      → release_checks db c u mac m none s resource holder token force
        ≡ (get db c u mac m none s resource >>= may_release db c u mac m force holder token)
  unfolding release_checks get
  checks_of_get s resource holder token force named = elim (name_cases resource) [
    | inl (_, _, i) ↦ rw (==_ne holder [] named, i) refl
    | inr (_, _, i) ↦ rw (==_ne holder [] named, i) refl
  ]

  checks_of_found :
      (s : kv.Store) (resource holder token : Text) (force : Bool) (l : Lease)
      → holder ≢ []
      → get db c u mac m none s resource ≡ ok l
      → release_checks db c u mac m none s resource holder token force
        ≡ may_release db c u mac m force holder token l
  checks_of_found s resource holder token force l named g =
      checks_of_get s resource holder token force named ∙ rw g refl

  may_release-MayEnd :
      (holder token : Text) (l : Lease) (v : Text)
      → u.parse l.meta.uid ≡ some v
      → MayEnd holder token l
      → may_release db c u mac m false holder token l ≡ ok (uid_id v)
  unfolding may_release
  may_release-MayEnd holder token l v e k =
      rw (k.proved, k.is_mine)
        (rw
          (
            (list_beq_iff (mac m.key token) (mac m.key token)).1 refl,
            (list_beq_iff holder holder).1 refl,
            may_release,
          )
          (parse_str-parse l.meta.uid v e))

  -- The holder of a lease can end it with its token, expired or not: `Release` succeeds, and the
  -- resource has no lease then. The index entry of the resource must lead to the UID that the lease
  -- carries.
  pub release_succeeds :
      (s : kv.Store) (resource holder token : Text) (l : Lease)
      → holder ≢ []
      → get db c u mac m none s resource ≡ ok l
      → Linked s resource l
      → MayEnd holder token l
      → (s' : kv.Store) × (release db c u mac m none s resource holder token ≡ (ok tt, s'))
        × (get db c u mac m none s' resource ≡ err repo_not_found)
  unfolding release release_lease
  release_succeeds s resource holder token l named g k may =
      let (s', d, gone) = delete-Linked s resource l k (named_of_get s resource l g) in
      (
        s',
        rw
            (
              checks_of_found s resource holder token false l named g,
              may_release-MayEnd holder token l k.uid k.carries may,
              release_lease,
            )
            d,
        gone,
      )

  -- Revoke by any caller that gives a holder's name succeeds on a lease that Get finds and to which
  -- the resource's index entry leads, whoever holds it, and the resource then has no lease.
  -- Contexts are not done.
  pub revoke_succeeds :
      (s : kv.Store) (resource holder : Text) (l : Lease)
      → holder ≢ []
      → get db c u mac m none s resource ≡ ok l
      → Linked s resource l
      → (s' : kv.Store) × (revoke db c u mac m none s resource holder ≡ (ok tt, s'))
        × (get db c u mac m none s' resource ≡ err repo_not_found)
  unfolding revoke release_lease may_release
  revoke_succeeds s resource holder l named g k =
      let (s', d, gone) = delete-Linked s resource l k (named_of_get s resource l g) in
      (
        s',
        rw
            (
              checks_of_found s resource holder [] true l named g,
              parse_str-parse l.meta.uid k.uid k.carries,
              release_lease,
            )
            d,
        gone,
      )

  pub revoke-unnamed :
      (s : kv.Store) (resource : Text)
      → revoke db c u mac m none s resource [] ≡ (err invalid_holder, s)
  unfolding revoke release_lease release_checks list_beq
  revoke-unnamed s resource = refl

  may_release_refused :
      (holder token : Text) (l : Lease)
      → (l.status.token_hash ≢ mac m.key token) ⊎ (l.config.node_id ≢ holder)
      → (e : Err) × (may_release db c u mac m false holder token l ≡ err e)
        × ((e ≡ invalid_token) ⊎ (e ≡ not_holder))
  unfolding may_release
  may_release_refused holder token l bad =
      elim (Bool-cases (mac m.key token == l.status.token_hash)) [
        | inr invalid ↦ (invalid_token, rw (invalid, may_release), inl refl)
        | inl valid ↦ elim bad [
          | inl other ↦ absurd (other (sym ((list_beq_iff _ _).0 valid)))
          | inr other ↦
              (not_holder, rw (valid, ==_ne l.config.node_id holder other, may_release), inr refl)
        ]
      ]

  -- Release of a lease that Get finds, with a token that does not match or by another than the
  -- holder, with a holder's name that is not empty, fails with invalid_token or not_holder and
  -- leaves the store as it was. Contexts are not done.
  pub release_refused :
      (s : kv.Store) (resource holder token : Text) (l : Lease)
      → holder ≢ []
      → get db c u mac m none s resource ≡ ok l
      → (l.status.token_hash ≢ mac m.key token) ⊎ (l.config.node_id ≢ holder)
      → (e : Err) × (release db c u mac m none s resource holder token ≡ (err e, s))
        × ((e ≡ invalid_token) ⊎ (e ≡ not_holder))
  unfolding release release_lease
  release_refused s resource holder token l named g bad =
      let (e, q, which) = may_release_refused holder token l bad in
      (e, rw (checks_of_found s resource holder token false l named g, q, release_lease), which)
