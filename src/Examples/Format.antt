-- ===== src/Examples/Format.antt =====
-- A wire format: length-prefixed fields, one after the other, and a lease in it.
use blipblop.Base.{ℕ, zero, suc, Text, ◌≡◌, refl, ap, Option, none, some, List, [], ◌∷◌, length}
use blipblop.Api.{Meta, Lease, LeaseConfig}
use blipblop.Leases.{LeaseCodec}

-- A field is put before the rest of the bytes, and taken off them.
pub record Field (A : Type 0) : Type 0 where
  pub put : A → Text → Text
  pub take : Text → Option (A × Text)
  pub take-put : (a : A) (rest : Text) → take (put a rest) ≡ some (a, rest)

unfoldable pub take_number : Text → Option (ℕ × Text)
take_number [] = none
take_number (n ∷ rest) = some (n, rest)

unfoldable pub number : Field ℕ
unfolding take_number
number = record { put = λ n rest. n ∷ rest; take = take_number; take-put = λ a rest. refl }

unfoldable pub with_first : {A B : Type 0} → A → Option (B × Text) → Option ((A × B) × Text)
with_first a none = none
with_first a (some (b, rest)) = some ((a, b), rest)

unfoldable pub then_take : {A B : Type 0} → Field B → Option (A × Text) → Option ((A × B) × Text)
unfolding with_first
then_take fb none = none
then_take fb (some (a, rest)) = with_first a (fb.take rest)

unfoldable pub both : {A B : Type 0} → Field A → Field B → Field (A × B)
unfolding then_take
both fa fb = record {
  put = λ x rest. fa.put x.0 (fb.put x.1 rest);
  take = λ t. then_take fb (fa.take t);
  take-put = λ x rest. rw (fa.take-put, then_take) (rw (fb.take-put, with_first) refl);
}

unfoldable pub cons_first : {A : Type 0} → A → Option (List A × Text) → Option (List A × Text)
cons_first a none = none
cons_first a (some (xs, rest)) = some (a ∷ xs, rest)

unfoldable pub next_item :
    {A : Type 0}
    → Field A
    → (Text → Option (List A × Text))
    → Option (A × Text)
    → Option (List A × Text)
unfolding cons_first
next_item f more none = none
next_item f more (some (a, rest)) = cons_first a (more rest)

unfoldable pub take_items : {A : Type 0} → Field A → ℕ → Text → Option (List A × Text)
unfolding next_item
take_items f zero t = some ([], t)
take_items f (suc n) t = next_item f (take_items f n) (f.take t)

unfoldable pub put_items : {A : Type 0} → Field A → List A → Text → Text
put_items f [] rest = rest
put_items f (a ∷ xs) rest = f.put a (put_items f xs rest)

pub take_items-put_items :
    {A : Type 0} (f : Field A) (xs : List A) (rest : Text)
    → take_items f (length xs) (put_items f xs rest) ≡ some (xs, rest)
unfolding take_items put_items
take_items-put_items f [] rest = refl
take_items-put_items f (a ∷ xs) rest =
    rw (f.take-put, next_item) (rw (take_items-put_items f xs rest, cons_first) refl)

unfoldable pub take_list : {A : Type 0} → Field A → Text → Option (List A × Text)
unfolding take_items
take_list f [] = none
take_list f (n ∷ t) = take_items f n t

unfoldable pub list : {A : Type 0} → Field A → Field (List A)
unfolding take_list put_items
list f = record {
  put = λ xs rest. length xs ∷ put_items f xs rest;
  take = take_list f;
  take-put = λ xs rest. take_items-put_items f xs rest;
}

unfoldable pub text : Field Text
unfolding list number
text = list number

unfoldable pub map_first : {A B : Type 0} → (A → B) → Option (A × Text) → Option (B × Text)
map_first f none = none
map_first f (some (a, rest)) = some (f a, rest)

unfoldable pub by :
    {A B : Type 0} → Field A → (to : B → A) → (from : A → B) → ((b : B) → from (to b) ≡ b) → Field B
unfolding map_first
by fa to from h = record {
  put = λ b rest. fa.put (to b) rest;
  take = λ t. map_first from (fa.take t);
  take-put = λ b rest. rw (fa.take-put, map_first) (rw (h b));
}

unfoldable pub meta : Field Meta
unfolding by both text list number
meta =
    by
      (both (both text text)
        (both (list (both text text)) (both number (both number (both number number)))))
      (λ x.
        ((x.name, x.uid), (x.labels, (x.resource_version, (x.generation, (x.created, x.updated))))))
      (λ ((nm, uid), (labels, (version, (generation, (created, updated))))). record {
        name = nm;
        uid = uid;
        labels = labels;
        resource_version = version;
        generation = generation;
        created = created;
        updated = updated;
      })
      (λ x. refl)

unfoldable pub config : Field LeaseConfig
unfolding by both text number
config =
    by (both (both text text) (both number (both number (both number (both number number)))))
      (λ x. (
        (x.task_id, x.node_id),
        (x.acquired_at, (x.renew_time, (x.expires_at, (x.ttl_seconds, x.fencing_token)))),
      ))
      (λ ((task, node), (acquired, (renew, (expires, (ttl, token))))). record {
        task_id = task;
        node_id = node;
        acquired_at = acquired;
        renew_time = renew;
        expires_at = expires;
        ttl_seconds = ttl;
        fencing_token = token;
      })
      (λ x. refl)

unfoldable pub lease : Field Lease
unfolding by both text meta config
lease =
    by (both (both text meta) (both config text))
      (λ x. ((x.version, x.meta), (x.config, x.status.token_hash)))
      (λ ((version, m), (c, hash)). record {
        version = version;
        meta = m;
        config = c;
        status = record { token_hash = hash };
      })
      (λ x. refl)

unfoldable pub take_all : {A : Type 0} → Option (A × Text) → Option A
take_all none = none
take_all (some (a, rest)) = some a

unfoldable pub lease_codec : LeaseCodec
unfolding take_all lease
lease_codec = record {
  marshal = λ x. some (lease.put x []);
  unmarshal = λ b. take_all (lease.take b);
  unmarshal-marshal = λ x b h. rw (← some-injective h) (ap take_all (lease.take-put x []));
}
  where
    some-injective : {a b : Text} → some a ≡ some b → a ≡ b
    some-injective h = cc h
