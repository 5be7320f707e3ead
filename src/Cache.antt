-- ===== src/Cache.antt =====
-- pkg/cache/cache.go: values with a time to live. A time is in nanoseconds after the zero time, and
-- comes from the caller; a time to live that is not positive is 0.
use blipblop.Base.{
  ℕ, ◌+◌, ◌-◌, ◌<◌, Text, ◌≡◌, refl, ap, ◌∙◌, Bool, true, false, Option, none, some, List, [], ◌∷◌,
  if◌then◌else◌, ◌&&◌, ◌==◌, list_eq, list_beq_iff, nat_eq, ltb, not, length, arith,
}
use blipblop.Dict.{Dict, lookup, insert, remove, lookup-insert}

pub record Item (V : Type 0) : Type 0 where
  pub key : Text
  pub value : V
  pub expires : ℕ
  pub created : ℕ

pub record Cache (V : Type 0) : Type 0 where
  pub items : Dict Text (Item V)
  pub ttl : ℕ

abbrev new_cache : (V : Type 0) → Cache V
new_cache V = record { items = []; ttl = 1000000000 }

module _ {V : Type 0} where
  abbrev list_keys : Dict Text (Item V) → List Text
  list_keys [] = []
  list_keys ((k, _) ∷ m) = k ∷ list_keys m

  abbrev exists_item : Text → Cache V → Bool
  exists_item k c = is_some (lookup k c.items)
    where
      is_some : Option (Item V) → Bool
      is_some none = false
      is_some (some i) = true

  abbrev delete : Text → Cache V → Cache V
  delete k c = record c { items = remove k c.items }

  abbrev size : Cache V → ℕ
  size c = length c.items

  -- `Age`
  abbrev age : ℕ → Item V → ℕ
  age now i = now - i.created

  unfoldable outlived : ℕ → ℕ → Item V → Bool
  outlived now ttl i = not (i.expires == 0) && ltb ttl (age now i) && ltb 0 ttl

  -- An item that has outlived its time is deleted when it is asked for.
  unfoldable get_item : ℕ → Text → Cache V → Option (Item V) → Option (Item V) × Cache V
  unfolding outlived
  get_item now k c none = (none, c)
  get_item now k c (some i) =
      if outlived now c.ttl i then (none, record c { items = remove k c.items }) else (some i, c)

  unfoldable get : ℕ → Text → Cache V → Option (Item V) × Cache V
  unfolding get_item
  get now k c = get_item now k c (lookup k c.items)

  unfoldable new_item : ℕ → Text → V → Cache V → Item V
  new_item now k v c = record { key = k; value = v; expires = now + c.ttl; created = now }

  unfoldable set : ℕ → Text → V → Cache V → Cache V
  unfolding new_item
  set now k v c = record c { items = insert k (new_item now k v c) c.items }

  outlived-new_item :
      (now later : ℕ) (k : Text) (v : V) (c : Cache V)
      → 0 < now
      → outlived later c.ttl (new_item now k v c) ≡ (ltb c.ttl (later - now) && ltb 0 c.ttl)
  unfolding outlived new_item
  outlived-new_item now later k v c past = ground arith

  -- What Get returns depends on the cache's time to live and the item.
  get_item-same :
      (now : ℕ) (k : Text) (c d : Cache V) (o : Option (Item V))
      → c.ttl ≡ d.ttl
      → (get_item now k c o).0 ≡ (get_item now k d o).0
  unfolding get_item
  get_item-same now k c d none same = refl
  get_item-same now k c d (some i) same = ground (arith, same)

  -- After Set at a time that is not the zero time, Get returns the item as long as it is not older
  -- than the time to live, or at any time if that is 0; else it returns none and the key is gone.
  get-set :
      (now later : ℕ) (k : Text) (v : V) (c : Cache V)
      → 0 < now
      → get later k (set now k v c) ≡ (
          if ltb c.ttl (later - now) && ltb 0 c.ttl
          then (none, record c { items = remove k (set now k v c).items })
          else (some (new_item now k v c), set now k v c))
  unfolding get set get_item
  get-set now later k v c past =
      ap (get_item later k (set now k v c)) (
        lookup-insert k k (new_item now k v c) c.items
        ∙ ap (λ b. if b then some (new_item now k v c) else lookup k c.items)
            ((list_beq_iff k k).1 refl))
      ∙ ap
          (λ b.
            if b
            then (none, record c { items = remove k (set now k v c).items })
            else (some (new_item now k v c), set now k v c))
          (outlived-new_item now later k v c past)

  -- Set does not change what Get returns of another key.
  get-set_other :
      (now later : ℕ) (k j : Text) (v : V) (c : Cache V)
      → (k == j) ≡ false
      → (get later j (set now k v c)).0 ≡ (get later j c).0
  unfolding get set
  get-set_other now later k j v c apart =
      ap (λ o. (get_item later j (set now k v c) o).0)
        (lookup-insert k j (new_item now k v c) c.items
          ∙ ap (λ b. if b then some (new_item now k v c) else lookup j c.items) apart)
      ∙ get_item-same later j (set now k v c) c (lookup j c.items) refl
