-- ===== src/Merging/Values.antt =====
-- pkg/protoutils/protoutils.go: `MergeSlices` against a direct account of its result.
use blipblop.Base.{
  Text, ◌≡◌, ◌≢◌, refl, sym, ap, ◌∙◌, inl, inr, ◌⊎◌, Option, none, some, List, [], ◌∷◌, ◌++◌,
  list_eq, nat_eq, ◌==◌, if◌then◌else◌, Bool-cases, Option-cases, list_beq_iff, Any,
}
use blipblop.Dict.{Dict, lookup, insert, lookup-insert}
use blipblop.Merging.{add_base, add_patch, add_patches, or_nil, in_order, merge_slices}

module _ {A : Type 0} (nil : A) (key : A → Text) (merge_item : A → A → A) where
  -- the first item of a key
  unfoldable pub find : Text → List A → Option A
  find k [] = none
  find k (x ∷ xs) = let rest = find k xs in if key x == k then some x else rest

  -- the last item of a key, or else `o`
  unfoldable pub last_of : Text → List A → Option A → Option A
  last_of k [] o = o
  last_of k (x ∷ xs) o = last_of k xs (if key x == k then some x else o)

  unfoldable pub merge_onto : A → Option A → A
  merge_onto p none = p
  merge_onto p (some b) = merge_item b p

  -- the items of a key in a patch, merged one after another onto what there is
  unfoldable pub patched : Text → List A → Option A → Option A
  unfolding merge_onto
  patched k [] o = o
  patched k (p ∷ ps) o = patched k ps (if key p == k then some (merge_onto p o) else o)

  -- Each entry stands under its key, and the order has exactly the keys of the map.
  record IsKeyed (m : Dict Text A × List Text) : Type 0 where
    entry : (k : Text) (x : A) → lookup k m.0 ≡ some x → key x ≡ k
    listed : (k : Text) (x : A) → lookup k m.0 ≡ some x → Any (λ j. j ≡ k) m.1
    present : (k : Text) → Any (λ j. j ≡ k) m.1 → (x : A) × (lookup k m.0 ≡ some x)

  lookup-insert_cases :
      (j k : Text) (x y : A) (m : Dict Text A)
      → lookup k (insert j y m) ≡ some x
      → ((j ≡ k) × (y ≡ x)) ⊎ ((j ≢ k) × (lookup k m ≡ some x))
  lookup-insert_cases j k x y m h = elim (Bool-cases (j == k)) [
    | inl same ↦ inl ((list_beq_iff j k).0 same, cc (rw same at (sym (lookup-insert j k y m) ∙ h)))
    | inr other ↦
        inr (λ e. cc ((list_beq_iff j k).1 e, other), rw other at (sym (lookup-insert j k y m) ∙ h))
  ]

  lookup-insert-some :
      (j k : Text) (y : A) (m : Dict Text A)
      → (j ≡ k) ⊎ ((x : A) × (lookup k m ≡ some x))
      → (x : A) × (lookup k (insert j y m) ≡ some x)
  lookup-insert-some j k y m h = elim (Bool-cases (j == k)) [
    | inl same ↦ (y, lookup-insert j k y m ∙ rw same refl)
    | inr other ↦ elim h [
      | inl e ↦ absurd (cc ((list_beq_iff j k).1 e, other))
      | inr (x, e) ↦ (x, lookup-insert j k y m ∙ rw other e)
    ]
  ]

  insert-IsKeyed :
      (j : Text) (y : A) (m : Dict Text A) (order order' : List Text)
      → key y ≡ j
      → ((k : Text) → Any (λ i. i ≡ k) order' → (j ≡ k) ⊎ Any (λ i. i ≡ k) order)
      → ((k : Text) → (j ≡ k) ⊎ Any (λ i. i ≡ k) order → Any (λ i. i ≡ k) order')
      → IsKeyed (m, order)
      → IsKeyed (insert j y m, order')
  insert-IsKeyed j y m order order' e fro to w = record {
    entry = λ k x h. elim (lookup-insert_cases j k x y m h) [
      | inl (same, it) ↦ ap key (sym it) ∙ e ∙ same
      | inr (_, before) ↦ w.entry k x before
    ];
    listed = λ k x h. elim (lookup-insert_cases j k x y m h) [
      | inl (same, _) ↦ to k (inl same)
      | inr (_, before) ↦ to k (inr (w.listed k x before))
    ];
    present = λ k h.
        lookup-insert-some j k y m
          (elim (fro k h) [ inl same ↦ inl same | inr before ↦ inr (w.present k before) ]);
  }

  Any-append_last :
      (k j : Text) (order : List Text)
      → Any (λ i. i ≡ k) (order ++ j ∷ [])
      → (j ≡ k) ⊎ Any (λ i. i ≡ k) order
  Any-append_last k j [] (inl e) = inl e
  Any-append_last k j [] (inr h) = absurd h
  Any-append_last k j (i ∷ order) (inl e) = inr (inl e)
  Any-append_last k j (i ∷ order) (inr h) = elim (Any-append_last k j order h) [
    | inl e ↦ inl e
    | inr r ↦ inr (inr r)
  ]

  append_last-Any :
      (k j : Text) (order : List Text)
      → (j ≡ k) ⊎ Any (λ i. i ≡ k) order
      → Any (λ i. i ≡ k) (order ++ j ∷ [])
  append_last-Any k j [] (inl e) = inl e
  append_last-Any k j [] (inr h) = absurd h
  append_last-Any k j (i ∷ order) (inl e) = inr (append_last-Any k j order (inl e))
  append_last-Any k j (i ∷ order) (inr (inl e)) = inl e
  append_last-Any k j (i ∷ order) (inr (inr r)) = inr (append_last-Any k j order (inr r))

  add_base-IsKeyed :
      (base : List A) (m : Dict Text A × List Text)
      → IsKeyed m
      → IsKeyed (add_base nil key merge_item base m)
  unfolding add_base
  add_base-IsKeyed [] m w = w
  add_base-IsKeyed (x ∷ rest) (m, order) w = add_base-IsKeyed rest _ (
      insert-IsKeyed (key x) x m order (order ++ key x ∷ []) refl
        (λ k. Any-append_last k (key x) order) (λ k. append_last-Any k (key x) order) w)

  lookup-add_base :
      (k : Text) (base : List A) (m : Dict Text A × List Text)
      → lookup k (add_base nil key merge_item base m).0 ≡ last_of k base (lookup k m.0)
  unfolding add_base last_of
  lookup-add_base k [] m = refl
  lookup-add_base k (x ∷ rest) (m, order) =
      lookup-add_base k rest _ ∙ ap (last_of k rest) (lookup-insert (key x) k x m)

  at_key :
      (k : Text) (p v : A) (m : Dict Text A)
      → v ≡ merge_onto p (lookup (key p) m)
      → (if key p == k then some v else lookup k m)
        ≡ (if key p == k then some (merge_onto p (lookup k m)) else lookup k m)
  at_key k p v m e = elim (Bool-cases (key p == k)) [
    | inl same ↦
        rw same
          (ap some (e ∙ ap (λ j. merge_onto p (lookup j m)) ((list_beq_iff (key p) k).0 same)))
    | inr other ↦ rw other refl
  ]

  module _ (keeps : (b p : A) → key b ≡ key p → key (merge_item b p) ≡ key p) where
    add_patch-IsKeyed :
        (p : A) (m : Dict Text A × List Text) (o : Option A)
        → o ≡ lookup (key p) m.0
        → IsKeyed m
        → IsKeyed (add_patch nil key merge_item p m o)
    unfolding add_patch
    add_patch-IsKeyed p (m, order) none e w =
        insert-IsKeyed (key p) p m order (order ++ key p ∷ []) refl
          (λ k. Any-append_last k (key p) order) (λ k. append_last-Any k (key p) order) w
    add_patch-IsKeyed p (m, order) (some old) e w =
        insert-IsKeyed (key p) (merge_item old p) m order order
          (keeps old p (w.entry (key p) old (sym e))) (λ k h. inr h)
          (λ k h. elim h [
            | inl same ↦ rw same at (w.listed (key p) old (sym e))
            | inr before ↦ before
          ])
          w

    lookup-add_patch :
        (k : Text) (p : A) (m : Dict Text A × List Text) (o : Option A)
        → o ≡ lookup (key p) m.0
        → lookup k (add_patch nil key merge_item p m o).0
          ≡ (if key p == k then some (merge_onto p (lookup k m.0)) else lookup k m.0)
    unfolding add_patch merge_onto
    lookup-add_patch k p (m, order) none e =
        lookup-insert (key p) k p m ∙ at_key k p p m (ap (merge_onto p) e)
    lookup-add_patch k p (m, order) (some old) e =
        lookup-insert (key p) k (merge_item old p) m
        ∙ at_key k p (merge_item old p) m (ap (merge_onto p) e)

    add_patches-IsKeyed :
        (patch : List A) (m : Dict Text A × List Text)
        → IsKeyed m
        → IsKeyed (add_patches nil key merge_item patch m)
    unfolding add_patches
    add_patches-IsKeyed [] m w = w
    add_patches-IsKeyed (p ∷ rest) m w =
        add_patches-IsKeyed rest _ (add_patch-IsKeyed p m (lookup (key p) m.0) refl w)

    lookup-add_patches :
        (k : Text) (patch : List A) (m : Dict Text A × List Text)
        → lookup k (add_patches nil key merge_item patch m).0 ≡ patched k patch (lookup k m.0)
    unfolding add_patches patched
    lookup-add_patches k [] m = refl
    lookup-add_patches k (p ∷ rest) m =
        lookup-add_patches k rest _
        ∙ ap (patched k rest) (lookup-add_patch k p m (lookup (key p) m.0) refl)

    find-in_order :
        (k : Text) (order : List Text) (m : Dict Text A)
        → ((j : Text) → Any (λ i. i ≡ j) order → (x : A) × (lookup j m ≡ some x) × (key x ≡ j))
        → (Any (λ i. i ≡ k) order → find k (in_order nil key merge_item order m) ≡ lookup k m)
          × (¬ Any (λ i. i ≡ k) order → find k (in_order nil key merge_item order m) ≡ none)
    unfolding find in_order or_nil
    find-in_order k [] m w = (λ h. absurd h, λ h. refl)
    find-in_order k (j ∷ rest) m w =
        let (x, here, named) = w j (inl refl) in
        let (found, missing) = find-in_order k rest m (λ i h. w i (inr h)) in
        elim (Bool-cases (j == k)) [
          | inl same ↦
              let e = (list_beq_iff j k).0 same in
              (
                λ h. rw (here, named, same) (sym here ∙ ap (λ i. lookup i m) e),
                λ h. absurd (h (inl e)),
              )
          | inr other ↦
              let apart : j ≢ k = λ e. cc ((list_beq_iff j k).1 e, other) in
              (
                λ h.
                    rw (here, named, other) (elim h [ inl e ↦ absurd (apart e) | inr r ↦ found r ]),
                λ h. rw (here, named, other) (missing (λ r. h (inr r))),
              )
        ]

    find-keyed :
        (k : Text) (m : Dict Text A × List Text)
        → IsKeyed m
        → find k (in_order nil key merge_item m.1 m.0) ≡ lookup k m.0
    find-keyed k (m, order) w =
        let all =
          find-in_order k order m (λ j h. let (x, e) = w.present j h in (x, e, w.entry j x e)) in
        elim (Option-cases (lookup k m)) [
          | inl e ↦ all.1 (λ h. let (x, e₁) = w.present k h in cc (e, e₁)) ∙ sym e
          | inr (x, e) ↦ all.0 (w.listed k x e)
        ]

    -- The first item with a key in what MergeSlices returns is the last item of the base with the
    -- key, if any, with the patch's items of the key merged onto it one after another, and there is
    -- none if neither list has the key; a merged item has the key that its two parts have.
    pub find-merge_slices :
        (k : Text) (base patch : List A)
        → find k (merge_slices nil key merge_item base patch)
          ≡ patched k patch (last_of k base none)
    unfolding merge_slices
    find-merge_slices k base patch =
        let none_yet : IsKeyed ([], []) = record {
          entry = λ j x h. absurd (cc h);
          listed = λ j x h. absurd (cc h);
          present = λ j h. absurd h;
        } in
        let based = add_base nil key merge_item base ([], []) in
        find-keyed k (add_patches nil key merge_item patch based)
          (add_patches-IsKeyed patch based (add_base-IsKeyed base ([], []) none_yet))
        ∙ lookup-add_patches k patch based
        ∙ ap (patched k patch) (lookup-add_base k base ([], []))
