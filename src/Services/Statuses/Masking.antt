-- ===== src/Services/Statuses/Masking.antt =====
-- internal/app/node.go: the mask of a node's status, as an update of each field by itself.
use blipblop.Base.{
  Option-cases, inl, inr, ◌⊎◌, Text, ◌≡◌, refl, ap, ◌∙◌, Bool, true, false, ◌||◌, Option, none,
  some, List, [], ◌∷◌, map, if◌then◌else◌, list_beq, list_eq, nat_eq, codes,
}
use blipblop.Errs.{ok}
use blipblop.Api.{IpStatus, NodeStatus}
use blipblop.Services.Tasks.{or_kept}
use blipblop.Services.Statuses.{
  or_kept_list, ip_path, is_there, is_filled, apply_node_paths, apply_masked_update_node,
}

-- the paths that a mask may have
pub data NodePath : Type 0 where
  phase_path status_path hostname_path runtime_path version_path conditions_path : NodePath
  dns_path links_path addresses_path : NodePath

abbrev pub path_text : NodePath → Text
path_text phase_path = codes "phase"
path_text status_path = codes "status"
path_text hostname_path = codes "hostname"
path_text runtime_path = codes "runtime"
path_text version_path = codes "version"
path_text conditions_path = codes "conditions"
path_text dns_path = codes "ip.dns"
path_text links_path = codes "ip.links"
path_text addresses_path = codes "ip.addresses"

-- the number of a path, by which paths are told apart
abbrev pub same_path : NodePath → NodePath → Bool
same_path phase_path phase_path = true
same_path status_path status_path = true
same_path hostname_path hostname_path = true
same_path runtime_path runtime_path = true
same_path version_path version_path = true
same_path conditions_path conditions_path = true
same_path dns_path dns_path = true
same_path links_path links_path = true
same_path addresses_path addresses_path = true
same_path p q = false

abbrev pub has : NodePath → List NodePath → Bool
has p [] = false
has p (q ∷ qs) = let rest = has p qs in same_path q p || rest

-- a field that the mask names is the source's, if the source has it
abbrev pub pick : Bool → Option Text → Option Text → Option Text
unfolding or_kept
pick b s d = if b then or_kept s d else d

abbrev pub pick_list : {A : Type 0} → Bool → List A → List A → List A
unfolding or_kept_list
pick_list b s d = if b then or_kept_list s d else d

pub masked_ip : List NodePath → IpStatus → IpStatus → IpStatus
masked_ip ps a b = record {
  links = pick_list (has links_path ps) a.links b.links;
  addresses = pick_list (has addresses_path ps) a.addresses b.addresses;
  dns = pick (has dns_path ps) a.dns b.dns;
}

pub masked : List NodePath → NodeStatus → IpStatus → NodeStatus → IpStatus → NodeStatus
unfolding masked_ip
masked ps src a dst b = record {
  phase = pick (has phase_path ps) src.phase dst.phase;
  status = pick (has status_path ps) src.status dst.status;
  ip = some (masked_ip ps a b);
  hostname = pick (has hostname_path ps) src.hostname dst.hostname;
  runtime = pick (has runtime_path ps) src.runtime dst.runtime;
  version = pick (has version_path ps) src.version dst.version;
  conditions = pick_list (has conditions_path ps) src.conditions dst.conditions;
}

pick-again : (b : Bool) (s d : Option Text) → pick b s (or_kept s d) ≡ or_kept s d
unfolding or_kept
pick-again true none d = refl
pick-again true (some a) d = refl
pick-again false s d = refl

pick_list-again :
    {A : Type 0} (b : Bool) (s d : List A) → pick_list b s (or_kept_list s d) ≡ or_kept_list s d
unfolding or_kept_list
pick_list-again true [] d = refl
pick_list-again true (a ∷ rest) d = refl
pick_list-again false s d = refl

List-cases : {A : Type 0} (xs : List A) → (xs ≡ []) ⊎ ((y : A) × (ys : List A) × (xs ≡ y ∷ ys))
List-cases [] = inl refl
List-cases (x ∷ xs) = inr (x, xs, refl)

-- One address field is the source's, if the source has it.
dns-step :
    (a b : IpStatus) (dst : NodeStatus)
    → ip_path
        (λ a. is_there a.dns)
        (λ a b. record b { dns = a.dns })
        (some a)
        (record dst { ip = some b })
      ≡ ok (record dst { ip = some (record b { dns = or_kept a.dns b.dns }) })
unfolding ip_path is_there or_kept
dns-step a b dst = elim (Option-cases a.dns) [ inl e ↦ rw e refl | inr (v, e) ↦ rw e refl ]

links-step :
    (a b : IpStatus) (dst : NodeStatus)
    → ip_path
        (λ a. is_filled a.links)
        (λ a b. record b { links = a.links })
        (some a)
        (record dst { ip = some b })
      ≡ ok (record dst { ip = some (record b { links = or_kept_list a.links b.links }) })
unfolding ip_path is_filled or_kept_list
links-step a b dst = elim (List-cases a.links) [ inl e ↦ rw e refl | inr (v, vs, e) ↦ rw e refl ]

addresses-step :
    (a b : IpStatus) (dst : NodeStatus)
    → ip_path
        (λ a. is_filled a.addresses)
        (λ a b. record b { addresses = a.addresses })
        (some a)
        (record dst { ip = some b })
      ≡ ok
          (record dst { ip = some (record b { addresses = or_kept_list a.addresses b.addresses }) })
unfolding ip_path is_filled or_kept_list
addresses-step a b dst = elim (List-cases a.addresses) [
  | inl e ↦ rw e refl
  | inr (v, vs, e) ↦ rw e refl
]

-- The steps, on statuses whose addresses are there.
apply_all :
    (ps : List NodePath) (src dst : NodeStatus) (a b : IpStatus)
    → apply_node_paths (map path_text ps) (record src { ip = some a }) (record dst { ip = some b })
      ≡ ok (masked ps src a dst b)
unfolding apply_node_paths masked list_beq
apply_all [] src dst a b = refl
apply_all (phase_path ∷ ps) src dst a b =
    apply_all ps src (record dst { phase = or_kept src.phase dst.phase }) a b
    ∙ ap (λ v. ok (record (masked ps src a dst b) { phase = v }))
        (pick-again (has phase_path ps) src.phase dst.phase)
apply_all (status_path ∷ ps) src dst a b =
    apply_all ps src (record dst { status = or_kept src.status dst.status }) a b
    ∙ ap (λ v. ok (record (masked ps src a dst b) { status = v }))
        (pick-again (has status_path ps) src.status dst.status)
apply_all (hostname_path ∷ ps) src dst a b =
    apply_all ps src (record dst { hostname = or_kept src.hostname dst.hostname }) a b
    ∙ ap (λ v. ok (record (masked ps src a dst b) { hostname = v }))
        (pick-again (has hostname_path ps) src.hostname dst.hostname)
apply_all (runtime_path ∷ ps) src dst a b =
    apply_all ps src (record dst { runtime = or_kept src.runtime dst.runtime }) a b
    ∙ ap (λ v. ok (record (masked ps src a dst b) { runtime = v }))
        (pick-again (has runtime_path ps) src.runtime dst.runtime)
apply_all (version_path ∷ ps) src dst a b =
    apply_all ps src (record dst { version = or_kept src.version dst.version }) a b
    ∙ ap (λ v. ok (record (masked ps src a dst b) { version = v }))
        (pick-again (has version_path ps) src.version dst.version)
apply_all (conditions_path ∷ ps) src dst a b =
    apply_all ps src (record dst { conditions = or_kept_list src.conditions dst.conditions }) a b
    ∙ ap (λ v. ok (record (masked ps src a dst b) { conditions = v }))
        (pick_list-again (has conditions_path ps) src.conditions dst.conditions)
apply_all (dns_path ∷ ps) src dst a b =
    rw (dns-step a b dst, apply_node_paths)
      (apply_all ps src dst a (record b { dns = or_kept a.dns b.dns })
        ∙ ap
            (λ v. ok (record (masked ps src a dst b) {
              ip = some (record (masked_ip ps a b) { dns = v });
            }))
            (pick-again (has dns_path ps) a.dns b.dns))
apply_all (links_path ∷ ps) src dst a b =
    rw (links-step a b dst, apply_node_paths)
      (apply_all ps src dst a (record b { links = or_kept_list a.links b.links })
        ∙ ap
            (λ v. ok (record (masked ps src a dst b) {
              ip = some (record (masked_ip ps a b) { links = v });
            }))
            (pick_list-again (has links_path ps) a.links b.links))
apply_all (addresses_path ∷ ps) src dst a b =
    rw (addresses-step a b dst, apply_node_paths)
      (apply_all ps src dst a (record b { addresses = or_kept_list a.addresses b.addresses })
        ∙ ap
            (λ v. ok (record (masked ps src a dst b) {
              ip = some (record (masked_ip ps a b) { addresses = v });
            }))
            (pick_list-again (has addresses_path ps) a.addresses b.addresses))

-- Where both statuses have addresses, a mask of one path or more sets each field by itself: it is
-- the source's, if the mask names it and the source has it, and else it is as it was. The order of
-- the paths and a path that comes twice make no difference.
pub apply_masked_update_node-masked :
    (q : NodePath) (ps : List NodePath) (src dst : NodeStatus) (a b : IpStatus)
    → src.ip ≡ some a
    → dst.ip ≡ some b
    → apply_masked_update_node (map path_text (q ∷ ps)) src dst ≡ ok (masked (q ∷ ps) src a dst b)
unfolding apply_masked_update_node
apply_masked_update_node-masked q ps src dst a b has_a has_b =
    ap (λ i. apply_node_paths (map path_text (q ∷ ps)) (record src { ip = i }) dst) has_a
    ∙ ap
        (λ i.
          apply_node_paths (map path_text (q ∷ ps)) (record src { ip = some a })
            (record dst { ip = i }))
        has_b
    ∙ apply_all (q ∷ ps) src dst a b
