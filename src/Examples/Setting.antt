-- ===== src/Examples/Setting.antt =====
-- Values of the model's parameters: UUIDs whose text is their bytes, a stand-in for HMAC, a manager
-- and the environments of some calls.
use blipblop.Base.{
  ℕ, Text, ◌≡◌, refl, sym, ap, ◌∙◌, Option, none, some, ◌++◌, if◌then◌else◌, ◌==◌, list_eq, nat_eq,
  nat_beq_iff, length, codes, Bool-cases, inl, inr, nat_beq_iff,
}
use blipblop.Errs.{ok}
use blipblop.Keys.{Uuids}
use blipblop.Leases.{Env, Manager}

abbrev pub parse_16 : Text → Option Text
parse_16 t = if length t == 16 then some t else none

pub parse_16-ok : (t v : Text) → parse_16 t ≡ some v → (length t ≡ 16) × (t ≡ v)
parse_16-ok t v h = elim (Bool-cases (length t == 16)) [
  | inl e ↦ ((nat_beq_iff (length t) 16).0 e, cc (rw e at h))
  | inr e ↦ absurd (cc (rw e at h))
]

abbrev pub raw_uuids : Uuids
raw_uuids = record {
  parse = parse_16;
  to_string = λ t. t;
  parse-nil = refl;
  length-parse = λ t v h. let (e, same) = parse_16-ok t v h in ap length (sym same) ∙ e;
  parse-to_string = λ t h. rw ((nat_beq_iff (length t) 16).1 h) refl;
}

abbrev pub mac : Text → Text → Text
mac secret message = secret ++ message

abbrev pub manager : Manager
manager = record { ttl = 60; key = codes "key" }

-- the UUID of a task, and its text
abbrev pub task_id : Text
task_id = codes "0123456789abcdef"

abbrev pub lease_uuid : Text
lease_uuid = codes "fedcba9876543210"

abbrev pub node_a : Text
node_a = codes "a"

abbrev pub node_b : Text
node_b = codes "aa"

abbrev pub env_at : ℕ → Text → Env
env_at now token = record {
  now = now;
  token = ok token;
  fresh = record { uuid = lease_uuid; created = now; updated = now };
}
