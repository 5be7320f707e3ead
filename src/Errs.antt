-- ===== src/Errs.antt =====
-- The errors that the program's functions return, and pkg/errs/errs.go, which classifies them.
-- An error value is the sentinel that `errors.Is` finds in it; message texts are left out.
pub mod Status
use blipblop.Base.{
  ◌≡◌, refl, Bool, true, false, ◌||◌, Option, none, some, ℕ, if◌then◌else◌, Bool-cases, ◌⊎◌, inl,
  inr, arith,
}

-- The gRPC codes that the program names.
pub data Code : Type 0 where
  not_found already_exists permission_denied invalid_argument failed_precondition internal : Code
  other_code : ℕ → Code

pub data Err : Type 0 where
  -- pkg/repository/repository.go
  repo_not_found idx_exists unsupported_tag : Err
  -- pkg/keys/keys.go
  empty_name empty_index bad_encoding bad_tag bad_uuid_len bad_prefix not_a_uuid no_uid_or_name :
      Err
  bad_uuid unparsable_uid : Err
  -- internal/domain/errors.go
  not_holder domain_lease_held lease_expired invalid_ttl invalid_holder invalid_token : Err
  -- pkg/errs/errs.go
  lease_held : Err
  -- pkg/scheduling/scheduler.go
  no_node no_matching_node : Err
  -- internal/app/node_sessions.go
  node_not_connected node_queue_full session_not_found end_of_stream : Err
  -- pkg/queue/queue.go
  empty_resource queue_closed queue_closed_empty nil_item cancelled_item : Err
  -- `os.ErrNotExist`, and an error that containerd's errdefs calls "not found"
  os_not_exist containerd_not_found : Err
  -- the error of a context that is done
  context_done : Err
  -- a gRPC status
  status : Code → Err
  -- an error of the random source, of HMAC or of a codec
  token_failed hmac_failed decode_failed : Err
  -- pkg/controller/scheduler/scheduler.go
  target_not_connected : Err
  -- an unknown path of an update mask
  unknown_mask_path : Err
  -- pkg/controller/volume/volume.go and pkg/volume
  volume_driver_not_found driver_not_configured not_a_directory : Err

-- A Go function's `(value, error)`: a value, an error, or a panic.
pub data Result {ℓ} (A : Type ℓ) : Type ℓ where
  ok : A → Result A
  err : Err → Result A
  panic : Result A

pub Result-cases {ℓ} :
    {A : Type ℓ} (m : Result A) → ((a : A) × (m ≡ ok a)) ⊎ (((e : Err) × (m ≡ err e)) ⊎ (m ≡ panic))
Result-cases (ok a) = inl (a, refl)
Result-cases (err e) = inr (inl (e, refl))
Result-cases panic = inr (inr refl)

-- A call that failed has left the state as it was.
abbrev pub IsAtomic {ℓ} : {S : Type 0} {A : Type ℓ} → S → Result A × S → Type 0
IsAtomic s (ok a, s') = Unit {0}
IsAtomic s (err e, s') = s' ≡ s
IsAtomic s (panic, s') = s' ≡ s

infixl 5 ◌>>=◌ ◌>>◌
abbrev pub ◌>>=◌ {ℓ κ} : {A : Type ℓ} {B : Type κ} → Result A → (A → Result B) → Result B
ok a >>= f = f a
err e >>= f = err e
panic >>= f = panic

abbrev pub ◌>>◌ {ℓ κ} : {A : Type ℓ} {B : Type κ} → Result A → Result B → Result B
m >> k = m >>= λ _. k

-- `if !test { return err }`
abbrev pub guard : Bool → Err → Result (Unit {0})
guard true e = ok tt
guard false e = err e

-- A context that is done carries the error that `ctx.Err()` returns.
abbrev pub Ctx : Type 0
Ctx = Option Err

abbrev pub ctx_check : Ctx → Result (Unit {0})
ctx_check none = ok tt
ctx_check (some e) = err e

-- The code of the gRPC status that `status.FromError` finds.
from_error : Err → Option Code
from_error (status c) = some c
from_error _ = none

code_is_not_found : Option Code → Bool
code_is_not_found (some not_found) = true
code_is_not_found _ = false

code_is_already_exists : Option Code → Bool
code_is_already_exists (some already_exists) = true
code_is_already_exists _ = false

code_is_permission_denied : Option Code → Bool
code_is_permission_denied (some permission_denied) = true
code_is_permission_denied _ = false

sentinel_not_found : Err → Bool
sentinel_not_found containerd_not_found = true
sentinel_not_found repo_not_found = true
sentinel_not_found os_not_exist = true
sentinel_not_found _ = false

sentinel_conflict : Err → Bool
sentinel_conflict lease_held = true
sentinel_conflict domain_lease_held = true
sentinel_conflict idx_exists = true
sentinel_conflict _ = false

sentinel_permission_denied : Err → Bool
sentinel_permission_denied invalid_token = true
sentinel_permission_denied _ = false

unfoldable pub is_not_found : Option Err → Bool
unfolding from_error code_is_not_found sentinel_not_found
is_not_found none = false
is_not_found (some e) = code_is_not_found (from_error e) || sentinel_not_found e

unfoldable pub is_conflict : Option Err → Bool
unfolding from_error code_is_already_exists sentinel_conflict
is_conflict none = false
is_conflict (some e) = code_is_already_exists (from_error e) || sentinel_conflict e

unfoldable pub is_permission_denied : Option Err → Bool
unfolding from_error code_is_permission_denied sentinel_permission_denied
is_permission_denied none = false
is_permission_denied (some e) =
    code_is_permission_denied (from_error e) || sentinel_permission_denied e

unfoldable pub ignore_not_found : Option Err → Option Err
unfolding is_not_found
ignore_not_found e = if is_not_found e then none else e

status_or : Err → Option Code → Err
unfolding is_not_found is_conflict is_permission_denied
status_or e (some c) = status c
status_or e none =
    if is_not_found (some e)
    then status not_found
    else if is_conflict (some e)
    then status already_exists
    else if is_permission_denied (some e)
    then status permission_denied
    else status internal

unfoldable pub to_status : Option Err → Option Err
unfolding status_or from_error
to_status none = none
to_status (some e) = some (status_or e (from_error e))
