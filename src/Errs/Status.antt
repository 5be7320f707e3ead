-- ===== src/Errs/Status.antt =====
-- pkg/errs/errs.go: errors across the gRPC boundary.
use blipblop.Base.{◌≡◌, refl, Option, none, some, arith}
use blipblop.Errs.{Err, is_not_found, is_conflict, is_permission_denied, to_status}

-- IsNotFound, IsConflict and IsPermissionDenied answer for ToStatus of an error what they answer
-- for the error.
pub to_status-classes :
    (e : Option Err)
    → (is_not_found (to_status e) ≡ is_not_found e)
      × (is_conflict (to_status e) ≡ is_conflict e)
      × (is_permission_denied (to_status e) ≡ is_permission_denied e)
unfolding is_not_found is_conflict is_permission_denied to_status
to_status-classes none = (refl, refl, refl)
to_status-classes (some e) = (ground arith, ground arith, ground arith)

-- ToStatus of what ToStatus returned is the same.
pub to_status_idem : (e : Option Err) → to_status (to_status e) ≡ to_status e
unfolding to_status
to_status_idem none = refl
to_status_idem (some e) = ground arith
