-- ===== src/Grpc.antt =====
-- internal/grpcutil/errors.go: errors as statuses of gRPC, between the processes of the program.
use e_commerce_be.Prelude.{◌≡◌, refl, true, false, ◌||◌, ◌==◌, List, ℕ, arith}
use e_commerce_be.Text.{codes}

pub data Code : Type 0 where
  unauthenticated permission_denied invalid_argument already_exists aborted : Code
  failed_precondition resource_exhausted not_found unavailable deadline_exceeded internal : Code
  other_code : ℕ → Code

-- An error, by what errors.Is and errors.As find in its chain: the errors of the modules, an error
-- of PostgreSQL with its SQLSTATE, a status, or anything else.
pub data Fault : Type 0 where
  unauthorized forbidden invalid conflict rate_limited service_down no_record : Fault
  postgres : ℕ → Fault
  status : Code → List ℕ → Fault
  unknown : List ℕ → Fault

-- The two cases on `pg.Code`, and the default.
abbrev of_sqlstate : ℕ → Fault
of_sqlstate n = elim (n == 23505) [
  | true ↦ status already_exists (codes "already exists")
  | false ↦ elim (n == 23503 || n == 23514) [
    | true ↦ status invalid_argument (codes "invalid reference or value")
    | false ↦ status internal (codes "internal server error")
  ]
]

-- `ToStatus`, of an error that is not nil.
unfoldable pub to_status : Fault → Fault
to_status unauthorized = status unauthenticated (codes "unauthorized")
to_status forbidden = status permission_denied (codes "forbidden")
to_status invalid = status invalid_argument (codes "invalid input")
to_status conflict = status already_exists (codes "conflict")
to_status rate_limited = status resource_exhausted (codes "rate limit exceeded")
to_status service_down = status unavailable (codes "service unavailable")
to_status no_record = status not_found (codes "not found")
to_status (postgres n) = of_sqlstate n
to_status (status c text) = status internal (codes "internal server error")
to_status (unknown text) = status internal (codes "internal server error")

-- `FromStatus`, of an error that is not nil, by `status.Code`.
abbrev of_code : Code → Fault → Fault
of_code unauthenticated e = unauthorized
of_code permission_denied e = forbidden
of_code invalid_argument e = invalid
of_code already_exists e = conflict
of_code aborted e = conflict
of_code failed_precondition e = conflict
of_code resource_exhausted e = rate_limited
of_code not_found e = no_record
of_code unavailable e = service_down
of_code deadline_exceeded e = service_down
of_code internal e = e
of_code (other_code n) e = e

unfoldable pub from_status : Fault → Fault
from_status (status c text) = of_code c (status c text)
from_status e = e

-- What a caller in another process learns of an error: the errors of the modules as they are, a
-- violated constraint as the error of the input that it is, and nothing of any other.
unfoldable pub learned : Fault → Fault
learned (postgres n) = elim (n == 23505) [
  | true ↦ conflict
  | false ↦ elim (n == 23503 || n == 23514) [
    | true ↦ invalid
    | false ↦ status internal (codes "internal server error")
  ]
]
learned (status c text) = status internal (codes "internal server error")
learned (unknown text) = status internal (codes "internal server error")
learned e = e

-- An error that crosses from one process to another is what the caller may learn of it: the seven
-- errors of the modules come back as they are, a unique violation as a conflict, a foreign key or
-- check violation as invalid input, and of every other error only that it happened.
pub from_status-to_status : (e : Fault) → from_status (to_status e) ≡ learned e
unfolding from_status to_status learned
from_status-to_status unauthorized = refl
from_status-to_status forbidden = refl
from_status-to_status invalid = refl
from_status-to_status conflict = refl
from_status-to_status rate_limited = refl
from_status-to_status service_down = refl
from_status-to_status no_record = refl
from_status-to_status (postgres n) = ground arith
from_status-to_status (status c text) = refl
from_status-to_status (unknown text) = refl
