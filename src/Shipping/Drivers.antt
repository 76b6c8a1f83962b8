-- ===== src/Shipping/Drivers.antt =====
-- The drivers: `Apply`, `Me`, `Approve` and `approved` of internal/modules/shipping/service.go, with
-- the statements of repository.go.
use e_commerce_be.Prelude.{
  none, ℕ, Bool, true, false, not, ◌&&◌, ◌||◌, List, ◌∷◌, ◌==◌, ltb, find, count, update,
}
use e_commerce_be.Text.{trim_space, byte_len}
use e_commerce_be.Shared.{Word, Uuid, ok, invalid, forbidden, is_some}
use e_commerce_be.Words.{pending, approved, rejected, suspended, driver}
use e_commerce_be.Models.{User, UserRole, DriverProfile}
use e_commerce_be.Store.{Call, ⊤, ◌>>=◌, ◌>>◌, first, raise_if, modify, when, require_admin}

-- `Repository.Active`
unfoldable pub active : Uuid → Call ⊤
active u db =
    raise_if (count (λ (x : User). x.id == u && not (is_some x.deleted_at)) db.users == 0) forbidden
      db

abbrev pub profile_of : Uuid → DriverProfile → Bool
profile_of u d = d.user_id == u

-- `Repository.Profile`
unfoldable pub profile : Uuid → Call DriverProfile
profile u = first λ db. find (profile_of u) db.drivers

pub record Application : Type 0 where
  pub phone : List ℕ
  pub vehicle_plate : List ℕ

-- `ON CONFLICT DO NOTHING`: the first application of a user stays.
unfoldable pub insert_profile : DriverProfile → Call ⊤
insert_profile d db = elim (is_some (find (profile_of d.user_id) db.drivers)) [
  | true ↦ ok (tt, db)
  | false ↦ ok (tt, record db { drivers = d ∷ db.drivers })
]

unfoldable pub bad_length : ℕ → ℕ → List ℕ → Bool
bad_length least most s = ltb (byte_len s) least || ltb most (byte_len s)

-- `Apply`
unfoldable pub apply_driver : Uuid → Application → Call DriverProfile
apply_driver u input = do
  let phone = trim_space input.phone
  let plate = trim_space input.vehicle_plate
  raise_if (bad_length 8 20 phone || bad_length 3 30 plate) invalid
  active u
  insert_profile (record { user_id = u; phone = phone; vehicle_plate = plate; status = pending })
  profile u

-- `Me`
unfoldable pub me : Uuid → Call DriverProfile
me u = do active u; profile u

-- The role of a driver, `ON CONFLICT DO NOTHING`.
unfoldable pub grant_driver : Uuid → Call ⊤
grant_driver u db =
    elim (is_some (find (λ (r : UserRole). r.user_id == u && r.role == driver) db.user_roles)) [
      | true ↦ ok (tt, db)
      | false ↦ ok (
        tt,
        record db {
          user_roles =
              record { user_id = u; role = driver; role_deleted_at = none } ∷ db.user_roles;
        },
      )
    ]

-- `Repository.DriverStatus`
unfoldable pub set_driver_status : Uuid → Word → Call ⊤
set_driver_status u status = do
  modify λ db. record db {
    drivers = update (profile_of u) (λ d. record d { status = status }) db.drivers;
  }
  when (status == approved) (grant_driver u)

-- `Approve`: an administrator decides on a driver.
unfoldable pub approve : Uuid → Uuid → Word → Call ⊤
approve u id status = do
  raise_if (not (status == approved) && not (status == rejected) && not (status == suspended))
      invalid
  require_admin u
  active id
  profile id
  set_driver_status id status

-- `approved`: the user is live, and an approved driver.
unfoldable pub require_driver : Uuid → Call ⊤
require_driver u = do active u; d ← profile u; raise_if (not (d.status == approved)) forbidden
