-- ===== src/Shipping/State.antt =====
-- The statuses of drivers and shipments, in internal/modules/shipping/service.go.
use e_commerce_be.Prelude.{Bool, false, ◌&&◌, ◌||◌, ◌==◌, if◌then◌else◌, ℤ, pos, leb_ℤ}
use e_commerce_be.Shared.{Word}
use e_commerce_be.Words.{
  pending, assigned, accepted, picked_up, delivering, failed, returned, delivered, approved,
  rejected, suspended,
}

-- `page`
abbrev pub page : ℤ → ℤ → Bool
page p l = leb_ℤ (pos 1) p && leb_ℤ p (pos 100000) && leb_ℤ (pos 1) l && leb_ℤ l (pos 100)

abbrev pub driver_status : Word → Bool
driver_status v = v == pending || v == approved || v == rejected || v == suspended

abbrev pub shipment_status : Word → Bool
shipment_status v =
    v == pending
    || v == assigned
    || v == accepted
    || v == picked_up
    || v == delivering
    || v == failed
    || v == returned
    || v == delivered

-- `Transition`
abbrev pub transition : Word → Word → Bool
transition from to =
    if from == assigned
    then to == accepted
    else if from == accepted
    then to == picked_up
    else if from == picked_up
    then to == delivering
    else if from == delivering
    then to == delivered || to == failed
    else if from == failed
    then to == delivering || to == returned
    else false
