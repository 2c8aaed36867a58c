-- ===== src/Config/Plan.antt =====
-- lib/config/accessory_plan.h and accessory_plan.cpp: what HomeKit is offered, and the difference of
-- two offers. A planned command holds its code, where the source points to it; it is never compared.
pub mod Removals
use homekit_rf_ir_blaster.Base.{
  ℕ, Bool, true, false, ◌&&◌, ◌||◌, not, List, [], ◌∷◌, Option, none, some, ◌==◌, if◌then◌else◌,
  Bytes, bytes_eq, codes, map, is_some,
}
use homekit_rf_ir_blaster.Config.Model.{StoredCode, CommandSlot, VirtualDevice, Config, is_learned}
use homekit_rf_ir_blaster.Config.Changes.{same_flag}

pub data ServiceType : Type 0 where
  switch window_covering outlet light_bulb fan television unknown : ServiceType

unfoldable pub service_type_from_string : Bytes → ServiceType
service_type_from_string service =
    if bytes_eq service (codes "Switch")
    then switch
    else if bytes_eq service (codes "WindowCovering")
    then window_covering
    else if bytes_eq service (codes "Outlet")
    then outlet
    else if bytes_eq service (codes "LightBulb")
    then light_bulb
    else if bytes_eq service (codes "Fan")
    then fan
    else if bytes_eq service (codes "Television")
    then television
    else unknown

abbrev pub service_number : ServiceType → ℕ
service_number switch = 0
service_number window_covering = 1
service_number outlet = 2
service_number light_bulb = 3
service_number fan = 4
service_number television = 5
service_number unknown = 6

abbrev pub same_type : ServiceType → ServiceType → Bool
same_type a b = service_number a == service_number b

pub record PlannedCommand : Type 0 where
  pub name : Bytes
  pub code : StoredCode
  pub learned : Bool

pub record PlannedAccessory : Type 0 where
  pub aid : ℕ
  pub kind : ServiceType
  pub name : Bytes
  pub commands : List PlannedCommand

pub record SkippedDevice : Type 0 where
  pub id : ℕ
  pub service : Bytes

pub record PlanResult : Type 0 where
  pub accessories : List PlannedAccessory
  pub skipped : List SkippedDevice

unfoldable pub plan_command : CommandSlot → PlannedCommand
unfolding is_learned
plan_command slot = record { name = slot.name; code = slot.code; learned = is_learned slot.code }

unfoldable pub plan_device : VirtualDevice → ServiceType → PlannedAccessory
unfolding plan_command
plan_device d kind = record {
  aid = d.id;
  kind = kind;
  name = d.name;
  commands = map plan_command d.commands;
}

abbrev add_planned : VirtualDevice → ServiceType → PlanResult → PlanResult
add_planned d kind rest =
    if same_type kind unknown
    then record rest { skipped = record { id = d.id; service = d.service } ∷ rest.skipped }
    else record rest { accessories = plan_device d kind ∷ rest.accessories }

unfoldable pub plan_devices : List VirtualDevice → PlanResult
unfolding plan_device
plan_devices [] = record { accessories = []; skipped = [] }
plan_devices (d ∷ ds) = add_planned d (service_type_from_string d.service) (plan_devices ds)

unfoldable pub plan_accessories : Config → PlanResult
plan_accessories cfg = plan_devices cfg.devices

unfoldable pub commands_equal : List PlannedCommand → List PlannedCommand → Bool
commands_equal [] [] = true
commands_equal [] (b ∷ bs) = false
commands_equal (a ∷ as') [] = false
commands_equal (a ∷ as') (b ∷ bs) =
    bytes_eq a.name b.name && same_flag a.learned b.learned && commands_equal as' bs

-- The map by aid, in which a later accessory replaces an earlier one of the same aid.
unfoldable pub by_aid : ℕ → List PlannedAccessory → Option PlannedAccessory
by_aid aid [] = none
by_aid aid (a ∷ as') =
    let later = by_aid aid as' in
    elim later [ none ↦ if a.aid == aid then some a else none | some o ↦ some o ]

pub record PlanDiff : Type 0 where
  pub to_add : List PlannedAccessory
  pub to_remove : List ℕ
  pub to_update : List PlannedAccessory

-- One accessory of the new plan against the old one of its aid, before what the rest adds.
unfoldable pub diff_one : PlannedAccessory → Option PlannedAccessory → PlanDiff → PlanDiff
unfolding commands_equal
diff_one n none rest = record rest { to_add = n ∷ rest.to_add }
diff_one n (some o) rest =
    if not (same_type o.kind n.kind)
    then record rest { to_remove = o.aid ∷ rest.to_remove; to_add = n ∷ rest.to_add }
    else if not (bytes_eq o.name n.name) || not (commands_equal o.commands n.commands)
    then record rest { to_update = n ∷ rest.to_update }
    else rest

unfoldable pub gone : List PlannedAccessory → List PlannedAccessory → List ℕ
unfolding by_aid
gone new [] = []
gone new (o ∷ os) =
    let rest = gone new os in if is_some (by_aid o.aid new) then rest else o.aid ∷ rest

-- The loop over the new plan, with the loop over the old one behind it.
unfoldable pub diff_loop : List PlannedAccessory → List PlannedAccessory → PlanDiff → PlanDiff
unfolding diff_one by_aid
diff_loop old [] last = last
diff_loop old (n ∷ ns) last = diff_one n (by_aid n.aid old) (diff_loop old ns last)

unfoldable pub diff_plans : List PlannedAccessory → List PlannedAccessory → PlanDiff
unfolding diff_loop gone
diff_plans old new =
    diff_loop old new (record { to_add = []; to_remove = gone new old; to_update = [] })
