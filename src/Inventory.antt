-- ===== src/Inventory.antt =====
-- internal/inventory/inventory.go: the records that the table layer is served from.
pub mod Slots
pub mod Values
pub mod Parse
pub mod Warn
pub mod Tests
use amcache.Base.{ℕ, Bool, List, [], ◌∷◌, Option, none, some, if◌then◌else◌}
use amcache.Base.Text.{Text, codes, text_eq}

abbrev pub key_application_file : Text
key_application_file = codes "InventoryApplicationFile"

abbrev pub key_application : Text
key_application = codes "InventoryApplication"

abbrev pub key_application_shortcut : Text
key_application_shortcut = codes "InventoryApplicationShortcut"

abbrev pub key_driver_binary : Text
key_driver_binary = codes "InventoryDriverBinary"

abbrev pub key_driver_package : Text
key_driver_package = codes "InventoryDriverPackage"

abbrev pub key_device_pnp : Text
key_device_pnp = codes "InventoryDevicePnp"

abbrev pub key_device_container : Text
key_device_container = codes "InventoryDeviceContainer"

-- `Keys`: the parse order and the table order.
abbrev pub keys : List Text
keys =
    key_application_file ∷ key_application ∷ key_application_shortcut ∷ key_driver_binary
    ∷ key_driver_package ∷ key_device_pnp ∷ key_device_container ∷ []

-- A map from texts, as an association list whose first entry for a key counts.
abbrev pub Table : Type 0 → Type 0
Table A = List (Text × A)

unfoldable pub lookup {ℓ} : {A : Type ℓ} → Text → List (Text × A) → Option A
lookup k [] = none
lookup k ((j, v) ∷ t) = let rest = lookup k t in if text_eq k j then some v else rest

-- `Record`: one subkey, its last write in unix seconds (0 where unknown), its values.
pub record Record : Type 0 where
  pub name : Text
  pub last_write : ℕ
  pub values : Table Text

-- `Snapshot`: the keys that the hive holds, with their records.
pub record Snapshot : Type 0 where
  pub legacy : Bool
  pub keys : Table (List Record)
