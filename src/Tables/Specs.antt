-- ===== src/Tables/Specs.antt =====
-- The seven tables of tables/columns.go, in the order of the inventory keys: each column's name, type,
-- registry value, decoder, and whether the equality index is built over it.
use Prim.Native.String.{String}
use amcache.Base.{true, false, List, [], ◌∷◌}
use amcache.Base.Text.{codes}
use amcache.Inventory.{
  key_application_file, key_application, key_application_shortcut, key_driver_binary,
  key_driver_package, key_device_pnp, key_device_container,
}
use amcache.Tables.Columns.{
  Kind, k_text, k_int, k_bool, k_time, k_epoch, k_multi, k_sha1, k_lower, k_key, k_key_path,
  k_key_lower, k_key_time, ColumnType, text_type, integer_type, big_int_type, Col, Spec,
}

-- A column without an index, and one with.
abbrev plain : String → ColumnType → String → Kind → Col
plain name typ src kind = record {
  name = codes name;
  typ = typ;
  src = codes src;
  kind = kind;
  push = false;
}

abbrev pushed : String → ColumnType → String → Kind → Col
pushed name typ src kind = record {
  name = codes name;
  typ = typ;
  src = codes src;
  kind = kind;
  push = true;
}

-- `amcache_application_files`.
unfoldable pub application_files : Spec
application_files = record {
  table = codes "amcache_application_files";
  key = key_application_file;
  cols =
      pushed "path" text_type "LowerCaseLongPath" k_text
      ∷ plain "name" text_type "Name" k_text
      ∷ pushed "sha1" text_type "FileId" k_sha1
      ∷ pushed "program_id" text_type "ProgramId" k_text
      ∷ plain "publisher" text_type "Publisher" k_text
      ∷ plain "original_file_name" text_type "OriginalFileName" k_text
      ∷ plain "version" text_type "Version" k_text
      ∷ plain "bin_file_version" text_type "BinFileVersion" k_text
      ∷ plain "product_name" text_type "ProductName" k_text
      ∷ plain "product_version" text_type "ProductVersion" k_text
      ∷ plain "bin_product_version" text_type "BinProductVersion" k_text
      ∷ plain "binary_type" text_type "BinaryType" k_text
      ∷ plain "size" big_int_type "Size" k_int
      ∷ plain "link_time" big_int_type "LinkDate" k_time
      ∷ plain "language" integer_type "Language" k_int
      ∷ plain "os_component" integer_type "IsOsComponent" k_bool
      ∷ plain "usn" big_int_type "Usn" k_int
      ∷ plain "long_path_hash" text_type "LongPathHash" k_text
      ∷ plain "appx_package_full_name" text_type "AppxPackageFullName" k_text
      ∷ plain "last_write_time" big_int_type "" k_key_time
      ∷ [];
}

-- `amcache_applications`.
unfoldable pub applications : Spec
applications = record {
  table = codes "amcache_applications";
  key = key_application;
  cols =
      pushed "program_id" text_type "" k_key
      ∷ plain "name" text_type "Name" k_text
      ∷ plain "version" text_type "Version" k_text
      ∷ plain "publisher" text_type "Publisher" k_text
      ∷ plain "type" text_type "Type" k_text
      ∷ plain "source" text_type "Source" k_text
      ∷ plain "store_app_type" text_type "StoreAppType" k_text
      ∷ plain "install_time" big_int_type "InstallDate" k_time
      ∷ plain "msi_install_time" big_int_type "MsiInstallDate" k_time
      ∷ plain "root_dir_path" text_type "RootDirPath" k_text
      ∷ plain "uninstall_string" text_type "UninstallString" k_text
      ∷ plain "registry_key_path" text_type "RegistryKeyPath" k_text
      ∷ plain "msi_product_code" text_type "MsiProductCode" k_text
      ∷ plain "msi_package_code" text_type "MsiPackageCode" k_text
      ∷ plain "package_full_name" text_type "PackageFullName" k_text
      ∷ plain "manifest_path" text_type "ManifestPath" k_text
      ∷ plain "hidden_arp" integer_type "HiddenArp" k_bool
      ∷ plain "inbox_modern_app" integer_type "InboxModernApp" k_bool
      ∷ plain "language" integer_type "Language" k_int
      ∷ plain "os_version_at_install" text_type "OSVersionAtInstallTime" k_text
      ∷ plain "program_instance_id" text_type "ProgramInstanceId" k_text
      ∷ plain "user_sid" text_type "UserSid" k_text
      ∷ plain "last_write_time" big_int_type "" k_key_time
      ∷ [];
}

-- `amcache_application_shortcuts`.
unfoldable pub application_shortcuts : Spec
application_shortcuts = record {
  table = codes "amcache_application_shortcuts";
  key = key_application_shortcut;
  cols =
      pushed "path" text_type "ShortcutPath" k_text
      ∷ plain "target_path" text_type "ShortcutTargetPath" k_text
      ∷ plain "aumid" text_type "ShortcutAumid" k_text
      ∷ pushed "program_id" text_type "ShortcutProgramId" k_text
      ∷ plain "last_write_time" big_int_type "" k_key_time
      ∷ [];
}

-- `amcache_driver_binaries`.
unfoldable pub driver_binaries : Spec
driver_binaries = record {
  table = codes "amcache_driver_binaries";
  key = key_driver_binary;
  cols =
      pushed "path" text_type "" k_key_path
      ∷ plain "driver_name" text_type "DriverName" k_text
      ∷ pushed "sha1" text_type "DriverId" k_sha1
      ∷ plain "signed" integer_type "DriverSigned" k_bool
      ∷ plain "inbox" integer_type "DriverInBox" k_bool
      ∷ plain "kernel_mode" integer_type "DriverIsKernelMode" k_bool
      ∷ plain "driver_type" big_int_type "DriverType" k_int
      ∷ plain "driver_version" text_type "DriverVersion" k_text
      ∷ plain "product" text_type "Product" k_text
      ∷ plain "product_version" text_type "ProductVersion" k_text
      ∷ plain "driver_company" text_type "DriverCompany" k_text
      ∷ plain "service" text_type "Service" k_text
      ∷ pushed "inf" text_type "Inf" k_text
      ∷ plain "driver_package_strong_name" text_type "DriverPackageStrongName" k_text
      ∷ plain "image_size" big_int_type "ImageSize" k_int
      ∷ plain "checksum" big_int_type "DriverCheckSum" k_int
      ∷ plain "link_time" big_int_type "DriverTimeStamp" k_epoch
      ∷ plain "modified_time" big_int_type "DriverLastWriteTime" k_time
      ∷ plain "last_write_time" big_int_type "" k_key_time
      ∷ [];
}

-- `amcache_driver_packages`.
unfoldable pub driver_packages : Spec
driver_packages = record {
  table = codes "amcache_driver_packages";
  key = key_driver_package;
  cols =
      pushed "inf" text_type "Inf" k_text
      ∷ plain "directory" text_type "Directory" k_text
      ∷ plain "sys_file" text_type "SYSFILE" k_text
      ∷ plain "class" text_type "Class" k_text
      ∷ plain "class_guid" text_type "ClassGuid" k_text
      ∷ plain "provider" text_type "Provider" k_text
      ∷ plain "version" text_type "Version" k_text
      ∷ plain "driver_ver_time" big_int_type "Date" k_time
      ∷ plain "inbox" integer_type "DriverInBox" k_bool
      ∷ plain "submission_id" text_type "SubmissionId" k_text
      ∷ plain "hwids" text_type "Hwids" k_multi
      ∷ plain "last_write_time" big_int_type "" k_key_time
      ∷ [];
}

-- `amcache_device_pnp`.
unfoldable pub device_pnp : Spec
device_pnp = record {
  table = codes "amcache_device_pnp";
  key = key_device_pnp;
  cols =
      pushed "device_instance_id" text_type "" k_key_path
      ∷ plain "description" text_type "Description" k_text
      ∷ plain "bus_reported_description" text_type "BusReportedDescription" k_text
      ∷ plain "class" text_type "Class" k_text
      ∷ plain "class_guid" text_type "ClassGuid" k_text
      ∷ plain "enumerator" text_type "Enumerator" k_text
      ∷ plain "manufacturer" text_type "Manufacturer" k_text
      ∷ plain "model" text_type "Model" k_text
      ∷ plain "provider" text_type "Provider" k_text
      ∷ plain "service" text_type "Service" k_text
      ∷ plain "driver_name" text_type "DriverName" k_text
      ∷ pushed "sha1" text_type "DriverId" k_sha1
      ∷ plain "driver_ver_version" text_type "DriverVerVersion" k_text
      ∷ plain "driver_ver_time" big_int_type "DriverVerDate" k_time
      ∷ plain "driver_package_strong_name" text_type "DriverPackageStrongName" k_text
      ∷ plain "inf" text_type "Inf" k_text
      ∷ plain "hwids" text_type "HWID" k_multi
      ∷ plain "compids" text_type "COMPID" k_multi
      ∷ plain "matching_id" text_type "MatchingID" k_text
      ∷ plain "parent_id" text_type "ParentId" k_text
      ∷ pushed "container_id" text_type "ContainerId" k_lower
      ∷ plain "install_state" integer_type "InstallState" k_int
      ∷ plain "device_state" big_int_type "DeviceState" k_int
      ∷ plain "problem_code" integer_type "ProblemCode" k_int
      ∷ plain "install_time" big_int_type "InstallDate" k_time
      ∷ plain "first_install_time" big_int_type "FirstInstallDate" k_time
      ∷ plain "lower_filters" text_type "LowerFilters" k_multi
      ∷ plain "upper_filters" text_type "UpperFilters" k_multi
      ∷ plain "last_write_time" big_int_type "" k_key_time
      ∷ [];
}

-- `amcache_device_containers`.
unfoldable pub device_containers : Spec
device_containers = record {
  table = codes "amcache_device_containers";
  key = key_device_container;
  cols =
      pushed "container_id" text_type "" k_key_lower
      ∷ plain "friendly_name" text_type "FriendlyName" k_text
      ∷ plain "manufacturer" text_type "Manufacturer" k_text
      ∷ plain "model_name" text_type "ModelName" k_text
      ∷ plain "model_number" text_type "ModelNumber" k_text
      ∷ plain "model_id" text_type "ModelId" k_text
      ∷ plain "primary_category" text_type "PrimaryCategory" k_text
      ∷ plain "categories" text_type "Categories" k_multi
      ∷ plain "discovery_method" text_type "DiscoveryMethod" k_text
      ∷ plain "state" big_int_type "State" k_int
      ∷ plain "active" integer_type "IsActive" k_bool
      ∷ plain "connected" integer_type "IsConnected" k_bool
      ∷ plain "paired" integer_type "IsPaired" k_bool
      ∷ plain "networked" integer_type "IsNetworked" k_bool
      ∷ plain "machine_container" integer_type "IsMachineContainer" k_bool
      ∷ plain "last_write_time" big_int_type "" k_key_time
      ∷ [];
}

-- `specs`.
unfoldable pub specs : List Spec
unfolding application_files applications application_shortcuts driver_binaries driver_packages
    device_pnp device_containers
specs =
    application_files ∷ applications ∷ application_shortcuts ∷ driver_binaries ∷ driver_packages
    ∷ device_pnp ∷ device_containers ∷ []
