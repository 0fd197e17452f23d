-- ===== src/Storage/Info.antt =====
-- storage/device.rs: the classes of storage, and what is known of the device behind a path.
use secure_file_shredder_and.Base.{Bool, true, false, Option, List, Text, codes}
use secure_file_shredder_and.Io.Path.{FilePath}

pub data StorageKind : Type 0 where
  hdd ssd nvme usb_removable network_share virtual_or_container cloud_synced unknown : StorageKind

-- `Display`
unfoldable pub kind_text : StorageKind → Text
kind_text hdd = codes "HDD (rotational)"
kind_text ssd = codes "SSD (non-rotational)"
kind_text nvme = codes "NVMe"
kind_text usb_removable = codes "USB / removable media"
kind_text network_share = codes "Network share"
kind_text virtual_or_container = codes "Virtual disk / device-mapper / encrypted container"
kind_text cloud_synced = codes "Cloud-synced folder"
kind_text unknown = codes "Unknown"

pub record StorageInfo : Type 0 where
  pub path : FilePath
  pub kind : StorageKind
  pub device_name : Option Text
  pub trim_supported : Option Bool
  pub is_network : Bool
  pub is_removable : Bool
  pub notes : List Text

abbrev pub reliable_kind : StorageKind → Bool
reliable_kind hdd = true
reliable_kind usb_removable = true
reliable_kind _ = false

unfoldable pub overwrite_is_reliable : StorageInfo → Bool
overwrite_is_reliable info = reliable_kind info.kind

abbrev pub crypto_erase_kind : StorageKind → Bool
crypto_erase_kind ssd = true
crypto_erase_kind nvme = true
crypto_erase_kind cloud_synced = true
crypto_erase_kind _ = false

unfoldable pub recommend_crypto_erase : StorageInfo → Bool
recommend_crypto_erase info = crypto_erase_kind info.kind
