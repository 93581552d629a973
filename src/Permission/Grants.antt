-- ===== src/Permission/Grants.antt =====
-- The capabilities and the grant store of src/permission.rs. A string is its bytes.
use dexvm.Prelude.{List, [], ◌∷◌, ◌++◌, Bool, true, false, if◌then◌else◌}
use dexvm.Permission.Text.{Text, same_text}
use dexvm.Permission.Path.{FileSystem, path_under}
use dexvm.Permission.Host.{host_matches}

pub data FilesystemPermission : Type 0 where
  any : FilesystemPermission
  read : FilesystemPermission
  write : FilesystemPermission
  read_path : Text → FilesystemPermission
  write_path : Text → FilesystemPermission
  path : Text → FilesystemPermission

pub data NetworkPermission : Type 0 where
  any : NetworkPermission
  connect : Text → NetworkPermission

pub data ProcessPermission : Type 0 where
  any : ProcessPermission
  command : Text → ProcessPermission

pub data Permission : Type 0 where
  filesystem : FilesystemPermission → Permission
  network : NetworkPermission → Permission
  process : ProcessPermission → Permission
  env : Permission

module _ (fs : FileSystem) where
  unfoldable pub covers_filesystem : FilesystemPermission → FilesystemPermission → Bool
  covers_filesystem FilesystemPermission.any b = true
  covers_filesystem FilesystemPermission.read FilesystemPermission.read = true
  covers_filesystem FilesystemPermission.read (FilesystemPermission.read_path q) = true
  covers_filesystem FilesystemPermission.read b = false
  covers_filesystem FilesystemPermission.write FilesystemPermission.write = true
  covers_filesystem FilesystemPermission.write (FilesystemPermission.write_path q) = true
  covers_filesystem FilesystemPermission.write b = false
  covers_filesystem (FilesystemPermission.read_path p) (FilesystemPermission.read_path q) =
      path_under fs p q
  covers_filesystem (FilesystemPermission.read_path p) b = false
  covers_filesystem (FilesystemPermission.write_path p) (FilesystemPermission.write_path q) =
      path_under fs p q
  covers_filesystem (FilesystemPermission.write_path p) b = false
  covers_filesystem (FilesystemPermission.path p) (FilesystemPermission.read_path q) =
      path_under fs p q
  covers_filesystem (FilesystemPermission.path p) (FilesystemPermission.write_path q) =
      path_under fs p q
  covers_filesystem (FilesystemPermission.path p) (FilesystemPermission.path q) = path_under fs p q
  covers_filesystem (FilesystemPermission.path p) b = false

  unfoldable pub covers_network : NetworkPermission → NetworkPermission → Bool
  covers_network NetworkPermission.any b = true
  covers_network (NetworkPermission.connect h) (NetworkPermission.connect t) = host_matches h t
  covers_network (NetworkPermission.connect h) NetworkPermission.any = false

  unfoldable pub covers_process : ProcessPermission → ProcessPermission → Bool
  covers_process ProcessPermission.any b = true
  covers_process (ProcessPermission.command c) (ProcessPermission.command t) = same_text t c
  covers_process (ProcessPermission.command c) ProcessPermission.any = false

  unfoldable pub covers : Permission → Permission → Bool
  covers (Permission.filesystem a) (Permission.filesystem b) = covers_filesystem a b
  covers (Permission.network a) (Permission.network b) = covers_network a b
  covers (Permission.process a) (Permission.process b) = covers_process a b
  covers Permission.env Permission.env = true
  covers _ _ = false

  -- The grant store, in the order of the grants.
  abbrev pub Permissions : Type 0
  Permissions = List Permission

  -- `grants.iter().any(|g| g.covers(p))`
  unfoldable pub has : Permissions → Permission → Bool
  has [] p = false
  has (g ∷ grants) p = if covers g p then true else has grants p

  unfoldable pub grant : Permissions → Permission → Permissions
  grant grants p = if has grants p then grants else grants ++ (p ∷ [])

  -- `grants.retain(|g| !g.covers(p))`
  unfoldable pub revoke : Permissions → Permission → Permissions
  revoke [] p = []
  revoke (g ∷ grants) p = let rest = revoke grants p in if covers g p then rest else g ∷ rest
