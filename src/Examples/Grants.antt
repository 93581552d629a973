-- ===== src/Examples/Grants.antt =====
-- Runs of the permission system. Its file system has every path and no links.
use dexvm.Prelude.{
  ◌≡◌, ◌↔◌, refl, List, [], ◌∷◌, ◌++◌, some, true, false, ◌&&◌, ◌||◌, not, ◌==◌, if◌then◌else◌,
}
use mathlib.Core.List.{Memᴰ}
use dexvm.Permission.Text.{Text, to_ascii_lowercase}
use dexvm.Permission.Path.{
  Component, FileSystem, push_component, normalize, normalized_path, resolve_loop, absolute_path,
  resolved_path, path_under,
}
use dexvm.Permission.Host.{explicit_port, matches_lower, host_matches}
use dexvm.Permission.Grants.{FilesystemPermission, Permission, covers, has, grant, revoke}
use dexvm.Permission.HostRules.{Targets, host_matches_iff}
use dexvm.Permission.Rules.{has-grant, has-revoke}

-- The names between the slashes of an absolute path.
abbrev cut : Text → Text → List Component
cut name [] = Component.normal name ∷ []
cut name (c ∷ cs) = if c == 47 then Component.normal name ∷ cut [] cs else cut (name ++ c ∷ []) cs

abbrev from_root : Text → List Component
from_root [] = []
from_root (c ∷ cs) = Component.root_dir ∷ cut [] cs

abbrev plain : FileSystem
plain = record {
  components = from_root;
  canonicalize = λ path. some path;
  current_dir = some (Component.root_dir ∷ []);
}

-- /a, /a/b and /a/b/c
abbrev dir : Text
dir = 47 ∷ 97 ∷ []

abbrev inner : Text
inner = 47 ∷ 97 ∷ 47 ∷ 98 ∷ []

abbrev file : Text
file = 47 ∷ 97 ∷ 47 ∷ 98 ∷ 47 ∷ 99 ∷ []

path_under-file : (path_under plain dir inner ≡ true) × (path_under plain inner dir ≡ false)
unfolding path_under resolved_path resolve_loop absolute_path normalized_path normalize
    push_component
path_under-file = (refl, refl)

-- The host "Ab" and the target "aB:80".
abbrev host : Text
host = 65 ∷ 98 ∷ []

abbrev target : Text
target = 97 ∷ 66 ∷ 58 ∷ 56 ∷ 48 ∷ []

host_matches-target : (host_matches host target ≡ true) × (host_matches target host ≡ false)
unfolding host_matches matches_lower explicit_port
host_matches-target = (refl, refl)

host_matches_iff_example :
    (host_matches host target ≡ true)
    ↔ Targets (to_ascii_lowercase host) (to_ascii_lowercase target)
host_matches_iff_example = host_matches_iff host target

-- Reading below /a/b, and all reading.
abbrev read_inner : Permission
read_inner = Permission.filesystem (FilesystemPermission.read_path inner)

abbrev read_all : Permission
read_all = Permission.filesystem FilesystemPermission.read

has-grant_example :
    (has plain (grant plain (Permission.env ∷ []) read_all) read_all ≡ true)
    × (has plain (grant plain (Permission.env ∷ []) read_all) read_inner ≡ (
        has plain (Permission.env ∷ []) read_inner
        || (not (has plain (Permission.env ∷ []) read_all) && covers plain read_all read_inner)))
has-grant_example = has-grant plain (Permission.env ∷ []) read_all read_inner

has-revoke_example :
    (has plain (revoke plain (read_all ∷ Permission.env ∷ []) read_inner) read_inner ≡ false)
    × ((has plain (revoke plain (read_all ∷ Permission.env ∷ []) read_inner) Permission.env ≡ true)
        ↔ ((g : Permission) × Memᴰ g (read_all ∷ Permission.env ∷ [])
            × (covers plain g read_inner ≡ false)
            × (covers plain g Permission.env ≡ true)))
has-revoke_example = has-revoke plain (read_all ∷ Permission.env ∷ []) read_inner Permission.env
