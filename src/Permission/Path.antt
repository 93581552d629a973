-- ===== src/Permission/Path.antt =====
-- `normalized_path`, `resolved_path` and `path_under` of src/permission.rs, on the components of a path.
-- The file system and the current directory are parameters.
use dexvm.Prelude.{List, [], ◌∷◌, ◌++◌, Option, none, some, Bool, true, false, if◌then◌else◌}
use dexvm.Permission.Text.{Text, same_text}

-- `std::path::Component` of a Unix path.
pub data Component : Type 0 where
  root_dir : Component
  cur_dir : Component
  parent_dir : Component
  normal : Text → Component

-- A `PathBuf`, with its last component first.
abbrev pub PathBuf : Type 0
PathBuf = List Component

abbrev pub same_component : Component → Component → Bool
same_component Component.root_dir Component.root_dir = true
same_component Component.cur_dir Component.cur_dir = true
same_component Component.parent_dir Component.parent_dir = true
same_component (Component.normal a) (Component.normal b) = same_text a b
same_component _ _ = false

-- One component of the loop: `..` removes a name, and stays where there is none.
unfoldable pub push_component : PathBuf → Component → PathBuf
push_component out Component.cur_dir = out
push_component (Component.normal name ∷ out) Component.parent_dir = out
push_component out c = c ∷ out

unfoldable pub normalize : PathBuf → List Component → PathBuf
normalize out [] = out
normalize out (c ∷ cs) = normalize (push_component out c) cs

abbrev pub reverse_onto : {A : Type 0} → List A → List A → List A
reverse_onto [] acc = acc
reverse_onto (x ∷ xs) acc = reverse_onto xs (x ∷ acc)

unfoldable pub normalized_path : List Component → PathBuf
normalized_path cs = normalize [] cs

abbrev pub is_absolute : List Component → Bool
is_absolute (Component.root_dir ∷ cs) = true
is_absolute _ = false

-- The calls of `Path::components`, `std::fs::canonicalize` and `std::env::current_dir`, on components in
-- their order.
pub record FileSystem : Type 0 where
  pub components : Text → List Component
  pub canonicalize : List Component → Option (List Component)
  pub current_dir : Option (List Component)

module _ (fs : FileSystem) where
  -- The loop: the longest part of the path that exists, made canonical, with the names that are missing
  -- after it.
  unfoldable pub resolve_loop : PathBuf → PathBuf → List Component → PathBuf
  resolve_loop absolute [] missing = elim (fs.canonicalize []) [
    | some real ↦ normalized_path (real ++ missing)
    | none ↦ normalized_path (reverse_onto absolute [])
  ]
  resolve_loop absolute (Component.normal name ∷ existing) missing =
      elim (fs.canonicalize (reverse_onto existing (Component.normal name ∷ []))) [
        | some real ↦ normalized_path (real ++ missing)
        | none ↦ resolve_loop absolute existing (Component.normal name ∷ missing)
      ]
  resolve_loop absolute (c ∷ existing) missing =
      elim (fs.canonicalize (reverse_onto existing (c ∷ []))) [
        | some real ↦ normalized_path (real ++ missing)
        | none ↦ normalized_path (reverse_onto absolute [])
      ]

  abbrev pub current_dir_or_root : Option (List Component) → List Component
  current_dir_or_root none = Component.root_dir ∷ []
  current_dir_or_root (some dir) = dir

  unfoldable pub absolute_path : List Component → PathBuf
  absolute_path path =
      let parts = reverse_onto (normalized_path path) [] in
      if is_absolute parts
      then normalized_path path
      else normalized_path path ++ reverse_onto (current_dir_or_root fs.current_dir) []

  unfoldable pub resolved_path : Text → PathBuf
  resolved_path path =
      resolve_loop (absolute_path (fs.components path)) (absolute_path (fs.components path)) []

  -- The resolved path from its first component.
  abbrev pub resolved_components : Text → List Component
  resolved_components path = reverse_onto (resolved_path path) []

  -- `Path::starts_with`
  abbrev pub starts_with : List Component → List Component → Bool
  starts_with path [] = true
  starts_with (c ∷ path) (d ∷ prefix) =
      if same_component c d then starts_with path prefix else false
  starts_with [] (d ∷ prefix) = false

  unfoldable pub path_under : Text → Text → Bool
  path_under prefix path = starts_with (resolved_components path) (resolved_components prefix)
