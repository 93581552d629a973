-- ===== src/Permission/PathRules.antt =====
-- What `normalized_path` and `path_under` of src/permission.rs do with paths.
use dexvm.Prelude.{
  ℕ, ap, ◌∙◌, ◌↔◌, ◌≡◌, refl, List, [], ◌∷◌, ◌++◌, true, false, Bool-cases, inl, inr,
}
use mathlib.Core.List.{append_assoc}
use dexvm.Permission.Text.{same_text_self, same_text-true}
use dexvm.Permission.Path.{
  Component, PathBuf, same_component, push_component, normalize, normalized_path, FileSystem,
  resolved_components, starts_with, path_under,
}

same_component_self : (c : Component) → same_component c c ≡ true
same_component_self Component.root_dir = refl
same_component_self Component.cur_dir = refl
same_component_self Component.parent_dir = refl
same_component_self (Component.normal name) = same_text_self name

same_component-true : (c d : Component) → same_component c d ≡ true → c ≡ d
same_component-true Component.root_dir Component.root_dir h = refl
same_component-true Component.cur_dir Component.cur_dir h = refl
same_component-true Component.parent_dir Component.parent_dir h = refl
same_component-true (Component.normal a) (Component.normal b) h =
    ap Component.normal (same_text-true a b h)
same_component-true c d h = absurd (cc)

-- No component is `.`, and a `..` stands only at the start or behind another `..`, never behind a name.
abbrev pub IsNormal : PathBuf → Type 0
IsNormal [] = Unit
IsNormal (Component.cur_dir ∷ out) = ⊥
IsNormal (Component.parent_dir ∷ Component.normal name ∷ out) = ⊥
IsNormal (c ∷ out) = IsNormal out

push_component-IsNormal :
    (out : PathBuf) (c : Component) → IsNormal out → IsNormal (push_component out c)
unfolding push_component
push_component-IsNormal out Component.cur_dir h = h
push_component-IsNormal out Component.root_dir h = h
push_component-IsNormal out (Component.normal name) h = h
push_component-IsNormal [] Component.parent_dir h = tt
push_component-IsNormal (Component.root_dir ∷ out) Component.parent_dir h = h
push_component-IsNormal (Component.cur_dir ∷ out) Component.parent_dir h = absurd h
push_component-IsNormal (Component.parent_dir ∷ out) Component.parent_dir h = h
push_component-IsNormal (Component.normal name ∷ out) Component.parent_dir h = h

normalize-IsNormal :
    (out : PathBuf) (cs : List Component) → IsNormal out → IsNormal (normalize out cs)
unfolding normalize
normalize-IsNormal out [] h = h
normalize-IsNormal out (c ∷ cs) h =
    normalize-IsNormal (push_component out c) cs (push_component-IsNormal out c h)

-- A normalized path has no `.`, and no `..` behind a name.
normalized_path-IsNormal : (cs : List Component) → IsNormal (normalized_path cs)
unfolding normalized_path
normalized_path-IsNormal cs = normalize-IsNormal [] cs tt

module _ (fs : FileSystem) where
  starts_with-append : (path rest : List Component) → starts_with fs (path ++ rest) path ≡ true
  starts_with-append [] rest = refl
  starts_with-append (c ∷ path) rest = rw (same_component_self c) (starts_with-append path rest)

  eq_append_of_starts_with :
      (path prefix : List Component)
      → starts_with fs path prefix ≡ true
      → (rest : List Component) × (path ≡ prefix ++ rest)
  eq_append_of_starts_with path [] h = (path, refl)
  eq_append_of_starts_with [] (d ∷ prefix) h = absurd (cc)
  eq_append_of_starts_with (c ∷ path) (d ∷ prefix) h = elim (Bool-cases (same_component c d)) [
    | inl e ↦
        (let inner : starts_with fs path prefix ≡ true = rw e at h in
          let (rest, split) = eq_append_of_starts_with path prefix inner in
          let head : c ≡ d = same_component-true c d e in (rest, cc))
    | inr e ↦ (let no : false ≡ true = rw e at h in absurd (cc))
  ]

  -- A path is under another one exactly when, both resolved, its components begin with the components of
  -- the other.
  path_under_iff :
      (prefix path : List ℕ)
      → (path_under fs prefix path ≡ true) ↔ (
          (rest : List Component) × (resolved_components fs path
            ≡ resolved_components fs prefix ++ rest))
  unfolding path_under
  path_under_iff prefix path = (
    λ h. eq_append_of_starts_with _ _ h,
    λ (rest, split). rw split (starts_with-append (resolved_components fs prefix) rest),
  )

  pub path_under_trans :
      (p q r : List ℕ)
      → path_under fs p q ≡ true
      → path_under fs q r ≡ true
      → path_under fs p r ≡ true
  path_under_trans p q r pq qr =
      let (first, to_q) = (path_under_iff p q).0 pq in
      let (second, to_r) = (path_under_iff q r).0 qr in
      (path_under_iff p r).1
        (first ++ second, (rw to_q at to_r) ∙ append_assoc (resolved_components fs p) first second)

  starts_with_self : (path : List Component) → starts_with fs path path ≡ true
  starts_with_self [] = refl
  starts_with_self (c ∷ path) = rw (same_component_self c) (starts_with_self path)

  pub path_under_self : (p : List ℕ) → path_under fs p p ≡ true
  unfolding path_under
  path_under_self p = starts_with_self (resolved_components fs p)
