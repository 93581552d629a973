-- ===== src/Permission/Rules.antt =====
-- The grant store of src/permission.rs: what a grant and a revocation change.
use mathlib.Core.List.{Memᴰ}
use mathlib.Core.List.Memᴰ
use dexvm.Prelude.{
  ◌↔◌, ◌∙◌, ap, ◌≡◌, refl, [], ◌∷◌, ◌++◌, Bool, true, false, ◌&&◌, ◌||◌, not, Bool-cases, inl, inr,
}
use dexvm.Permission.Text.{same_text_self}
use dexvm.Permission.Path.{FileSystem}
use dexvm.Permission.HostRules.{host_matches_iff}
use dexvm.Permission.PathRules.{path_under_self, path_under_trans}
use dexvm.Permission.Grants.{
  FilesystemPermission, NetworkPermission, ProcessPermission, Permission, Permissions,
  covers_filesystem, covers_network, covers_process, covers, has, grant, revoke,
}

or_false : (b : Bool) → b ≡ (b || false)
or_false true = refl
or_false false = refl

module _ (fs : FileSystem) where
  covers_self : (p : Permission) → covers fs p p ≡ true
  unfolding covers covers_filesystem covers_network covers_process
  covers_self (Permission.filesystem FilesystemPermission.any) = refl
  covers_self (Permission.filesystem FilesystemPermission.read) = refl
  covers_self (Permission.filesystem FilesystemPermission.write) = refl
  covers_self (Permission.filesystem (FilesystemPermission.read_path p)) = path_under_self fs p
  covers_self (Permission.filesystem (FilesystemPermission.write_path p)) = path_under_self fs p
  covers_self (Permission.filesystem (FilesystemPermission.path p)) = path_under_self fs p
  covers_self (Permission.network NetworkPermission.any) = refl
  covers_self (Permission.network (NetworkPermission.connect h)) =
      (host_matches_iff h h).1 (inl refl)
  covers_self (Permission.process ProcessPermission.any) = refl
  covers_self (Permission.process (ProcessPermission.command c)) = same_text_self c
  covers_self Permission.env = refl

  -- A filesystem capability that covers another one covers all that the other one covers.
  covers_filesystem_trans :
      (a b c : FilesystemPermission)
      → covers_filesystem fs a b ≡ true
      → covers_filesystem fs b c ≡ true
      → covers_filesystem fs a c ≡ true
  unfolding covers_filesystem
  covers_filesystem_trans FilesystemPermission.any b c ab bc = refl
  covers_filesystem_trans FilesystemPermission.read FilesystemPermission.read c ab bc = bc
  covers_filesystem_trans FilesystemPermission.read (FilesystemPermission.read_path q)
        (FilesystemPermission.read_path r) ab bc =
      refl
  covers_filesystem_trans FilesystemPermission.write FilesystemPermission.write c ab bc = bc
  covers_filesystem_trans FilesystemPermission.write (FilesystemPermission.write_path q)
        (FilesystemPermission.write_path r) ab bc =
      refl
  covers_filesystem_trans (FilesystemPermission.read_path p) (FilesystemPermission.read_path q)
        (FilesystemPermission.read_path r) ab bc =
      path_under_trans fs p q r ab bc
  covers_filesystem_trans (FilesystemPermission.write_path p) (FilesystemPermission.write_path q)
        (FilesystemPermission.write_path r) ab bc =
      path_under_trans fs p q r ab bc
  covers_filesystem_trans (FilesystemPermission.path p) (FilesystemPermission.read_path q)
        (FilesystemPermission.read_path r) ab bc =
      path_under_trans fs p q r ab bc
  covers_filesystem_trans (FilesystemPermission.path p) (FilesystemPermission.write_path q)
        (FilesystemPermission.write_path r) ab bc =
      path_under_trans fs p q r ab bc
  covers_filesystem_trans (FilesystemPermission.path p) (FilesystemPermission.path q)
        (FilesystemPermission.read_path r) ab bc =
      path_under_trans fs p q r ab bc
  covers_filesystem_trans (FilesystemPermission.path p) (FilesystemPermission.path q)
        (FilesystemPermission.write_path r) ab bc =
      path_under_trans fs p q r ab bc
  covers_filesystem_trans (FilesystemPermission.path p) (FilesystemPermission.path q)
        (FilesystemPermission.path r) ab bc =
      path_under_trans fs p q r ab bc
  covers_filesystem_trans a b c ab bc = absurd (cc)

  has-append_last :
      (grants : Permissions fs) (p q : Permission)
      → has fs (grants ++ p ∷ []) q ≡ (has fs grants q || covers fs p q)
  unfolding has
  has-append_last [] p q = elim (Bool-cases (covers fs p q)) [
    | inl t ↦ rw t refl
    | inr f ↦ rw f refl
  ]
  has-append_last (g ∷ grants) p q = elim (Bool-cases (covers fs g q)) [
    | inl t ↦ rw t refl
    | inr f ↦ rw f (has-append_last grants p q)
  ]

  -- After a capability is granted the store allows it, and it allows every capability that it allowed
  -- before.
  pub has-grant :
      (grants : Permissions fs) (p q : Permission)
      → (has fs (grant fs grants p) p ≡ true)
        × (has fs (grant fs grants p) q
            ≡ (has fs grants q || (not (has fs grants p) && covers fs p q)))
  unfolding grant
  has-grant grants p q = elim (Bool-cases (has fs grants p)) [
    | inl t ↦ rw (t, t) (refl, or_false (has fs grants q))
    | inr f ↦
        rw (f, has-append_last grants p p, has-append_last grants p q, f, covers_self p)
          (refl, refl)
  ]

  -- A store allows what one of its grants covers.
  has_iff :
      (grants : Permissions fs) (q : Permission)
      → (has fs grants q ≡ true) ↔ ((g : Permission) × Memᴰ g grants × (covers fs g q ≡ true))
  unfolding has
  has_iff [] q = (λ h. absurd (cc), λ (g, m, c). absurd (Memᴰ.not-nil m))
  has_iff (g ∷ grants) q = elim (Bool-cases (covers fs g q)) [
    | inl t ↦ (λ h. (g, Memᴰ.head refl, t), λ h. rw t refl)
    | inr f ↦ (
      λ h. (let (d, m, c) = (has_iff grants q).0 (rw (f, has) at h) in (d, Memᴰ.tail m, c)),
      λ (d, m, c). elim (Memᴰ.cases_cons m) [
        | inl same ↦ absurd (cc (ap (λ x. covers fs x q) same))
        | inr later ↦ rw (f, has) ((has_iff grants q).1 (d, later, c))
      ],
    )
  ]

  mem-revoke :
      (grants : Permissions fs) (p g : Permission)
      → Memᴰ g (revoke fs grants p) ↔ (Memᴰ g grants × (covers fs g p ≡ false))
  unfolding revoke
  mem-revoke [] p g = (λ m. absurd (Memᴰ.not-nil m), λ h. absurd (Memᴰ.not-nil h.0))
  mem-revoke (d ∷ grants) p g =
      let ih = mem-revoke grants p g in
      let weaken : Memᴰ g grants × (covers fs g p ≡ false)
          → Memᴰ g (d ∷ grants) × (covers fs g p ≡ false) =
        λ (m, kept). (Memᴰ.tail m, kept) in
      elim (Bool-cases (covers fs d p)) [
        | inl t ↦ rw t (
          λ m. weaken (ih.0 m),
          λ (m, kept). elim (Memᴰ.cases_cons m) [
            | inl same ↦ absurd (cc (ap (λ x. covers fs x p) same))
            | inr later ↦ ih.1 (later, kept)
          ],
        )
        | inr f ↦ rw f (
          λ m. elim (Memᴰ.cases_cons m) [
            | inl same ↦ (Memᴰ.head same, ap (λ x. covers fs x p) same ∙ f)
            | inr later ↦ weaken (ih.0 later)
          ],
          λ (m, kept). elim (Memᴰ.cases_cons m) [
            | inl same ↦ Memᴰ.head same
            | inr later ↦ Memᴰ.tail (ih.1 (later, kept))
          ],
        )
      ]

  not_has-revoke :
      (grants : Permissions fs) (p : Permission) → has fs (revoke fs grants p) p ≡ false
  not_has-revoke grants p = elim (Bool-cases (has fs (revoke fs grants p) p)) [
    | inr f ↦ f
    | inl t ↦
        (let (g, m, c) = (has_iff (revoke fs grants p) p).0 t in
          let (old, kept) = (mem-revoke grants p g).0 m in absurd (cc))
  ]

  -- After a capability is revoked the store does not allow it, and it allows what is covered by a grant
  -- that it had before and that does not cover the revoked capability.
  pub has-revoke :
      (grants : Permissions fs) (p q : Permission)
      → (has fs (revoke fs grants p) p ≡ false)
        × ((has fs (revoke fs grants p) q ≡ true)
            ↔ ((g : Permission) × Memᴰ g grants × (covers fs g p ≡ false) × (covers fs g q ≡ true)))
  has-revoke grants p q = (
    not_has-revoke grants p,
    (
      λ h.
          (let (g, m, c) = (has_iff (revoke fs grants p) q).0 h in
            let (old, kept) = (mem-revoke grants p g).0 m in (g, old, kept, c)),
      λ (g, old, kept, c).
          (has_iff (revoke fs grants p) q).1 (g, (mem-revoke grants p g).1 (old, kept), c),
    ),
  )
