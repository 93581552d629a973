-- ===== src/Permission/HostRules.antt =====
-- What `host_matches` of src/permission.rs accepts.
use dexvm.Prelude.{
  ◌≡◌, refl, sym, ◌∙◌, ◌∷◌, [], ◌++◌, true, false, ◌⊎◌, ◌↔◌, inl, inr, Bool-cases, Option-cases,
}
use dexvm.Permission.Text.{
  Text, same_text, strip_prefix, all, is_ascii_digit, to_ascii_lowercase, same_text_self,
  same_text-true, strip_prefix-append, eq_append_of_strip_prefix,
}
use dexvm.Permission.HostPorts.{
  Digits, NamesPort, Digits-all, all-Digits, explicit_port-NamesPort, NamesPort-explicit_port,
}
use dexvm.Permission.Host.{colon, explicit_port, digits_after_colon, matches_lower, host_matches}

-- The targets of an allowed host: the host itself, or, where it names no port, the host with a colon and
-- digits.
abbrev pub Targets : Text → Text → Type 0
Targets allow target =
    (target ≡ allow)
    ⊎ (¬ NamesPort allow × ((port : Text) × (target ≡ allow ++ colon ∷ port) × Digits port))

digits_after_colon_lem :
    (rest : Text)
    → digits_after_colon rest ≡ true
    → (port : Text) × (rest ≡ colon ∷ port) × (all is_ascii_digit port ≡ true)
digits_after_colon_lem rest h = elim (Option-cases (strip_prefix (colon ∷ []) rest)) [
  | inl e ↦ (let no : false ≡ true = rw (e, digits_after_colon) at h in absurd (cc))
  | inr (port, e) ↦
      (let digits : all is_ascii_digit port ≡ true = rw (e, digits_after_colon) at h in
        (port, eq_append_of_strip_prefix (colon ∷ []) rest port e, digits))
]

matches_lower-Targets :
    (allow target : Text) → matches_lower allow target ≡ true → Targets allow target
unfolding matches_lower
matches_lower-Targets allow target h = elim (Bool-cases (explicit_port allow)) [
  | inl e ↦
      (let same : same_text target allow ≡ true = rw e at h in
        inl (same_text-true target allow same))
  | inr e ↦ elim (Bool-cases (same_text target allow)) [
    | inl same ↦ inl (same_text-true target allow same)
    | inr other ↦ elim (Option-cases (strip_prefix allow target)) [
      | inl none_left ↦ (let no : false ≡ true = rw (e, other, none_left) at h in absurd (cc))
      | inr (rest, left) ↦
          (let found : digits_after_colon rest ≡ true = rw (e, other, left) at h in
            let (port, split, digits) = digits_after_colon_lem rest found in
            inr (
              (λ n. let no : false ≡ true = sym e ∙ NamesPort-explicit_port allow n in absurd (cc)),
              (
                port,
                rw (sym split) (eq_append_of_strip_prefix allow target rest left),
                Digits-all port digits,
              ),
            ))
    ]
  ]
]

Targets-matches_lower :
    (allow target : Text) → Targets allow target → matches_lower allow target ≡ true
unfolding matches_lower
Targets-matches_lower allow target (inl e) =
    rw (e, same_text_self allow)
      (elim (Bool-cases (explicit_port allow)) [ inl t ↦ rw t refl | inr f ↦ rw f refl ])
Targets-matches_lower allow target (inr (no_port, (port, e, digits))) =
    let unnamed : explicit_port allow ≡ false = elim (Bool-cases (explicit_port allow)) [
      | inl t ↦ absurd (no_port (explicit_port-NamesPort allow t))
      | inr f ↦ f
    ] in
    let digits' = all-Digits port digits in
    rw (e, unnamed, strip_prefix-append allow (colon ∷ port))
      (elim (Bool-cases (same_text (allow ++ colon ∷ port) allow)) [
        | inl t ↦ rw t refl
        | inr f ↦ rw (f, digits') refl
      ])

-- Up to the case of ASCII letters, an allowed host accepts itself, and, where it names no port, itself
-- with a colon and digits behind it; it accepts nothing else. It names a port where it is a host that is not
-- empty, a colon and digits, and the host begins with a bracket or has no colon; there may be no digits.
pub host_matches_iff :
    (allow target : Text)
    → (host_matches allow target ≡ true)
      ↔ Targets (to_ascii_lowercase allow) (to_ascii_lowercase target)
unfolding host_matches
host_matches_iff allow target = (
  matches_lower-Targets (to_ascii_lowercase allow) (to_ascii_lowercase target),
  Targets-matches_lower (to_ascii_lowercase allow) (to_ascii_lowercase target),
)
