-- ===== src/Permission/HostPorts.antt =====
-- Which allowed hosts name a port, for `explicit_port` of src/permission.rs.
use dexvm.Prelude.{
  ℕ, ◌≤◌, ◌≡◌, ◌≢◌, refl, arith, [], ◌∷◌, ◌++◌, Bool, true, false, ◌&&◌, ◌||◌, not, none, some,
  ◌==◌, ◌⊎◌, inl, inr, All, Bool-cases, Option-cases,
}
use mathlib.Core.List.{Memᴰ}
use mathlib.Core.List.Memᴰ
use dexvm.Permission.Text.{Text, all, contains, rsplit_once, is_ascii_digit}
use dexvm.Permission.Host.{colon, is_empty, bracketed, explicit_port}

-- The digits from 0 to 9.
abbrev pub Digits : Text → Type 0
Digits = All (λ c. (48 ≤ c) × (c ≤ 57))

-- The text is a host that is not empty, a colon and digits, which may be none. Where the host has colons of its
-- own, as an IPv6 address has, it begins with a bracket.
pub record NamesPort (value : Text) : Type 0 where
  pub host : Text
  pub port : Text
  pub split : value ≡ host ++ colon ∷ port
  pub filled : host ≢ []
  pub digits : Digits port
  pub unambiguous : ((rest : Text) × (host ≡ 91 ∷ rest)) ⊎ (¬ Memᴰ colon host)

pub Digits-all : (t : Text) → all is_ascii_digit t ≡ true → Digits t
Digits-all [] h = tt
Digits-all (x ∷ xs) h = elim (Bool-cases (is_ascii_digit x)) [
  | inl e ↦
      (let rest : all is_ascii_digit xs ≡ true = rw e at h in
        (ground (arith, e), Digits-all xs rest))
  | inr e ↦ (let no : false ≡ true = rw e at h in absurd (cc))
]

pub all-Digits : (t : Text) → Digits t → all is_ascii_digit t ≡ true
all-Digits [] h = refl
all-Digits (x ∷ xs) (h, hs) =
    let e : is_ascii_digit x ≡ true = ground arith in rw e (all-Digits xs hs)

rsplit_once-Digits : (port : Text) → Digits port → rsplit_once colon port ≡ none
rsplit_once-Digits [] h = refl
rsplit_once-Digits (x ∷ xs) (h, hs) =
    let e : (x == colon) ≡ false = ground arith in rw (rsplit_once-Digits xs hs, e) refl

rsplit_once-append :
    (host port : Text) → Digits port → rsplit_once colon (host ++ colon ∷ port) ≡ some (host, port)
rsplit_once-append [] port h = rw (rsplit_once-Digits port h) refl
rsplit_once-append (x ∷ host) port h = rw (rsplit_once-append host port h) refl

eq_append_of_rsplit_once :
    (value host port : Text)
    → rsplit_once colon value ≡ some (host, port)
    → value ≡ host ++ colon ∷ port
eq_append_of_rsplit_once [] host port h = absurd (cc)
eq_append_of_rsplit_once (x ∷ xs) host port h = elim (Option-cases (rsplit_once colon xs)) [
  | inr ((before, after), e) ↦
      (let q : some (x ∷ before, after) ≡ some (host, port) = rw e at h in
        let ih = eq_append_of_rsplit_once xs before after e in
        let first : x ∷ before ≡ host = cc in
        let last : after ≡ port = cc in rw⁻¹ (first, last) (rw ih refl))
  | inl e ↦ elim (Bool-cases (x == colon)) [
    | inl t ↦
        (let q : some ([], xs) ≡ some (host, port) = rw (e, t) at h in
          let same : x ≡ colon = ground (arith, t) in
          let first : [] ≡ host = cc in
          let last : xs ≡ port = cc in rw⁻¹ (first, last) (rw same refl))
    | inr f ↦ (let no : none ≡ some (host, port) = rw (e, f) at h in absurd (cc))
  ]
]

not-mem_of_contains : (c : ℕ) (t : Text) → contains c t ≡ false → ¬ Memᴰ c t
not-mem_of_contains c [] h m = Memᴰ.not-nil m
not-mem_of_contains c (x ∷ xs) h m = elim (Bool-cases (x == c)) [
  | inl e ↦ (let no : true ≡ false = rw e at h in absurd (cc))
  | inr e ↦
      (let rest : contains c xs ≡ false = rw e at h in
        elim (Memᴰ.cases_cons m) [
          | inl same ↦ absurd (ground (arith, same, e))
          | inr later ↦ not-mem_of_contains c xs rest later
        ])
]

contains-not_mem : (c : ℕ) (t : Text) → ¬ Memᴰ c t → contains c t ≡ false
contains-not_mem c [] h = refl
contains-not_mem c (x ∷ xs) h = elim (Bool-cases (x == c)) [
  | inl e ↦ (let same : c ≡ x = ground (arith, e) in absurd (h (Memᴰ.head same)))
  | inr e ↦ rw e (contains-not_mem c xs (λ m. h (Memᴰ.tail m)))
]

-- What the three tests say of a host and a port.
accepted : Text → Text → Bool
accepted host port =
    not (is_empty host) && all is_ascii_digit port && (bracketed host || not (contains colon host))

bracketed-cases : (host : Text) → bracketed host ≡ true → (rest : Text) × (host ≡ 91 ∷ rest)
bracketed-cases [] h = absurd (cc)
bracketed-cases (c ∷ cs) h = let e : c ≡ 91 = ground (arith, h) in (cs, rw e refl)

accepted-NamesPort :
    (value host port : Text)
    → value ≡ host ++ colon ∷ port
    → accepted host port ≡ true
    → NamesPort value
unfolding accepted
accepted-NamesPort value [] port e h = absurd (cc)
accepted-NamesPort value (c ∷ cs) port e h =
    let host = c ∷ cs in
    let digits : all is_ascii_digit port ≡ true = ground (arith, h) in
    let shape : bracketed host || not (contains colon host) ≡ true = ground (arith, h) in
    record {
      host = host;
      port = port;
      split = e;
      filled = λ none'. cc;
      digits = Digits-all port digits;
      unambiguous = elim (Bool-cases (bracketed host)) [
        | inl b ↦ inl (bracketed-cases host b)
        | inr b ↦ elim (Bool-cases (contains colon host)) [
          | inl m ↦ (let no : false ≡ true = rw (b, m) at shape in absurd (cc))
          | inr m ↦ inr (not-mem_of_contains colon host m)
        ]
      ];
    }

pub explicit_port-NamesPort : (value : Text) → explicit_port value ≡ true → NamesPort value
unfolding explicit_port accepted
explicit_port-NamesPort value h = elim (Option-cases (rsplit_once colon value)) [
  | inl e ↦ (let no : false ≡ true = rw (e, explicit_port) at h in absurd (cc))
  | inr ((host, port), e) ↦
      (let good : accepted host port ≡ true = rw (e, explicit_port) at h in
        accepted-NamesPort value host port (eq_append_of_rsplit_once value host port e) good)
]

accepted_lem :
    (host port : Text)
    → host ≢ []
    → Digits port
    → ((rest : Text) × (host ≡ 91 ∷ rest)) ⊎ (¬ Memᴰ colon host)
    → accepted host port ≡ true
unfolding accepted
accepted_lem [] port filled digits u = absurd (filled refl)
accepted_lem (c ∷ cs) port filled digits (inl (rest, e)) =
    let same : c ≡ 91 = cc in rw (all-Digits port digits, same) refl
accepted_lem (c ∷ cs) port filled digits (inr no_colon) =
    rw (all-Digits port digits, contains-not_mem colon (c ∷ cs) no_colon)
      (elim (Bool-cases (c == 91)) [ inl t ↦ rw t refl | inr f ↦ rw f refl ])

pub NamesPort-explicit_port : (value : Text) → NamesPort value → explicit_port value ≡ true
unfolding explicit_port accepted
NamesPort-explicit_port value n =
    rw (n.split, explicit_port, rsplit_once-append n.host n.port n.digits)
      (accepted_lem n.host n.port n.filled n.digits n.unambiguous)
