-- ===== src/Examples/Sealing.antt =====
-- AES-GCM of src/vm/crypto.rs with a small cipher in place of AES.
use dexvm.Prelude.{ℕ, ◌+◌, ◌*◌, ◌%◌, ◌^◌, ◌≡◌, ◌↔◌, refl, List, [], ◌∷◌}
use dexvm.Vm.Crypto.{
  Gcm, to_be, from_be, seal, open_sealed, plain, refused, too_short, crypt, inc32,
}
use dexvm.Vm.Crypto.RoundTrip.{open-seal_iff, length-to_be}
use dexvm.Vm.Crypto.Counters.{counter, masked_from, crypt-IsCounterMode}

-- Sixteen bytes to sixteen bytes.
abbrev small_cipher : List ℕ → List ℕ
small_cipher block = to_be 16 (from_be 0 block * 5 + 3)

abbrev small_gcm : Gcm
small_gcm = record { h = 77; cipher = small_cipher }

abbrev vector : List ℕ
vector = 1 ∷ 2 ∷ 3 ∷ []

open-seal_iff_example :
    (open_sealed small_gcm vector (9 ∷ []) (seal small_gcm vector (9 ∷ []) (104 ∷ 105 ∷ []))
      ≡ plain (104 ∷ 105 ∷ []))
    ↔ (seal small_gcm vector (9 ∷ []) (104 ∷ 105 ∷ [])
        ≡ seal small_gcm vector (9 ∷ []) (104 ∷ 105 ∷ []))
open-seal_iff_example =
    open-seal_iff small_gcm vector (9 ∷ []) (λ b. length-to_be 16 (from_be 0 b * 5 + 3))
      (seal small_gcm vector (9 ∷ []) (104 ∷ 105 ∷ [])) (104 ∷ 105 ∷ [])

-- Less than a tag.
short_input : open_sealed small_gcm vector [] (1 ∷ 2 ∷ []) ≡ refused too_short
unfolding open_sealed
short_input = refl

-- The low 32 bits go round.
counter_wraps : inc32 (5 * 2 ^ 32 + 4294967295) ≡ 5 * 2 ^ 32
unfolding inc32
counter_wraps = refl

crypt-IsCounterMode_example :
    (crypt small_gcm 8 ((1 ∷ []) ∷ []) ≡ masked_from small_gcm 8 1 ((1 ∷ []) ∷ []))
    × ((i j : ℕ) → (counter 8 i ≡ counter 8 j) ↔ (i % 2 ^ 32 ≡ j % 2 ^ 32))
crypt-IsCounterMode_example = crypt-IsCounterMode small_gcm 8 ((1 ∷ []) ∷ [])
