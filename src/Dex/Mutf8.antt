-- ===== src/Dex/Mutf8.antt =====
-- `decode_mutf8` of src/dex/read.rs. A string's bytes are taken from the place `i` on, so that `bytes[i]` is
-- the first of them. `String::from_utf8_lossy` of Rust's library is a parameter.
pub mod RoundTrip
use dexvm.Prelude.{
  ℕ, zero, suc, ◌+◌, List, [], ◌∷◌, ◌++◌, Bool, true, false, ok, stuck, length, take, drop, ltb,
  ◌==◌, ◌&&◌, if◌then◌else◌,
}
use dexvm.Dex.Error.{DexResult, fail, ◌>>=◌, truncated_utf8}

-- What a round of the loop does: it breaks, it passes so many bytes and pushes some, or it fails.
pub data Chunk : Type 0 where
  breaks : Chunk
  pushes : ℕ → List ℕ → Chunk
  truncated : Chunk

-- A lead byte with the `n - 1` bytes behind it.
abbrev pub whole : ℕ → List ℕ → Chunk
whole n bytes = if ltb (length bytes) n then Chunk.truncated else Chunk.pushes n (take n bytes)

-- `i + 1 < bytes.len() && bytes[i + 1] == 0x80`
abbrev pub starts_with_80 : List ℕ → Bool
starts_with_80 [] = false
starts_with_80 (b ∷ bytes) = b == 0x80

unfoldable pub chunk_of : List ℕ → Chunk
chunk_of [] = Chunk.breaks
chunk_of (b ∷ bytes) =
    if b == 0
    then Chunk.breaks
    else if b == 0xc0 && starts_with_80 bytes
    then Chunk.pushes 2 (0 ∷ [])
    else if ltb b 0x80
    then Chunk.pushes 1 (b ∷ [])
    else if ltb b 0xe0
    then whole 2 (b ∷ bytes)
    else if ltb b 0xf0
    then whole 3 (b ∷ bytes)
    else whole 4 (b ∷ bytes)

-- The loop, on fuel; it ends at the end of the bytes as it does at a byte 0.
unfoldable pub mutf8_loop : ℕ → ℕ → List ℕ → List ℕ → DexResult (List ℕ)
mutf8_loop fuel i [] out = ok out
mutf8_loop zero i (b ∷ bytes) out = stuck
mutf8_loop (suc fuel) i (b ∷ bytes) out = elim (chunk_of (b ∷ bytes)) [
  | Chunk.breaks ↦ ok out
  | Chunk.truncated ↦ fail i truncated_utf8
  | Chunk.pushes n pushed ↦ mutf8_loop fuel (i + n) (drop n (b ∷ bytes)) (out ++ pushed)
]

module _ {S : Type 0} (from_utf8_lossy : List ℕ → S) where
  unfoldable pub decode_mutf8 : List ℕ → DexResult S
  decode_mutf8 bytes = do out ← mutf8_loop (length bytes) 0 bytes []; ok (from_utf8_lossy out)
