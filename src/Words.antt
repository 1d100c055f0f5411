-- ===== src/Words.antt =====
-- Little-endian fields of a byte string, as `struct` packs and unpacks them: `<B`, `<H`, `<I` and
-- `<Q` are widths 1, 2, 4 and 8.
pub mod Utf8
pub mod Layout
use binary_kernel_code_mappi.Prelude.{
  ℕ, zero, suc, ◌+◌, ◌*◌, ◌/◌, ◌%◌, ◌^◌, ◌≤◌, ◌<◌, ◌≡◌, List, [], ◌∷◌, ◌++◌, Option, none, some,
  Bytes, take, drop, true, false, ◌==◌,
}

unfoldable pub le : Bytes → ℕ
le [] = 0
le (b ∷ bs) = b + 256 * le bs

unfoldable pub to_le : ℕ → ℕ → Bytes
to_le zero v = []
to_le (suc w) v = v % 256 ∷ to_le w (v / 256)

-- `blob[off : off + n]`
abbrev pub slice : Bytes → ℕ → ℕ → Bytes
slice blob off n = take n (drop off blob)

-- The unsigned field of `w` bytes at `off`.
unfoldable pub field : Bytes → ℕ → ℕ → ℕ
unfolding le
field blob off w = le (slice blob off w)

-- `struct.unpack_from(f"<{n}I", blob, off)`
unfoldable pub read_u32s : ℕ → Bytes → ℕ → List ℕ
unfolding field
read_u32s zero blob off = []
read_u32s (suc n) blob off = field blob off 4 ∷ read_u32s n blob (off + 4)

-- `struct.pack(f"<{n}I", …)`
unfoldable pub words : List ℕ → Bytes
unfolding to_le
words [] = []
words (v ∷ vs) = to_le 4 v ++ words vs

-- The bytes before the first NUL; `none` where `find(b"\x00")` is -1.
unfoldable pub until_nul : Bytes → Option Bytes
until_nul [] = none
until_nul (b ∷ bs) = elim (b == 0) [
  | true ↦ some []
  | false ↦ elim (until_nul bs) [ none ↦ none | some s ↦ some (b ∷ s) ]
]
