-- ===== src/Krg/Load/Strings.antt =====
-- The strings of a table are read back at the offsets where they were laid out.
use binary_kernel_code_mappi.Prelude.{
  ℕ, ◌+◌, ◌≡◌, ◌≢◌, refl, false, List, [], ◌∷◌, ◌++◌, Bytes, Text, All, length, length-append,
  drop-append, leb, ok, arith,
}
use mathlib.Core.List.{append_assoc}
use binary_kernel_code_mappi.Words.Utf8.{IsAscii, decode-ascii}
use binary_kernel_code_mappi.Words.Layout.{until_nul-append}
use binary_kernel_code_mappi.Krg.{KrgResolvedSymbol}
use binary_kernel_code_mappi.Krg.Load.{
  LoadError, RawNode, string_at, module_strings, symbol, symbols, invalid_module_offset,
  unterminated_module_string, invalid_name_offset, unterminated_string,
}
use binary_kernel_code_mappi.Krg.Load.Save.{string_offsets, string_blob}

-- A name that survives the trip: ASCII without NUL.
abbrev pub IsName : Text → Type 0
IsName s = IsAscii s × All (λ b. b ≢ 0) s

string_at-append :
    (invalid unterminated : ℕ → LoadError) (front s rest : Bytes)
    → IsName s
    → string_at invalid unterminated (front ++ (s ++ 0 ∷ rest)) (length front) ≡ ok s
unfolding string_at
string_at-append invalid unterminated front s rest (ascii, no_nul) =
    let size = length-append front (s ++ 0 ∷ rest) in
    let size' = length-append s (0 ∷ rest) in
    let inside : leb (length (front ++ (s ++ 0 ∷ rest))) (length front) ≡ false = ground arith in
    rw (
      inside,
      drop-append front (s ++ 0 ∷ rest),
      until_nul-append s rest no_nul,
      decode-ascii s ascii,
    )

next_front : (front s rest : Bytes) → front ++ (s ++ 0 ∷ rest) ≡ (front ++ (s ++ 0 ∷ [])) ++ rest
next_front front s rest = simp append_assoc

length-next_front :
    (front s : Bytes) → length (front ++ (s ++ 0 ∷ [])) ≡ length front + (length s + 1)
length-next_front front s =
    omega (arith, length-append front (s ++ 0 ∷ []), length-append s (0 ∷ []))

pub module_strings-layout :
    (ss : List Text) (front : Bytes)
    → All IsName ss
    → module_strings (front ++ string_blob ss) (string_offsets (length front) ss) ≡ ok ss
unfolding module_strings string_offsets string_blob
module_strings-layout [] front h = refl
module_strings-layout (s ∷ ss) front (hs, hss) =
    let n = length-next_front front s in
    let rest : module_strings (front ++ (s ++ 0 ∷ string_blob ss))
          (string_offsets (length front + (length s + 1)) ss)
        ≡ ok ss =
      rw (next_front front s (string_blob ss), ← n)
        (module_strings-layout ss (front ++ (s ++ 0 ∷ [])) hss) in
    rw (
      string_at-append invalid_module_offset unterminated_module_string front s (string_blob ss) hs,
      rest,
    )

-- The nodes with their names.
abbrev pub named : List Text → List RawNode → List Text → List KrgResolvedSymbol
named modules (r ∷ rs) (s ∷ ss) = symbol modules r s ∷ named modules rs ss
named modules _ _ = []

pub symbols-layout :
    (modules : List Text) (rs : List RawNode) (ss : List Text) (front : Bytes)
    → All IsName ss
    → symbols modules (front ++ string_blob ss) rs (string_offsets (length front) ss)
      ≡ ok (named modules rs ss)
unfolding symbols string_offsets string_blob
symbols-layout modules [] ss front h = refl
symbols-layout modules (r ∷ rs) [] front h = refl
symbols-layout modules (r ∷ rs) (s ∷ ss) front (hs, hss) =
    let n = length-next_front front s in
    let rest : symbols modules (front ++ (s ++ 0 ∷ string_blob ss)) rs
          (string_offsets (length front + (length s + 1)) ss)
        ≡ ok (named modules rs ss) =
      rw (next_front front s (string_blob ss), ← n)
        (symbols-layout modules rs ss (front ++ (s ++ 0 ∷ [])) hss) in
    rw (string_at-append invalid_name_offset unterminated_string front s (string_blob ss) hs, rest)
