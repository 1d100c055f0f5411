-- ===== src/ElfData/Records.antt =====
-- Packed fields are read back where they stand.
use mathlib.Core.List.{append_assoc, append-nil}
use binary_kernel_code_mappi.Prelude.{
  ℕ, ◌+◌, ◌*◌, ◌^◌, ◌<◌, ◌≡◌, sym, ap, ◌∙◌, inl, inr, List, [], ◌∷◌, ◌++◌, Bytes, length,
  length-append, drop, ltb, ltb→lt, Bool-cases, ok, >>=-eq-ok, arith,
}
use binary_kernel_code_mappi.Words.{to_le, field}
use binary_kernel_code_mappi.Words.Layout.{field-to_le, length-to_le}
use binary_kernel_code_mappi.ElfData.{pack, pack_all, pack_records}

-- From `off` on the blob has these fields.
unfoldable pub Reads : Bytes → ℕ → List (ℕ × ℕ) → Type 0
Reads blob off [] = Unit
Reads blob off ((w, v) ∷ fields) = (field blob off w ≡ v) × Reads blob (off + w) fields

unfoldable pub width : List (ℕ × ℕ) → ℕ
width [] = 0
width ((w, v) ∷ fields) = w + width fields

pack-ok : (w v : ℕ) (bytes : Bytes) → pack w v ≡ ok bytes → (v < 256 ^ w) × (to_le w v ≡ bytes)
unfolding pack
pack-ok w v bytes h = elim (Bool-cases (ltb v (256 ^ w))) [
  | inl fits ↦ (ltb→lt v (256 ^ w) fits, (let z = rw (fits, pack) at h in cc))
  | inr large ↦ absurd (let z = rw (large, pack) at h in cc)
]

-- A record that was packed at a cursor is read back there, and the cursor behind it stands before the rest.
pub pack_all-Reads :
    (fields : List (ℕ × ℕ)) (bytes blob rest : Bytes) (off : ℕ)
    → pack_all fields ≡ ok bytes
    → drop off blob ≡ bytes ++ rest
    → Reads blob off fields
      × (drop (off + width fields) blob ≡ rest)
      × (length bytes ≡ width fields)
unfolding pack_all Reads width
pack_all-Reads [] bytes blob rest off h e =
    let nil : [] ≡ bytes = cc in
    let same : off + 0 ≡ off = omega arith in
    (tt, ap (λ k. drop k blob) same ∙ e ∙ ap (λ b. b ++ rest) (sym nil), ap length (sym nil))
pack_all-Reads ((w, v) ∷ fields) bytes blob rest off h e =
    let (front, h1, h2) = >>=-eq-ok (pack w v) _ h in
    let (back, h3, h4) = >>=-eq-ok (pack_all fields) _ h2 in
    let whole : front ++ back ≡ bytes = cc in
    let (fits, is) = pack-ok w v front h1 in
    let e' : drop off blob ≡ to_le w v ++ (back ++ rest) =
      e
      ∙ ap (λ b. b ++ rest) (sym whole)
      ∙ append_assoc front back rest
      ∙ ap (λ f. f ++ (back ++ rest)) (sym is) in
    let (value, behind) = field-to_le w v off blob (back ++ rest) fits e' in
    let (reads, behind', size) = pack_all-Reads fields back blob rest (off + w) h3 behind in
    let far : off + (w + width fields) ≡ off + w + width fields = omega arith in
    let front_size : length front ≡ w = ap length (sym is) ∙ length-to_le w v in
    (
      (value, reads),
      ap (λ k. drop k blob) far ∙ behind',
      ap length (sym whole) ∙ length-append front back ∙ omega (arith, size, front_size),
    )

-- The records of a table, each `n` bytes long.
unfoldable pub ReadsTable : Bytes → ℕ → ℕ → List (List (ℕ × ℕ)) → Type 0
ReadsTable blob n off [] = Unit
ReadsTable blob n off (r ∷ rs) = Reads blob off r × ReadsTable blob n (off + n) rs

unfoldable pub HaveWidth : ℕ → List (List (ℕ × ℕ)) → Type 0
HaveWidth n [] = Unit
HaveWidth n (r ∷ rs) = (width r ≡ n) × HaveWidth n rs

pack_records-at :
    (n : ℕ) (rs : List (List (ℕ × ℕ))) (bytes blob rest : Bytes) (off : ℕ)
    → HaveWidth n rs
    → pack_records rs ≡ ok bytes
    → drop off blob ≡ bytes ++ rest
    → ReadsTable blob n off rs × (length bytes ≡ n * length rs)
unfolding pack_records ReadsTable HaveWidth
pack_records-at n [] bytes blob rest off w h e =
    let nil : [] ≡ bytes = cc in (tt, ap length (sym nil) ∙ omega arith)
pack_records-at n (r ∷ rs) bytes blob rest off (w, ws) h e =
    let (front, h1, h2) = >>=-eq-ok (pack_all r) _ h in
    let (back, h3, h4) = >>=-eq-ok (pack_records rs) _ h2 in
    let whole : front ++ back ≡ bytes = cc in
    let e' = e ∙ ap (λ b. b ++ rest) (sym whole) ∙ append_assoc front back rest in
    let (reads, behind, size) = pack_all-Reads r front blob (back ++ rest) off h1 e' in
    let (table, sizes) = pack_records-at n rs back blob rest (off + n) ws h3 (rw w at behind) in
    (
      (reads, table),
      ap length (sym whole) ∙ length-append front back ∙ omega (arith, size, sizes, w),
    )

pub pack_records-ReadsTable :
    (n : ℕ) (rs : List (List (ℕ × ℕ))) (bytes : Bytes)
    → HaveWidth n rs
    → pack_records rs ≡ ok bytes
    → ReadsTable bytes n 0 rs × (length bytes ≡ n * length rs)
pack_records-ReadsTable n rs bytes w h =
    pack_records-at n rs bytes bytes [] 0 w h (sym (append-nil bytes))
