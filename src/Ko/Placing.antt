-- ===== src/Ko/Placing.antt =====
-- Where the sections lie in the layout of a module, and what its images hold.
use mathlib.Core.Path.{subst}
use binary_kernel_code_mappi.Prelude.{
  ℕ, ◌+◌, ◌-◌, ◌^◌, ◌≤◌, ◌<◌, max, ◌≡◌, refl, sym, ap, ◌∙◌, inl, inr, Bool, true, false, not, ◌&&◌,
  ◌||◌, List, [], ◌∷◌, Option, Bytes, All, length, length-take, length-drop, length-replicate,
  get_elem?, replicate, select, ltb, ltb→ge, ◌==◌, Bool-cases, if◌then◌else◌, ok, >>=-eq-ok, arith,
}
use binary_kernel_code_mappi.Align.{page_size, align}
use binary_kernel_code_mappi.Align.Bounds.{align-least, align_page}
use binary_kernel_code_mappi.Words.{slice}
use binary_kernel_code_mappi.Thunks.{write_at}
use binary_kernel_code_mappi.Thunks.Writes.{length-write_at, get_elem?-write_at}
use binary_kernel_code_mappi.Ko.{
  KoSection, KoFile, KoError, truncated_section, content, is_alloc, is_exec, is_write,
}
use binary_kernel_code_mappi.Ko.CoreLayout.{
  Slot, is_core_section, place_sections, sht_nobits, fill_image, KoCoreLayout, core_sections,
  data_relocs, compute_core_layout,
}

-- The slots follow each other without overlap from `first` up to `last`.
abbrev pub AreSlots : ℕ → List Slot → ℕ → Type 0
AreSlots first [] last = first ≤ last
AreSlots first (s ∷ ss) last = (first ≤ s.offset) × AreSlots (s.offset + s.section.sh_size) ss last

-- As ELF demands: the alignment is 0, or a power of two.
abbrev pub IsAlignment : KoSection → Type 0
IsAlignment s = (k : ℕ) × (max 1 s.sh_addralign ≡ 2 ^ k)

place_sections-AreSlots :
    (cursor : ℕ) (secs : List KoSection)
    → All IsAlignment secs
    → (let (slots, last) = place_sections cursor secs in AreSlots cursor slots last)
unfolding place_sections
place_sections-AreSlots cursor [] h = omega arith
place_sections-AreSlots cursor (s ∷ ss) ((k, e), hs) =
    let (_, up, _) = align-least cursor k in
    (rw e up, place_sections-AreSlots (align cursor (max 1 s.sh_addralign) + s.sh_size) ss hs)

-- Not skipped by the loop that fills an image.
abbrev pub IsFilled : Slot → Type 0
IsFilled s = (s.section.sh_size == 0 || s.section.sh_type == sht_nobits) ≡ false

-- The image, which starts at `base`, has the content of the section at its offset.
abbrev pub HasContent : Bytes → ℕ → Bytes → Slot → Type 0
HasContent blob base image s =
    IsFilled s
    → (i : ℕ) → i < s.section.sh_size
    → get_elem? image (s.offset - base + i)
      ≡ get_elem? (slice blob s.section.sh_offset s.section.sh_size) i

content-ok :
    (e : KoError) (blob : Bytes) (sec : KoSection) (bytes : Bytes)
    → content e blob sec ≡ ok bytes
    → (slice blob sec.sh_offset sec.sh_size ≡ bytes) × (length bytes ≡ sec.sh_size)
unfolding content
content-ok e blob sec bytes h =
    elim (Bool-cases (ltb (length blob) (sec.sh_offset + sec.sh_size))) [
      | inl short ↦ absurd (let z = rw (short, content) at h in cc)
      | inr long ↦
          let same : slice blob sec.sh_offset sec.sh_size ≡ bytes =
            let z = rw (long, content) at h in cc in
          let enough = ltb→ge _ _ long in
          let size : length (slice blob sec.sh_offset sec.sh_size) ≡ sec.sh_size =
            length-take sec.sh_size _ ∙ omega (arith, length-drop sec.sh_offset blob) in
          (same, rw same at size)
    ]

-- What lies before the slots is not written.
Kept : Bytes → Bytes → ℕ → Type 0
Kept image image' bound = (j : ℕ) → j < bound → get_elem? image' j ≡ get_elem? image j

AreSlots-le : (first last : ℕ) (ss : List Slot) → AreSlots first ss last → first ≤ last
AreSlots-le first last [] h = h
AreSlots-le first last (s ∷ ss) (h, hs) =
    omega (arith, AreSlots-le (s.offset + s.section.sh_size) last ss hs)

-- The two cases of a write that are needed: inside the code, and before it.
written :
    (off n i : ℕ)
    → i < n
    → (old : Option ℕ) (code : Bytes)
    → (if ltb (off + i) off
        then old
        else if ltb (off + i) (off + n)
        then get_elem? code (off + i - off)
        else old)
      ≡ get_elem? code i
written off n i lt old code =
    let a : ltb (off + i) off ≡ false = ground arith in
    let b : ltb (off + i) (off + n) ≡ true = ground arith in
    let c : off + i - off ≡ i = omega arith in rw (a, b, c) refl

before :
    (off n j : ℕ)
    → j < off
    → (old new : Option ℕ) → (if ltb j off then old else if ltb j (off + n) then new else old) ≡ old
before off n j lt old new = let a : ltb j off ≡ true = ground arith in rw a refl

fill_image-content :
    (blob : Bytes) (base first last : ℕ) (slots : List Slot) (image image' : Bytes)
    → base ≤ first
    → AreSlots first slots last
    → last ≤ base + length image
    → fill_image blob base slots image ≡ ok image'
    → All (HasContent blob base image') slots
      × Kept image image' (first - base)
      × (length image' ≡ length image)
unfolding fill_image Kept
fill_image-content blob base first last [] image image' low slots fits h =
    let same : image ≡ image' = cc in
    (tt, (λ j lt. ap (λ b. get_elem? b j) (sym same)), ap length (sym same))
fill_image-content blob base first last (s ∷ ss) image image' low (above, slots) fits h =
    elim (Bool-cases (s.section.sh_size == 0 || s.section.sh_type == sht_nobits)) [
      | inl skip ↦
          let rest = rw (skip, fill_image) at h in
          let (all, kept, size) =
            fill_image-content blob base (s.offset + s.section.sh_size) last ss image image'
              (omega arith) slots fits rest in
          (
            (λ on. absurd (let z : true ≡ false = sym skip ∙ on in cc), all),
            (λ j lt. kept j (omega arith)),
            size,
          )
      | inr fill ↦
          let (bytes, got, h2) =
            >>=-eq-ok (content (truncated_section s.section.name) blob s.section) _
              (rw (fill, fill_image) at h) in
          let (same, n) = content-ok (truncated_section s.section.name) blob s.section bytes got in
          let off = s.offset - base in
          let inside : s.offset + s.section.sh_size ≤ last =
            AreSlots-le (s.offset + s.section.sh_size) last ss slots in
          let room : off + length bytes ≤ length image = omega arith in
          let next = write_at image off bytes in
          let size' : length next ≡ length image = length-write_at image off bytes room in
          let (all, kept, size) =
            fill_image-content blob base (s.offset + s.section.sh_size) last ss next image'
              (omega arith) slots (omega arith) h2 in
          (
            (
              (λ on i lt.
                  kept (off + i) (omega arith)
                  ∙ get_elem?-write_at image off bytes (off + i) room
                  ∙ written off (length bytes) i (rw n lt) (get_elem? image (off + i)) bytes
                  ∙ ap (λ b. get_elem? b i) (sym same)),
              all,
            ),
            (λ j lt.
                kept j (omega arith)
                ∙ get_elem?-write_at image off bytes j room
                ∙ before off (length bytes) j (omega arith) _ _),
            size ∙ size',
          )
    ]

module _ (P : KoSection → Type 0) where
  All-select : (p : KoSection → Bool) (secs : List KoSection) → All P secs → All P (select p secs)
  All-select p [] h = tt
  All-select p (s ∷ ss) (h, hs) = elim (Bool-cases (p s)) [
    | inl on ↦ rw (on, select) (h, All-select p ss hs)
    | inr off ↦ rw (off, select) (All-select p ss hs)
  ]

  All-core_sections :
      (kind : KoSection → Bool) (secs : List KoSection)
      → All P secs
      → All P (core_sections kind secs)
  unfolding core_sections
  All-core_sections kind secs h =
      All-select (λ s. is_alloc s && is_core_section s.name && kind s) secs h

AreSlots-page :
    (first last : ℕ) (ss : List Slot)
    → AreSlots first ss last
    → AreSlots first ss (align last page_size)
AreSlots-page first last [] h = omega (arith, align_page last)
AreSlots-page first last (s ∷ ss) (h, hs) =
    (h, AreSlots-page (s.offset + s.section.sh_size) last ss hs)

-- Where the layout of a module is computed, its text, its read-only data and its data follow each other, and in each
-- the sections do not overlap; each image has the size of its part, and at the offset of each section that the file
-- stores the content of the section. Every section has alignment 0 or a power of two.
pub compute_core_layout-images :
    (ko : KoFile) (l : KoCoreLayout)
    → All IsAlignment ko.sections
    → compute_core_layout ko ≡ ok l
    → AreSlots 0 l.text l.text_end
      × AreSlots l.text_end l.ro l.ro_end
      × AreSlots l.ro_end l.data_slots l.data_end
      × (length l.ro_image ≡ l.ro_end - l.text_end)
      × (length l.data_image ≡ l.data_end - l.ro_end)
      × All (HasContent ko.blob l.text_end l.ro_image) l.ro
      × All (HasContent ko.blob l.ro_end l.data_image) l.data_slots
unfolding compute_core_layout
compute_core_layout-images ko l aligned h =
    let ro_kind : KoSection → Bool = λ s. not (is_exec s) && not (is_write s) in
    let (text, text_last) = place_sections 0 (core_sections is_exec ko.sections) in
    let text_end = align text_last page_size in
    let (ro, ro_last) = place_sections text_end (core_sections ro_kind ko.sections) in
    let ro_end = align ro_last page_size in
    let (slots, data_last) = place_sections ro_end (core_sections is_write ko.sections) in
    let data_end = align data_last page_size in
    let t = AreSlots-page 0 text_last text (
      place_sections-AreSlots 0 (core_sections is_exec ko.sections)
        (All-core_sections IsAlignment is_exec ko.sections aligned)) in
    let r = AreSlots-page text_end ro_last ro (
      place_sections-AreSlots text_end (core_sections ro_kind ko.sections)
        (All-core_sections IsAlignment ro_kind ko.sections aligned)) in
    let d = AreSlots-page ro_end data_last slots (
      place_sections-AreSlots ro_end (core_sections is_write ko.sections)
        (All-core_sections IsAlignment is_write ko.sections aligned)) in
    let (ro_image, h1, k1) =
      >>=-eq-ok (fill_image ko.blob text_end ro (replicate (ro_end - text_end) 0)) _ h in
    let (data_image, h2, k2) =
      >>=-eq-ok (fill_image ko.blob ro_end slots (replicate (data_end - ro_end) 0)) _ k1 in
    let (relocs, h3, k3) =
      >>=-eq-ok (data_relocs ko.blob ko.symbols slots ro_end ko.sections) _ k2 in
    let ro_le = AreSlots-le text_end ro_end ro r in
    let data_le = AreSlots-le ro_end data_end slots d in
    let ro_size : length {A = ℕ} (replicate (ro_end - text_end) 0) ≡ ro_end - text_end =
      length-replicate (ro_end - text_end) 0 in
    let data_size : length {A = ℕ} (replicate (data_end - ro_end) 0) ≡ data_end - ro_end =
      length-replicate (data_end - ro_end) 0 in
    let (ro_all, _, ro_len) =
      fill_image-content ko.blob text_end text_end ro_end ro _ ro_image (omega arith) r
        (omega arith) h1 in
    let (data_all, _, data_len) =
      fill_image-content ko.blob ro_end ro_end data_end slots _ data_image (omega arith) d
        (omega arith) h2 in
    let result : KoCoreLayout = record {
      text = text;
      ro = ro;
      data_slots = slots;
      text_end = text_end;
      ro_end = ro_end;
      data_end = data_end;
      ro_image = ro_image;
      data_image = data_image;
      relocs = relocs;
    } in
    let same : result ≡ l = cc in
    subst
      (λ x.
        AreSlots 0 x.text x.text_end
        × AreSlots x.text_end x.ro x.ro_end
        × AreSlots x.ro_end x.data_slots x.data_end
        × (length x.ro_image ≡ x.ro_end - x.text_end)
        × (length x.data_image ≡ x.data_end - x.ro_end)
        × All (HasContent ko.blob x.text_end x.ro_image) x.ro
        × All (HasContent ko.blob x.ro_end x.data_image) x.data_slots)
      same (t, r, d, ro_len ∙ ro_size, data_len ∙ data_size, ro_all, data_all)
