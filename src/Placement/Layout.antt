-- ===== src/Placement/Layout.antt =====
-- The places of the sections in the file.
use binary_kernel_code_mappi.Prelude.{
  ℕ, ◌+◌, ◌*◌, ◌/◌, ◌%◌, ◌≤◌, max, ◌≡◌, refl, ◌∙◌, ◌⊎◌, inl, inr, List, [], ◌∷◌, ◌++◌, Option, none,
  some, All, arith,
}
use binary_kernel_code_mappi.Prelude.Int.{pos}
use binary_kernel_code_mappi.Align.{page_size, align}
use binary_kernel_code_mappi.Align.Bounds.{align_pow, align_page}
use binary_kernel_code_mappi.Regions.{Region}
use binary_kernel_code_mappi.Placement.{
  text_base_vaddr, text_base_offset, Place, max_end, add_size, place_region, place_regions,
  place_text, Content, place_rw, place_rest, base_or, Placed, assign_offsets_and_addresses,
}

-- From `first` up to `last` the places follow each other without overlap.
abbrev pub IsLaidOut : ℕ → List Place → ℕ → Type 0
IsLaidOut first [] last = first ≤ last
IsLaidOut first (p ∷ ps) last = (first ≤ p.offset) × IsLaidOut (p.offset + p.size) ps last

abbrev pub IsOnPage : Place → Type 0
IsOnPage p = p.offset % 4096 ≡ 0

-- The offset in the file and the address agree within a page, as the loader maps pages.
abbrev pub IsCongruent : Place → Type 0
IsCongruent p = (a : ℕ) × (p.addr ≡ pos a) × (p.offset % 4096 ≡ a % 4096)

-- The alignments that the program gives to these sections.
abbrev pub IsSmall : Content → Type 0
IsSmall s = (s.alignment ≡ 1) ⊎ (s.alignment ≡ 8)

IsLaidOut-append :
    (a b c : ℕ) (ps qs : List Place)
    → IsLaidOut a ps b
    → IsLaidOut b qs c
    → IsLaidOut a (ps ++ qs) c
IsLaidOut-append a b c [] [] h k = omega arith
IsLaidOut-append a b c [] (q ∷ qs) h (k, ks) = (omega arith, ks)
IsLaidOut-append a b c (p ∷ ps) qs (h, hs) k =
    (h, IsLaidOut-append (p.offset + p.size) b c ps qs hs k)

align_one : (v : ℕ) → align v 1 ≡ v
align_one v = align_pow v 0 ∙ omega arith

align_eight : (v : ℕ) → align v 8 ≡ 8 * ((v + 7) / 8)
align_eight v = align_pow v 3

-- At a small alignment the cursors move up, and alike within a page.
align-small :
    (s : Content) (x y : ℕ)
    → IsSmall s
    → (x ≤ align x (max 1 s.alignment))
      × (x % 4096 ≡ y % 4096
          → align x (max 1 s.alignment) % 4096 ≡ align y (max 1 s.alignment) % 4096)
align-small s x y (inl e) =
    let one : max 1 s.alignment ≡ 1 = omega arith in
    rw (one, align_one x, align_one y) (omega arith, λ h. h)
align-small s x y (inr e) =
    let eight : max 1 s.alignment ≡ 8 = omega arith in
    rw (eight, align_eight x, align_eight y) (omega arith, λ h. omega arith)

place_regions-laid :
    (tmin offset last : ℕ) (regions : List Region)
    → (let (places, end, _) = place_regions tmin offset last regions in
        IsLaidOut offset places end × All IsOnPage places)
unfolding place_regions place_region
place_regions-laid tmin offset last [] = (omega arith, tt)
place_regions-laid tmin offset last (r ∷ regions) =
    let up = align_page offset in
    let above : offset ≤ align offset page_size = omega arith in
    let page : align offset page_size % 4096 ≡ 0 = omega arith in
    let place = place_region tmin (align offset page_size) r in
    let (rest, pages) =
      place_regions-laid tmin (place.offset + place.size)
        (max_end last (add_size place.addr place.size)) regions in
    ((above, rest), (page, pages))

place_text-laid :
    (tmin : ℕ) (regions : List Region)
    → (let (places, end, _) = place_text tmin regions in
        IsLaidOut text_base_offset places end × All IsOnPage places)
unfolding place_text place_region
place_text-laid tmin [] = (omega arith, tt)
place_text-laid tmin (r ∷ regions) =
    let place = place_region tmin text_base_offset r in
    let (rest, pages) =
      place_regions-laid tmin (place.offset + place.size)
        (max_end text_base_vaddr (add_size place.addr place.size)) regions in
    ((omega arith, rest), (refl, pages))

place_rw-laid :
    (offset addr : ℕ) (ss : List Content)
    → All IsSmall ss
    → offset % 4096 ≡ addr % 4096
    → (let (places, end, _) = place_rw offset addr ss in
        IsLaidOut offset places end × All IsCongruent places)
unfolding place_rw
place_rw-laid offset addr [] h e = (omega arith, tt)
place_rw-laid offset addr (s ∷ ss) (h, hs) e =
    let (up, alike) = align-small s offset addr h in
    let same = alike e in
    let next : (align offset (max 1 s.alignment) + s.content_size) % 4096
        ≡ (align addr (max 1 s.alignment) + s.content_size) % 4096 =
      omega arith in
    let (rest, congruent) =
      place_rw-laid (align offset (max 1 s.alignment) + s.content_size)
        (align addr (max 1 s.alignment) + s.content_size) ss hs next in
    ((up, rest), ((align addr (max 1 s.alignment), refl, same), congruent))

place_rest-laid :
    (cursor : ℕ) (ss : List Content)
    → All IsSmall ss
    → (let (places, last) = place_rest cursor ss in IsLaidOut cursor places last)
unfolding place_rest
place_rest-laid cursor [] h = omega arith
place_rest-laid cursor (s ∷ ss) (h, hs) =
    let (up, _) = align-small s cursor cursor h in
    (up, place_rest-laid (align cursor (max 1 s.alignment) + s.content_size) ss hs)

base_or-page : (base : Option ℕ) (d : ℕ) → d % 4096 ≡ 0 → base_or base d % 4096 ≡ 0
unfolding base_or
base_or-page none d h = h
base_or-page (some b) d h = let up = align_page b in omega arith

IsLaidOut-end :
    (first last last' : ℕ) (ps : List Place)
    → IsLaidOut first ps last
    → last ≤ last'
    → IsLaidOut first ps last'
IsLaidOut-end first last last' [] h k = omega arith
IsLaidOut-end first last last' (p ∷ ps) (h, hs) k =
    (h, IsLaidOut-end (p.offset + p.size) last last' ps hs k)

abbrev pub all_places : Placed → List Place
all_places p = p.text ++ (p.rodata ++ (p.rw ++ p.rest))

-- In the file the sections follow each other without overlap, from the offset of the text on, and the section
-- headers come behind all of them; text and read-only data start on pages; and the offset of each writable section
-- agrees with its address within a page. The writable sections and those without an address have alignment 1 or 8.
pub assign_offsets_and_addresses-laid :
    (text_min_page : ℕ) (rw_base_vaddr : Option ℕ) (text_regions ro_regions : List Region)
    (rw_sections rest_sections : List Content)
    → All IsSmall rw_sections
    → All IsSmall rest_sections
    → (let p =
          assign_offsets_and_addresses text_min_page rw_base_vaddr text_regions ro_regions
            rw_sections rest_sections in
        IsLaidOut text_base_offset (all_places p) p.section_headers_offset
        × All IsOnPage p.text
        × All IsOnPage p.rodata
        × All IsCongruent p.rw)
unfolding assign_offsets_and_addresses
assign_offsets_and_addresses-laid tmin base text ro rws rests h k =
    let (text_places, offset, text_end) = place_text tmin text in
    let (ro_places, offset', last) = place_regions tmin offset text_end ro in
    let up = align_page offset' in
    let up' = align_page last in
    let cursor = align offset' page_size in
    let addr = base_or base (align last page_size) in
    let above : offset' ≤ cursor = omega arith in
    let page : cursor % 4096 ≡ 0 = omega arith in
    let page' : addr % 4096 ≡ 0 = base_or-page base (align last page_size) (omega arith) in
    let (rw_places, file_end, mem_end) = place_rw cursor addr rws in
    let (rest_places, end) = place_rest file_end rests in
    let (t, tp) = place_text-laid tmin text in
    let (r, rp) = place_regions-laid tmin offset text_end ro in
    let (w, wc) = place_rw-laid cursor addr rws h (omega arith) in
    let z = place_rest-laid file_end rests k in
    let headers : end ≤ align end 8 = rw (align_eight end) (omega arith) in
    let behind =
      IsLaidOut-append cursor file_end (align end 8) rw_places rest_places w
        (IsLaidOut-end file_end end (align end 8) rest_places z headers) in
    let behind' =
      IsLaidOut-append offset cursor (align end 8) ro_places (rw_places ++ rest_places)
        (IsLaidOut-end offset offset' cursor ro_places r above) behind in
    (
      IsLaidOut-append text_base_offset offset (align end 8) text_places
          (ro_places ++ (rw_places ++ rest_places)) t behind',
      tp,
      rp,
      wc,
    )
