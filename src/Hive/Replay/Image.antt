-- ===== src/Hive/Replay/Image.antt =====
-- What a buffer holds at each offset, and what applied pages make of it.
use amcache.Base.{
  ℕ, ◌+◌, ◌-◌, ◌≤◌, ◌<◌, ◌≡◌, ◌&&◌, none, some, List, [], ◌∷◌, if◌then◌else◌, ltb, leb, length,
  get_or, copy_at, ok, arith, inl, inr, Bool-cases, ◌∙◌, sym, ap, >>=-eq-ok, ok_injective,
}
use mathlib.Core.Path.{fun_ext}
use amcache.Hive.Regf.{Bytes, DirtyPage, Parser}
use amcache.Base.{get_or-copy_at_inside, get_or-copy_at_outside}
use amcache.Hive.Replay.{apply_page, apply_pages, grow}
use amcache.Hive.Replay.Entry.{IsApplied, apply_page-IsApplied, get_or-grow, length-grow}

-- The byte at each offset.
abbrev pub Image : Type 0
Image = ℕ → ℕ

-- What a buffer holds, and nothing but zeros behind its end.
abbrev pub content : Bytes → Image
content b i = get_or b i 0

-- The image with other bytes from an offset on.
abbrev pub overlay : ℕ → Bytes → Image → Image
overlay dst bytes img i =
    if leb dst i && ltb i (dst + length bytes) then get_or bytes (i - dst) 0 else img i

-- A page lies where its offset in the hive bins says.
abbrev pub overlay_page : Parser → Bytes → DirtyPage → Image → Image
overlay_page p buf page img = elim (p.page_data buf page) [
  | none ↦ img
  | some bytes ↦ overlay (0x1000 + page.page_offset) bytes img
]

abbrev pub overlay_pages : Parser → Bytes → List DirtyPage → Image → Image
overlay_pages p buf [] img = img
overlay_pages p buf (page ∷ pages) img = overlay_pages p buf pages (overlay_page p buf page img)

-- What is relied on of a page's `Data`: it reads no more than the page's size.
abbrev pub ReadsPages : Parser → Type 0
ReadsPages p =
    (buf : Bytes) (page : DirtyPage) (bytes : Bytes)
    → p.page_data buf page ≡ some bytes
    → length bytes ≤ page.page_size

get_or-copy_at :
    (out bytes : Bytes) (dst i : ℕ)
    → dst + length bytes ≤ length out
    → get_or (copy_at out dst bytes) i 0 ≡ overlay dst bytes (content out) i
get_or-copy_at out bytes dst i h = elim (Bool-cases (leb dst i && ltb i (dst + length bytes))) [
  | inl e ↦
      let inside : i ≡ dst + (i - dst) = ground (arith, e) in
      let short : i - dst < length bytes = ground (arith, e) in
      rw e (
        ap (λ n. get_or (copy_at out dst bytes) n 0) inside
        ∙ get_or-copy_at_inside out dst bytes (i - dst) 0 short (omega arith))
  | inr e ↦ rw e (get_or-copy_at_outside out dst bytes i 0 (ground (arith, e)))
]

module _ (p : Parser) (reads : ReadsPages p) (buf : Bytes) where
  content-apply_page :
      (out out' : Bytes) (page : DirtyPage)
      → apply_page p buf out page ≡ ok out'
      → content out' ≡ overlay_page p buf page (content out)
  content-apply_page out out' page e =
      let a : IsApplied p buf out page out' = apply_page-IsApplied p buf out page e in
      let dst : ℕ = 0x1000 + page.page_offset in
      let grown = grow out (dst + page.page_size) in
      let fits = reads buf page a.bytes a.reads in
      rw (a.reads, overlay_page)
        (fun_ext (λ i.
          ap (λ o. get_or o i 0) a.result
          ∙ get_or-copy_at grown a.bytes dst i
              (omega (arith, fits, length-grow out (dst + page.page_size)))
          ∙ ap (λ (img : Image). overlay dst a.bytes img i)
              (fun_ext (λ j. get_or-grow out (dst + page.page_size) j))))

  pub content-apply_pages :
      (pages : List DirtyPage) (out out' : Bytes)
      → apply_pages p buf out pages ≡ ok out'
      → content out' ≡ overlay_pages p buf pages (content out)
  unfolding apply_pages
  content-apply_pages [] out out' e = ap content (sym (ok_injective e))
  content-apply_pages (page ∷ pages) out out' e =
      let (mid, first, rest) = >>=-eq-ok (apply_page p buf out page) _ e in
      content-apply_pages pages mid out' rest
      ∙ ap (overlay_pages p buf pages) (content-apply_page out mid page first)
