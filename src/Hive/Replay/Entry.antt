-- ===== src/Hive/Replay/Entry.antt =====
-- What the tests before an entry's application give, and what applying its pages does.
use amcache.Base.{
  ℕ, zero, suc, ◌+◌, ◌-◌, ◌*◌, ◌%◌, ◌≤◌, ◌<◌, true, false, ◌≡◌, ◌≢◌, refl, arith, inl, inr,
  Bool-cases, Option-cases, ltb, length, get_or, ok, err, List, [], ◌∷◌, >>=-eq-ok, >>=-eq-err,
  ◌++◌, replicate, length-append, length-replicate, length-copy_at, get_or-copy_at_outside, copy_at,
  ok_injective, ok-ne-err, All, some,
}
use mathlib.Core.Path.{subst, sym, ◌∙◌}
use amcache.Hive.Regf.{Bytes, Parser, DirtyPage, out_of_fuel, max_hive_bytes}
use amcache.Hive.Regf.{ReadsRegf, IsBytes}
use amcache.Hive.Regf.Bytes.{IsBytes-copy_at, IsBytes-append_zeros}
use amcache.Hive.Replay.{grow, apply_page, apply_pages, admissible, torn}

-- A dirty page is a whole number of 4096-byte pages, and its bytes lie before `end`.
abbrev pub IsWhole : ℕ → DirtyPage → Type 0
IsWhole end page =
    (page.page_size ≢ 0) × (page.page_size % 4096 ≡ 0) × (page.data_offset + page.page_size ≤ end)

not-torn-All : (pages : List DirtyPage) (end : ℕ) → torn pages end ≡ false → All (IsWhole end) pages
unfolding torn
not-torn-All [] end h = tt
not-torn-All (page ∷ pages) end h = (ground arith, not-torn-All pages end (ground arith))

-- The tests that an applied entry at `off` has passed.
pub record IsAdmissible (p : Parser) (buf : Bytes) (off expected : ℕ) : Type 0 where
  pub signature : p.signature buf off ≡ 0x454C7648
  pub header : 40 ≤ p.log_entry_size buf off
  pub sectors : p.log_entry_size buf off % 512 ≡ 0
  pub inside : off + p.log_entry_size buf off ≤ length buf
  pub refs : 40 + p.dirty_pages_count buf off * 4104 ≤ p.log_entry_size buf off
  pub aligned : p.hive_bins_data_size buf off % 4096 ≡ 0
  pub in_sequence : p.sequence_number buf off ≡ expected
  pub whole : All (IsWhole (off + p.log_entry_size buf off)) (p.get_dirty_pages buf off)

tests_passed :
    (p : Parser) (buf : Bytes) (off expected : ℕ)
    → admissible p buf off expected ≡ true
    → (p.signature buf off ≡ 0x454C7648)
      × (40 ≤ p.log_entry_size buf off)
      × (p.log_entry_size buf off % 512 ≡ 0)
      × (off + p.log_entry_size buf off ≤ length buf)
      × (40 + p.dirty_pages_count buf off * 4104 ≤ p.log_entry_size buf off)
      × (p.hive_bins_data_size buf off % 4096 ≡ 0)
      × (p.sequence_number buf off ≡ expected)
      × (torn (p.get_dirty_pages buf off) (off + p.log_entry_size buf off) ≡ false)
unfolding admissible
tests_passed p buf off expected h = ground arith

pub admissible-IsAdmissible :
    (p : Parser) (buf : Bytes) (off expected : ℕ)
    → admissible p buf off expected ≡ true
    → IsAdmissible p buf off expected
admissible-IsAdmissible p buf off expected h =
    let t = tests_passed p buf off expected h in
    record {
      signature = t.0;
      header = t.1;
      sectors = t.2;
      inside = t.3;
      refs = t.4;
      aligned = t.5;
      in_sequence = t.6;
      whole = not-torn-All _ _ t.7;
    }

pub length-grow :
    (out : Bytes) (need : ℕ)
    → (length out ≤ length (grow out need))
      × (need ≤ length (grow out need))
      × (length (grow out need) ≤ length out + need)
      × (need ≤ max_hive_bytes
          → length out ≤ max_hive_bytes
          → length (grow out need) ≤ max_hive_bytes)
unfolding grow
length-grow out need = ground (
  arith,
  length-append out (replicate (need - length out) 0),
  length-replicate {A = ℕ} (need - length out) 0,
)

get_or-replicate : (n i : ℕ) → get_or (replicate {A = ℕ} n 0) i 0 ≡ 0
get_or-replicate zero i = refl
get_or-replicate (suc n) zero = refl
get_or-replicate (suc n) (suc i) = get_or-replicate n i

get_or-append_zeros : (xs : Bytes) (n i : ℕ) → get_or (xs ++ replicate n 0) i 0 ≡ get_or xs i 0
get_or-append_zeros [] n i = get_or-replicate n i
get_or-append_zeros (x ∷ xs) n zero = refl
get_or-append_zeros (x ∷ xs) n (suc i) = get_or-append_zeros xs n i

-- Growing adds zeros, which is what a read past the end gives.
pub get_or-grow : (out : Bytes) (need i : ℕ) → get_or (grow out need) i 0 ≡ get_or out i 0
unfolding grow
get_or-grow out need i = ground (arith, get_or-append_zeros out (need - length out) i)

-- A page that was applied: its bytes, the cap it respects, and the result.
pub record IsApplied (p : Parser) (buf out : Bytes) (page : DirtyPage) (out' : Bytes) : Type 0 where
  pub bytes : Bytes
  pub reads : p.page_data buf page ≡ some bytes
  pub under_cap : 0x1000 + page.page_offset + page.page_size ≤ max_hive_bytes
  pub result :
      out'
      ≡ copy_at
          (grow out (0x1000 + page.page_offset + page.page_size))
          (0x1000 + page.page_offset)
          bytes

pub apply_page-IsApplied :
    (p : Parser) (buf out : Bytes) (page : DirtyPage) {out' : Bytes}
    → apply_page p buf out page ≡ ok out'
    → IsApplied p buf out page out'
unfolding apply_page
apply_page-IsApplied p buf out page e = elim (Option-cases (p.page_data buf page)) [
  | inl fails ↦ absurd (ok-ne-err _ _ (sym (rw (fails, apply_page) at e)))
  | inr (bytes, reads) ↦
      elim (Bool-cases (ltb max_hive_bytes (0x1000 + page.page_offset + page.page_size))) [
        | inl over ↦ absurd (ok-ne-err _ _ (sym (rw (reads, over, apply_page) at e)))
        | inr under ↦ record {
          bytes = bytes;
          reads = reads;
          under_cap = ground arith;
          result = sym (ok_injective (rw (reads, under, apply_page) at e));
        }
      ]
]

-- What every page, and so every entry, leaves alone: the base block and the cap on the size.
pub record Extends (out out' : Bytes) : Type 0 where
  pub grows : length out ≤ length out'
  pub capped : length out ≤ max_hive_bytes → length out' ≤ max_hive_bytes
  pub head : (i : ℕ) → i < 0x1000 → get_or out' i 0 ≡ get_or out i 0

pub Extends-refl : (out : Bytes) → Extends out out
Extends-refl out = record { grows = omega arith; capped = λ h. h; head = λ i h. refl }

pub Extends-trans : {a b c : Bytes} → Extends a b → Extends b c → Extends a c
Extends-trans f g = record {
  grows = omega (arith, f.grows, g.grows);
  capped = λ h. g.capped (f.capped h);
  head = λ i h. g.head i h ∙ f.head i h;
}

apply_page-Extends :
    (p : Parser) (buf out : Bytes) (page : DirtyPage) {out' : Bytes}
    → apply_page p buf out page ≡ ok out'
    → Extends out out'
apply_page-Extends p buf out page e =
    let a = apply_page-IsApplied p buf out page e in
    let dst = 0x1000 + page.page_offset in
    let grown = length-grow out (dst + page.page_size) in
    let same = length-copy_at (grow out (dst + page.page_size)) dst a.bytes in
    record {
      grows = rw (a.result, same) grown.0;
      capped = λ h. rw (a.result, same) (grown.3 a.under_cap h);
      head = λ i h. rw a.result (
          get_or-copy_at_outside (grow out (dst + page.page_size)) dst a.bytes i 0
            (inl (omega arith))
          ∙ get_or-grow out (dst + page.page_size) i);
    }

pub apply_pages-Extends :
    (p : Parser) (buf out : Bytes) (pages : List DirtyPage) {out' : Bytes}
    → apply_pages p buf out pages ≡ ok out'
    → Extends out out'
unfolding apply_pages
apply_pages-Extends p buf out [] e = subst (Extends out) (ok_injective e) (Extends-refl out)
apply_pages-Extends p buf out (page ∷ pages) e =
    let (mid, first, rest) = >>=-eq-ok _ (λ out'. apply_pages p buf out' pages) e in
    Extends-trans (apply_page-Extends p buf out page first)
      (apply_pages-Extends p buf mid pages rest)

apply_page-ne-out_of_fuel :
    (p : Parser) (buf out : Bytes) (page : DirtyPage) → apply_page p buf out page ≢ err out_of_fuel
unfolding apply_page
apply_page-ne-out_of_fuel p buf out page = ground arith

pub apply_pages-ne-out_of_fuel :
    (p : Parser) (buf out : Bytes) (pages : List DirtyPage)
    → apply_pages p buf out pages ≢ err out_of_fuel
unfolding apply_pages
apply_pages-ne-out_of_fuel p buf out [] h = cc
apply_pages-ne-out_of_fuel p buf out (page ∷ pages) h =
    elim (>>=-eq-err _ (λ out'. apply_pages p buf out' pages) h) [
      | inl e ↦ apply_page-ne-out_of_fuel p buf out page e
      | inr (mid, _, e) ↦ apply_pages-ne-out_of_fuel p buf mid pages e
    ]

module _ (p : Parser) (laws : ReadsRegf p) where
  IsBytes-grow : (out : Bytes) (need : ℕ) → IsBytes out → IsBytes (grow out need)
  unfolding grow
  IsBytes-grow out need h = elim (Bool-cases (ltb (length out) need)) [
    | inl e ↦ rw e (IsBytes-append_zeros out (need - length out) h)
    | inr e ↦ rw e h
  ]

  pub apply_pages-IsBytes :
      (buf out : Bytes) (pages : List DirtyPage) {out' : Bytes}
      → IsBytes out
      → apply_pages p buf out pages ≡ ok out'
      → IsBytes out'
  unfolding apply_pages
  apply_pages-IsBytes buf out [] h e = subst IsBytes (ok_injective e) h
  apply_pages-IsBytes buf out (page ∷ pages) h e =
      let (mid, first, rest) = >>=-eq-ok _ (λ out'. apply_pages p buf out' pages) e in
      let a = apply_page-IsApplied p buf out page first in
      let dst = 0x1000 + page.page_offset in
      let mid_bytes : IsBytes mid = rw a.result (
        IsBytes-copy_at (grow out (dst + page.page_size)) dst a.bytes
          (IsBytes-grow out (dst + page.page_size) h)
          (laws.page_data-IsBytes buf page a.bytes a.reads)) in
      apply_pages-IsBytes buf mid pages mid_bytes rest
