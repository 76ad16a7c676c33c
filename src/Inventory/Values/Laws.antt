-- ===== src/Inventory/Values/Laws.antt =====
-- The last-write time of a key, and the outcomes of a value.
use amcache.Base.{ℕ, ◌+◌, ◌*◌, ◌≤◌, ◌<◌, ◌≡◌, refl, ◌⊎◌, inl, inr, arith}
use amcache.Base.Text.{Text}
use amcache.Inventory.Values.{
  Decoded, decoded, skipped, parser_panic, last_write_of, filetime_epoch, filetime_max,
}

-- `lastWrite` gives the whole seconds since 1970 of a FILETIME from 1970 on and before 2100, and 0 for
-- every other, the zero FILETIME among them; so it is always below the year 2100.
pub last_write_of_exact :
    (ft : ℕ)
    → (last_write_of ft < 4102444800)
      × (ft < filetime_epoch → last_write_of ft ≡ 0)
      × (filetime_max ≤ ft → last_write_of ft ≡ 0)
      × (filetime_epoch ≤ ft
          → ft < filetime_max
          → (filetime_epoch + last_write_of ft * 10000000 ≤ ft)
            × (ft < filetime_epoch + (last_write_of ft + 1) * 10000000))
unfolding last_write_of
last_write_of_exact ft =
    (ground arith, λ h. ground arith, λ h. ground arith, λ h k. (ground arith, ground arith))

-- The three outcomes of `decode`, with the equation.
pub Decoded-cases :
    (d : Decoded) → (d ≡ parser_panic) ⊎ (d ≡ skipped) ⊎ ((s : Text) × (d ≡ decoded s))
Decoded-cases parser_panic = inl refl
Decoded-cases skipped = inr (inl refl)
Decoded-cases (decoded s) = inr (inr (s, refl))
