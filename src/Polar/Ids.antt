-- ===== src/Polar/Ids.antt =====
-- Identifiers and cells are two names of the same.
use skip_cell.Common.{ℕ, ◌+◌, ◌*◌, ◌/◌, ◌%◌, ◌^◌, ◌≤◌, ◌<◌, ◌≡◌, ap, ◌∙◌, true, ok, arith}
use native.Mathlib.Nat.{
  mul-add-div_right, div-add-mod', div-eq_of_lt, div-lt_iff_lt-mul, mul-add-mod_self_right,
  mod-eq_of_lt,
}
use skip_cell.Polar.{
  PolarCell, is_supported_direction_bin_count, validate_cell_space, encode_polar_cell_id,
  decode_polar_cell_id,
}

-- A configuration that the code accepts: 16, 32 or 64 directions, and at most 2^32 cells.
pub record IsSpace (directions radii : ℕ) : Type 0 where
  pub supported : is_supported_direction_bin_count directions ≡ true
  pub positive : 0 < radii
  pub fits : directions * radii ≤ 2 ^ 32

module _ (directions radii : ℕ) (space : IsSpace directions radii) where
  space-ok : validate_cell_space directions radii ≡ ok (directions * radii)
  unfolding validate_cell_space
  space-ok = ground (arith, space.supported, space.positive, space.fits)

  radial_of : (d r : ℕ) → r < radii → (d * radii + r) % radii ≡ r
  radial_of d r k = mul-add-mod_self_right d radii r ∙ mod-eq_of_lt k

  direction_of : (d r : ℕ) → r < radii → (d * radii + r) / radii ≡ d
  direction_of d r k = mul-add-div_right space.positive d r ∙ omega (arith, div-eq_of_lt k)

  -- The row by row number of a cell lies below the number of cells.
  number_below : (d r : ℕ) → d < directions → r < radii → d * radii + r < directions * radii
  number_below d r h k = (div-lt_iff_lt-mul space.positive).0 (omega (arith, direction_of d r k, h))

  encode-ok :
      (c : PolarCell)
      → c.direction_bin < directions
      → c.radial_bin < radii
      → encode_polar_cell_id c directions radii ≡ ok (c.direction_bin * radii + c.radial_bin)
  unfolding encode_polar_cell_id
  encode-ok c h k =
      rw space-ok (ground (arith, h, k, number_below c.direction_bin c.radial_bin h k, space.fits))

  decode-ok :
      (id : ℕ)
      → id < directions * radii
      → decode_polar_cell_id id directions radii
        ≡ ok (record { direction_bin = id / radii; radial_bin = id % radii })
  unfolding decode_polar_cell_id
  decode-ok id h = rw space-ok (ground (arith, h))

  -- In an accepted configuration each cell within its bins has an identifier below the number of cells
  -- that decodes to it, and each such identifier decodes to a cell within its bins whose identifier it
  -- is.
  pub decode-encode_polar_cell_id :
      ((c : PolarCell)
        → c.direction_bin < directions
        → c.radial_bin < radii
        → (id : ℕ) × (id < directions * radii)
          × (encode_polar_cell_id c directions radii ≡ ok id)
          × (decode_polar_cell_id id directions radii ≡ ok c))
      × ((id : ℕ)
          → id < directions * radii
          → (c : PolarCell) × (c.direction_bin < directions)
            × (c.radial_bin < radii)
            × (decode_polar_cell_id id directions radii ≡ ok c)
            × (encode_polar_cell_id c directions radii ≡ ok id))
  decode-encode_polar_cell_id = (
    λ c h k.
        let id = c.direction_bin * radii + c.radial_bin in
        let below = number_below c.direction_bin c.radial_bin h k in
        (
          id,
          below,
          encode-ok c h k,
          decode-ok id below
              ∙ ap (λ d. ok (record { direction_bin = d; radial_bin = id % radii }))
                  (direction_of c.direction_bin c.radial_bin k)
              ∙ ap (λ r. ok (record { direction_bin = c.direction_bin; radial_bin = r }))
                  (radial_of c.direction_bin c.radial_bin k),
        ),
    λ id h.
        let c : PolarCell = record { direction_bin = id / radii; radial_bin = id % radii } in
        let in_row : id % radii < radii = omega (arith, space.positive) in
        let in_rows : id / radii < directions = (div-lt_iff_lt-mul space.positive).1 h in
        (
          c,
          in_rows,
          in_row,
          decode-ok id h,
          encode-ok c in_rows in_row ∙ ap ok (div-add-mod' id radii),
        ),
  )
