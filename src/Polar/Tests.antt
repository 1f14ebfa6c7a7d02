-- ===== src/Polar/Tests.antt =====
-- Sixteen directions and five radii.
use skip_cell.Common.{ℕ, ◌*◌, ◌<◌, ◌≡◌, refl, ok, arith}
use skip_cell.Polar.{PolarCell, encode_polar_cell_id, decode_polar_cell_id}
use skip_cell.Polar.Ids.{IsSpace, decode-encode_polar_cell_id}

sixteen_by_five : IsSpace 16 5
sixteen_by_five = record { supported = refl; positive = omega arith; fits = omega arith }

decode-encode_polar_cell_id_example :
    ((c : PolarCell)
      → c.direction_bin < 16
      → c.radial_bin < 5
      → (id : ℕ) × (id < 16 * 5)
        × (encode_polar_cell_id c 16 5 ≡ ok id)
        × (decode_polar_cell_id id 16 5 ≡ ok c))
    × ((id : ℕ)
        → id < 16 * 5
        → (c : PolarCell) × (c.direction_bin < 16)
          × (c.radial_bin < 5)
          × (decode_polar_cell_id id 16 5 ≡ ok c)
          × (encode_polar_cell_id c 16 5 ≡ ok id))
decode-encode_polar_cell_id_example = decode-encode_polar_cell_id 16 5 sixteen_by_five
