-- ===== src/Polar.antt =====
-- include/index/polar.h and src/index/polar.cc: the identifiers of polar cells. A cell is a bin of
-- directions and a bin of radii, and its identifier counts the cells row by row.
pub mod Ids
mod Tests
use skip_cell.Common.{
  ℕ, ◌+◌, ◌*◌, ◌/◌, ◌%◌, ◌^◌, Bool, not, ◌||◌, ltb, leb, ◌==◌, if◌then◌else◌, Result, ok, throws,
  invalid_argument, ◌>>=◌,
}

-- `polar_cell_t`.
pub record PolarCell : Type 0 where
  pub direction_bin : ℕ
  pub radial_bin : ℕ

abbrev pub is_supported_direction_bin_count : ℕ → Bool
is_supported_direction_bin_count n = n == 16 || n == 32 || n == 64

-- The number of cells, in 64 bits.
unfoldable pub validate_cell_space : ℕ → ℕ → Result ℕ
validate_cell_space directions radii =
    if not (is_supported_direction_bin_count directions)
    then throws invalid_argument
    else if radii == 0
    then throws invalid_argument
    else if ltb (2 ^ 32) (directions * radii % 2 ^ 64)
    then throws invalid_argument
    else ok (directions * radii % 2 ^ 64)

unfoldable pub encode_polar_cell_id : PolarCell → ℕ → ℕ → Result ℕ
unfolding validate_cell_space
encode_polar_cell_id cell directions radii = validate_cell_space directions radii >>= λ count.
    if leb directions cell.direction_bin || leb radii cell.radial_bin
    then throws invalid_argument
    else ok ((cell.direction_bin * radii + cell.radial_bin) % 2 ^ 64 % 2 ^ 32)

unfoldable pub decode_polar_cell_id : ℕ → ℕ → ℕ → Result PolarCell
unfolding validate_cell_space
decode_polar_cell_id cell_id directions radii = validate_cell_space directions radii >>= λ count.
    if leb count cell_id
    then throws invalid_argument
    else ok (record { direction_bin = cell_id / radii; radial_bin = cell_id % radii })
