-- ===== src/NodeDirectory/Tests.antt =====
-- A directory of two nodes.
use skip_cell.Common.{ℕ, ◌≡◌, refl, List, [], ◌∷◌, ◌++◌, ok, arith}
use skip_cell.NodeDirectory.{NodeDirectory, hub, normal, invalid_addr, save_to_file, load_from_file}
use skip_cell.NodeDirectory.Files.{IsDirectory, AreAddrs, AreBytes, load_from_file-save_to_file}

abbrev two_nodes : NodeDirectory
two_nodes = record {
  addrs = (record { chunk_id = 5; offset = 64; slot_len = 512 }) ∷ invalid_addr ∷ [];
  classes = hub ∷ normal ∷ [];
}

two_nodes-IsDirectory : IsDirectory two_nodes
unfolding AreAddrs AreBytes
two_nodes-IsDirectory = record {
  paired = refl;
  small = omega arith;
  addrs_fit = (
    record { chunk_fits = omega arith; offset_fits = omega arith; length_fits = omega arith },
    (record { chunk_fits = omega arith; offset_fits = omega arith; length_fits = omega arith }, tt),
  );
  classes_fit = (omega arith, (omega arith, tt));
}

load_from_file-save_to_file_example :
    (bytes : List ℕ) × (save_to_file two_nodes ≡ ok bytes)
    × (load_from_file (bytes ++ (7 ∷ [])) ≡ ok two_nodes)
load_from_file-save_to_file_example =
    load_from_file-save_to_file two_nodes (7 ∷ []) two_nodes-IsDirectory
