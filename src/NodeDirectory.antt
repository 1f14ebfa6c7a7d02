-- ===== src/NodeDirectory.antt =====
-- include/index/node_directory.h, with the addresses and classes of include/index/node_defs.h: where the
-- slot of each node is and which class it has, and the file that keeps this. A class is its byte. The
-- stream's state after a read that finds too few bytes is an error at once: the code goes on to its
-- checks, each of which throws the same exception. What a load that throws leaves behind is not modelled.
pub mod Files
mod Tests
use skip_cell.Common.{
  ℕ, zero, suc, ◌+◌, ◌-◌, ◌%◌, ◌^◌, Bool, not, List, [], ◌∷◌, ◌++◌, none, some, leb, ◌==◌,
  if◌then◌else◌, length, get_elem?, set, replicate, Result, ok, throws, runtime_error, undefined,
  ◌>>=◌,
}
use skip_cell.Common.Bytes.{
  encode_fields, read_fields, read_little, decoded, read_exact, decode, encode,
}

-- `node_addr_t`, with `k_invalid`.
pub record Addr : Type 0 where
  pub chunk_id : ℕ
  pub offset : ℕ
  pub slot_len : ℕ

abbrev invalid_addr : Addr
invalid_addr = record { chunk_id = 18446744073709551615; offset = 0; slot_len = 0 }

abbrev is_valid : Addr → Bool
is_valid a = not (a.chunk_id == invalid_addr.chunk_id)

-- `node_class_t`.
abbrev hub : ℕ
hub = 0

abbrev normal : ℕ
normal = 1

abbrev peripheral : ℕ
peripheral = 2

pub record NodeDirectory : Type 0 where
  pub addrs : List Addr
  pub classes : List ℕ

-- The constructor, and `resize`.
abbrev pub unplaced : ℕ → NodeDirectory
unplaced n = record { addrs = replicate n invalid_addr; classes = replicate n normal }

-- `set`; behind the end it is an assertion.
unfoldable pub set_node : ℕ → Addr → ℕ → NodeDirectory → Result NodeDirectory
set_node node_id addr class d =
    if leb (length d.addrs) node_id
    then throws undefined
    else ok (record { addrs = set d.addrs node_id addr; classes = set d.classes node_id class })

-- `k_magic` and `k_version`.
abbrev pub directory_magic : ℕ
directory_magic = 0x5249440044574342

abbrev pub directory_version : ℕ
directory_version = 1

-- An address has 16 bytes.
abbrev pub addr_fields : Addr → List (ℕ × ℕ)
addr_fields a = (8, a.chunk_id) ∷ (4, a.offset) ∷ (4, a.slot_len) ∷ []

-- The addresses of so many nodes, of which there are at least as many.
unfoldable pub save_addrs : ℕ → List Addr → List ℕ
save_addrs zero addrs = []
save_addrs (suc n) [] = []
save_addrs (suc n) (a ∷ addrs) = encode_fields (addr_fields a) ++ save_addrs n addrs

-- The loop over the classes of so many nodes.
unfoldable pub save_classes : ℕ → List ℕ → Result (List ℕ)
save_classes zero classes = ok []
save_classes (suc n) [] = throws undefined
save_classes (suc n) (c ∷ cs) = save_classes n cs >>= λ bytes. ok (encode 1 c ++ bytes)

abbrev pub directory_header : ℕ → List (ℕ × ℕ)
directory_header n = (8, directory_magic) ∷ (4, directory_version) ∷ (4, n) ∷ []

-- The bytes that `save_to_file` writes.
unfoldable pub save_to_file : NodeDirectory → Result (List ℕ)
unfolding save_addrs save_classes
save_to_file d =
    let n = length d.addrs % 2 ^ 32 in
    save_classes n d.classes >>= λ classes.
    ok (encode_fields (directory_header n) ++ (save_addrs n d.addrs ++ classes))

abbrev addr_of : List ℕ × List ℕ → Result (Addr × List ℕ)
addr_of (chunk_id ∷ offset ∷ slot_len ∷ [], rest) =
    ok (record { chunk_id = chunk_id; offset = offset; slot_len = slot_len }, rest)
addr_of (_, rest) = throws undefined

unfoldable pub load_addr : List ℕ → Result (Addr × List ℕ)
load_addr bytes = read_fields (8 ∷ 4 ∷ 4 ∷ []) bytes >>= addr_of

unfoldable pub load_addrs : ℕ → List ℕ → Result (List Addr × List ℕ)
unfolding load_addr
load_addrs zero bytes = ok ([], bytes)
load_addrs (suc n) bytes = do
  (a, rest) ← load_addr bytes
  (places, last) ← load_addrs n rest
  ok (a ∷ places, last)

unfoldable pub load_classes : ℕ → List ℕ → Result (List ℕ)
load_classes zero bytes = ok []
load_classes (suc n) bytes = do
  (c, rest) ← read_little 1 bytes
  cs ← load_classes n rest
  ok (c ∷ cs)

-- What stands behind the header.
unfoldable pub load_nodes : ℕ → List ℕ → Result NodeDirectory
unfolding load_addrs load_classes
load_nodes n bytes = do
  (addrs, rest) ← load_addrs n bytes
  classes ← load_classes n rest
  ok (record { addrs = addrs; classes = classes })

abbrev known_header : List ℕ × List ℕ → Result NodeDirectory
known_header (magic ∷ version ∷ n ∷ [], rest) =
    if not (magic == directory_magic)
    then throws runtime_error
    else if not (version == directory_version)
    then throws runtime_error
    else load_nodes n rest
known_header (_, rest) = throws undefined

unfoldable pub load_from_file : List ℕ → Result NodeDirectory
unfolding load_nodes
load_from_file bytes = read_fields (8 ∷ 4 ∷ 4 ∷ []) bytes >>= known_header
