-- ===== src/NodeDirectory/Files.antt =====
-- What is saved is loaded back.
use skip_cell.Common.{
  ℕ, suc, ◌%◌, ◌^◌, ◌<◌, ◌≡◌, refl, sym, ap, ◌∙◌, List, [], ◌∷◌, ◌++◌, length, ok, ◌>>=◌, arith,
}
use mathlib.Core.List.{append_assoc}
use skip_cell.Common.Bytes.{
  encode, encode_fields, read_fields, read_fields-encode, read_little-encode, AllFit, Fits-byte,
  Fits-word, Fits-long,
}
use skip_cell.NodeDirectory.{
  Addr, NodeDirectory, addr_fields, save_addrs, save_classes, directory_header, directory_magic,
  directory_version, save_to_file, addr_of, load_addr, load_addrs, load_classes, load_nodes,
  known_header, load_from_file,
}

-- The numbers fit their types.
pub record IsAddr (a : Addr) : Type 0 where
  pub chunk_fits : a.chunk_id < 2 ^ 64
  pub offset_fits : a.offset < 2 ^ 32
  pub length_fits : a.slot_len < 2 ^ 32

unfoldable pub AreAddrs : List Addr → Type 0
AreAddrs [] = Unit {0}
AreAddrs (a ∷ places) = IsAddr a × AreAddrs places

unfoldable pub AreBytes : List ℕ → Type 0
AreBytes [] = Unit {0}
AreBytes (c ∷ cs) = (c < 256) × AreBytes cs

-- A directory has a class for each address, and fewer than 2^32 nodes.
pub record IsDirectory (d : NodeDirectory) : Type 0 where
  pub paired : length d.classes ≡ length d.addrs
  pub small : length d.addrs < 2 ^ 32
  pub addrs_fit : AreAddrs d.addrs
  pub classes_fit : AreBytes d.classes

load_addr-save :
    (a : Addr) (rest : List ℕ)
    → IsAddr a
    → load_addr (encode_fields (addr_fields a) ++ rest) ≡ ok (a, rest)
unfolding load_addr AllFit
load_addr-save a rest v =
    ap (λ r. r >>= addr_of)
      (read_fields-encode (addr_fields a) rest (
        Fits-long a.chunk_id v.chunk_fits,
        (Fits-word a.offset v.offset_fits, (Fits-word a.slot_len v.length_fits, tt)),
      ))

load_addrs-save :
    (places : List Addr) (rest : List ℕ)
    → AreAddrs places
    → load_addrs (length places) (save_addrs (length places) places ++ rest) ≡ ok (places, rest)
unfolding load_addrs save_addrs AreAddrs
load_addrs-save [] rest v = refl
load_addrs-save (a ∷ places) rest v =
    ap (load_addrs (suc (length places)))
      (append_assoc (encode_fields (addr_fields a)) (save_addrs (length places) places) rest)
    ∙ rw (load_addr-save a (save_addrs (length places) places ++ rest) v.0, load_addrs)
        (rw (load_addrs-save places rest v.1) refl)

-- The classes are saved, and loaded back whatever follows.
load_classes-save :
    (cs : List ℕ) (more : List ℕ)
    → AreBytes cs
    → (bytes : List ℕ) × (save_classes (length cs) cs ≡ ok bytes)
      × (load_classes (length cs) (bytes ++ more) ≡ ok cs)
unfolding load_classes save_classes AreBytes
load_classes-save [] more v = ([], refl, refl)
load_classes-save (c ∷ cs) more v =
    let (bytes, saved, loaded) = load_classes-save cs more v.1 in
    (
      encode 1 c ++ bytes,
      rw saved refl,
      ap (load_classes (suc (length cs))) (append_assoc (encode 1 c) bytes more)
          ∙ rw (read_little-encode 1 c (bytes ++ more) (Fits-byte c v.0), load_classes)
              (rw loaded refl),
    )

load_nodes-save :
    (d : NodeDirectory) (classes more : List ℕ)
    → IsDirectory d
    → load_classes (length d.addrs) (classes ++ more) ≡ ok d.classes
    → load_nodes (length d.addrs) (save_addrs (length d.addrs) d.addrs ++ (classes ++ more)) ≡ ok d
unfolding load_nodes
load_nodes-save d classes more v e =
    rw (load_addrs-save d.addrs (classes ++ more) v.addrs_fit, load_nodes) (rw e refl)

-- A directory of fewer than 2^32 nodes whose numbers fit their types, with a class for each node, is
-- saved, and loading the bytes gives it back, whatever follows them.
pub load_from_file-save_to_file :
    (d : NodeDirectory) (more : List ℕ)
    → IsDirectory d
    → (bytes : List ℕ) × (save_to_file d ≡ ok bytes) × (load_from_file (bytes ++ more) ≡ ok d)
unfolding save_to_file load_from_file AllFit
load_from_file-save_to_file d more v =
    let n = length d.addrs in
    let fits : n % 2 ^ 32 ≡ n = omega (arith, v.small) in
    let (classes, saved, loaded) = load_classes-save d.classes more v.classes_fit in
    let header = encode_fields (directory_header n) in
    let saved_as : save_classes n d.classes ≡ ok classes =
      ap (λ k. save_classes k d.classes) (sym v.paired) ∙ saved in
    let loaded_as : load_classes n (classes ++ more) ≡ ok d.classes =
      ap (λ k. load_classes k (classes ++ more)) (sym v.paired) ∙ loaded in
    let split : (header ++ (save_addrs (length d.addrs) d.addrs ++ classes)) ++ more
        ≡ header ++ (save_addrs (length d.addrs) d.addrs ++ (classes ++ more)) =
      append_assoc header (save_addrs (length d.addrs) d.addrs ++ classes) more
      ∙ ap (λ bs. header ++ bs) (append_assoc (save_addrs (length d.addrs) d.addrs) classes more) in
    let read : read_fields (8 ∷ 4 ∷ 4 ∷ [])
          (header ++ (save_addrs (length d.addrs) d.addrs ++ (classes ++ more)))
        ≡ ok (
          directory_magic ∷ directory_version ∷ n ∷ [],
          save_addrs (length d.addrs) d.addrs ++ (classes ++ more),
        ) =
      read_fields-encode (directory_header n)
        (save_addrs (length d.addrs) d.addrs ++ (classes ++ more))
        (
          Fits-long directory_magic (omega arith),
          (Fits-word directory_version (omega arith), (Fits-word n v.small, tt)),
        ) in
    (
      header ++ (save_addrs (length d.addrs) d.addrs ++ classes),
      rw fits (rw saved_as refl),
      ap (λ bs. read_fields (8 ∷ 4 ∷ 4 ∷ []) bs >>= known_header) split
          ∙ ap (λ r. r >>= known_header) read
          ∙ load_nodes-save d classes more v loaded_as,
    )
