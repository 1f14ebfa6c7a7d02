-- ===== src/Adjacency/Header.antt =====
-- The header of the statistics file, written and parsed; fields of files that were read.
use mathlib.Core.List.{append_assoc}
use skip_cell.Common.{
  ℕ, zero, suc, ◌+◌, ◌≡◌, refl, ap, subst, ◌∙◌, List, [], ◌∷◌, ◌++◌, ltb, length, length-append,
  replicate, false, ok, arith, ok_bind,
}
use skip_cell.Common.Bytes.{
  encode, length-encode, encode_fields, read_fields, read_fields-encode, read_little,
  read_little-Fits, values, AllFit, AllBytes, Fits,
}
use skip_cell.Adjacency.Topology.{field}
use skip_cell.Adjacency.Artifact.{
  Header, header_fields, header_widths, serialize_statistics_header, parse_statistics,
  parse_statistics_header,
}
use skip_cell.Adjacency.Replay.{ok_inj}

-- The bytes that fields take.
total_width : List (ℕ × ℕ) → ℕ
total_width [] = 0
total_width ((n, x) ∷ fields) = n + total_width fields

length-encode_fields : (fields : List (ℕ × ℕ)) → length (encode_fields fields) ≡ total_width fields
unfolding encode_fields total_width
length-encode_fields [] = refl
length-encode_fields ((n, x) ∷ fields) =
    length-append (encode n x) (encode_fields fields)
    ∙ omega (arith, length-encode n x, length-encode_fields fields)

pub length-serialize : (h : Header) → length (serialize_statistics_header h) ≡ 192
unfolding serialize_statistics_header total_width
length-serialize h =
    length-append (encode_fields (header_fields h)) (replicate 48 0)
    ∙ ap (λ n. n + 48) (length-encode_fields (header_fields h))

-- A header whose fields fit their widths is parsed back, whatever follows it.
pub parse-serialize :
    (h : Header) (rest : List ℕ)
    → AllFit (header_fields h)
    → parse_statistics_header (serialize_statistics_header h ++ rest) ≡ ok h
unfolding parse_statistics_header serialize_statistics_header field
parse-serialize h rest fits =
    let zeros = replicate 48 0 in
    let fields = encode_fields (header_fields h) in
    let long : ltb (length (serialize_statistics_header h ++ rest)) 192 ≡ false =
      ground (arith, length-append (serialize_statistics_header h) rest, length-serialize h) in
    let reads : read_fields header_widths ((fields ++ zeros) ++ rest)
        ≡ ok (values (header_fields h), zeros ++ rest) =
      ap (read_fields header_widths) (append_assoc fields zeros rest)
      ∙ read_fields-encode (header_fields h) (zeros ++ rest) fits in
    rw long (ap parse_statistics reads)

-- Numbers that fit their widths, place by place.
unfoldable pub Fitted : List ℕ → List ℕ → Type 0
Fitted [] [] = Unit {0}
Fitted [] (x ∷ xs) = ⊥
Fitted (n ∷ ns) [] = ⊥
Fitted (n ∷ ns) (x ∷ xs) = Fits n x × Fitted ns xs

pub read_fields-Fitted :
    (ns bytes : List ℕ) {xs rest : List ℕ}
    → AllBytes bytes
    → read_fields ns bytes ≡ ok (xs, rest)
    → Fitted ns xs
unfolding read_fields Fitted
read_fields-Fitted [] bytes h e = subst (λ p. Fitted [] p.0) (ok_inj e) tt
read_fields-Fitted (n ∷ ns) bytes h e =
    let (p, reads, e₁) = ok_bind (read_little n bytes) _ e in
    let (q, more, e₂) = ok_bind (read_fields ns p.1) _ e₁ in
    let (fits, bytes_left) = read_little-Fits n bytes h reads in
    subst (λ r. Fitted (n ∷ ns) r.0) (ok_inj e₂) (fits, read_fields-Fitted ns p.1 bytes_left more)

pub field-Fits : (i : ℕ) (ns xs : List ℕ) → Fitted ns xs → Fits (field i ns) (field i xs)
unfolding field Fitted Fits
field-Fits i [] [] h = refl
field-Fits i [] (x ∷ xs) h = absurd h
field-Fits i (n ∷ ns) [] h = absurd h
field-Fits zero (n ∷ ns) (x ∷ xs) h = h.0
field-Fits (suc i) (n ∷ ns) (x ∷ xs) h = field-Fits i ns xs h.1
