-- ===== src/Delta/Codec.antt =====
-- Records as bytes: what is written is read back.
use skip_cell.Common.{
  ℕ, zero, suc, ◌+◌, ◌*◌, ◌^◌, ◌<◌, ◌≡◌, refl, sym, ap, ◌∙◌, List, [], ◌∷◌, ◌++◌, none, some,
  Option-cases, inl, inr, length, arith,
}
use mathlib.Core.List.{append_assoc}
use skip_cell.Common.Bytes.{
  encode, Fits-word, Fits-long, decode-encode, read_exact, read_exact-encode, read_exact-length,
}
use skip_cell.Delta.{
  Record, encode_vec, encode_record, after_word, read_vec, with_vec, with_label, read_record,
}

-- Every float is a word of 32 bits.
unfoldable pub AllWords : List ℕ → Type 0
AllWords [] = Unit {0}
AllWords (w ∷ words) = (w < 2 ^ 32) × AllWords words

read_vec-step :
    (n : ℕ) (bytes word rest : List ℕ)
    → read_exact 4 bytes ≡ some (word, rest)
    → read_vec (suc n) bytes ≡ after_word word (read_vec n rest)
unfolding read_vec
read_vec-step n bytes word rest e = rw (e, read_vec) refl

read_vec-encode :
    (vec rest : List ℕ)
    → AllWords vec
    → read_vec (length vec) (encode_vec vec ++ rest) ≡ some (vec, rest)
unfolding read_vec encode_vec AllWords
read_vec-encode [] rest h = refl
read_vec-encode (w ∷ vec) rest h =
    ap (read_vec (suc (length vec))) (append_assoc (encode 4 w) (encode_vec vec) rest)
    ∙ read_vec-step (length vec) _ _ _ (read_exact-encode 4 w (encode_vec vec ++ rest))
    ∙ ap (after_word (encode 4 w)) (read_vec-encode vec rest h.1)
    ∙ ap (λ x. some (x ∷ vec, rest)) (decode-encode 4 w (Fits-word w h.0))

-- A record of a store of the dimension: its vector has that many words, its label 64 bits.
pub record IsRecord (dim : ℕ) (r : Record) : Type 0 where
  pub sized : length r.vec ≡ dim
  pub words : AllWords r.vec
  pub label_fits : r.label < 2 ^ 64

-- A record that is written is the first one read back, and the rest is left.
pub read_record-encode :
    (dim : ℕ) (r : Record) (rest : List ℕ)
    → IsRecord dim r
    → read_record dim (encode_record r ++ rest) ≡ some (1, r, rest)
unfolding read_record encode_record
read_record-encode dim r rest v =
    ap (λ b. read_record dim (1 ∷ b)) (append_assoc (encode 8 r.label) (encode_vec r.vec) rest)
    ∙ ap (with_label dim 1) (read_exact-encode 8 r.label (encode_vec r.vec ++ rest))
    ∙ ap (λ d. with_vec 1 (encode 8 r.label) (read_vec d (encode_vec r.vec ++ rest))) (sym v.sized)
    ∙ ap (with_vec 1 (encode 8 r.label)) (read_vec-encode r.vec rest v.words)
    ∙ ap (λ l. some (1, record { label = l; vec = r.vec }, rest))
        (decode-encode 8 r.label (Fits-long r.label v.label_fits))

read_vec-short : (n : ℕ) (bytes : List ℕ) → length bytes < 4 * n → read_vec n bytes ≡ none
unfolding read_vec
read_vec-short zero bytes h = absurd (omega arith)
read_vec-short (suc n) bytes h = elim (Option-cases (read_exact 4 bytes)) [
  | inl e ↦ rw (e, read_vec) refl
  | inr ((word, rest), e) ↦
      read_vec-step n bytes word rest e
      ∙ ap (after_word word) (read_vec-short n rest (omega (arith, read_exact-length 4 bytes e)))
]

-- From fewer bytes than a record has none is read.
pub read_record-short :
    (dim : ℕ) (bytes : List ℕ) → length bytes < 9 + 4 * dim → read_record dim bytes ≡ none
unfolding read_record
read_record-short dim [] h = refl
read_record-short dim (op ∷ bytes) h = elim (Option-cases (read_exact 8 bytes)) [
  | inl e ↦ rw (e, read_record) refl
  | inr ((label, rest), e) ↦
      rw (e, read_record)
        (ap (with_vec op label)
          (read_vec-short dim rest (omega (arith, read_exact-length 8 bytes e))))
]
