-- ===== src/Common/Bytes.antt =====
-- Files and buffers as lists of bytes, numbers in them with the lowest byte first, and the FNV checksum
-- that the file formats share. A cursor into a span is what the span has from there on.
use Prim.Native.Nat.{ℕ, zero, suc, ◌+◌, ◌*◌, ◌/◌, ◌%◌, ◌^◌, ◌<◌, bit_xor}
use mathlib.Core.Path.{◌≡◌, refl, sym, ap, subst, ◌∙◌}
use mathlib.Core.Bool.{Bool, true, false, ◌&&◌}
use mathlib.Core.Option.{Option, none, some}
use mathlib.Core.List.{List, [], ◌∷◌, ◌++◌, append_assoc}
use native.Mathlib.Omega.{arith}
use skip_cell.Common.Tests.{ltb}
use skip_cell.Common.Lists.{length}
use skip_cell.Common.Outcomes.{Result, ok, throws, runtime_error, ◌>>=◌}

-- A number in `n` bytes.
unfoldable pub encode : ℕ → ℕ → List ℕ
encode zero x = []
encode (suc n) x = x % 256 ∷ encode n (x / 256)

unfoldable pub decode : List ℕ → ℕ
decode [] = 0
decode (b ∷ bytes) = b + 256 * decode bytes

-- A number that `n` bytes hold.
unfoldable pub Fits : ℕ → ℕ → Type 0
Fits zero x = x ≡ 0
Fits (suc n) x = Fits n (x / 256)

pub decode-encode : (n x : ℕ) → Fits n x → decode (encode n x) ≡ x
unfolding decode encode Fits
decode-encode zero x h = sym h
decode-encode (suc n) x h = omega (arith, decode-encode n (x / 256) h)

pub length-encode : (n x : ℕ) → length (encode n x) ≡ n
unfolding encode
length-encode zero x = refl
length-encode (suc n) x = ap suc (length-encode n (x / 256))

pub Fits-byte : (x : ℕ) → x < 256 → Fits 1 x
unfolding Fits
Fits-byte x h = omega arith

pub Fits-word : (x : ℕ) → x < 2 ^ 32 → Fits 4 x
unfolding Fits
Fits-word x h = omega arith

pub Fits-long : (x : ℕ) → x < 2 ^ 64 → Fits 8 x
unfolding Fits
Fits-long x h = omega arith

-- The next `n` bytes and what is left; `none` if there are fewer.
unfoldable pub read_exact : ℕ → List ℕ → Option (List ℕ × List ℕ)
read_exact zero bytes = some ([], bytes)
read_exact (suc n) [] = none
read_exact (suc n) (b ∷ bytes) = elim (read_exact n bytes) [
  | none ↦ none
  | some (xs, rest) ↦ some (b ∷ xs, rest)
]

pub read_exact-append : (xs ys : List ℕ) → read_exact (length xs) (xs ++ ys) ≡ some (xs, ys)
unfolding read_exact
read_exact-append [] ys = refl
read_exact-append (x ∷ xs) ys = rw (read_exact-append xs ys) refl

pub read_exact-encode :
    (n x : ℕ) (ys : List ℕ) → read_exact n (encode n x ++ ys) ≡ some (encode n x, ys)
read_exact-encode n x ys =
    ap (λ k. read_exact k (encode n x ++ ys)) (sym (length-encode n x))
    ∙ read_exact-append (encode n x) ys

-- A read that succeeds finds all its bytes.
pub read_exact-length :
    (n : ℕ) (bytes : List ℕ) {xs rest : List ℕ}
    → read_exact n bytes ≡ some (xs, rest)
    → length bytes ≡ n + length rest
unfolding read_exact
read_exact-length zero bytes e = ground (arith, e)
read_exact-length (suc n) [] e = ground (arith, e)
read_exact-length (suc n) (b ∷ bytes) e =
    by_rest (λ ys more h. read_exact-length n bytes h) (read_exact n bytes) refl e
  where
    by_rest :
        {xs rest : List ℕ}
        → ((ys more : List ℕ)
            → read_exact n bytes ≡ some (ys, more)
            → length bytes ≡ n + length more)
        → (o : Option (List ℕ × List ℕ)) → read_exact n bytes ≡ o
        → read_exact (suc n) (b ∷ bytes) ≡ some (xs, rest)
        → length (b ∷ bytes) ≡ suc n + length rest
    by_rest step none e f = ground (arith, e, f)
    by_rest step (some (ys, more)) e f = ground (arith, step ys more e, e, f)

abbrev pub decoded : Option (List ℕ × List ℕ) → Result (ℕ × List ℕ)
decoded none = throws runtime_error
decoded (some (bytes, rest)) = ok (decode bytes, rest)

-- `read_little` of a number of `n` bytes.
unfoldable pub read_little : ℕ → List ℕ → Result (ℕ × List ℕ)
read_little n bytes = decoded (read_exact n bytes)

pub read_little-encode :
    (n x : ℕ) (rest : List ℕ) → Fits n x → read_little n (encode n x ++ rest) ≡ ok (x, rest)
unfolding read_little
read_little-encode n x rest h =
    ap decoded (read_exact-encode n x rest) ∙ ap (λ y. ok (y, rest)) (decode-encode n x h)

-- Numbers one after the other, each with its width.
unfoldable pub encode_fields : List (ℕ × ℕ) → List ℕ
encode_fields [] = []
encode_fields ((n, x) ∷ fields) = encode n x ++ encode_fields fields

abbrev pub widths : List (ℕ × ℕ) → List ℕ
widths [] = []
widths ((n, x) ∷ fields) = n ∷ widths fields

abbrev pub values : List (ℕ × ℕ) → List ℕ
values [] = []
values ((n, x) ∷ fields) = x ∷ values fields

unfoldable pub AllFit : List (ℕ × ℕ) → Type 0
AllFit [] = Unit {0}
AllFit ((n, x) ∷ fields) = Fits n x × AllFit fields

unfoldable pub read_fields : List ℕ → List ℕ → Result (List ℕ × List ℕ)
read_fields [] bytes = ok ([], bytes)
read_fields (n ∷ ns) bytes = do
  (x, rest) ← read_little n bytes
  (xs, last) ← read_fields ns rest
  ok (x ∷ xs, last)

pub read_fields-encode :
    (fields : List (ℕ × ℕ)) (rest : List ℕ)
    → AllFit fields
    → read_fields (widths fields) (encode_fields fields ++ rest) ≡ ok (values fields, rest)
unfolding read_fields encode_fields AllFit
read_fields-encode [] rest h = refl
read_fields-encode ((n, x) ∷ fields) rest h =
    ap (read_fields (n ∷ widths fields)) (append_assoc (encode n x) (encode_fields fields) rest)
    ∙ rw (read_little-encode n x (encode_fields fields ++ rest) h.0, read_fields)
        (rw (read_fields-encode fields rest h.1) refl)

-- The first bytes, and those from a position on.
unfoldable pub take {ℓ} : {A : Type ℓ} → ℕ → List A → List A
take zero xs = []
take (suc n) [] = []
take (suc n) (x ∷ xs) = x ∷ take n xs

unfoldable pub drop {ℓ} : {A : Type ℓ} → ℕ → List A → List A
drop zero xs = xs
drop (suc n) [] = []
drop (suc n) (x ∷ xs) = drop n xs

-- `span.subspan`.
abbrev pub subspan {ℓ} : {A : Type ℓ} → ℕ → ℕ → List A → List A
subspan begin n xs = take n (drop begin xs)

module _ {ℓ} {A : Type ℓ} where
  pub take-append : (xs ys : List A) → take (length xs) (xs ++ ys) ≡ xs
  unfolding take
  take-append [] ys = refl
  take-append (x ∷ xs) ys = ap (λ zs. x ∷ zs) (take-append xs ys)

  pub drop-append : (xs ys : List A) → drop (length xs) (xs ++ ys) ≡ ys
  unfolding drop
  drop-append [] ys = refl
  drop-append (x ∷ xs) ys = drop-append xs ys

  -- The part in the middle.
  pub subspan-append :
      (begin n : ℕ) (front part back : List A)
      → begin ≡ length front
      → n ≡ length part
      → subspan begin n (front ++ (part ++ back)) ≡ part
  subspan-append begin n front part back b e =
      ap (λ k. take n (drop k (front ++ (part ++ back)))) b
      ∙ ap (take n) (drop-append front (part ++ back))
      ∙ ap (λ k. take k (part ++ back)) e
      ∙ take-append part back

abbrev pub fnv_offset_basis : ℕ
fnv_offset_basis = 14695981039346656037

abbrev pub fnv_prime : ℕ
fnv_prime = 1099511628211

unfoldable pub hash_bytes : ℕ → List ℕ → ℕ
hash_bytes checksum [] = checksum
hash_bytes checksum (b ∷ bytes) = hash_bytes (bit_xor checksum b * fnv_prime % 2 ^ 64) bytes

unfoldable pub checksum_bytes : List ℕ → ℕ
unfolding hash_bytes
checksum_bytes bytes = hash_bytes fnv_offset_basis bytes

pub hash_bytes-lt :
    (checksum : ℕ) (bytes : List ℕ) → checksum < 2 ^ 64 → hash_bytes checksum bytes < 2 ^ 64
unfolding hash_bytes
hash_bytes-lt checksum [] h = h
hash_bytes-lt checksum (b ∷ bytes) h =
    hash_bytes-lt (bit_xor checksum b * fnv_prime % 2 ^ 64) bytes (omega arith)

pub checksum_bytes-lt : (bytes : List ℕ) → checksum_bytes bytes < 2 ^ 64
unfolding checksum_bytes
checksum_bytes-lt bytes = hash_bytes-lt fnv_offset_basis bytes (omega arith)

-- Every element is a byte.
unfoldable pub AllBytes : List ℕ → Type 0
AllBytes [] = Unit {0}
AllBytes (b ∷ bytes) = (b < 256) × AllBytes bytes

pub AllBytes-drop : (n : ℕ) (bytes : List ℕ) → AllBytes bytes → AllBytes (drop n bytes)
unfolding AllBytes drop
AllBytes-drop zero bytes h = h
AllBytes-drop (suc n) [] h = h
AllBytes-drop (suc n) (b ∷ bytes) h = AllBytes-drop n bytes h.1

some_inj : {p q : List ℕ × List ℕ} → some p ≡ some q → p ≡ q
some_inj f = cc

-- What is read of bytes fits its width, and leaves bytes.
pub read_exact-Fits :
    (n : ℕ) (bytes xs rest : List ℕ)
    → AllBytes bytes
    → read_exact n bytes ≡ some (xs, rest)
    → Fits n (decode xs) × AllBytes rest
unfolding read_exact AllBytes Fits decode
read_exact-Fits zero bytes xs rest h e = by_both (some_inj e)
  where
    by_both : ◌≡◌ {A = List ℕ × List ℕ} ([], bytes) (xs, rest) → (decode xs ≡ 0) × AllBytes rest
    by_both p = (ap (λ q. decode q.0) (sym p), subst (λ q. AllBytes q.1) p h)
read_exact-Fits (suc n) [] xs rest h e = absurd (ground (arith, e))
read_exact-Fits (suc n) (b ∷ bytes) xs rest h e =
    by_rest (λ ys more f. read_exact-Fits n bytes ys more h.1 f) (read_exact n bytes) refl e
  where
    by_rest :
        ((ys more : List ℕ)
          → read_exact n bytes ≡ some (ys, more)
          → Fits n (decode ys) × AllBytes more)
        → (o : Option (List ℕ × List ℕ)) → read_exact n bytes ≡ o
        → read_exact (suc n) (b ∷ bytes) ≡ some (xs, rest)
        → Fits (suc n) (decode xs) × AllBytes rest
    by_rest step none f g = absurd (ground (arith, f, g))
    by_rest step (some (ys, more)) f g =
        let q : read_exact (suc n) (b ∷ bytes) ≡ some (b ∷ ys, more) = rw f refl in
        let (fits, left) = step ys more f in
        let p : ◌≡◌ {A = List ℕ × List ℕ} (b ∷ ys, more) (xs, rest) = some_inj (sym q ∙ g) in
        (
          subst (λ q. Fits n (decode q.0 / 256)) p (subst (Fits n) (omega (arith, h.0)) fits),
          subst (λ q. AllBytes q.1) p left,
        )

pub read_little-Fits :
    (n : ℕ) (bytes : List ℕ) {x : ℕ} {rest : List ℕ}
    → AllBytes bytes
    → read_little n bytes ≡ ok (x, rest)
    → Fits n x × AllBytes rest
unfolding read_little
read_little-Fits n bytes {x} {rest} h e = by_read (read_exact n bytes) refl e
  where
    by_read :
        (o : Option (List ℕ × List ℕ))
        → read_exact n bytes ≡ o
        → decoded o ≡ ok (x, rest)
        → Fits n x × AllBytes rest
    by_read none f g = absurd (ground (arith, g))
    by_read (some (xs, more)) f g =
        let (fits, left) = read_exact-Fits n bytes xs more h f in
        let p : ◌≡◌ {A = ℕ × List ℕ} (decode xs, more) (x, rest) = cc in
        (subst (λ q. Fits n q.0) p fits, subst (λ q. AllBytes q.1) p left)

pub lt_of_Fits-word : (x : ℕ) → Fits 4 x → x < 2 ^ 32
unfolding Fits
lt_of_Fits-word x h = omega (arith, h)

pub lt_of_Fits-long : (x : ℕ) → Fits 8 x → x < 2 ^ 64
unfolding Fits
lt_of_Fits-long x h = omega (arith, h)

-- The same as a test.
unfoldable pub all_bytes : List ℕ → Bool
all_bytes [] = true
all_bytes (b ∷ bytes) = ltb b 256 && all_bytes bytes

pub all_bytes-AllBytes : (bytes : List ℕ) → all_bytes bytes ≡ true → AllBytes bytes
unfolding all_bytes AllBytes
all_bytes-AllBytes [] e = tt
all_bytes-AllBytes (b ∷ bytes) e =
    (ground (arith, e), all_bytes-AllBytes bytes (by_second (ltb b 256) (all_bytes bytes) e))
  where
    by_second : (p q : Bool) → (p && q) ≡ true → q ≡ true
    by_second true q f = f
    by_second false q f = absurd (ground (arith, f))
