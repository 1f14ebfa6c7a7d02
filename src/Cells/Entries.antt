-- ===== src/Cells/Entries.antt =====
-- The table after a substitution, and the entries of a replacement that is in order.
use skip_cell.Common.{
  ℕ, ◌≡◌, refl, sym, ap, subst, ◌∙◌, true, false, inl, inr, Bool-cases, List, [], ◌∷◌, some, leb,
  length, set, ok, arith,
}
use skip_cell.Common.Sets.{IsStrict, length-set}
use skip_cell.Cells.{Location, View}
use skip_cell.Cells.Directory.{entries, nodes_of, IsStrict-sorted, entries-parts}
use skip_cell.Cells.Publish.{substitute, misdirected, is_empty}

pub substitute-length :
    (ids : List ℕ) (v : View) (cells : List View) {out : List View}
    → substitute ids v cells ≡ some out
    → length out ≡ length cells
unfolding substitute
substitute-length [] v cells e = ap length (some_inj (sym e))
  where
    some_inj : {xs ys : List View} → some xs ≡ some ys → xs ≡ ys
    some_inj p = cc
substitute-length (i ∷ is) v cells {out} e = elim (Bool-cases (leb (length cells) i)) [
  | inl outside ↦ absurd (ground (arith, e, outside))
  | inr inside ↦
      let f : substitute is v (set cells i v) ≡ some out = ground (arith, e, inside) in
      substitute-length is v (set cells i v) f ∙ length-set cells i v
]

-- Lists of the same length make entries.
entries-same_length :
    (ns : List ℕ) (ls : List Location)
    → length ls ≡ length ns
    → (es : List (ℕ × Location)) × (entries ns ls ≡ ok es)
unfolding entries
entries-same_length [] ls e = ([], refl)
entries-same_length (n ∷ ns) [] e = absurd (omega arith)
entries-same_length (n ∷ ns) (l ∷ ls) e =
    let (es, f) = entries-same_length ns ls (omega arith) in ((n, l) ∷ es, rw f refl)

nil_of : (ns : List ℕ) → is_empty ns ≡ true → ns ≡ []
nil_of [] e = refl
nil_of (n ∷ ns) e = absurd (ground (arith, e))

-- A replacement in order has ascending entries.
pub moved_entries :
    (v : View)
    → misdirected v ≡ false
    → (es : List (ℕ × Location)) × (entries v.vector_nodes v.vector_locations ≡ ok es)
      × IsStrict 0 (nodes_of es)
unfolding misdirected entries
moved_entries v h = elim (Bool-cases (is_empty v.vector_nodes)) [
  | inl empty ↦ ([], ap (λ ns. entries ns v.vector_locations) (nil_of v.vector_nodes empty), tt)
  | inr full ↦
      let (es, e) =
        entries-same_length v.vector_nodes v.vector_locations (ground (arith, h, full)) in
      let strict : IsStrict 0 v.vector_nodes =
        IsStrict-sorted v.vector_nodes (ground (arith, h, full)) (ground (arith, h, full)) in
      (es, e, subst (IsStrict 0) (sym (entries-parts v.vector_nodes v.vector_locations e)) strict)
]
