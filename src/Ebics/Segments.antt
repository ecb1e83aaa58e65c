-- ===== src/Ebics/Segments.antt =====
-- `split_segments` of painfree/ebics3/transaction.py: encoded order data, cut into segments.
pub mod Laws
use painfree_ebics_middlewar.Prelude.{
  ℕ, zero, suc, ◌%◌, Text, is_empty, List, [], ◌∷◌, length, take, drop, ltb, ◌==◌, not, true, false,
}
use painfree_ebics_middlewar.Ebics.Errors.{Error, RequestFault, Result, ok, ensure, ◌>>=◌, ◌>>◌}

abbrev pub segment_size : ℕ
segment_size = 1048576

-- `[encoded[i:i + size] for i in range(0, len(encoded), size)]`, a slice at each round.
unfoldable pub slices : ℕ → ℕ → Text → List Text
slices zero size encoded = []
slices (suc rounds) size encoded =
    let rest = slices rounds size (drop size encoded) in
    elim (is_empty encoded) [ true ↦ [] | false ↦ take size encoded ∷ rest ]

-- `… or [""]`.
abbrev or_one_empty : List Text → List Text
or_one_empty [] = [] ∷ []
or_one_empty (s ∷ rest) = s ∷ rest

-- A positive step needs at most one round for each character.
unfoldable pub split_segments : Text → ℕ → Result (List Text)
unfolding slices
split_segments encoded size = do
  ensure (not (ltb size 1)) (Error.request RequestFault.size_not_positive)
  ensure (size % 4 == 0) (Error.request RequestFault.size_not_aligned)
  ok (or_one_empty (slices (length encoded) size encoded))
