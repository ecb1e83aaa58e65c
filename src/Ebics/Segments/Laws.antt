-- ===== src/Ebics/Segments/Laws.antt =====
-- Cutting and joining segments.
use painfree_ebics_middlewar.Prelude.{
  ℕ, zero, suc, ◌%◌, ◌≤◌, ◌<◌, Text, List, [], ◌∷◌, ◌++◌, ◌≡◌, refl, ap, ◌∙◌, length, take, drop,
  concat, take-append-drop, length-take, length-drop, arith,
}
use painfree_ebics_middlewar.Ebics.Errors.{ok}
use painfree_ebics_middlewar.Ebics.Segments.{slices, split_segments}

-- Every segment but the last has the full size; a segment after the first is not empty.
abbrev pub AreFull : ℕ → List Text → Type 0
AreFull size [] = Unit
AreFull size (s ∷ []) = length s ≤ size
AreFull size (s ∷ t ∷ rest) = (length s ≡ size) × (0 < length t) × AreFull size (t ∷ rest)

concat-slices :
    (rounds size : ℕ) (encoded : Text)
    → 0 < size
    → length encoded ≤ rounds
    → concat (slices rounds size encoded) ≡ encoded
unfolding slices
concat-slices zero size [] p h = refl
concat-slices zero size (c ∷ s) p h = absurd (omega arith)
concat-slices (suc rounds) size [] p h = refl
concat-slices (suc rounds) size (c ∷ s) p h =
    ap (λ t. take size (c ∷ s) ++ t)
      (concat-slices rounds size (drop size (c ∷ s)) p (omega (arith, length-drop size (c ∷ s))))
    ∙ take-append-drop size (c ∷ s)

AreFull-cons :
    (size rounds : ℕ) (s d : Text)
    → 0 < size
    → length s ≤ size
    → (0 < length d → length s ≡ size)
    → AreFull size (slices rounds size d)
    → AreFull size (s ∷ slices rounds size d)
unfolding slices
AreFull-cons size zero s d p short full h = short
AreFull-cons size (suc rounds) s [] p short full h = short
AreFull-cons size (suc rounds) s (c ∷ d) p short full h =
    (full (omega arith), omega (arith, length-take size (c ∷ d)), h)

AreFull-slices :
    (rounds size : ℕ) (encoded : Text) → 0 < size → AreFull size (slices rounds size encoded)
unfolding slices
AreFull-slices zero size encoded p = tt
AreFull-slices (suc rounds) size [] p = tt
AreFull-slices (suc rounds) size (c ∷ s) p =
    AreFull-cons size rounds (take size (c ∷ s)) (drop size (c ∷ s)) p
      (omega (arith, length-take size (c ∷ s)))
      (λ more. omega (arith, length-take size (c ∷ s), length-drop size (c ∷ s)))
      (AreFull-slices rounds size (drop size (c ∷ s)) p)

-- For a positive size that is a multiple of 4 the cut succeeds and loses nothing: there is at least
-- one segment, the segments joined in order are the encoded text, every segment but the last has
-- exactly the size and the last at most it, and none after the first is empty.
pub concat-split_segments :
    (encoded : Text) (size : ℕ)
    → 0 < size
    → size % 4 ≡ 0
    → (segments : List Text) × (split_segments encoded size ≡ ok segments)
      × (concat segments ≡ encoded)
      × AreFull size segments
      × (0 < length segments)
unfolding split_segments
concat-split_segments [] size p q = ([] ∷ [], ground arith, refl, omega arith, omega arith)
concat-split_segments (c ∷ s) size p q = (
  slices (length (c ∷ s)) size (c ∷ s),
  ground arith,
  concat-slices (length (c ∷ s)) size (c ∷ s) p (omega arith),
  AreFull-slices (length (c ∷ s)) size (c ∷ s) p,
  omega arith,
)
