-- ===== src/Base/Utf8.antt =====
-- Package `unicode/utf8`: `ValidString`.
use msgscript.Base.ByteString.{Bytes}
use msgscript.Base.{
  ℕ, leb, Bool, true, false, ◌&&◌, List, [], ◌∷◌, Option, none, some, ◌≡◌, if◌then◌else◌, ◌==◌,
}

-- The ranges of the bytes that have to stand behind a first byte.
abbrev following : ℕ → Option (List (ℕ × ℕ))
following x =
    if leb x 127
    then some []
    else if leb x 193
    then none
    else if leb x 223
    then some ((128, 191) ∷ [])
    else if x == 224
    then some ((160, 191) ∷ (128, 191) ∷ [])
    else if x == 237
    then some ((128, 159) ∷ (128, 191) ∷ [])
    else if leb x 239
    then some ((128, 191) ∷ (128, 191) ∷ [])
    else if x == 240
    then some ((144, 191) ∷ (128, 191) ∷ (128, 191) ∷ [])
    else if leb x 243
    then some ((128, 191) ∷ (128, 191) ∷ (128, 191) ∷ [])
    else if x == 244
    then some ((128, 143) ∷ (128, 191) ∷ (128, 191) ∷ [])
    else none

-- With the ranges that the next bytes have to be in.
unfoldable pub valid_behind : List (ℕ × ℕ) → Bytes → Bool
valid_behind [] [] = true
valid_behind (r ∷ ranges) [] = false
valid_behind ((low, high) ∷ ranges) (x ∷ s) =
    let rest = valid_behind ranges s in leb low x && (leb x high && rest)
valid_behind [] (x ∷ s) = elim (following x) [ none ↦ false | some ranges ↦ valid_behind ranges s ]

abbrev pub IsUtf8 : Bytes → Type 0
IsUtf8 s = valid_behind [] s ≡ true
