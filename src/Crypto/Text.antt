-- ===== src/Crypto/Text.antt =====
-- The operations of Rust's `str` that src/crypto and src/auth_handler.rs use, on the bytes of a text.
use auth_kademlia_rs.Prelude.{
  ℕ, zero, suc, Bool, true, false, ◌&&◌, Option, none, some, List, [], ◌∷◌, map, ltb, leb, ◌==◌,
  if◌then◌else◌, Bytes, length,
}
use mathlib.Core.List.{reverse}

-- The ranges of the bytes that follow the first byte of a character.
unfoldable pub after_lead : ℕ → Option (List (ℕ × ℕ))
after_lead b =
    if ltb b 128
    then some []
    else if ltb b 194
    then none
    else if ltb b 224
    then some ((128, 191) ∷ [])
    else if b == 224
    then some ((160, 191) ∷ (128, 191) ∷ [])
    else if b == 237
    then some ((128, 159) ∷ (128, 191) ∷ [])
    else if ltb b 240
    then some ((128, 191) ∷ (128, 191) ∷ [])
    else if b == 240
    then some ((144, 191) ∷ (128, 191) ∷ (128, 191) ∷ [])
    else if ltb b 244
    then some ((128, 191) ∷ (128, 191) ∷ (128, 191) ∷ [])
    else if b == 244
    then some ((128, 143) ∷ (128, 191) ∷ (128, 191) ∷ [])
    else none

unfoldable pub utf8_from : List (ℕ × ℕ) → Bytes → Bool
unfolding after_lead
utf8_from [] [] = true
utf8_from (r ∷ due) [] = false
utf8_from [] (b ∷ l) = elim (after_lead b) [ none ↦ false | some due ↦ utf8_from due l ]
utf8_from (r ∷ due) (b ∷ l) = leb r.0 b && leb b r.1 && utf8_from due l

-- `std::str::from_utf8`
unfoldable pub from_utf8 : Bytes → Bool
unfolding utf8_from
from_utf8 bytes = utf8_from [] bytes

-- `split(c).next()`
unfoldable pub before : ℕ → Bytes → Bytes
before c [] = []
before c (b ∷ l) = if b == c then [] else b ∷ before c l

-- `strip_prefix`
unfoldable pub strip_prefix : Bytes → Bytes → Option Bytes
strip_prefix [] l = some l
strip_prefix (a ∷ prefix) [] = none
strip_prefix (a ∷ prefix) (b ∷ l) = if a == b then strip_prefix prefix l else none

-- The characters that `trim` takes off, in UTF-8.
abbrev pub white_space : List Bytes
white_space =
    (9 ∷ [])
    ∷ (10 ∷ [])
    ∷ (11 ∷ [])
    ∷ (12 ∷ [])
    ∷ (13 ∷ [])
    ∷ (32 ∷ [])
    ∷ (194 ∷ 133 ∷ [])
    ∷ (194 ∷ 160 ∷ [])
    ∷ (225 ∷ 154 ∷ 128 ∷ [])
    ∷ (226 ∷ 128 ∷ 128 ∷ [])
    ∷ (226 ∷ 128 ∷ 129 ∷ [])
    ∷ (226 ∷ 128 ∷ 130 ∷ [])
    ∷ (226 ∷ 128 ∷ 131 ∷ [])
    ∷ (226 ∷ 128 ∷ 132 ∷ [])
    ∷ (226 ∷ 128 ∷ 133 ∷ [])
    ∷ (226 ∷ 128 ∷ 134 ∷ [])
    ∷ (226 ∷ 128 ∷ 135 ∷ [])
    ∷ (226 ∷ 128 ∷ 136 ∷ [])
    ∷ (226 ∷ 128 ∷ 137 ∷ [])
    ∷ (226 ∷ 128 ∷ 138 ∷ [])
    ∷ (226 ∷ 128 ∷ 168 ∷ [])
    ∷ (226 ∷ 128 ∷ 169 ∷ [])
    ∷ (226 ∷ 128 ∷ 175 ∷ [])
    ∷ (226 ∷ 129 ∷ 159 ∷ [])
    ∷ (227 ∷ 128 ∷ 128 ∷ [])
    ∷ []

unfoldable pub strip_any : List Bytes → Bytes → Option Bytes
unfolding strip_prefix
strip_any [] l = none
strip_any (p ∷ ps) l = elim (strip_prefix p l) [ some r ↦ some r | none ↦ strip_any ps l ]

-- Each turn takes a character off, so the length of the text is fuel enough.
unfoldable pub trim_from : ℕ → List Bytes → Bytes → Bytes
unfolding strip_any
trim_from zero ps l = l
trim_from (suc fuel) ps l = elim (strip_any ps l) [ none ↦ l | some r ↦ trim_from fuel ps r ]

unfoldable pub trim : Bytes → Bytes
unfolding trim_from
trim text =
    let rest = trim_from (length text) white_space text in
    reverse (trim_from (length rest) (map reverse white_space) (reverse rest))

-- `trim_end_matches('=')`
unfoldable pub trim_end : ℕ → Bytes → Bytes
trim_end c [] = []
trim_end c (b ∷ l) = elim (trim_end c l) [ [] ↦ if b == c then [] else b ∷ [] | x ∷ r ↦ b ∷ x ∷ r ]
