-- ===== src/Db/Escaping.antt =====
-- Escapes undone: `unescape` of `net/url` as a machine that reads a byte at a time.
use share_trip.Base.{
  ℕ, ◌+◌, ◌-◌, ◌*◌, ◌/◌, ◌%◌, ◌<◌, ◌≡◌, ◌≢◌, refl, ap, ◌∙◌, true, false, ◌&&◌, Option, none, some,
  List, [], ◌∷◌, ◌++◌, leb, ◌==◌, if◌then◌else◌, All, arith, Bool-cases, inl, inr,
}
use mathlib.Core.Option
use share_trip.Db.Url.{
  Part, in_user, in_host, in_path, in_query, should_escape, hex_digit, escape_byte, escape,
}

abbrev pub unhex : ℕ → Option ℕ
unhex b =
    if leb b'0' b && leb b b'9'
    then some (b - b'0')
    else if leb b'A' b && leb b b'F'
    then some (b - b'A' + 10)
    else if leb b'a' b && leb b b'f'
    then some (b - b'a' + 10)
    else none

-- What has been read: no escape, its percent sign, or its first digit.
pub data Reading : Type 0 where
  plain percent : Reading
  digit : ℕ → Reading

unfoldable pub unescape_from : Reading → List ℕ → Option (List ℕ)
unescape_from plain [] = some []
unescape_from plain (b ∷ bs) = elim (b == b'%') [
  | true ↦ unescape_from percent bs
  | false ↦ Option.map (λ r. b ∷ r) (unescape_from plain bs)
]
unescape_from percent [] = none
unescape_from percent (b ∷ bs) = elim (unhex b) [
  | none ↦ none
  | some h ↦ unescape_from (digit h) bs
]
unescape_from (digit h) [] = none
unescape_from (digit h) (b ∷ bs) = elim (unhex b) [
  | none ↦ none
  | some l ↦ Option.map (λ r. (h * 16 + l) ∷ r) (unescape_from plain bs)
]

unfoldable pub unescape : List ℕ → Option (List ℕ)
unfolding unescape_from
unescape bs = unescape_from plain bs

abbrev pub IsByte : ℕ → Type 0
IsByte b = b < 256

unhex-hex_digit : (n : ℕ) → n < 16 → unhex (hex_digit n) ≡ some n
unfolding hex_digit
unhex-hex_digit n h = ground arith

unescape-escaped :
    (b : ℕ) (bs : List ℕ)
    → IsByte b
    → unescape_from plain (b'%' ∷ hex_digit (b / 16) ∷ hex_digit (b % 16) ∷ bs)
      ≡ Option.map (λ r. b ∷ r) (unescape_from plain bs)
unfolding unescape_from
unescape-escaped b bs byte =
    let high = unhex-hex_digit (b / 16) (omega arith) in
    let low = unhex-hex_digit (b % 16) (omega arith) in
    let whole : b / 16 * 16 + b % 16 ≡ b = omega arith in ground arith

unescape-plain :
    (b : ℕ) (bs : List ℕ)
    → b == b'%' ≡ false
    → unescape_from plain (b ∷ bs) ≡ Option.map (λ r. b ∷ r) (unescape_from plain bs)
unfolding unescape_from
unescape-plain b bs h = ground arith

should_escape-percent : (part : Part) (b : ℕ) → should_escape part b ≡ false → b == b'%' ≡ false
unfolding should_escape
should_escape-percent in_user b h = ground arith
should_escape-percent in_host b h = ground arith
should_escape-percent in_path b h = ground arith
should_escape-percent in_query b h = ground arith

unescape-escape_byte :
    (part : Part) (b : ℕ) (bs : List ℕ)
    → part ≢ in_query
    → IsByte b
    → unescape_from plain (escape_byte part b ++ bs)
      ≡ Option.map (λ r. b ∷ r) (unescape_from plain bs)
unfolding escape_byte
unescape-escape_byte in_query b bs other byte = absurd (other refl)
unescape-escape_byte in_user b bs other byte = elim (Bool-cases (should_escape in_user b)) [
  | inl escaped ↦ rw escaped (unescape-escaped b bs byte)
  | inr kept ↦ rw kept (unescape-plain b bs (should_escape-percent in_user b kept))
]
unescape-escape_byte in_host b bs other byte = elim (Bool-cases (should_escape in_host b)) [
  | inl escaped ↦ rw escaped (unescape-escaped b bs byte)
  | inr kept ↦ rw kept (unescape-plain b bs (should_escape-percent in_host b kept))
]
unescape-escape_byte in_path b bs other byte = elim (Bool-cases (should_escape in_path b)) [
  | inl escaped ↦ rw escaped (unescape-escaped b bs byte)
  | inr kept ↦ rw kept (unescape-plain b bs (should_escape-percent in_path b kept))
]

-- In every part but the query, where a plus is a space, escaping is undone byte for byte.
pub unescape-escape :
    (part : Part) (bs : List ℕ)
    → part ≢ in_query
    → All IsByte bs
    → unescape (escape part bs) ≡ some bs
unfolding unescape escape unescape_from
unescape-escape part [] other all = refl
unescape-escape part (b ∷ bs) other (byte, all) =
    unescape-escape_byte part b (escape part bs) other byte
    ∙ ap (Option.map (λ r. b ∷ r)) (unescape-escape part bs other all)
