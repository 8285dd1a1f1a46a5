-- ===== src/Db/Credentials.antt =====
-- The connection string: where its user and its password begin and end.
use share_trip.Base.{
  ℕ, ◌/◌, ◌%◌, ◌<◌, ◌≡◌, refl, String, false, ◌||◌, some, List, [], ◌∷◌, ◌++◌, ◌==◌, All, arith,
  Bool-cases, inl, inr,
}
use Prim.Native.Char.{Char, char, code}
use share_trip.Config.{DbConfig}
use share_trip.Db.{dsn}
use share_trip.Db.Url.{in_user, bytes, utf8, should_escape, hex_digit, escape_byte, escape}
use share_trip.Db.Escaping.{IsByte, unescape, unescape-escape}

code-lt : (c : Char) → code c < 0x110000
code-lt (char n p) = ground arith

All-append : {A : Type 0} (P : A → Type 0) (xs ys : List A) → All P xs → All P ys → All P (xs ++ ys)
All-append P [] ys p q = q
All-append P (x ∷ xs) ys (p, ps) q = (p, All-append P xs ys ps q)

utf8-IsByte : (n : ℕ) → n < 0x110000 → All IsByte (utf8 n)
utf8-IsByte n h = ground arith

pub bytes-IsByte : (s : String) → All IsByte (bytes s)
unfolding bytes
bytes-IsByte String.[] = tt
bytes-IsByte (String.◌∷◌ c s) =
    All-append IsByte (utf8 (code c)) (bytes s) (utf8-IsByte (code c) (code-lt c)) (bytes-IsByte s)

-- A byte that ends no part of the authority: none of `/ : ? # @`.
abbrev pub IsInside : ℕ → Type 0
IsInside b = (b == b'/' || (b == b':' || (b == b'?' || (b == b'#' || b == b'@')))) ≡ false

hex_digit-IsInside : (n : ℕ) → n < 16 → IsInside (hex_digit n)
unfolding hex_digit
hex_digit-IsInside n h = ground arith

should_escape-IsInside : (b : ℕ) → should_escape in_user b ≡ false → IsInside b
unfolding should_escape
should_escape-IsInside b h = ground arith

escape_byte-IsInside : (b : ℕ) → IsByte b → All IsInside (escape_byte in_user b)
unfolding escape_byte
escape_byte-IsInside b byte = elim (Bool-cases (should_escape in_user b)) [
  | inl escaped ↦ rw escaped (
    refl,
    (hex_digit-IsInside (b / 16) (omega arith), (hex_digit-IsInside (b % 16) (omega arith), tt)),
  )
  | inr kept ↦ rw kept (should_escape-IsInside b kept, tt)
]

escape-IsInside : (bs : List ℕ) → All IsByte bs → All IsInside (escape in_user bs)
unfolding escape
escape-IsInside [] all = tt
escape-IsInside (b ∷ bs) (byte, all) =
    All-append IsInside (escape_byte in_user b) (escape in_user bs) (escape_byte-IsInside b byte)
      (escape-IsInside bs all)

-- The string is the scheme, a user, a colon, a password, an at sign and the rest. Whatever the
-- settings hold, neither the user nor the password has a byte that ends it, and both are the
-- settings' own once their escapes are undone.
pub dsn_credentials :
    (c : DbConfig)
    → (user password rest : List ℕ) × (dsn c
        ≡ bytes "postgres://" ++ (user ++ ((b':' ∷ password) ++ (b'@' ∷ rest))))
      × All IsInside user
      × All IsInside password
      × (unescape user ≡ some (bytes c.user))
      × (unescape password ≡ some (bytes c.password))
unfolding dsn
dsn_credentials c = (
  escape in_user (bytes c.user),
  escape in_user (bytes c.password),
  _,
  refl,
  escape-IsInside _ (bytes-IsByte c.user),
  escape-IsInside _ (bytes-IsByte c.password),
  unescape-escape in_user _ (λ q. absurd (ground arith)) (bytes-IsByte c.user),
  unescape-escape in_user _ (λ q. absurd (ground arith)) (bytes-IsByte c.password),
)
