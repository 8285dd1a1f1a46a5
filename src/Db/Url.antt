-- ===== src/Db/Url.antt =====
-- What the connection string uses of `net/url`: which bytes are escaped where, and the escapes.
use share_trip.Base.{
  ℕ, ◌+◌, ◌-◌, ◌/◌, ◌%◌, String, Bool, true, false, ◌||◌, ◌&&◌, not, List, [], ◌∷◌, ◌++◌, ltb, leb,
  ◌==◌, if◌then◌else◌,
}
use Prim.Native.Char.{code}

-- UTF-8
abbrev pub utf8 : ℕ → List ℕ
utf8 c =
    if ltb c 0x80
    then c ∷ []
    else if ltb c 0x800
    then (0xc0 + c / 0x40) ∷ (0x80 + c % 0x40) ∷ []
    else if ltb c 0x10000
    then (0xe0 + c / 0x1000) ∷ (0x80 + c / 0x40 % 0x40) ∷ (0x80 + c % 0x40) ∷ []
    else (0xf0 + c / 0x40000)
      ∷ (0x80 + c / 0x1000 % 0x40)
      ∷ (0x80 + c / 0x40 % 0x40)
      ∷ (0x80 + c % 0x40)
      ∷ []

unfoldable pub bytes : String → List ℕ
bytes String.[] = []
bytes (String.◌∷◌ c s) = utf8 (code c) ++ bytes s

-- The parts of a URL, as the library's `encoding` tells them apart.
pub data Part : Type 0 where
  in_user in_host in_path in_query : Part

abbrev pub is_unreserved : ℕ → Bool
is_unreserved b =
    (leb b'a' b && leb b b'z')
    || ((leb b'A' b && leb b b'Z')
        || ((leb b'0' b && leb b b'9') || (b == b'-' || (b == b'_' || (b == b'.' || b == b'~')))))

-- `$ & + , / : ; = ? @`
abbrev pub is_reserved : ℕ → Bool
is_reserved b =
    b == b'$'
    || (b == b'&'
        || (b == b'+'
            || (b == b','
                || (b == b'/'
                    || (b == b':' || (b == b';' || (b == b'=' || (b == b'?' || b == b'@'))))))))

-- `! $ & ' ( ) * + , ; = : [ ] < > "`
abbrev pub is_host_byte : ℕ → Bool
is_host_byte b =
    b == 33
    || (b == 36
        || (b == 38
            || ((leb 39 b && leb b 44)
                || (b == 59
                    || (b == 61
                        || (b == 58
                            || (b == 91 || (b == 93 || (b == 60 || (b == 62 || b == 34))))))))))

-- `shouldEscape`
unfoldable pub should_escape : Part → ℕ → Bool
should_escape in_host b = not (is_unreserved b) && not (is_host_byte b)
should_escape in_user b =
    if is_unreserved b
    then false
    else if is_reserved b
    then b == b'@' || (b == b'/' || (b == b'?' || b == b':'))
    else true
should_escape in_path b =
    if is_unreserved b then false else if is_reserved b then b == b'?' else true
should_escape in_query b = not (is_unreserved b)

unfoldable pub hex_digit : ℕ → ℕ
hex_digit n = if ltb n 10 then b'0' + n else b'A' + (n - 10)

-- A space in a query becomes a plus.
unfoldable pub escape_byte : Part → ℕ → List ℕ
unfolding should_escape hex_digit
escape_byte in_query b =
    if b == 32
    then b'+' ∷ []
    else if should_escape in_query b
    then b'%' ∷ hex_digit (b / 16) ∷ hex_digit (b % 16) ∷ []
    else b ∷ []
escape_byte part b =
    if should_escape part b then b'%' ∷ hex_digit (b / 16) ∷ hex_digit (b % 16) ∷ [] else b ∷ []

-- `escape`
unfoldable pub escape : Part → List ℕ → List ℕ
unfolding escape_byte
escape part [] = []
escape part (b ∷ bs) = escape_byte part b ++ escape part bs
