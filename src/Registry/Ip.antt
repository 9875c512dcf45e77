-- ===== src/Registry/Ip.antt =====
-- `stringIpToInt`, `Ip2Str` and `Ip2StarStr` of RegistryServer/DbHandle.cpp, over the bytes of the
-- text. `strto<unsigned int>` (TC_Common) is a parameter; `none` is the exception of `substr`.
-- The byte order is that of a little-endian machine.
pub mod Dotted
use tars_framework.Base.{
  ◌>>=◌, ℕ, zero, suc, ◌+◌, ◌-◌, ◌*◌, ◌/◌, ◌%◌, ◌^◌, Bool, Option, none, some, List, [], ◌∷◌, ◌++◌,
  ltb, ◌==◌, if◌then◌else◌, length, take, drop,
}

abbrev pub u32 : ℕ → ℕ
u32 n = n % 4294967296

-- `std::string::npos`.
abbrev pub npos : ℕ
npos = 18446744073709551615

unfoldable pub index : ℕ → List ℕ → Option ℕ
index c [] = none
index c (x ∷ xs) =
    if x == c then some 0 else elim (index c xs) [ none ↦ none | some i ↦ some (suc i) ]

-- `s.find(c, from)`.
unfoldable pub find_byte : List ℕ → ℕ → ℕ → ℕ
find_byte s c from = elim (index c (drop from s)) [ none ↦ npos | some i ↦ from + i ]

-- `s.substr(from, count)`.
unfoldable pub substr : List ℕ → ℕ → ℕ → Option (List ℕ)
substr s from count = if ltb (length s) from then none else some (take count (drop from s))

-- The value of the four bytes at `&dip`, lowest address first, after `htonl`.
abbrev pub big_endian : ℕ → ℕ → ℕ → ℕ → ℕ
big_endian b0 b1 b2 b3 = ((b0 * 256 + b1) * 256 + b2) * 256 + b3

unfoldable pub string_ip_to_int : (List ℕ → ℕ) → List ℕ → Option ℕ
string_ip_to_int strto sip = do
  let p1 = u32 (find_byte sip b'.' 0)
  let p2 = u32 (find_byte sip b'.' (u32 (p1 + 1)))
  let p3 = u32 (find_byte sip b'.' (u32 (p2 + 1)))
  ip1 ← substr sip 0 p1
  ip2 ← substr sip (u32 (p1 + 1)) (u32 (p2 + 4294967296 - p1 + 4294967295))
  ip3 ← substr sip (u32 (p2 + 1)) (u32 (p3 + 4294967296 - p2 + 4294967295))
  ip4 ←
      substr sip (u32 (p3 + 1))
        ((length sip + 18446744073709551616 - p3 + 18446744073709551615) % 18446744073709551616)
  some (big_endian (strto ip1 % 256) (strto ip2 % 256) (strto ip3 % 256) (strto ip4 % 256))

-- "%u" of an unsigned char.
unfoldable pub show_u8 : ℕ → List ℕ
show_u8 n =
    if ltb n 10
    then (b'0' + n) ∷ []
    else if ltb n 100
    then (b'0' + n / 10) ∷ (b'0' + n % 10) ∷ []
    else (b'0' + n / 100) ∷ (b'0' + n / 10 % 10) ∷ (b'0' + n % 10) ∷ []

-- `p[k]` of `(unsigned char *)&ip`.
abbrev pub byte : ℕ → ℕ → ℕ
byte ip k = ip / 256 ^ k % 256

abbrev pub dot : List ℕ → List ℕ → List ℕ
dot a b = a ++ b'.' ∷ b

unfoldable pub ip2_str : ℕ → List ℕ
ip2_str ip =
    dot (show_u8 (byte ip 3))
      (dot (show_u8 (byte ip 2)) (dot (show_u8 (byte ip 1)) (show_u8 (byte ip 0))))

unfoldable pub ip2_star_str : ℕ → List ℕ
ip2_star_str ip =
    dot (show_u8 (byte ip 3)) (dot (show_u8 (byte ip 2)) (dot (show_u8 (byte ip 1)) (b'*' ∷ [])))
