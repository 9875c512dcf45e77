-- ===== src/Registry/Ip/Dotted.antt =====
-- Reading and printing dotted addresses (RegistryServer/DbHandle.cpp).
use tars_framework.Base.{
  ℕ, suc, ◌+◌, ◌-◌, ◌%◌, ◌≤◌, ◌<◌, ◌≡◌, refl, ap, ◌∙◌, ◌≢◌, some, List, [], ◌∷◌, arith, length, All,
  drop, take, take-append, take_all, drop-drop, length-drop, length-append,
}
use tars_framework.Registry.Ip.{
  index, find_byte, substr, string_ip_to_int, big_endian, show_u8, byte, dot, ip2_str, ip2_star_str,
  u32,
}

abbrev pub HasNoDot : List ℕ → Type 0
HasNoDot = All λ c. c ≢ b'.'

index-dot : (xs ys : List ℕ) → HasNoDot xs → index b'.' (dot xs ys) ≡ some (length xs)
unfolding index
index-dot [] ys h = refl
index-dot (x ∷ xs) ys h = ground (arith, index-dot xs ys h.1, h.0)

find_at :
    (s b r : List ℕ) (n : ℕ) → drop n s ≡ dot b r → HasNoDot b → find_byte s b'.' n ≡ n + length b
unfolding find_byte
find_at s b r n e h = rw (e, find_byte, index-dot b r h)

substr_at : (s r : List ℕ) (n k : ℕ) → drop n s ≡ r → n ≤ length s → substr s n k ≡ some (take k r)
unfolding substr
substr_at s r n k e h = ground (arith)

drop-dot : (a r : List ℕ) → drop (suc (length a)) (dot a r) ≡ r
drop-dot [] r = refl
drop-dot (x ∷ a) r = drop-dot a r

drop_next : (s b r : List ℕ) (n : ℕ) → drop n s ≡ dot b r → drop (suc (n + length b)) s ≡ r
drop_next s b r n e =
    let split : suc (n + length b) ≡ n + suc (length b) = omega arith in
    rw (split, ← drop-drop n (suc (length b)) s, e) (drop-dot b r)

length-dot : (a r : List ℕ) → length (dot a r) ≡ length a + suc (length r)
length-dot a r = length-append a (b'.' ∷ r)

-- One search and one cut, from behind the dot at `p`.
module _ (s : List ℕ) (bound : length s < 4294967296) where
  ends_before : (b r : List ℕ) (n : ℕ) → drop n s ≡ dot b r → n + suc (length b) ≤ length s
  ends_before b r n e = omega (arith, length-drop n s, ap length e, length-dot b r)

  find_next :
      (b r : List ℕ) (p : ℕ)
      → drop (suc p) s ≡ dot b r
      → HasNoDot b
      → u32 (find_byte s b'.' (u32 (p + 1))) ≡ suc p + length b
  find_next b r p e h =
      let fits = ends_before b r (suc p) e in
      let next : u32 (p + 1) ≡ suc p = omega arith in
      rw (next, find_at s b r (suc p) e h) (omega arith)

  substr_next :
      (b r : List ℕ) (p : ℕ)
      → drop (suc p) s ≡ dot b r
      → substr s (u32 (p + 1)) (u32 (suc p + length b + 4294967296 - p + 4294967295)) ≡ some b
  substr_next b r p e =
      let fits = ends_before b r (suc p) e in
      let next : u32 (p + 1) ≡ suc p = omega arith in
      let count : u32 (suc p + length b + 4294967296 - p + 4294967295) ≡ length b = omega arith in
      rw (next, count, substr_at s (dot b r) (suc p) (length b) e (omega arith))
        (ap some (take-append b (b'.' ∷ r)))

  substr_last :
      (d : List ℕ) (p : ℕ)
      → drop (suc p) s ≡ d
      → suc p ≤ length s
      → substr s
          (u32 (p + 1))
          ((length s + 18446744073709551616 - p + 18446744073709551615) % 18446744073709551616)
        ≡ some d
  substr_last d p e fits =
      let next : u32 (p + 1) ≡ suc p = omega arith in
      rw (next, substr_at s d (suc p) _ e fits)
        (ap some (take_all _ d (omega (arith, length-drop (suc p) s, ap length e))))

-- The four parts, where the three searches and the four cuts succeed.
parts :
    (strto : List ℕ → ℕ) (sip i1 i2 i3 i4 : List ℕ) (p1 p2 p3 : ℕ)
    → u32 (find_byte sip b'.' 0) ≡ p1
    → u32 (find_byte sip b'.' (u32 (p1 + 1))) ≡ p2
    → u32 (find_byte sip b'.' (u32 (p2 + 1))) ≡ p3
    → substr sip 0 p1 ≡ some i1
    → substr sip (u32 (p1 + 1)) (u32 (p2 + 4294967296 - p1 + 4294967295)) ≡ some i2
    → substr sip (u32 (p2 + 1)) (u32 (p3 + 4294967296 - p2 + 4294967295)) ≡ some i3
    → substr sip
        (u32 (p3 + 1))
        ((length sip + 18446744073709551616 - p3 + 18446744073709551615) % 18446744073709551616)
      ≡ some i4
    → string_ip_to_int strto sip
      ≡ some (big_endian (strto i1 % 256) (strto i2 % 256) (strto i3 % 256) (strto i4 % 256))
unfolding string_ip_to_int
parts strto sip i1 i2 i3 i4 p1 p2 p3 e1 e2 e3 s1 s2 s3 s4 = rw (e1, e2, e3, s1, s2, s3, s4)

-- Four parts with no dot of their own are read one by one, each modulo 256.
pub string_ip_to_int_dotted :
    (strto : List ℕ → ℕ) (a b c d : List ℕ)
    → HasNoDot a
    → HasNoDot b
    → HasNoDot c
    → length (dot a (dot b (dot c d))) < 4294967296
    → string_ip_to_int strto (dot a (dot b (dot c d)))
      ≡ some (big_endian (strto a % 256) (strto b % 256) (strto c % 256) (strto d % 256))
string_ip_to_int_dotted strto a b c d ha hb hc bound =
    parts strto s a b c d n1 n2 n3
      (rw (find_at s a (dot b (dot c d)) 0 refl ha) (omega (arith, size)))
      (find_next s bound b (dot c d) n1 drop1 hb) (find_next s bound c d n2 drop2 hc)
      (rw (substr_at s s 0 n1 refl (omega arith)) (ap some (take-append a _)))
      (substr_next s bound b (dot c d) n1 drop1) (substr_next s bound c d n2 drop2)
      (substr_last s bound d n3 drop3 (omega (arith, size)))
  where
    s : List ℕ
    s = dot a (dot b (dot c d))

    n1 : ℕ
    n1 = length a

    n2 : ℕ
    n2 = suc (length a) + length b

    n3 : ℕ
    n3 = suc n2 + length c

    size : length s ≡ n3 + suc (length d)
    size = omega (arith, length-dot a (dot b (dot c d)), length-dot b (dot c d), length-dot c d)

    drop1 : drop (suc n1) s ≡ dot b (dot c d)
    drop1 = drop-dot a (dot b (dot c d))

    drop2 : drop (suc n2) s ≡ dot c d
    drop2 = drop_next s b (dot c d) (suc n1) drop1

    drop3 : drop (suc n3) s ≡ d
    drop3 = drop_next s c d (suc n2) drop2

show_u8-HasNoDot : (n : ℕ) → n < 256 → HasNoDot (show_u8 n)
unfolding show_u8
show_u8-HasNoDot n h = ground arith

length-show_u8 : (n : ℕ) → length (show_u8 n) ≤ 3
unfolding show_u8
length-show_u8 n = ground arith

abbrev pub dotted : ℕ → ℕ → ℕ → ℕ → List ℕ
dotted a b c d = dot (show_u8 a) (dot (show_u8 b) (dot (show_u8 c) (show_u8 d)))

abbrev pub starred : ℕ → ℕ → ℕ → List ℕ
starred a b c = dot (show_u8 a) (dot (show_u8 b) (dot (show_u8 c) (b'*' ∷ [])))

-- `strto` reads back what "%u" prints for a byte.
abbrev pub ReadsBytes : (List ℕ → ℕ) → Type 0
ReadsBytes strto = (n : ℕ) → n < 256 → strto (show_u8 n) ≡ n

module _ (a b c d : ℕ) (ha : a < 256) (hb : b < 256) (hc : c < 256) (hd : d < 256) where
  bytes_back :
      (byte (big_endian a b c d) 3 ≡ a)
      × (byte (big_endian a b c d) 2 ≡ b)
      × (byte (big_endian a b c d) 1 ≡ c)
      × (byte (big_endian a b c d) 0 ≡ d)
  bytes_back = (omega arith, omega arith, omega arith, omega arith)

  -- Four bytes in dotted form are read as the number that prints as the same text, and, with the
  -- last byte starred, as the text of the network.
  pub ip_round_trip :
      (strto : List ℕ → ℕ)
      → ReadsBytes strto
      → (ip : ℕ) × (string_ip_to_int strto (dotted a b c d) ≡ some ip)
        × (ip2_str ip ≡ dotted a b c d)
        × (ip2_star_str ip ≡ starred a b c)
  unfolding ip2_str ip2_star_str
  ip_round_trip strto reads =
      let (e3, e2, e1, e0) = bytes_back in
      (
        big_endian a b c d,
        string_ip_to_int_dotted strto (show_u8 a) (show_u8 b) (show_u8 c) (show_u8 d)
              (show_u8-HasNoDot a ha) (show_u8-HasNoDot b hb) (show_u8-HasNoDot c hc)
              (omega (
                arith,
                length-dot (show_u8 a) (dot (show_u8 b) (dot (show_u8 c) (show_u8 d))),
                length-dot (show_u8 b) (dot (show_u8 c) (show_u8 d)),
                length-dot (show_u8 c) (show_u8 d),
                length-show_u8 a,
                length-show_u8 b,
                length-show_u8 c,
                length-show_u8 d,
              ))
            ∙ ap some (omega (arith, reads a ha, reads b hb, reads c hc, reads d hd)),
        rw (e3, e2, e1, e0),
        rw (e3, e2, e1),
      )
