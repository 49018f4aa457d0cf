-- ===== src/Wire/Endian.antt =====
-- The byte-order helpers of server/include/server/PacketBuffer.hpp (namespace detail), and the
-- `memcpy` between an integer and its bytes, which goes by the machine's byte order.
use r_type_j_a_m_e_s.Base.{
  ℕ, zero, suc, ◌+◌, ◌*◌, ◌/◌, ◌%◌, ◌^◌, ◌<◌, ◌≡◌, refl, ap, subst, ◌∙◌, List, [], ◌∷◌, ◌++◌,
  reverse, arith, length, length-reverse,
}
use mathlib.Core.List.{reverse-reverse, reverse-cons}
use native.Mathlib.Nat.{pow-suc}

-- `std::endian::native`, one of the two that the code compiles for.
pub data Endian : Type 0 where
  little big : Endian

-- The `w` bytes of a value, the lowest first.
unfoldable pub bytes_le : ℕ → ℕ → List ℕ
bytes_le zero v = []
bytes_le (suc w) v = (v % 256) ∷ bytes_le w (v / 256)

unfoldable pub value_le : List ℕ → ℕ
value_le [] = 0
value_le (x ∷ xs) = x + 256 * value_le xs

-- ByteSwap<T> for a type of `w` bytes: the value whose bytes stand in the other order.
unfoldable pub byte_swap : ℕ → ℕ → ℕ
byte_swap w v = value_le (reverse (bytes_le w v))

unfoldable pub to_little_endian : Endian → ℕ → ℕ → ℕ
to_little_endian little w v = v
to_little_endian big w v = byte_swap w v

unfoldable pub from_little_endian : Endian → ℕ → ℕ → ℕ
from_little_endian = to_little_endian

-- std::memcpy(bytes, &value, w) and std::memcpy(&value, bytes, w).
unfoldable pub memcpy_out : Endian → ℕ → ℕ → List ℕ
memcpy_out little w v = bytes_le w v
memcpy_out big w v = reverse (bytes_le w v)

unfoldable pub memcpy_in : Endian → List ℕ → ℕ
memcpy_in little bs = value_le bs
memcpy_in big bs = value_le (reverse bs)

pub length-bytes_le : (w v : ℕ) → length (bytes_le w v) ≡ w
unfolding bytes_le
length-bytes_le zero v = refl
length-bytes_le (suc w) v = ap suc (length-bytes_le w (v / 256))

pub value_le-bytes_le : (w v : ℕ) → v < 256 ^ w → value_le (bytes_le w v) ≡ v
unfolding bytes_le value_le
value_le-bytes_le zero v h = omega (arith, h)
value_le-bytes_le (suc w) v h =
    let small : v / 256 < 256 ^ w = omega (arith, pow-suc 256 w) in
    omega (arith, value_le-bytes_le w (v / 256) small)

-- Bytes are what a list of them stands for.
abbrev pub IsBytes : List ℕ → Type 0
IsBytes [] = Unit
IsBytes (x ∷ xs) = (x < 256) × IsBytes xs

pub bytes_le-IsBytes : (w v : ℕ) → IsBytes (bytes_le w v)
unfolding bytes_le
bytes_le-IsBytes zero v = tt
bytes_le-IsBytes (suc w) v = (omega arith, bytes_le-IsBytes w (v / 256))

pub bytes_le-value_le : (bs : List ℕ) → IsBytes bs → bytes_le (length bs) (value_le bs) ≡ bs
unfolding bytes_le value_le
bytes_le-value_le [] h = refl
bytes_le-value_le (x ∷ xs) h =
    let tail_eq : (x + 256 * value_le xs) / 256 ≡ value_le xs = omega arith in
    let head_eq : (x + 256 * value_le xs) % 256 ≡ x = omega arith in
    rw (head_eq, tail_eq, bytes_le-value_le xs h.1)

IsBytes-append : (xs ys : List ℕ) → IsBytes xs → IsBytes ys → IsBytes (xs ++ ys)
IsBytes-append [] ys h k = k
IsBytes-append (x ∷ xs) ys h k = (h.0, IsBytes-append xs ys h.1 k)

IsBytes-reverse : (xs : List ℕ) → IsBytes xs → IsBytes (reverse xs)
IsBytes-reverse [] h = tt
IsBytes-reverse (x ∷ xs) h =
    rw (reverse-cons x xs) (IsBytes-append (reverse xs) (x ∷ []) (IsBytes-reverse xs h.1) (h.0, tt))

bytes_le_reversed :
    (bs : List ℕ) (w : ℕ)
    → length bs ≡ w
    → IsBytes bs
    → bytes_le w (value_le (reverse bs)) ≡ reverse bs
bytes_le_reversed bs w e h =
    subst (λ n. bytes_le n (value_le (reverse bs)) ≡ reverse bs) (length-reverse bs ∙ e)
      (bytes_le-value_le (reverse bs) (IsBytes-reverse bs h))

-- What goes on the wire, and what is read off it, is the same on either machine.
pub memcpy_out-to_little_endian :
    (e : Endian) (w v : ℕ) → v < 256 ^ w → memcpy_out e w (to_little_endian e w v) ≡ bytes_le w v
unfolding memcpy_out to_little_endian byte_swap
memcpy_out-to_little_endian little w v h = refl
memcpy_out-to_little_endian big w v h =
    rw (bytes_le_reversed (bytes_le w v) w (length-bytes_le w v) (bytes_le-IsBytes w v))
      (reverse-reverse (bytes_le w v))

pub from_little_endian-memcpy_in :
    (e : Endian) (w v : ℕ) → v < 256 ^ w → from_little_endian e w (memcpy_in e (bytes_le w v)) ≡ v
unfolding memcpy_in from_little_endian to_little_endian byte_swap
from_little_endian-memcpy_in little w v h = value_le-bytes_le w v h
from_little_endian-memcpy_in big w v h =
    rw
      (
        bytes_le_reversed (bytes_le w v) w (length-bytes_le w v) (bytes_le-IsBytes w v),
        reverse-reverse (bytes_le w v),
      )
      (value_le-bytes_le w v h)
