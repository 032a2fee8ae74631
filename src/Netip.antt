-- ===== src/Netip.antt =====
-- The part of Go's `net/netip` that the program uses, written from its documentation. An address
-- is a number in its family; a prefix is an address and, as in the library, its length plus one,
-- where 0 marks an invalid prefix (`Bits() == -1`). Zones are left out: no prefix has one.
pub mod Nets
pub mod Text
use go_run.Prelude.{
  ℕ, zero, suc, ◌+◌, ◌-◌, ◌/◌, ◌^◌, Bool, true, false, ◌&&◌, ltb, leb, ◌==◌, if◌then◌else◌, block,
}

pub data Addr : Type 0 where
  unset : Addr
  v4 : ℕ → Addr
  v6 : ℕ → Addr

pub data Prefix : Type 0 where
  prefix : Addr → ℕ → Prefix

-- `Addr.BitLen`
unfoldable pub bit_len : Addr → ℕ
bit_len unset = 0
bit_len (v4 n) = 32
bit_len (v6 n) = 128

unfoldable pub number : Addr → ℕ
number unset = 0
number (v4 n) = n
number (v6 n) = n

unfoldable pub is4 : Addr → Bool
is4 (v4 n) = true
is4 _ = false

unfoldable pub is6 : Addr → Bool
is6 (v6 n) = true
is6 _ = false

-- `Addr.IsValid`
unfoldable pub is_set : Addr → Bool
is_set unset = false
is_set _ = true

-- `==` of addresses
unfoldable pub addr_eq : Addr → Addr → Bool
addr_eq unset unset = true
addr_eq (v4 m) (v4 n) = m == n
addr_eq (v6 m) (v6 n) = m == n
addr_eq _ _ = false

-- `Addr.Less`: by family, then by number
unfoldable pub addr_less : Addr → Addr → Bool
unfolding bit_len number
addr_less a b =
    if bit_len a == bit_len b then ltb (number a) (number b) else ltb (bit_len a) (bit_len b)

-- `Prefix.Addr`
unfoldable pub addr : Prefix → Addr
addr (prefix a k) = a

-- `Prefix.Bits() + 1`
unfoldable pub bits_plus_one : Prefix → ℕ
bits_plus_one (prefix a k) = k

-- `Prefix.IsValid`
unfoldable pub is_valid : Prefix → Bool
unfolding bits_plus_one
is_valid p = ltb 0 (bits_plus_one p)

-- `==` of prefixes
unfoldable pub prefix_eq : Prefix → Prefix → Bool
unfolding addr_eq
prefix_eq (prefix a k) (prefix b l) = addr_eq a b && k == l

-- `PrefixFrom(a, k - 1)`: a length out of range gives an invalid prefix
unfoldable pub prefix_from : Addr → ℕ → Prefix
unfolding is_set bit_len
prefix_from a k = prefix a (if is_set a && leb k (bit_len a + 1) then k else 0)

-- The length of a prefix that is known to be valid
unfoldable pub bits : Prefix → ℕ
bits (prefix a zero) = 0
bits (prefix a (suc b)) = b

-- The address with all but its first `b` bits cleared
unfoldable pub mask : Addr → ℕ → Addr
mask unset b = unset
mask (v4 n) b = v4 (block (2 ^ (32 - b)) n)
mask (v6 n) b = v6 (block (2 ^ (128 - b)) n)

-- `Prefix.Masked`: the zero prefix where the length is invalid
unfoldable pub masked : Prefix → Prefix
unfolding mask
masked (prefix a zero) = prefix unset 0
masked (prefix a (suc b)) = prefix (mask a b) (suc b)

-- `Prefix.Contains`: the first bits agree
unfoldable pub contains : Prefix → Addr → Bool
contains (prefix (v4 n) (suc b)) (v4 x) = x / 2 ^ (32 - b) == n / 2 ^ (32 - b)
contains (prefix (v6 n) (suc b)) (v6 x) = x / 2 ^ (128 - b) == n / 2 ^ (128 - b)
contains _ _ = false
