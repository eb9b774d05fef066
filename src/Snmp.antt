-- ===== src/Snmp.antt =====
-- rfc2544/utils/snmpc.c: the texts that the binding writes, with the C library's `strchr` and `snprintf`
-- on lists of ASCII codes, and `ip2oid`.
pub mod Address
pub mod Session
pub mod Entries
pub mod Rows
pub mod Replies
pub mod Tests
use Prim.Native.Char.{code}
use Prim.Native.String.{String}
use moon_gen_dpdk_v.Prelude.Int.{ℤ, pos, negsuc}
use moon_gen_dpdk_v.Prelude.{
  ℕ, zero, suc, ◌+◌, ◌-◌, ◌*◌, ◌/◌, ◌%◌, ◌^◌, Bool, true, false, List, [], ◌∷◌, ◌++◌, ltb, ◌==◌,
  if◌then◌else◌, ◌||◌, take, ◌≡◌, ◌<◌, length, All,
}

-- The codes of a text, without the null byte that ends it.
abbrev pub Text : Type 0
Text = List ℕ

abbrev pub codes : String → Text
codes String.[] = []
codes (String.◌∷◌ c s) = code c ∷ codes s

-- `strchr(text, c) != NULL`
unfoldable pub strchr : Text → ℕ → Bool
strchr [] c = false
strchr (t ∷ text) c = (t == c) || strchr text c

-- `%u` before `rest`: ten digits are enough for 32 bits.
unfoldable pub put_digits : ℕ → ℕ → Text → Text
put_digits zero n rest = rest
put_digits (suc fuel) n rest =
    let higher = put_digits fuel (n / 10) ((b'0' + n % 10) ∷ rest) in
    if ltb n 10 then (b'0' + n) ∷ rest else higher

unfoldable pub put_u : ℕ → Text → Text
unfolding put_digits
put_u n rest = put_digits 10 n rest

-- `%u.%u. ... .%u`
unfoldable pub put_dotted : List ℕ → Text
unfolding put_u
put_dotted [] = []
put_dotted (n ∷ []) = put_u n []
put_dotted (n ∷ m ∷ ns) = put_u n (b'.' ∷ put_dotted (m ∷ ns))

-- What `snprintf(dst, maxlen, ...)` leaves of the formatted text.
unfoldable pub snprintf : ℕ → Text → Text
snprintf maxlen text = take (maxlen - 1) text

abbrev pub max_oid_str_len : ℕ
max_oid_str_len = 512

abbrev pub max_ip_oid_len : ℕ
max_ip_oid_len = 2 + 3 + 4 * 16

abbrev pub snmp_addr_ipv6 : ℕ
snmp_addr_ipv6 = 2

abbrev pub snmp_addr_ipv4 : ℕ
snmp_addr_ipv4 = 1

-- What is in `buf` after `inet_pton(AF_INET, ip, buf)` and `inet_pton(AF_INET6, ip, buf)`, whose results
-- are not looked at: the address in network byte order, or for a text that is none the bytes that
-- were there. An array has its length, and an `unsigned char` is below 256.
pub record InetPton : Type 0 where
  pub af_inet : Text → List ℕ
  pub af_inet6 : Text → List ℕ
  pub af_inet_length : (ip : Text) → length (af_inet ip) ≡ 4
  pub af_inet6_length : (ip : Text) → length (af_inet6 ip) ≡ 16
  pub af_inet_bytes : (ip : Text) → All (λ b. b < 256) (af_inet ip)
  pub af_inet6_bytes : (ip : Text) → All (λ b. b < 256) (af_inet6 ip)

unfoldable pub ip2oid : InetPton → Text → ℕ → Text
unfolding strchr put_dotted snprintf
ip2oid pton ip maxlen =
    if strchr ip b'.'
    then snprintf maxlen (put_dotted (snmp_addr_ipv4 ∷ 4 ∷ pton.af_inet ip))
    else snprintf maxlen (put_dotted (snmp_addr_ipv6 ∷ 16 ∷ pton.af_inet6 ip))

-- The `int` that a Lua integer, as a 64-bit pattern, becomes.
unfoldable pub int_of : ℕ → ℤ
int_of w = if ltb (w % 2 ^ 32) (2 ^ 31) then pos (w % 2 ^ 32) else negsuc (2 ^ 32 - w % 2 ^ 32 - 1)

-- `%i` before `rest`
unfoldable pub put_i : ℤ → Text → Text
put_i (pos n) rest = put_u n rest
put_i (negsuc n) rest = b'-' ∷ put_u (n + 1) rest
