-- ===== src/Snmp/Address.antt =====
-- The index text that `ip2oid` of rfc2544/utils/snmpc.c makes of an address, and what reads it back.
use moon_gen_dpdk_v.Prelude.{
  ℕ, zero, suc, ◌+◌, ◌-◌, ◌*◌, ◌/◌, ◌%◌, ◌^◌, ◌≤◌, ◌<◌, ◌≡◌, refl, ap, ◌∙◌, inl, inr, Bool-cases,
  List, [], ◌∷◌, arith, ltb, ◌==◌, if◌then◌else◌, length, take, All,
}
use moon_gen_dpdk_v.Snmp.{
  Text, strchr, put_digits, put_u, put_dotted, snprintf, InetPton, ip2oid, max_ip_oid_len,
  snmp_addr_ipv4, snmp_addr_ipv6,
}

-- The numbers of a dotted text, from the digits read so far of the first.
abbrev pub scan : ℕ → Text → List ℕ
scan n [] = n ∷ []
scan n (c ∷ text) = if c == b'.' then n ∷ scan 0 text else scan (10 * n + (c - b'0')) text

pow-suc : (f : ℕ) → 10 ^ suc f ≡ 10 * 10 ^ f
pow-suc f = omega arith

scan_digit :
    (m d n : ℕ) (rest : Text) → d < 10 → 10 * m + d ≡ n → scan m ((b'0' + d) ∷ rest) ≡ scan n rest
scan_digit m d n rest h e = ground arith

scan-put_digits :
    (fuel n : ℕ) (rest : Text) → n < 10 ^ fuel → scan 0 (put_digits fuel n rest) ≡ scan n rest
unfolding put_digits
scan-put_digits zero n rest h = ap (λ m. scan m rest) (omega arith)
scan-put_digits (suc fuel) n rest h = elim (Bool-cases (ltb n 10)) [
  | inl low ↦ rw low (scan_digit 0 n n rest (ground arith) (omega arith))
  | inr high ↦ rw high (
      scan-put_digits fuel (n / 10) ((b'0' + n % 10) ∷ rest) (omega (arith, h, pow-suc fuel))
      ∙ scan_digit (n / 10) (n % 10) n rest (omega arith) (omega arith))
]

pub length-put_digits :
    (fuel k n : ℕ) (rest : Text)
    → n < 10 ^ suc k
    → length (put_digits fuel n rest) ≤ suc k + length rest
unfolding put_digits
length-put_digits zero k n rest h = omega arith
length-put_digits (suc fuel) zero n rest h = ground arith
length-put_digits (suc fuel) (suc k) n rest h =
    ground (arith, length-put_digits fuel k (n / 10) ((b'0' + n % 10) ∷ rest), pow-suc (suc k))

scan-put_dotted :
    (n : ℕ) (ns : List ℕ) → n < 256 → All (λ b. b < 256) ns → scan 0 (put_dotted (n ∷ ns)) ≡ n ∷ ns
unfolding put_dotted put_u
scan-put_dotted n [] h hs = scan-put_digits 10 n [] (omega arith)
scan-put_dotted n (m ∷ ns) h (h', hs) =
    scan-put_digits 10 n (b'.' ∷ put_dotted (m ∷ ns)) (omega arith)
    ∙ ap (λ ks. n ∷ ks) (scan-put_dotted m ns h' hs)

length-put_dotted :
    (n : ℕ) (ns : List ℕ)
    → n < 256
    → All (λ b. b < 256) ns
    → length (put_dotted (n ∷ ns)) ≤ 3 + 4 * length ns
unfolding put_dotted put_u
length-put_dotted n [] h hs = omega (arith, length-put_digits 10 2 n [] (omega arith))
length-put_dotted n (m ∷ ns) h (h', hs) = omega (
  arith,
  length-put_digits 10 2 n (b'.' ∷ put_dotted (m ∷ ns)) (omega arith),
  length-put_dotted m ns h' hs,
)

pub take_all : {A : Type 0} (n : ℕ) (xs : List A) → length xs ≤ n → take n xs ≡ xs
take_all zero [] h = refl
take_all zero (x ∷ xs) h = elim h [ ]
take_all (suc n) [] h = refl
take_all (suc n) (x ∷ xs) h = ap (λ ys. x ∷ ys) (take_all n xs (omega arith))

-- The version and the length of an address, and its bytes, as RFC 4001 has them before an index.
abbrev pub address : InetPton → Text → List ℕ
address pton ip =
    if strchr ip b'.'
    then snmp_addr_ipv4 ∷ 4 ∷ pton.af_inet ip
    else snmp_addr_ipv6 ∷ 16 ∷ pton.af_inet6 ip

length-put_address :
    (version size : ℕ) (bytes : List ℕ)
    → version < 10
    → size < 100
    → length bytes ≡ size
    → size ≤ 16
    → All (λ b. b < 256) bytes
    → length (put_dotted (version ∷ size ∷ bytes)) < max_ip_oid_len
unfolding put_dotted put_u
length-put_address version size [] hv hs e few h = omega (
  arith,
  length-put_digits 10 0 version (b'.' ∷ put_digits 10 size []) (omega arith),
  length-put_digits 10 1 size [] (omega arith),
)
length-put_address version size (b ∷ bytes) hv hs e few (h, hb) = omega (
  arith,
  length-put_digits 10 0 version (b'.' ∷ put_digits 10 size (b'.' ∷ put_dotted (b ∷ bytes)))
      (omega arith),
  length-put_digits 10 1 size (b'.' ∷ put_dotted (b ∷ bytes)) (omega arith),
  length-put_dotted b bytes h hb,
)

-- The text that `ip2oid` writes.
pub record Writes (maxlen : ℕ) (numbers : List ℕ) (text : Text) : Type 0 where
  pub whole : text ≡ put_dotted numbers
  pub fits : length text < maxlen
  pub read_back : scan 0 text ≡ numbers

snprintf-Writes :
    (version size : ℕ) (bytes : List ℕ)
    → version < 10
    → size ≤ 16
    → length bytes ≡ size
    → All (λ b. b < 256) bytes
    → Writes max_ip_oid_len
        (version ∷ size ∷ bytes)
        (snprintf max_ip_oid_len (put_dotted (version ∷ size ∷ bytes)))
unfolding snprintf
snprintf-Writes version size bytes hv hs e h =
    let text = put_dotted (version ∷ size ∷ bytes) in
    let fits : length text < max_ip_oid_len =
      length-put_address version size bytes hv (omega arith) e hs h in
    rw (take_all (max_ip_oid_len - 1) text (omega arith)) (record {
      whole = refl;
      fits = fits;
      read_back = scan-put_dotted version (size ∷ bytes) (omega arith) (omega arith, h);
    })

-- For every text of an address, `ip2oid` fills a buffer of `MAX_IP_OID_LEN` with the whole text of
-- the version, the length and the bytes, the null byte included, and what reads the dotted text
-- back gets the numbers.
pub ip2oid-Writes :
    (pton : InetPton) (ip : Text)
    → Writes max_ip_oid_len (address pton ip) (ip2oid pton ip max_ip_oid_len)
unfolding ip2oid
ip2oid-Writes pton ip = elim (Bool-cases (strchr ip b'.')) [
  | inl four ↦ rw four (
      snprintf-Writes snmp_addr_ipv4 4 (pton.af_inet ip) (omega arith) (omega arith)
        (pton.af_inet_length ip) (pton.af_inet_bytes ip))
  | inr six ↦ rw six (
      snprintf-Writes snmp_addr_ipv6 16 (pton.af_inet6 ip) (omega arith) (omega arith)
        (pton.af_inet6_length ip) (pton.af_inet6_bytes ip))
]
