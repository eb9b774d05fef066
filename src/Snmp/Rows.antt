-- ===== src/Snmp/Rows.antt =====
-- Which rows of a router's tables the requests of rfc2544/utils/snmpc.c name.

use moon_gen_dpdk_v.Prelude.Int.{ℤ, pos, negsuc, pos_part, neg_part}
use moon_gen_dpdk_v.Prelude.{
  ℕ, ◌+◌, ◌-◌, ◌%◌, ◌^◌, ◌≤◌, ◌<◌, ◌≡◌, refl, ap, ◌∙◌, inl, inr, Bool-cases, List, [], ◌∷◌, ◌++◌,
  Option, some, arith, ltb, length, length-append, take, All,
}
use moon_gen_dpdk_v.Snmp.{
  Text, codes, put_u, put_i, put_dotted, int_of, snprintf, InetPton, ip2oid, max_oid_str_len,
  max_ip_oid_len,
}
use moon_gen_dpdk_v.Snmp.Address.{address, ip2oid-Writes, length-put_digits, take_all}
use moon_gen_dpdk_v.Snmp.Session.{
  Objid, Value, asn_integer, asn_gauge, Variable, NetSnmp, reset_len, add_variable,
}
use moon_gen_dpdk_v.Snmp.Entries.{
  route_text, Route, metric_of, route_oid, route_request, delete_request,
}

put_u-length : (n : ℕ) (rest : Text) → n < 2 ^ 32 → length (put_u n rest) ≤ 10 + length rest
unfolding put_u
put_u-length n rest h = length-put_digits 10 9 n rest (omega arith)

int_of-range : (w : ℕ) → (pos_part (int_of w) < 2 ^ 31) × (neg_part (int_of w) ≤ 2 ^ 31)
unfolding int_of
int_of-range w = ground arith

put_i-length :
    (z : ℤ) (rest : Text)
    → (pos_part z < 2 ^ 31) × (neg_part z ≤ 2 ^ 31)
    → length (put_i z rest) ≤ 11 + length rest
unfolding put_i
put_i-length (pos n) rest (h, _) = omega (arith, put_u-length n rest (omega arith))
put_i-length (negsuc n) rest (_, h) = omega (arith, put_u-length (n + 1) rest (omega arith))

row-fits :
    (column dst middle : Text)
    → length column ≤ 40
    → length dst < max_ip_oid_len
    → length middle ≤ 86
    → length (codes "IP-FORWARD-MIB::" ++ (column ++ (b'.' ∷ (dst ++ (b'.' ∷ middle)))))
      ≤ max_oid_str_len - 1
row-fits column dst middle hc hd hm = omega (
  arith,
  length-append column (b'.' ∷ (dst ++ (b'.' ∷ middle))),
  length-append dst (b'.' ∷ middle),
)

-- A text of a route's row fits `MAX_OID_STR_LEN` with its null byte.
route_text-fits :
    (column dst next_hop : Text) (put_pfx : Text → Text)
    → length column ≤ 40
    → length dst < max_ip_oid_len
    → length next_hop < max_ip_oid_len
    → ((rest : Text) → length (put_pfx rest) ≤ 11 + length rest)
    → length (route_text column dst put_pfx next_hop) ≤ max_oid_str_len - 1
route_text-fits column dst next_hop put_pfx hc hd hn hp =
    row-fits column dst (put_pfx (codes ".2.0.0." ++ next_hop)) hc hd
      (omega (arith, hp (codes ".2.0.0." ++ next_hop)))

module _ (pton : InetPton) where
  -- The text of a column of a route's row, as it is meant.
  abbrev pub full_text : Text → Route → Text
  full_text column r =
      route_text column (put_dotted (address pton r.dst)) (put_i (int_of r.pfx))
        (put_dotted (address pton r.next_hop))

  route_oid-full :
      (column : Text) (r : Route)
      → length column ≤ 40
      → route_oid pton column r ≡ full_text column r
  unfolding route_oid snprintf
  route_oid-full column r h =
      let d = ip2oid-Writes pton r.dst in
      let n = ip2oid-Writes pton r.next_hop in
      let put_pfx = put_i (int_of r.pfx) in
      let fits =
        route_text-fits column (ip2oid pton r.dst max_ip_oid_len)
          (ip2oid pton r.next_hop max_ip_oid_len) put_pfx h d.fits n.fits
          (λ rest. put_i-length (int_of r.pfx) rest (int_of-range r.pfx)) in
      take_all (max_oid_str_len - 1) _ fits
      ∙ ap (λ text. route_text column text put_pfx (ip2oid pton r.next_hop max_ip_oid_len)) d.whole
      ∙ ap (λ text. route_text column (put_dotted (address pton r.dst)) put_pfx text) n.whole

-- `read_objid` as net-snmp documents it: `parse` gives the names that it knows, and a name that fits
-- the array is put into it, with its length.
pub record IsReader {S : Type 0} (net : NetSnmp S) (parse : Text → Option (List ℕ)) : Type 0 where
  pub reads :
      (text : Text) (o : Objid) (v : List ℕ)
      → parse text ≡ some v
      → length v ≤ o.oid_len
      → (take (net.read_objid text o).oid_len (net.read_objid text o).req_oid ≡ v)
        × ((net.read_objid text o).oid_len ≡ length v)

abbrev pub entry : List ℕ → Value → Variable
entry name value = record { name = name; value = value }

abbrev pub route_columns : List Text
route_columns =
    codes "inetCidrRouteStatus"
    ∷ codes "inetCidrRouteIfIndex"
    ∷ codes "inetCidrRouteType"
    ∷ codes "inetCidrRouteNextHopAS"
    ∷ codes "inetCidrRouteMetric1"
    ∷ []

-- `name column` is the name of a column of the route's row, and it fits the array.
abbrev pub IsName :
    {S : Type 0}
    → NetSnmp S
    → InetPton
    → (Text → Option (List ℕ))
    → Route
    → (Text → List ℕ)
    → Text
    → Type 0
IsName net pton parse r name column =
    (parse (full_text pton column r) ≡ some (name column))
    × (length (name column) ≤ net.max_oid_len)

delete_text :
    (w : ℕ) → w % 2 ^ 32 < 2 ^ 31 → (rest : Text) → put_u (w % 2 ^ 32) rest ≡ put_i (int_of w) rest
unfolding put_i int_of
delete_text w small rest = elim (Bool-cases (ltb (w % 2 ^ 32) (2 ^ 31))) [
  | inl low ↦ rw low refl
  | inr high ↦ absurd (ground arith)
]

module _ {S : Type 0} (net : NetSnmp S) (pton : InetPton) (parse : Text → Option (List ℕ))
    (reader : IsReader net parse) (r : Route) (name : Text → List ℕ) where
  add_variable-entry :
      (text v : List ℕ) (value : Value) (o : Objid) (variables : List Variable)
      → parse text ≡ some v
      → length v ≤ o.oid_len
      → (add_variable net text value o variables).variables ≡ variables ++ (entry v value ∷ [])
  unfolding add_variable
  add_variable-entry text v value o variables known fits =
      ap (λ n. variables ++ (entry n value ∷ [])) (reader.reads text o v known fits).0

  -- One more column, after those in `before`.
  add_column-entry :
      (column : Text) (value : Value) (req_oid : List ℕ) (variables before : List Variable)
      → length column ≤ 40
      → IsName net pton parse r name column
      → variables ≡ before
      → (add_variable net
          (route_oid pton column r)
          value
          (record { req_oid = req_oid; oid_len = net.max_oid_len })
          variables).variables
        ≡ before ++ (entry (name column) value ∷ [])
  add_column-entry column value req_oid variables before short (known, fits) same =
      rw (route_oid-full pton column r short, same)
        (add_variable-entry (full_text pton column r) (name column) value
          (record { req_oid = req_oid; oid_len = net.max_oid_len }) before known fits)

  -- If `read_objid` is as documented and knows the names of the five columns of the route's row,
  -- the request of `addRouteEntry` has the five columns by their names, none of the texts cut off
  -- by its buffer: status 4 (create and go), the interface, the type, 0 for the AS of the next
  -- hop, and the metric, -1 if there is none.
  pub route_request-entries :
      (o : Objid)
      → All (IsName net pton parse r name) route_columns
      → (route_request net pton r o).variables
        ≡ entry (name (codes "inetCidrRouteStatus")) (asn_integer (pos 4))
          ∷ entry (name (codes "inetCidrRouteIfIndex")) (asn_integer (int_of r.iface))
          ∷ entry (name (codes "inetCidrRouteType")) (asn_integer (int_of r.route_type))
          ∷ entry (name (codes "inetCidrRouteNextHopAS")) (asn_gauge 0)
          ∷ entry (name (codes "inetCidrRouteMetric1")) (asn_integer (metric_of r.metric))
          ∷ []
  unfolding route_request
  route_request-entries o (status, (if_index, (route_type, (next_hop_as, (metric1, _))))) =
      add_column-entry (codes "inetCidrRouteMetric1") _ _ _ _ (omega arith) metric1 (
        add_column-entry (codes "inetCidrRouteNextHopAS") _ _ _ _ (omega arith) next_hop_as (
          add_column-entry (codes "inetCidrRouteType") _ _ _ _ (omega arith) route_type (
            add_column-entry (codes "inetCidrRouteIfIndex") _ _ _ _ (omega arith) if_index
              (add_column-entry (codes "inetCidrRouteStatus") _ _ _ [] (omega arith) status refl))))

  -- If moreover the prefix length is no negative `int`, `deleteRouteEntry` with the same
  -- destination, prefix length and next hop sets the status of the same row, to 6 (destroy).
  pub delete_request-entry :
      (o : Objid)
      → r.pfx % 2 ^ 32 < 2 ^ 31
      → IsName net pton parse r name (codes "inetCidrRouteStatus")
      → (delete_request net pton r.dst r.pfx r.next_hop o).variables
        ≡ entry (name (codes "inetCidrRouteStatus")) (asn_integer (pos 6)) ∷ []
  unfolding delete_request route_oid snprintf
  delete_request-entry o small status =
      let column = codes "inetCidrRouteStatus" in
      let dst = ip2oid pton r.dst max_ip_oid_len in
      let next_hop = ip2oid pton r.next_hop max_ip_oid_len in
      let same_text =
        ap (λ text. codes "IP-FORWARD-MIB::" ++ (column ++ (b'.' ∷ (dst ++ (b'.' ∷ text)))))
          (delete_text r.pfx small (codes ".2.0.0." ++ next_hop)) in
      ap
        (λ text.
          (add_variable net (snprintf max_oid_str_len text) (asn_integer (pos 6)) (reset_len net o)
            []).variables)
        same_text
      ∙ add_column-entry column (asn_integer (pos 6)) o.req_oid [] [] (omega arith) status refl
