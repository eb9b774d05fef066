-- ===== src/Snmp/Tests.antt =====
-- Requests of rfc2544/utils/snmpc.c for a route, with an agent and a reader of names made up for it.
use mathlib.Core.Option.{some-injective}
use moon_gen_dpdk_v.Prelude.Int.{pos}
use moon_gen_dpdk_v.Prelude.{
  ℕ, ◌<◌, ◌≡◌, refl, ap, ◌∙◌, List, [], ◌∷◌, Option, none, some, arith, length, take, drop, All,
}
use moon_gen_dpdk_v.Snmp.{Text, codes, InetPton, ip2oid, max_ip_oid_len, int_of}
use moon_gen_dpdk_v.Snmp.Address.{Writes, address, ip2oid-Writes, take_all}
use moon_gen_dpdk_v.Snmp.Session.{Objid, asn_integer, asn_gauge, response, NetSnmp}
use moon_gen_dpdk_v.Snmp.Entries.{Route, metric_of, route_request, delete_request}
use moon_gen_dpdk_v.Snmp.Rows.{
  IsReader, IsName, entry, route_columns, route_request-entries, delete_request-entry,
}
use moon_gen_dpdk_v.Snmp.Replies.{Refuses, Refusals, sessions-Refusals}

abbrev four_bytes : List ℕ
four_bytes = 10 ∷ 0 ∷ 0 ∷ 1 ∷ []

abbrev sixteen_bytes : List ℕ
sixteen_bytes = 32 ∷ 1 ∷ 13 ∷ 184 ∷ 0 ∷ 0 ∷ 0 ∷ 0 ∷ 0 ∷ 0 ∷ 0 ∷ 0 ∷ 0 ∷ 0 ∷ 0 ∷ 255 ∷ []

small_four : All (λ b. b < 256) four_bytes
small_four = ground arith

small_sixteen : All (λ b. b < 256) sixteen_bytes
small_sixteen = ground arith

abbrev one_address : InetPton
one_address = record {
  af_inet = λ _. four_bytes;
  af_inet6 = λ _. sixteen_bytes;
  af_inet_length = λ _. refl;
  af_inet6_length = λ _. refl;
  af_inet_bytes = λ _. small_four;
  af_inet6_bytes = λ _. small_sixteen;
}

ip2oid_test : ip2oid one_address (codes "10.0.0.1") max_ip_oid_len ≡ codes "1.4.10.0.0.1"
unfolding ip2oid
ip2oid_test = refl

ip2oid-Writes_example :
    Writes max_ip_oid_len
      (address one_address (codes "10.0.0.1"))
      (ip2oid one_address (codes "10.0.0.1") max_ip_oid_len)
ip2oid-Writes_example = ip2oid-Writes one_address (codes "10.0.0.1")

-- Four letters of a text stand for its name.
abbrev letters : Text → List ℕ
letters text = take 4 (drop 29 text)

abbrev no_such_name : ℕ
no_such_name = 2

abbrev small_net : NetSnmp Unit
small_net = record {
  max_oid_len = 128;
  read_objid = λ text o. record { req_oid = letters text; oid_len = length (letters text) };
  get_node = λ text n. some text;
  snmp_synch_response = λ s p. (response no_such_name [], s);
  snmp_open = λ peername version community. some tt;
  snmp_close = λ s. 1;
}

abbrev parse : Text → Option (List ℕ)
parse text = some (letters text)

small_net-IsReader : IsReader small_net parse
small_net-IsReader = record {
  reads = λ text o v known fits. (
    take_all (length (letters text)) (letters text) (omega arith) ∙ some-injective _ _ known,
    ap length (some-injective _ _ known),
  );
}

abbrev route : Route
route = record {
  dst = codes "10.0.0.1";
  pfx = 24;
  next_hop = codes "2001:db8::ff";
  iface = 3;
  route_type = 4;
  metric = none;
}

abbrev fresh : Objid
fresh = record { req_oid = []; oid_len = 128 }

abbrev column_name : Text → List ℕ
column_name column = take 4 (drop 13 column)

column_names : All (IsName small_net one_address parse route column_name) route_columns
column_names = (
  (refl, omega arith),
  ((refl, omega arith), ((refl, omega arith), ((refl, omega arith), ((refl, omega arith), tt)))),
)

route_request-entries_example :
    (route_request small_net one_address route fresh).variables
    ≡ entry (column_name (codes "inetCidrRouteStatus")) (asn_integer (pos 4))
      ∷ entry (column_name (codes "inetCidrRouteIfIndex")) (asn_integer (int_of 3))
      ∷ entry (column_name (codes "inetCidrRouteType")) (asn_integer (int_of 4))
      ∷ entry (column_name (codes "inetCidrRouteNextHopAS")) (asn_gauge 0)
      ∷ entry (column_name (codes "inetCidrRouteMetric1")) (asn_integer (metric_of none))
      ∷ []
route_request-entries_example =
    route_request-entries small_net one_address parse small_net-IsReader route column_name fresh
      column_names

delete_request-entry_example :
    (delete_request small_net one_address
      (codes "10.0.0.1")
      24
      (codes "2001:db8::ff")
      fresh).variables
    ≡ entry (column_name (codes "inetCidrRouteStatus")) (asn_integer (pos 6)) ∷ []
delete_request-entry_example =
    delete_request-entry small_net one_address parse small_net-IsReader route column_name fresh
      (omega arith) column_names.0

small_net-Refuses : Refuses small_net tt no_such_name
small_net-Refuses = record { variables = λ _. []; nonzero = ground arith; answer = λ _. refl }

sessions-Refusals_example :
    Refusals small_net one_address tt no_such_name (codes "1.3.6") route fresh
sessions-Refusals_example =
    sessions-Refusals small_net one_address tt no_such_name small_net-Refuses (codes "1.3.6")
      (codes "1.3.6") route fresh refl refl
