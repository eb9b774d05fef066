-- ===== src/Snmp/Entries.antt =====
-- The functions of rfc2544/utils/snmpc.c that make and remove entries of a router's tables: routes of
-- the IP-FORWARD-MIB and addresses of the IP-MIB.
use moon_gen_dpdk_v.Prelude.Int.{ℤ, pos, negsuc}
use moon_gen_dpdk_v.Prelude.{ℕ, ◌%◌, ◌^◌, List, [], ◌∷◌, ◌++◌, Option, none, some}
use moon_gen_dpdk_v.Snmp.{
  Text, codes, put_u, put_i, int_of, snprintf, InetPton, ip2oid, max_oid_str_len, max_ip_oid_len,
}
use moon_gen_dpdk_v.Snmp.Session.{
  Objid, asn_integer, asn_gauge, asn_object_id, snmp_msg_set, NetSnmp, LuaValue, string, integer,
  session, Result, Building, reset_len, add_variable, respond, respond_keeping,
}

-- `"IP-FORWARD-MIB::<column>.%s.%i.2.0.0.%s"`, the number by `%i` or `%u` before the rest.
abbrev pub route_text : Text → Text → (Text → Text) → Text → Text
route_text column dst put_pfx next_hop =
    codes "IP-FORWARD-MIB::"
    ++ (column ++ (b'.' ∷ (dst ++ (b'.' ∷ put_pfx (codes ".2.0.0." ++ next_hop)))))

-- `"IP-MIB::<column>.%s"`
abbrev pub address_text : Text → Text → Text
address_text column ip = codes "IP-MIB::" ++ (column ++ (b'.' ∷ ip))

-- `metric = valid_metric ? metric : -1`
abbrev pub metric_of : Option ℕ → ℤ
metric_of none = negsuc 0
metric_of (some w) = int_of w

-- The arguments of `addRouteEntry` after the session; the metric may be missing.
pub record Route : Type 0 where
  pub dst : Text
  pub pfx : ℕ
  pub next_hop : Text
  pub iface : ℕ
  pub route_type : ℕ
  pub metric : Option ℕ

abbrev pub metric_value : Option ℕ → List LuaValue
metric_value none = []
metric_value (some w) = integer w ∷ []

-- The stack of Lua at the call.
abbrev pub route_stack : Route → List LuaValue
route_stack r =
    metric_value r.metric
    ++ (integer r.route_type
        ∷ integer r.iface
        ∷ string r.next_hop
        ∷ integer r.pfx
        ∷ string r.dst
        ∷ session
        ∷ [])

module _ (pton : InetPton) where
  -- `oid_str` of a column of the route's row.
  unfoldable pub route_oid : Text → Route → Text
  route_oid column r = snprintf max_oid_str_len (
      route_text column (ip2oid pton r.dst max_ip_oid_len) (put_i (int_of r.pfx))
        (ip2oid pton r.next_hop max_ip_oid_len))

  unfoldable pub address_oid : Text → Text → Text
  address_oid column ip =
      snprintf max_oid_str_len (address_text column (ip2oid pton ip max_ip_oid_len))

module _ {S : Type 0} (net : NetSnmp S) (pton : InetPton) where
  -- The five variables of the request. `oid_len` is set before each `read_objid`.
  unfoldable pub route_request : Route → Objid → Building net
  route_request r o =
      let status =
        add_variable net (route_oid pton (codes "inetCidrRouteStatus") r) (asn_integer (pos 4))
          (reset_len net o) [] in
      let if_index =
        add_variable net (route_oid pton (codes "inetCidrRouteIfIndex") r)
          (asn_integer (int_of r.iface)) (reset_len net status.objid) status.variables in
      let route_type =
        add_variable net (route_oid pton (codes "inetCidrRouteType") r)
          (asn_integer (int_of r.route_type)) (reset_len net if_index.objid) if_index.variables in
      let next_hop_as =
        add_variable net (route_oid pton (codes "inetCidrRouteNextHopAS") r) (asn_gauge 0)
          (reset_len net route_type.objid) route_type.variables in
      add_variable net (route_oid pton (codes "inetCidrRouteMetric1") r)
        (asn_integer (metric_of r.metric)) (reset_len net next_hop_as.objid) next_hop_as.variables

  unfoldable pub l_session_add_route_entry : Route → Objid → S → Result S
  l_session_add_route_entry r o s =
      respond_keeping (route_stack r)
        (net.snmp_synch_response s (snmp_msg_set (route_request r o).variables))

  -- The request of `deleteRouteEntry(dst, pfx, next_hop)`, with the prefix length by `%u`.
  unfoldable pub delete_request : Text → ℕ → Text → Objid → Building net
  delete_request dst pfx next_hop o =
      let dst_buf = ip2oid pton dst max_ip_oid_len in
      let next_buf = ip2oid pton next_hop max_ip_oid_len in
      let oid_str =
        snprintf max_oid_str_len
          (route_text (codes "inetCidrRouteStatus") dst_buf (put_u (pfx % 2 ^ 32)) next_buf) in
      add_variable net oid_str (asn_integer (pos 6)) (reset_len net o) []

  unfoldable pub l_session_delete_route_entry : Text → ℕ → Text → Objid → S → Result S
  l_session_delete_route_entry dst pfx next_hop o s =
      respond (string next_hop ∷ integer pfx ∷ string dst ∷ session ∷ [])
        (net.snmp_synch_response s (snmp_msg_set (delete_request dst pfx next_hop o).variables))

  -- The request of `addIp(ip, pfx, if_id)`: `oid_len` is set before the first two names only.
  unfoldable pub ip_request : Text → ℕ → Objid → Building net
  ip_request ip if_id o =
      let row_status =
        add_variable net (address_oid pton (codes "iAddressRowStatus") ip) (asn_integer (pos 4))
          (reset_len net o) [] in
      let if_index =
        add_variable net (address_oid pton (codes "iAddressIfIndex") ip)
          (asn_integer (int_of if_id)) (reset_len net row_status.objid) row_status.variables in
      let status =
        add_variable net (address_oid pton (codes "iAddressStatus") ip) (asn_integer (pos 1))
          if_index.objid if_index.variables in
      add_variable net (address_oid pton (codes "iAddressPrefix") ip) (asn_object_id 2) status.objid
        status.variables

  unfoldable pub l_session_add_ip : Text → ℕ → ℕ → Objid → S → Result S
  l_session_add_ip ip pfx if_id o s =
      respond (integer if_id ∷ integer pfx ∷ string ip ∷ session ∷ [])
        (net.snmp_synch_response s (snmp_msg_set (ip_request ip if_id o).variables))

  unfoldable pub l_session_del_ip : Text → Objid → S → Result S
  l_session_del_ip ip o s =
      let built =
        add_variable net (address_oid pton (codes "iAddressRowStatus") ip) (asn_integer (pos 6))
          (reset_len net o) [] in
      respond (string ip ∷ session ∷ []) (net.snmp_synch_response s (snmp_msg_set built.variables))
