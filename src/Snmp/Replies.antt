-- ===== src/Snmp/Replies.antt =====
-- What a caller in Lua gets from rfc2544/utils/snmpc.c when the agent answers with an error.
use moon_gen_dpdk_v.Prelude.{ℕ, ◌≡◌, ◌≢◌, refl, List, [], ◌∷◌, some, arith, false, is_nil}
use moon_gen_dpdk_v.Snmp.{Text, InetPton}
use moon_gen_dpdk_v.Snmp.Session.{
  Objid, Pdu, Answer, response, NetSnmp, LuaValue, string, error_in_packet, Result, Outcome,
  lua_error, done, results, respond, respond_keeping, respond_get, l_session_get,
}
use moon_gen_dpdk_v.Snmp.Entries.{
  Route, l_session_add_route_entry, l_session_delete_route_entry, l_session_add_ip,
  l_session_del_ip,
}

abbrev pub outcome_results : {S : Type 0} → Outcome S → List LuaValue
outcome_results (lua_error message) = []
outcome_results (done r) = results r

-- The function returns `returned`, and complains of the error in the packet.
pub record Fails {S : Type 0} (errstat returned : ℕ) (r : Result S) : Type 0 where
  pub count : r.returned ≡ returned
  pub complaint : r.complaint ≡ some (error_in_packet errstat)

-- The agent answers every request from `s` on with the error.
pub record Refuses {S : Type 0} (net : NetSnmp S) (s : S) (errstat : ℕ) : Type 0 where
  pub variables : Pdu → List (Text × Text)
  pub nonzero : errstat ≢ 0
  pub answer : (p : Pdu) → (net.snmp_synch_response s p).0 ≡ response errstat (variables p)

-- From a refused answer, by the way that `ret` is treated.
module _ {S : Type 0} (errstat : ℕ) (nonzero : errstat ≢ 0) where
  respond_keeping-Fails :
      (stack : List LuaValue) (variables : List (Text × Text)) (a : Answer × S)
      → a.0 ≡ response errstat variables
      → Fails errstat 1 (respond_keeping stack a)
  unfolding respond_keeping
  respond_keeping-Fails stack variables (answer, s) h =
      rw h (record { count = refl; complaint = ground arith })

  respond-Fails :
      (stack : List LuaValue) (variables : List (Text × Text)) (a : Answer × S)
      → a.0 ≡ response errstat variables
      → Fails errstat 0 (respond stack a)
  unfolding respond
  respond-Fails stack variables (answer, s) h =
      rw h (record { count = ground arith; complaint = ground arith })

  respond_get_top :
      (top : LuaValue) (stack : List LuaValue) (variables : List (Text × Text)) (a : Answer × S)
      → a.0 ≡ response errstat variables
      → results (respond_get (top ∷ stack) a) ≡ top ∷ []
  unfolding respond_get
  respond_get_top top stack variables (answer, s) h = rw h (ground arith)

-- What the functions of a session do at an agent that refuses, for one object and one route.
pub record Refusals {S : Type 0} (net : NetSnmp S) (pton : InetPton) (s : S) (errstat : ℕ)
    (oid_str : Text) (r : Route) (o : Objid) : Type 0 where
  pub get : outcome_results (l_session_get net oid_str s) ≡ string oid_str ∷ []
  pub add_route : Fails errstat 1 (l_session_add_route_entry net pton r o s)
  pub delete_route :
      Fails errstat 0 (l_session_delete_route_entry net pton r.dst r.pfx r.next_hop o s)
  pub add_ip : Fails errstat 0 (l_session_add_ip net pton r.dst r.pfx r.iface o s)
  pub del_ip : Fails errstat 0 (l_session_del_ip net pton r.dst o s)

module _ {S : Type 0} (net : NetSnmp S) (pton : InetPton) (s : S) (errstat : ℕ)
    (refuses : Refuses net s errstat) where
  get_refused :
      (oid_str : Text) (name : List ℕ)
      → is_nil oid_str ≡ false
      → net.get_node oid_str net.max_oid_len ≡ some name
      → outcome_results (l_session_get net oid_str s) ≡ string oid_str ∷ []
  unfolding l_session_get
  get_refused oid_str name some_text known =
      rw (some_text, known)
        (respond_get_top errstat refuses.nonzero (string oid_str) _ _ _ (refuses.answer _))

  -- When the agent answers every request with an error, `get` of a known object gives the caller in
  -- Lua the text of the object, its own argument, and no table; `addRouteEntry` returns 1, as
  -- when it succeeds; `deleteRouteEntry`, `addIp` and `delIp` return 0; and each of these
  -- four prints the error.
  pub sessions-Refusals :
      (oid_str : Text) (name : List ℕ) (r : Route) (o : Objid)
      → is_nil oid_str ≡ false
      → net.get_node oid_str net.max_oid_len ≡ some name
      → Refusals net pton s errstat oid_str r o
  unfolding l_session_add_route_entry l_session_delete_route_entry l_session_add_ip l_session_del_ip
  sessions-Refusals oid_str name r o some_text known = record {
    get = get_refused oid_str name some_text known;
    add_route = respond_keeping-Fails errstat refuses.nonzero _ _ _ (refuses.answer _);
    delete_route = respond-Fails errstat refuses.nonzero _ _ _ (refuses.answer _);
    add_ip = respond-Fails errstat refuses.nonzero _ _ _ (refuses.answer _);
    del_ip = respond-Fails errstat refuses.nonzero _ _ _ (refuses.answer _);
  }
