-- ===== src/Snmp/Session.antt =====
-- The session's functions of rfc2544/utils/snmpc.c. Their arguments are as `luaL_check...` has read
-- them; an integer is the 64-bit pattern of a Lua integer. Of the net-snmp library the functions
-- use what `NetSnmp` lists.
use moon_gen_dpdk_v.Prelude.Int.{ℤ, pos, negsuc}
use moon_gen_dpdk_v.Prelude.{
  ℕ, Bool, false, List, [], ◌∷◌, ◌++◌, Option, none, some, ◌==◌, if◌then◌else◌, take, is_nil,
}
use moon_gen_dpdk_v.Snmp.{Text, codes, int_of}

-- `req_oid` with `oid_len`
pub record Objid : Type 0 where
  pub req_oid : List ℕ
  pub oid_len : ℕ

-- The value of a variable, by its ASN type: an `int`, an `unsigned long`, or as many bytes of an
-- array that is not initialised; for a request of a value, null.
pub data Value : Type 0 where
  asn_integer : ℤ → Value
  asn_gauge : ℕ → Value
  asn_object_id : ℕ → Value
  asn_null : Value

pub record Variable : Type 0 where
  pub name : List ℕ
  pub value : Value

pub data Pdu : Type 0 where
  snmp_msg_get : List Variable → Pdu
  snmp_msg_set : List Variable → Pdu

-- What `snmp_synch_response` gives: a response with its `errstat` and its variables, each printed
-- with name and value, or a status other than `STAT_SUCCESS` and no response.
pub data Answer : Type 0 where
  response : ℕ → List (Text × Text) → Answer
  no_response : ℕ → Answer

-- The net-snmp library, on a session with its agent.
pub record NetSnmp (S : Type 0) : Type 0 where
  pub max_oid_len : ℕ
  pub read_objid : Text → Objid → Objid
  pub get_node : Text → ℕ → Option (List ℕ)
  pub snmp_synch_response : S → Pdu → Answer × S
  pub snmp_open : Text → ℤ → Text → Option S
  pub snmp_close : S → ℕ

pub data LuaValue : Type 0 where
  session : LuaValue
  string : Text → LuaValue
  integer : ℕ → LuaValue
  table : List (Text × Text) → LuaValue

-- A line on standard error, with the number that it prints the text of.
pub data Complaint : Type 0 where
  error_in_packet : ℕ → Complaint
  session_error : ℕ → Complaint

-- A function's end: an error of Lua, or what it leaves: the stack of Lua, its top first, the
-- number that it returns, the variables and the complaint that it printed, and the session.
pub record Result (S : Type 0) : Type 0 where
  pub stack : List LuaValue
  pub returned : ℕ
  pub printed : List (Text × Text)
  pub complaint : Option Complaint
  pub after : S

pub data Outcome (S : Type 0) : Type 0 where
  lua_error : Text → Outcome S
  done : Result S → Outcome S

-- What a caller in Lua gets: as many values from the top as the function returns.
abbrev pub results : {S : Type 0} → Result S → List LuaValue
results r = take r.returned r.stack

abbrev pub stat_success : ℕ
stat_success = 0

abbrev pub snmp_err_noerror : ℕ
snmp_err_noerror = 0

-- `version == SNMP_VERSION_3`
abbrev pub is_version_3 : ℤ → Bool
is_version_3 (pos n) = n == 3
is_version_3 (negsuc n) = false

-- `l_session_open` ends in an error of Lua, or with the session that `snmp_open` gave, or none; it
-- returns whether it has one.
pub data Opening (S : Type 0) : Type 0 where
  refused : Text → Opening S
  opened : Option S → Opening S

-- `ret == STAT_SUCCESS`, as the number of results.
abbrev pub succeeded : ℕ → ℕ
succeeded ret = if ret == stat_success then 1 else 0

module _ {S : Type 0} where
  -- From `snmp_synch_response` on, where `ret` keeps its value if the response has an error.
  unfoldable pub respond_keeping : List LuaValue → Answer × S → Result S
  respond_keeping stack (response errstat variables, s) = record {
    stack = stack;
    returned = 1;
    printed = if errstat == snmp_err_noerror then variables else [];
    complaint = if errstat == snmp_err_noerror then none else some (error_in_packet errstat);
    after = s;
  }
  respond_keeping stack (no_response ret, s) = record {
    stack = stack;
    returned = succeeded ret;
    printed = [];
    complaint = some (session_error ret);
    after = s;
  }

  -- The same with `ret = response->errstat`.
  unfoldable pub respond : List LuaValue → Answer × S → Result S
  respond stack (response errstat variables, s) = record {
    stack = stack;
    returned = succeeded errstat;
    printed = if errstat == snmp_err_noerror then variables else [];
    complaint = if errstat == snmp_err_noerror then none else some (error_in_packet errstat);
    after = s;
  }
  respond stack (no_response ret, s) = record {
    stack = stack;
    returned = succeeded ret;
    printed = [];
    complaint = some (session_error ret);
    after = s;
  }

  -- The same in `l_session_get`, which makes a table of the variables.
  unfoldable pub respond_get : List LuaValue → Answer × S → Result S
  respond_get stack (response errstat variables, s) = record {
    stack = if errstat == snmp_err_noerror then table variables ∷ stack else stack;
    returned = 1;
    printed = [];
    complaint = if errstat == snmp_err_noerror then none else some (error_in_packet errstat);
    after = s;
  }
  respond_get stack (no_response ret, s) = record {
    stack = stack;
    returned = succeeded ret;
    printed = [];
    complaint = some (session_error ret);
    after = s;
  }

module _ {S : Type 0} (net : NetSnmp S) where
  open net use {max_oid_len, read_objid, get_node, snmp_synch_response}

  unfoldable pub l_session_open : Text → ℕ → Text → Opening S
  l_session_open peername version commstr =
      if is_nil peername
      then refused (codes "peername cannot be empty")
      else if is_version_3 (int_of version)
      then refused (codes "snmp.version3 not supported yet")
      else if is_nil commstr
      then refused (codes "community cannot be empty")
      else opened (net.snmp_open peername (int_of version) commstr)

  -- The variables of a request that is being built, with `req_oid` and `oid_len`.
  pub record Building : Type 0 where
    pub variables : List Variable
    pub objid : Objid

  -- `oid_len = MAX_OID_LEN`
  abbrev pub reset_len : Objid → Objid
  reset_len o = record o { oid_len = max_oid_len }

  -- `read_objid`, whose result is not looked at, and `snmp_pdu_add_variable`
  unfoldable pub add_variable : Text → Value → Objid → List Variable → Building
  add_variable oid_str value o variables =
      let o' = read_objid oid_str o in
      record {
        variables = variables ++ (record { name = take o'.oid_len o'.req_oid; value = value } ∷ []);
        objid = o';
      }

  unfoldable pub l_session_get : Text → S → Outcome S
  unfolding respond_get
  l_session_get oid_str s =
      if is_nil oid_str
      then lua_error (codes "oid cannot be empty")
      else elim (get_node oid_str max_oid_len) [
        | none ↦ lua_error (codes "cannot parse oid " ++ oid_str)
        | some name ↦ done (
            respond_get (string oid_str ∷ session ∷ []) (
              snmp_synch_response s (snmp_msg_get (record { name = name; value = asn_null } ∷ []))))
      ]

  unfoldable pub l_session_set : S → Outcome S
  l_session_set s = lua_error (codes "not implemented, yet")

  unfoldable pub l_session_close : S → ℕ
  l_session_close s = net.snmp_close s
