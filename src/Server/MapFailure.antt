-- ===== src/Server/MapFailure.antt =====
-- The map requests that fail: where no resource is large enough, and where the resource that is found
-- cannot be registered.
use rpmem.Base.{
  ℕ, ◌≡◌, ◌≢◌, ◌<◌, refl, some, none, List, [], ◌∷◌, arith, minus_one, sext, eq→true, ne→false,
  add32, sub32, ap, ◌∙◌, ◌==◌, if◌then◌else◌, ◌≤◌,
}
use rpmem.Protocol.Spec.{Request, Response, Kind, RequestFits, pack_response}
use rpmem.Machine.{
  Call, Region, Access, Os, fault, Ensures, Ensures-bind, Ensures-mono, bind-done, bind-fault, pure,
}
use rpmem.Server.{
  Server, int_size, ServerUnit, Resource, map_failed, remove, take_resource, set_resource, repost,
  handle_map, map_refused, map_resource, map_registered, map_response, search_pool, rcv_completion,
  Heap,
}
use rpmem.Server.Pool.{first_fit, searched, search_pool-first_fit}
use rpmem.Server.Wire.{IsReady, reposted, repost-eq}
use rpmem.Server.Serve.{
  Answers, Responded, earlier, Received, Received-opcode, dispatched, reposted-IsReady,
  respond_answers,
}
use rpmem.Server.Requests.{posted, mapping-len}
use rpmem.Server.Mapping.{unlocked, allocate, map_call, mapped_at, mapping-starts, locked}

search_pool-none :
    (os : Os) (u : ServerUnit) (cs : List Call) (len : ℕ)
    → first_fit u.server.heap len u.server.res_list ≡ none
    → search_pool os len u.server.res_list (reposted u) (locked os u cs)
      ≡ searched none (reposted u) (locked os u cs)
search_pool-none os u cs len h =
    search_pool-first_fit os len u.server.res_list (reposted u) (locked os u cs)
    ∙ ap (λ o. searched o (reposted u) (locked os u cs)) h

-- A map request whose receive can be posted and for which no resource is large enough, on a unit
-- that holds none, is answered by a map response like any other: its key and address are whatever
-- the two variables of the handler happened to hold. The server and the unit stay as they were.
pub rcv_completion-mapping_refused :
    (os : Os) (u : ServerUnit) (cs : List Call) (len : ℕ)
    → Received (Request.mapping len) u
    → RequestFits (Request.mapping len)
    → u.res ≡ 0
    → os.reply cs (posted os u) ≡ 0
    → first_fit u.server.heap len u.server.res_list ≡ none
    → os.junk32 (unlocked os u cs) < 4294967296
    → os.junk64 (unlocked os u cs) < 18446744073709551616
    → let r = Response.mapping (os.junk32 (unlocked os u cs)) (os.junk64 (unlocked os u cs)) in
      Ensures
        (λ _ u' cs'.
          Answers Kind.mapping r u' cs'
          × (u'.server ≡ u.server)
          × (u'.res ≡ u.res)
          × (earlier cs' ≡ unlocked os u cs))
        (rcv_completion os u cs)
unfolding rcv_completion handle_map map_refused map_response pack_response
rcv_completion-mapping_refused os u cs len got fits null ok nothing rkey_fits addr_fits =
    rw (Received-opcode (Request.mapping len) u got) (
      dispatched _ (handle_map os) u cs (
        Ensures-bind _ (repost os) _ u cs (repost-eq os u cs got.ready.req_registered) (
          rw (mapping-len u len 0 got fits, ok)
            (Ensures-bind _ (search_pool os len u.server.res_list) _ (reposted u) (locked os u cs)
              (search_pool-none os u cs len nothing)
              (rw (eq→true u.res 0 null) (
                respond_answers os (reposted u) (unlocked os u cs)
                  (Response.mapping (os.junk32 (unlocked os u cs)) (os.junk64 (unlocked os u cs)))
                  minus_one (reposted-IsReady os u cs got.ready) (rkey_fits, addr_fits)))))))

handle_map-fault :
    (os : Os) (u : ServerUnit) (cs : List Call) (len : ℕ)
    → Received (Request.mapping len) u
    → RequestFits (Request.mapping len)
    → u.res ≢ 0
    → os.reply cs (posted os u) ≡ 0
    → first_fit u.server.heap len u.server.res_list ≡ none
    → handle_map os u cs ≡ fault
unfolding handle_map map_resource
handle_map-fault os u cs len got fits held ok nothing =
    bind-done (repost os) _ u cs (repost-eq os u cs got.ready.req_registered)
    ∙ rw (mapping-len u len 0 got fits, ok)
        (bind-done (search_pool os len u.server.res_list) _ (reposted u) (locked os u cs)
            (search_pool-none os u cs len nothing)
          ∙ rw (ne→false u.res 0 held) refl)

-- A map request whose receive can be posted and for which no resource is large enough reads
-- through NULL if the unit holds a resource already.
pub rcv_completion-mapping_fault :
    (os : Os) (u : ServerUnit) (cs : List Call) (len : ℕ)
    → Received (Request.mapping len) u
    → RequestFits (Request.mapping len)
    → u.res ≢ 0
    → os.reply cs (posted os u) ≡ 0
    → first_fit u.server.heap len u.server.res_list ≡ none
    → rcv_completion os u cs ≡ fault
unfolding rcv_completion
rcv_completion-mapping_fault os u cs len got fits held ok nothing =
    rw (Received-opcode (Request.mapping len) u got) (
      bind-fault (handle_map os) (λ _. pure {A = ℕ} 0) u cs
        (handle_map-fault os u cs len got fits held ok nothing))

module _ (os : Os) (u : ServerUnit) (cs : List Call) (len p : ℕ) where
  -- What `addr` is when the region is registered: NULL, if `mmap` has failed.
  abbrev pub address : ℕ
  address = if mapped_at os u cs len p == map_failed then 0 else mapped_at os u cs len p

  abbrev pub register : Call
  register =
      Call.ibv_reg_mr u.conn.pd (Region.at address) (sext len)
        (Access.local_write ∷ Access.remote_write ∷ Access.remote_read ∷ [])

  abbrev pub mapping_calls : List Call
  mapping_calls = map_call os u cs len p ∷ allocate os u cs len p ∷ unlocked os u cs

  abbrev pub unmapping_calls : List Call
  unmapping_calls = Call.munmap address (sext len) ∷ register ∷ mapping_calls

  -- The resource `p` is gone from the pool, to a unit that has nothing mapped.
  pub record Withheld (u' : ServerUnit) : Type 0 where
    pub held : u'.res ≡ p
    pub pool : u'.server.res_list ≡ remove p u.server.res_list
    pub free : u'.server.free_size ≡ sub32 u.server.free_size (int_size (u.server.heap p))
    pub in_use : u'.server.in_use_size ≡ add32 u.server.in_use_size (int_size (u.server.heap p))
    pub region : (u'.server.heap p).mr ≡ 0

  -- The resource after the handler has filled it in.
  unregistered : Resource
  unregistered = record (u.server.heap p) { addr = address; map_len = len; mr = 0 }

  final : ServerUnit
  final = set_resource p unregistered (take_resource p (reposted u))

  final-Withheld : (u' : ServerUnit) → u'.server ≡ final.server → u'.res ≡ p → Withheld u'
  unfolding final unregistered
  final-Withheld u' server res = record {
    held = res;
    pool = ap (λ (s : Server). s.res_list) server;
    free = ap (λ (s : Server). s.free_size) server;
    in_use = ap (λ (s : Server). s.in_use_size) server;
    region = ap (λ (s : Server). (s.heap p).mr) server ∙ ground arith;
  }

  map_resource-Withheld :
      IsReady u.conn
      → p ≢ 0
      → os.reply mapping_calls register ≡ 0
      → os.junk32 unmapping_calls < 4294967296
      → Ensures
          (λ _ u' cs'.
            Answers Kind.mapping (Response.mapping (os.junk32 unmapping_calls) 0) u' cs'
            × Withheld u'
            × (earlier cs' ≡ unmapping_calls))
          (map_resource os len p (take_resource p (reposted u)) (unlocked os u cs))
  unfolding map_resource map_registered map_response pack_response final unregistered
  map_resource-Withheld ready there failed fits =
      let r = Response.mapping (os.junk32 unmapping_calls) 0 in
      rw (ne→false p 0 there, failed)
        (Ensures-mono (Responded r final unmapping_calls) _ _
          (λ a u' cs' (answer, server, res, calls). (answer, final-Withheld u' server res, calls))
          (respond_answers os final unmapping_calls r minus_one (reposted-IsReady os u cs ready)
            (fits, omega arith)))

  -- A map request whose receive can be posted, and for which `p` is the first resource of the pool
  -- that is larger than its length, but where `ibv_reg_mr` fails, whatever `posix_fallocate` and
  -- `mmap` answer: what was mapped is unmapped and a map response is sent like any other, whose key
  -- is whatever the variable of the handler happened to hold, which fits its field, and whose address
  -- is NULL. But `p` is not brought back: it is out of the pool, its size is counted as in use, and
  -- the unit holds it, though it has no region.
  pub rcv_completion-mapping_unregistered :
      Received (Request.mapping len) u
      → RequestFits (Request.mapping len)
      → os.reply cs (posted os u) ≡ 0
      → first_fit u.server.heap len u.server.res_list ≡ some p
      → p ≢ 0
      → os.reply mapping_calls register ≡ 0
      → os.junk32 unmapping_calls < 4294967296
      → Ensures
          (λ _ u' cs'.
            Answers Kind.mapping (Response.mapping (os.junk32 unmapping_calls) 0) u' cs'
            × Withheld u'
            × (earlier cs' ≡ unmapping_calls))
          (rcv_completion os u cs)
  rcv_completion-mapping_unregistered got req_fits ok found there failed fits =
      mapping-starts os u cs len p _ got req_fits ok found there
        (map_resource-Withheld got.ready there failed fits)

-- A length that is negative as an int is smaller than every size below 2 ^ 31: the first resource of
-- the pool is taken, whatever its size.
pub first_fit-negative :
    (heap : Heap) (len p : ℕ) (ps : List ℕ)
    → 2147483648 ≤ len
    → len < 4294967296
    → int_size (heap p) < 2147483648
    → first_fit heap len (p ∷ ps) ≡ some p
unfolding first_fit
first_fit-negative heap len p ps negative fits small = ground arith
