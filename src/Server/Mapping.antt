-- ===== src/Server/Mapping.antt =====
-- The map request that takes a resource from the pool and maps it.
use rpmem.Base.{ℕ, ◌≡◌, ◌≢◌, some, List, [], ◌∷◌, arith, sext, ne→false, add32, sub32, ap, ◌∙◌}
use rpmem.Protocol.Spec.{Request, Response, Kind, RequestFits, ResponseFits, pack_response}
use rpmem.Machine.{Call, Lock, Region, Access, Os, Ensures, Ensures-bind, Ensures-mono}
use rpmem.Server.{
  Server, int_size, ServerUnit, Resource, map_failed, remove, take_resource, set_resource, repost,
  handle_map, map_resource, map_registered, map_response, search_pool, rcv_completion,
}
use rpmem.Server.Pool.{first_fit, searched, search_pool-first_fit}
use rpmem.Server.Wire.{IsReady, reposted, repost-eq}
use rpmem.Server.Serve.{
  Answers, Responded, Received, Received-opcode, dispatched, reposted-IsReady, respond_answers,
}
use rpmem.Server.Requests.{posted, mapping-len}

-- The calls that the search of the pool makes.
abbrev pub locked : Os → ServerUnit → List Call → List Call
locked os u cs = Call.lock Lock.res_lock ∷ posted os u ∷ cs

abbrev pub unlocked : Os → ServerUnit → List Call → List Call
unlocked os u cs = Call.unlock Lock.res_lock ∷ locked os u cs

module _ (os : Os) (u : ServerUnit) (cs : List Call) (len : ℕ) where
  search_pool-some :
      (p : ℕ)
      → first_fit u.server.heap len u.server.res_list ≡ some p
      → search_pool os len u.server.res_list (reposted u) (locked os u cs)
        ≡ searched (some p) (reposted u) (locked os u cs)
  search_pool-some p h =
      search_pool-first_fit os len u.server.res_list (reposted u) (locked os u cs)
      ∙ ap (λ o. searched o (reposted u) (locked os u cs)) h

module _ (os : Os) (u : ServerUnit) (cs : List Call) (len p : ℕ) where
  -- The calls that map the resource `p`, with what they answer.
  abbrev pub allocate : Call
  allocate = Call.posix_fallocate (u.server.heap p).fd 0 (sext len)

  abbrev pub map_call : Call
  map_call = Call.mmap (sext len) (u.server.heap p).fd

  abbrev pub mapped_at : ℕ
  mapped_at = os.reply (allocate ∷ unlocked os u cs) map_call

  abbrev register : Call
  register =
      Call.ibv_reg_mr u.conn.pd (Region.at mapped_at) (sext len)
        (Access.local_write ∷ Access.remote_write ∷ Access.remote_read ∷ [])

  abbrev pub registered_as : ℕ
  registered_as = os.reply (map_call ∷ allocate ∷ unlocked os u cs) register

  -- The resource `p` went from the pool to the unit, and is mapped.
  pub record Mapped (u' : ServerUnit) : Type 0 where
    pub held : u'.res ≡ p
    pub pool : u'.server.res_list ≡ remove p u.server.res_list
    pub free : u'.server.free_size ≡ sub32 u.server.free_size (int_size (u.server.heap p))
    pub in_use : u'.server.in_use_size ≡ add32 u.server.in_use_size (int_size (u.server.heap p))
    pub size : int_size (u'.server.heap p) ≡ int_size (u.server.heap p)
    pub memory : (u'.server.heap p).addr ≡ mapped_at
    pub region : (u'.server.heap p).mr ≡ registered_as

  -- The resource after the handler has filled it in.
  filled : Resource
  filled = record (u.server.heap p) { addr = mapped_at; map_len = len; mr = registered_as }

  final : ServerUnit
  final = set_resource p filled (take_resource p (reposted u))

  final-Mapped : (u' : ServerUnit) → u'.server ≡ final.server → u'.res ≡ p → Mapped u'
  unfolding final filled
  final-Mapped u' server res = record {
    held = res;
    pool = ap (λ (s : Server). s.res_list) server;
    free = ap (λ (s : Server). s.free_size) server;
    in_use = ap (λ (s : Server). s.in_use_size) server;
    size = ap (λ (s : Server). int_size (s.heap p)) server ∙ ground arith;
    memory = ap (λ (s : Server). (s.heap p).addr) server ∙ ground arith;
    region = ap (λ (s : Server). (s.heap p).mr) server ∙ ground arith;
  }

  map_resource-Answers :
      IsReady u.conn
      → p ≢ 0
      → mapped_at ≢ map_failed
      → registered_as ≢ 0
      → ResponseFits (Response.mapping (os.rkey_of registered_as) mapped_at)
      → Ensures
          (λ _ u' cs'.
            Answers Kind.mapping (Response.mapping (os.rkey_of registered_as) mapped_at) u' cs'
            × Mapped u')
          (map_resource os len p (take_resource p (reposted u)) (unlocked os u cs))
  unfolding map_resource map_registered map_response pack_response final filled
  map_resource-Answers ready there mapped registered fits =
      let r = Response.mapping (os.rkey_of registered_as) mapped_at in
      let ds = register ∷ map_call ∷ allocate ∷ unlocked os u cs in
      rw
        (
          ne→false p 0 there,
          ne→false mapped_at map_failed mapped,
          ne→false registered_as 0 registered,
        )
        (Ensures-mono (Responded r final ds) _ _
          (λ a u' cs' (answer, server, res, _). (answer, final-Mapped u' server res))
          (respond_answers os final ds r _ (reposted-IsReady os u cs ready) fits))

  -- A map request whose receive can be posted, and for which `p` is the first resource of the pool
  -- that is larger than its length, comes to what the handler does with `p` behind the lock.
  pub mapping-starts :
      (Q : ServerUnit → List Call → Type 0)
      → Received (Request.mapping len) u
      → RequestFits (Request.mapping len)
      → os.reply cs (posted os u) ≡ 0
      → first_fit u.server.heap len u.server.res_list ≡ some p
      → p ≢ 0
      → Ensures
          (λ _ u' cs'. Q u' cs')
          (map_resource os len p (take_resource p (reposted u)) (unlocked os u cs))
      → Ensures (λ _ u' cs'. Q u' cs') (rcv_completion os u cs)
  unfolding rcv_completion handle_map
  mapping-starts Q got req_fits ok found there h =
      rw (Received-opcode (Request.mapping len) u got) (
        dispatched _ (handle_map os) u cs (
          Ensures-bind _ (repost os) _ u cs (repost-eq os u cs got.ready.req_registered) (
            rw (mapping-len u len 0 got req_fits, ok)
              (Ensures-bind _ (search_pool os len u.server.res_list) _ (reposted u) (locked os u cs)
                (search_pool-some os u cs len p found) (rw (ne→false p 0 there) h)))))

  -- A map request whose receive can be posted, and for which `p` is the first resource of the
  -- pool that is larger than its length, takes `p` from the pool, where `mmap` and `ibv_reg_mr`
  -- succeed: the unit holds it mapped and registered, its size has gone from `free_size` to
  -- `in_use_size`, and the response carries the remote key of the registered region and the
  -- address of the mapping, which fit their fields. Whether `posix_fallocate` succeeded makes no
  -- difference.
  pub rcv_completion-mapping :
      Received (Request.mapping len) u
      → RequestFits (Request.mapping len)
      → os.reply cs (posted os u) ≡ 0
      → first_fit u.server.heap len u.server.res_list ≡ some p
      → p ≢ 0
      → mapped_at ≢ map_failed
      → registered_as ≢ 0
      → ResponseFits (Response.mapping (os.rkey_of registered_as) mapped_at)
      → Ensures
          (λ _ u' cs'.
            Answers Kind.mapping (Response.mapping (os.rkey_of registered_as) mapped_at) u' cs'
            × Mapped u')
          (rcv_completion os u cs)
  rcv_completion-mapping got req_fits ok found there mapped registered fits =
      mapping-starts _ got req_fits ok found there
        (map_resource-Answers got.ready there mapped registered fits)
