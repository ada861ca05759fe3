-- ===== src/Server/Unmapping.antt =====
-- The unmap request, which brings a resource back to the pool.
use rpmem.Base.{
  ℕ, ◌≡◌, ◌≢◌, ◌<◌, refl, List, ◌∷◌, ◌==◌, arith, if◌then◌else◌, inl, inr, sext, add32, sub32,
  ne→false, zero-cases, ap, ◌∙◌,
}
use rpmem.Protocol.Spec.{Request, Response, Kind, RequestFits, pack_response}
use rpmem.Machine.{
  Call, Lock, Os, fault, Ensures, Ensures-bind, Ensures-mono, bind-done, bind-fault, pure,
}
use rpmem.Server.{
  Server, return_resource, ServerUnit, Resource, int_size, set_resource, repost, handle_unmap,
  unmap_resource, unmap_finish, unmap_response, rcv_completion,
}
use rpmem.Server.Wire.{IsReady, reposted, repost-eq}
use rpmem.Server.Serve.{
  Answers, Responded, Received, Received-opcode, dispatched, reposted-IsReady, respond_answers,
}
use rpmem.Server.Requests.{posted, unmapping-len, unmapping-addr}

-- What `unmap` does with its resource when `munmap` returned `ret`.
abbrev pub Unmapped : ℕ → ServerUnit → ServerUnit → Type 0
Unmapped ret u u' =
    let s = u.server in
    let size = int_size (s.heap u.res) in
    (u'.res ≡ (if ret == 0 then 0 else u.res))
    × (u'.server.res_list ≡ (if ret == 0 then u.res ∷ s.res_list else s.res_list))
    × (u'.server.free_size ≡ (if ret == 0 then add32 s.free_size size else s.free_size))
    × (u'.server.in_use_size ≡ (if ret == 0 then sub32 s.in_use_size size else s.in_use_size))

-- Storing into a resource does not change its size.
int_size-stored :
    (p : ℕ) (r : Resource) (u : ServerUnit)
    → r.st_size ≡ (u.server.heap p).st_size
    → int_size ((set_resource p r u).server.heap p) ≡ int_size (u.server.heap p)
int_size-stored p r u h = ground arith

module _ (os : Os) (u : ServerUnit) (cs : List Call) (ready : IsReady u.conn) (r : Resource)
    (same : r.st_size ≡ (u.server.heap u.res).st_size) where
  returned-Unmapped :
      (ds : List Call) (a : ℕ) (u' : ServerUnit) (cs' : List Call)
      → Responded
          (Response.unmapping 0)
          (return_resource u.res (set_resource u.res r u))
          ds
          a
          u'
          cs'
      → Answers Kind.unmapping (Response.unmapping 0) u' cs' × Unmapped 0 u u'
  returned-Unmapped ds a u' cs' (answer, server, res, _) = (
    answer,
    (
      res,
      ap (λ (s : Server). s.res_list) server,
      ap (λ (s : Server). s.free_size) server
          ∙ ap (add32 u.server.free_size) (int_size-stored u.res r u same),
      ap (λ (s : Server). s.in_use_size) server
          ∙ ap (sub32 u.server.in_use_size) (int_size-stored u.res r u same),
    ),
  )

  kept-Unmapped :
      (ret a : ℕ) (u' : ServerUnit) (cs' : List Call)
      → Responded (Response.unmapping ret) (set_resource u.res r u) cs a u' cs'
      → Answers Kind.unmapping (Response.unmapping ret) u' cs'
        × ((u'.res ≡ u.res)
            × (u'.server.res_list ≡ u.server.res_list)
            × (u'.server.free_size ≡ u.server.free_size)
            × (u'.server.in_use_size ≡ u.server.in_use_size))
  kept-Unmapped ret a u' cs' (answer, server, res, _) = (
    answer,
    (
      res,
      ap (λ (s : Server). s.res_list) server,
      ap (λ (s : Server). s.free_size) server,
      ap (λ (s : Server). s.in_use_size) server,
    ),
  )

  unmap_finish-Answers :
      (ret : ℕ)
      → ret < 4294967296
      → Ensures
          (λ _ u' cs'. Answers Kind.unmapping (Response.unmapping ret) u' cs' × Unmapped ret u u')
          (unmap_finish os u.res ret (set_resource u.res r u) cs)
  unfolding unmap_finish unmap_response pack_response
  unmap_finish-Answers ret fits = elim (zero-cases ret) [
    | inl zero ↦
        let v = return_resource u.res (set_resource u.res r u) in
        let ds = Call.unlock Lock.res_lock ∷ Call.lock Lock.res_lock ∷ cs in
        rw zero (
          Ensures-mono
            (Responded (Response.unmapping 0) v
              (Call.unlock Lock.res_lock ∷ Call.lock Lock.res_lock ∷ cs))
            _ _ (returned-Unmapped ds)
            (respond_answers os v ds (Response.unmapping 0) 0 ready (omega arith)))
    | inr failed ↦
        let v = set_resource u.res r u in
        rw (ne→false ret 0 failed) (
          Ensures-mono (Responded (Response.unmapping ret) v cs) _ _ (kept-Unmapped ret)
            (respond_answers os v cs (Response.unmapping ret) ret ready fits))
  ]

-- An unmap request whose receive can be posted deregisters the memory of the resource that the unit
-- holds and unmaps the range of the request, and is answered with what `munmap` returned. If that
-- is 0, the resource goes back to the head of the pool and its size from `in_use_size` to
-- `free_size`; otherwise the unit keeps it, and pool and sizes stay.
pub rcv_completion-unmapping :
    (os : Os) (u : ServerUnit) (cs : List Call) (len addr : ℕ)
    → Received (Request.unmapping len addr) u
    → RequestFits (Request.unmapping len addr)
    → u.res ≢ 0
    → os.reply cs (posted os u) ≡ 0
    → let s = u.server in
      let drop = Call.ibv_dereg_mr (s.heap u.res).mr in
      let ret = os.reply (drop ∷ posted os u ∷ cs) (Call.munmap addr (sext len)) in
      ret < 4294967296
      → Ensures
          (λ _ u' cs'. Answers Kind.unmapping (Response.unmapping ret) u' cs' × Unmapped ret u u')
          (rcv_completion os u cs)
unfolding rcv_completion handle_unmap unmap_resource
rcv_completion-unmapping os u cs len addr got fits held ok ret_fits =
    rw (Received-opcode (Request.unmapping len addr) u got) (
      dispatched _ (handle_unmap os) u cs (
        Ensures-bind _ (repost os) _ u cs (repost-eq os u cs got.ready.req_registered) (
          rw
            (
              unmapping-len u len addr got fits.0,
              unmapping-addr u len addr got fits.1,
              ok,
              ne→false u.res 0 held,
            )
            (unmap_finish-Answers os (reposted u) _ (reposted-IsReady os u cs got.ready)
              (record (u.server.heap u.res) { map_len = 0; addr = 0 }) refl _ ret_fits))))

handle_unmap-fault :
    (os : Os) (u : ServerUnit) (cs : List Call)
    → u.conn.req_mr ≢ 0
    → u.res ≡ 0
    → os.reply cs (posted os u) ≡ 0
    → handle_unmap os u cs ≡ fault
unfolding handle_unmap unmap_resource
handle_unmap-fault os u cs registered null ok =
    bind-done (repost os) _ u cs (repost-eq os u cs registered) ∙ rw (ok, null) refl

-- An unmap request whose receive can be posted reads through NULL if the unit holds nothing.
pub rcv_completion-unmapping_fault :
    (os : Os) (u : ServerUnit) (cs : List Call) (len addr : ℕ)
    → Received (Request.unmapping len addr) u
    → u.res ≡ 0
    → os.reply cs (posted os u) ≡ 0
    → rcv_completion os u cs ≡ fault
unfolding rcv_completion
rcv_completion-unmapping_fault os u cs len addr got null ok =
    rw (Received-opcode (Request.unmapping len addr) u got) (
      bind-fault (handle_unmap os) (λ _. pure {A = ℕ} 0) u cs
        (handle_unmap-fault os u cs got.ready.req_registered null ok))
