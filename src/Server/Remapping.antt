-- ===== src/Server/Remapping.antt =====
-- A map request on a unit that has mapped a resource already: `unit->res = res` of
-- `rpmem_handle_map` writes over the pointer.
use rpmem.Base.{ℕ, ◌+◌, ◌≡◌, ◌≢◌, ap, sym, ◌∙◌, arith, some, List}
use rpmem.Protocol.Spec.{Request, Response, RequestFits, ResponseFits}
use rpmem.Machine.{Call, Os, Ensures, Ensures-mono}
use rpmem.Server.{ServerUnit, map_failed, rcv_completion}
use rpmem.Server.Pool.{first_fit}
use rpmem.Server.Serve.{Received}
use rpmem.Server.Requests.{posted}
use rpmem.Server.Mapping.{Mapped, mapped_at, registered_as, rcv_completion-mapping}
use rpmem.Server.Accounts.{IsExclusive, count, count-remove, count-remove-le}

-- No part of the server knows of the resource any more: not the unit, not the pool, not another unit.
pub record Lost (r : ℕ) (others : List ℕ) (u' : ServerUnit) : Type 0 where
  pub replaced : u'.res ≢ r
  pub not_free : count r u'.server.res_list ≡ 0
  pub not_held : count r others ≡ 0

module _ (others : List ℕ) (os : Os) (u : ServerUnit) (cs : List Call) (len p : ℕ) where
  Mapped-Lost :
      u.res ≢ 0
      → IsExclusive others u.server u.res
      → first_fit u.server.heap len u.server.res_list ≡ some p
      → (u' : ServerUnit) → Mapped os u cs len p u'
      → Lost u.res others u'
  Mapped-Lost held exclusive found u' mapped =
      let pool = u.server.res_list in
      let once : count u.res pool + count u.res others ≡ 0 = ground (arith, exclusive.once u.res) in
      record {
        replaced = λ same. ground (
          arith,
          once,
          ap (λ r. count r pool) (sym same ∙ mapped.held),
          count-remove u.server.heap len p p pool found,
        );
        not_free = rw mapped.pool (omega (arith, count-remove-le u.res p pool, once));
        not_held = omega (arith, once);
      }

  -- A map request on a unit that holds a resource loses it: if the receive can be posted, `p` is
  -- the first resource of the pool that is larger than the length and is not NULL, `mmap` and
  -- `ibv_reg_mr` succeed, key and address fit their fields, and before the request no resource is in
  -- two places, then neither the unit nor the pool nor another unit has the resource afterwards.
  pub remapping-Lost :
      u.res ≢ 0
      → IsExclusive others u.server u.res
      → Received (Request.mapping len) u
      → RequestFits (Request.mapping len)
      → os.reply cs (posted os u) ≡ 0
      → first_fit u.server.heap len u.server.res_list ≡ some p
      → p ≢ 0
      → mapped_at os u cs len p ≢ map_failed
      → registered_as os u cs len p ≢ 0
      → ResponseFits
          (Response.mapping (os.rkey_of (registered_as os u cs len p)) (mapped_at os u cs len p))
      → Ensures (λ _ u' _. Lost u.res others u') (rcv_completion os u cs)
  remapping-Lost held exclusive got req_fits ok found there mapped registered fits =
      Ensures-mono _ _ (rcv_completion os u cs)
        (λ _ u' _ (_, after). Mapped-Lost held exclusive found u' after)
        (rcv_completion-mapping os u cs len p got req_fits ok found there mapped registered fits)
