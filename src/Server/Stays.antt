-- ===== src/Server/Stays.antt =====
-- What every handler keeps of its unit, on every branch: whatever survives the posting of a receive,
-- the sending of a response, and the three ways in which the handlers change the server: they store
-- into a resource, take one from the pool, and bring one back.
use rpmem.Base.{ℕ, ◌≡◌, ◌≢◌, refl, some, List, ◌==◌, arith, Bool-cases, inl, inr, Option-cases}
use rpmem.Protocol.Spec.{Response, pack_response}
use rpmem.Machine.{Call, Os, After, After-bind, After-both, After-if}
use rpmem.Server.{
  Resource, ServerUnit, set_resource, return_resource, take_resource, search_pool, respond, repost,
  handle_open, handle_close, handle_map, map_refused, map_registered, map_resource, map_response,
  handle_unmap, unmap_resource, unmap_finish, unmap_response, handle_commit, commit_response,
}
use rpmem.Server.Pool.{first_fit, search_pool-first_fit}

-- `U` holds where a piece comes to its end.
abbrev pub Stays : (ServerUnit → Type 0) → {A : Type 0} → A → ServerUnit → List Call → Type 0
Stays U a u cs = U u

pub record WireLaws (os : Os) (U : ServerUnit → Type 0) : Type 0 where
  pub reposts : (u : ServerUnit) (cs : List Call) → U u → After (Stays U) (repost os u cs)
  pub responds :
      (r : Response) (ret : ℕ) (u : ServerUnit) (cs : List Call)
      → U u
      → After (Stays U) (respond os (pack_response r) ret u cs)

pub record StoreLaws (U : ServerUnit → Type 0) : Type 0 where
  pub stored :
      (u : ServerUnit) (p : ℕ) (r : Resource)
      → r.st_size ≡ (u.server.heap p).st_size
      → U u
      → U (set_resource p r u)
  pub taken :
      (u : ServerUnit) (len p : ℕ)
      → first_fit u.server.heap len u.server.res_list ≡ some p
      → U u
      → U (take_resource p u)
  pub returned : (u : ServerUnit) → u.res ≢ 0 → U u → U (return_resource u.res u)

repost_res :
    (os : Os) (u : ServerUnit) (cs : List Call) → After (λ _ u' _. u'.res ≡ u.res) (repost os u cs)
unfolding repost
repost_res os u cs = ground arith

module _ (os : Os) (U : ServerUnit → Type 0) (wire : WireLaws os U) where
  pub handle_open_stays :
      (u : ServerUnit) (cs : List Call) → U u → After (Stays U) (handle_open os u cs)
  unfolding handle_open pack_response
  handle_open_stays u cs h =
      After-bind (Stays U) (Stays U) (repost os) _ u cs (wire.reposts u cs h)
        (λ err u' cs' h'. wire.responds (Response.opening _) _ u' cs' h')

  pub handle_close_stays :
      (u : ServerUnit) (cs : List Call) → U u → After (Stays U) (handle_close os u cs)
  unfolding handle_close pack_response
  handle_close_stays u cs h = wire.responds (Response.closing 0) _ u cs h

  pub handle_commit_stays :
      (u : ServerUnit) (cs : List Call) → U u → After (Stays U) (handle_commit os u cs)
  unfolding handle_commit commit_response pack_response
  handle_commit_stays u cs h =
      After-bind (Stays U) (Stays U) (repost os) _ u cs (wire.reposts u cs h) (λ err u' cs' h'.
        After-if (Stays U) (err == 0) _ _ u' cs' (wire.responds (Response.committing _) _ u' _ h')
          (wire.responds (Response.committing _) _ u' cs' h'))

  pub map_refused_stays :
      (u : ServerUnit) (cs : List Call) → U u → After (Stays U) (map_refused os u cs)
  unfolding map_refused map_response pack_response
  map_refused_stays u cs h = wire.responds (Response.mapping _ _) _ u cs h

  pub map_registered_stays :
      (len ret addr mr : ℕ) (u : ServerUnit) (cs : List Call)
      → U u
      → After (Stays U) (map_registered os len ret addr mr u cs)
  unfolding map_registered map_response pack_response
  map_registered_stays len ret addr mr u cs h =
      After-if (Stays U) (mr == 0) _ _ u cs (wire.responds (Response.mapping _ _) _ u _ h)
        (wire.responds (Response.mapping _ _) _ u cs h)

  module _ (laws : StoreLaws U) where
    map_resource_stays :
        (len p : ℕ) (u : ServerUnit) (cs : List Call)
        → U u
        → After (Stays U) (map_resource os len p u cs)
    unfolding map_resource
    map_resource_stays len p u cs h = elim (Bool-cases (p == 0)) [
      | inl null ↦ rw null tt
      | inr there ↦ rw there (map_registered_stays _ _ _ _ _ _ (laws.stored u p _ refl h))
    ]

    search_pool_stays :
        (len : ℕ) (u : ServerUnit) (cs : List Call)
        → U u
        → After (Stays U) (search_pool os len u.server.res_list u cs)
    search_pool_stays len u cs h =
        rw (search_pool-first_fit os len u.server.res_list u cs)
          (elim (Option-cases (first_fit u.server.heap len u.server.res_list)) [
            | inl none_fits ↦ rw none_fits h
            | inr (p, found) ↦ rw found (laws.taken u len p found h)
          ])

    pub handle_map_stays :
        (u : ServerUnit) (cs : List Call) → U u → After (Stays U) (handle_map os u cs)
    unfolding handle_map
    handle_map_stays u cs h =
        After-bind (Stays U) (Stays U) (repost os) _ u cs (wire.reposts u cs h) (λ err u' cs' h'.
          After-if (Stays U) (err == 0) _ _ u' cs'
            (After-bind (Stays U) (Stays U) (search_pool os _ u'.server.res_list) _ u' _
              (search_pool_stays _ u' _ h')
              (λ p v ds g.
                After-if (Stays U) (v.res == 0) _ _ v _ (map_refused_stays v _ g)
                  (map_resource_stays _ p v _ g)))
            (map_refused_stays u' cs' h'))

    unmap_finish_stays :
        (ret : ℕ) (u : ServerUnit) (cs : List Call)
        → u.res ≢ 0
        → U u
        → After (Stays U) (unmap_finish os u.res ret u cs)
    unfolding unmap_finish unmap_response pack_response
    unmap_finish_stays ret u cs there h =
        After-if (Stays U) (ret == 0) _ _ u cs
          (wire.responds (Response.unmapping _) _ _ _ (laws.returned u there h))
          (wire.responds (Response.unmapping _) _ u cs h)

    unmap_resource_stays :
        (len addr : ℕ) (u : ServerUnit) (cs : List Call)
        → U u
        → After (Stays U) (unmap_resource os len addr u.res u cs)
    unfolding unmap_resource unmap_response
    unmap_resource_stays len addr u cs h = elim (Bool-cases (u.res == 0)) [
      | inl null ↦ rw null tt
      | inr there ↦
          rw there (unmap_finish_stays _ _ _ (ground arith) (laws.stored u u.res _ refl h))
    ]

    pub handle_unmap_stays :
        (u : ServerUnit) (cs : List Call) → U u → After (Stays U) (handle_unmap os u cs)
    unfolding handle_unmap unmap_response pack_response
    handle_unmap_stays u cs h =
        After-bind (λ err u' cs'. U u' × (u'.res ≡ u.res)) (Stays U) (repost os) _ u cs
          (After-both (Stays U) _ (repost os u cs) (wire.reposts u cs h) (repost_res os u cs))
          (λ err u' cs' (h', same).
            After-if (Stays U) (err == 0) _ _ u' cs'
              (rw (← same) (unmap_resource_stays _ _ u' cs' h'))
              (wire.responds (Response.unmapping _) _ u' cs' h'))
