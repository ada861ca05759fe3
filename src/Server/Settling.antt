-- ===== src/Server/Settling.antt =====
-- No handler of the server waits for ever or runs out of rounds.
use rpmem.Base.{ℕ, zero, suc, ◌&&◌, Bool-cases, inl, inr, List, [], ◌∷◌, ◌==◌, arith, int_ltb}
use rpmem.Protocol.{Buf, get_u32}
use rpmem.Machine.{
  is_success, is_recv, Wc, Call, Os, M, ◌>>◌, pure, Settles, Settles-bind, Settles-if,
}
use rpmem.Server.{
  ServerUnit, int_size, repost, respond, handle_open, handle_close, search_pool, map_response,
  map_registered, map_resource, map_refused, handle_map, unmap_response, unmap_finish,
  unmap_resource, handle_unmap, commit_response, handle_commit, rcv_completion, handle_wc,
  handle_wcs,
}

module _ (os : Os) where
  pub repost-Settles : (u : ServerUnit) (cs : List Call) → Settles (repost os u cs)
  unfolding repost
  repost-Settles u cs = ground arith

  pub respond-Settles :
      (pack : Buf → Buf) (ret : ℕ) (u : ServerUnit) (cs : List Call)
      → Settles (respond os pack ret u cs)
  unfolding respond
  respond-Settles pack ret u cs = ground arith

  handle_open-Settles : (u : ServerUnit) (cs : List Call) → Settles (handle_open os u cs)
  unfolding handle_open
  handle_open-Settles u cs =
      Settles-bind (repost os) _ u cs (repost-Settles u cs) (λ _ u' cs'. respond-Settles _ _ u' cs')

  pub handle_commit-Settles : (u : ServerUnit) (cs : List Call) → Settles (handle_commit os u cs)
  unfolding handle_commit commit_response
  handle_commit-Settles u cs = Settles-bind (repost os) _ u cs (repost-Settles u cs) (λ err u' cs'.
      Settles-if (err == 0) _ _ u' cs' (respond-Settles _ _ u' _) (respond-Settles _ _ u' cs'))

  unmap_finish-Settles :
      (p ret : ℕ) (u : ServerUnit) (cs : List Call) → Settles (unmap_finish os p ret u cs)
  unfolding unmap_finish unmap_response
  unmap_finish-Settles p ret u cs =
      Settles-if (ret == 0) _ _ u cs (respond-Settles _ _ _ _) (respond-Settles _ _ u cs)

  unmap_resource-Settles :
      (len addr p : ℕ) (u : ServerUnit) (cs : List Call)
      → Settles (unmap_resource os len addr p u cs)
  unfolding unmap_resource
  unmap_resource-Settles len addr p u cs = elim (Bool-cases (p == 0)) [
    | inl null ↦ rw null tt
    | inr there ↦ rw there (unmap_finish-Settles _ _ _ _)
  ]

  handle_unmap-Settles : (u : ServerUnit) (cs : List Call) → Settles (handle_unmap os u cs)
  unfolding handle_unmap unmap_response
  handle_unmap-Settles u cs = Settles-bind (repost os) _ u cs (repost-Settles u cs) (λ err u' cs'.
      Settles-if (err == 0) _ _ u' cs' (unmap_resource-Settles _ _ _ u' cs')
        (respond-Settles _ _ u' cs'))

  map_registered-Settles :
      (len ret addr mr : ℕ) (u : ServerUnit) (cs : List Call)
      → Settles (map_registered os len ret addr mr u cs)
  unfolding map_registered map_response
  map_registered-Settles len ret addr mr u cs =
      Settles-if (mr == 0) _ _ u cs (respond-Settles _ _ u _) (respond-Settles _ _ u cs)

  pub map_resource-Settles :
      (len p : ℕ) (u : ServerUnit) (cs : List Call) → Settles (map_resource os len p u cs)
  unfolding map_resource
  map_resource-Settles len p u cs = elim (Bool-cases (p == 0)) [
    | inl null ↦ rw null tt
    | inr there ↦ rw there (map_registered-Settles _ _ _ _ _ _)
  ]

  pub search_pool-Settles :
      (len : ℕ) (ps : List ℕ) (u : ServerUnit) (cs : List Call)
      → Settles (search_pool os len ps u cs)
  unfolding search_pool
  search_pool-Settles len [] u cs = tt
  search_pool-Settles len (p ∷ ps) u cs =
      Settles-if (int_ltb len (int_size (u.server.heap p))) _ _ u cs tt
        (search_pool-Settles len ps u cs)

  handle_map-Settles : (u : ServerUnit) (cs : List Call) → Settles (handle_map os u cs)
  unfolding handle_map map_refused map_response
  handle_map-Settles u cs = Settles-bind (repost os) _ u cs (repost-Settles u cs) (λ err u' cs'.
      Settles-if (err == 0) _ _ u' cs'
        (Settles-bind (search_pool os _ u'.server.res_list) _ u' _ (search_pool-Settles _ _ u' _)
          (λ p v ds.
            Settles-if (v.res == 0) _ _ v _ (respond-Settles _ _ v _)
              (map_resource-Settles _ p v _)))
        (respond-Settles _ _ u' cs'))

  dropped-Settles :
      (m : M ServerUnit ℕ) (u : ServerUnit) (cs : List Call)
      → Settles (m u cs)
      → Settles ((m >> pure {A = ℕ} 0) u cs)
  dropped-Settles m u cs h = Settles-bind m (λ _. pure {A = ℕ} 0) u cs h (λ _ _ _. tt)

  rcv_completion-Settles : (u : ServerUnit) (cs : List Call) → Settles (rcv_completion os u cs)
  unfolding rcv_completion handle_close
  rcv_completion-Settles u cs =
      let op = get_u32 0 u.conn.req in
      Settles-if (op == 0) _ _ u cs
        (dropped-Settles (handle_open os) u cs (handle_open-Settles u cs))
        (Settles-if (op == 2) _ _ u cs
          (dropped-Settles (handle_close os) u cs (respond-Settles _ _ u cs))
          (Settles-if (op == 4) _ _ u cs
            (dropped-Settles (handle_map os) u cs (handle_map-Settles u cs))
            (Settles-if (op == 6) _ _ u cs
              (dropped-Settles (handle_unmap os) u cs (handle_unmap-Settles u cs))
              (Settles-if (op == 8) _ _ u cs
                (dropped-Settles (handle_commit os) u cs (handle_commit-Settles u cs)) tt))))

  handle_wc-Settles : (wc : Wc) (u : ServerUnit) (cs : List Call) → Settles (handle_wc os wc u cs)
  unfolding handle_wc
  handle_wc-Settles wc u cs =
      Settles-if (is_success wc.status && is_recv wc.opcode) _ _ u cs
        (Settles-bind (rcv_completion os) _ _ cs (rcv_completion-Settles _ cs) (λ _ _ _. tt)) tt

  pub handle_wcs-Settles :
      (n : ℕ) (wcs : List Wc) (u : ServerUnit) (cs : List Call) → Settles (handle_wcs os n wcs u cs)
  unfolding handle_wcs
  handle_wcs-Settles zero wcs u cs = tt
  handle_wcs-Settles (suc n) [] u cs = tt
  handle_wcs-Settles (suc n) (wc ∷ wcs) u cs =
      Settles-bind (handle_wc os wc) _ u cs (handle_wc-Settles wc u cs)
        (λ _ u' cs'. handle_wcs-Settles n wcs u' cs')
