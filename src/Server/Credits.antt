-- ===== src/Server/Credits.antt =====
-- The work requests of the server: how many responses and receives a completion makes it post.
use rpmem.Base.{
  ℕ, suc, ◌+◌, ◌≡◌, ◌∙◌, refl, arith, Bool-cases, Option-cases, inl, inr, ◌==◌, if◌then◌else◌, List,
  [], ◌∷◌,
}
use rpmem.Protocol.{Buf, Opcode, opcode_value, opcode_at, get_u32}
use rpmem.Machine.{◌>>◌, Call, Os, M, pure, After, After-bind, After-if, After-if-test}
use rpmem.Server.{
  ServerUnit, repost, respond, handle_open, handle_close, handle_map, map_refused, map_resource,
  map_registered, map_response, search_pool, handle_unmap, unmap_resource, unmap_finish,
  unmap_response, handle_commit, commit_response, rcv_completion,
}
use rpmem.Server.Pool.{first_fit, search_pool-first_fit}

abbrev pub sends : List Call → ℕ
sends [] = 0
sends (Call.ibv_post_send _ _ ∷ cs) = suc (sends cs)
sends (c ∷ cs) = sends cs

abbrev pub receives : List Call → ℕ
receives [] = 0
receives (Call.ibv_post_recv _ _ ∷ cs) = suc (receives cs)
receives (c ∷ cs) = receives cs

-- So many responses and receives are posted.
abbrev Posted : ℕ → ℕ → {A : Type 0} → A → ServerUnit → List Call → Type 0
Posted s r a u cs = (sends cs ≡ s) × (receives cs ≡ r)

module _ (os : Os) (s r : ℕ) where
  repost-Posted :
      (u : ServerUnit) (cs : List Call)
      → Posted s r tt u cs
      → After (Posted s (r + 1)) (repost os u cs)
  unfolding repost
  repost-Posted u cs h = ground arith

  respond-Posted :
      (pack : Buf → Buf) (ret : ℕ) (u : ServerUnit) (cs : List Call)
      → Posted s r tt u cs
      → After (Posted (s + 1) r) (respond os pack ret u cs)
  unfolding respond
  respond-Posted pack ret u cs h = ground arith

module _ (os : Os) (s r : ℕ) where
  -- The two ends of a handler that has posted its receive.
  abbrev Answered : {A : Type 0} → A → ServerUnit → List Call → Type 0
  Answered = Posted (s + 1) (r + 1)

  abbrev Reposted : {A : Type 0} → A → ServerUnit → List Call → Type 0
  Reposted = Posted s (r + 1)

  handle_open-Posted :
      (u : ServerUnit) (cs : List Call) → Posted s r tt u cs → After Answered (handle_open os u cs)
  unfolding handle_open
  handle_open-Posted u cs h =
      After-bind Reposted Answered (repost os) _ u cs (repost-Posted os s r u cs h)
        (λ err u' ds k. respond-Posted os s (r + 1) _ _ u' ds k)

  handle_commit-Posted :
      (u : ServerUnit) (cs : List Call)
      → Posted s r tt u cs
      → After Answered (handle_commit os u cs)
  unfolding handle_commit commit_response
  handle_commit-Posted u cs h =
      After-bind Reposted Answered (repost os) _ u cs (repost-Posted os s r u cs h) (λ err u' ds k.
        After-if Answered (err == 0) _ _ u' ds (respond-Posted os s (r + 1) _ _ u' _ k)
          (respond-Posted os s (r + 1) _ _ u' ds k))

  unmap_finish-Posted :
      (p ret : ℕ) (u : ServerUnit) (cs : List Call)
      → Reposted tt u cs
      → After Answered (unmap_finish os p ret u cs)
  unfolding unmap_finish unmap_response
  unmap_finish-Posted p ret u cs h =
      After-if Answered (ret == 0) _ _ u cs (respond-Posted os s (r + 1) _ _ _ _ h)
        (respond-Posted os s (r + 1) _ _ u cs h)

  unmap_resource-Posted :
      (len addr p : ℕ) (u : ServerUnit) (cs : List Call)
      → Reposted tt u cs
      → After Answered (unmap_resource os len addr p u cs)
  unfolding unmap_resource
  unmap_resource-Posted len addr p u cs h = elim (Bool-cases (p == 0)) [
    | inl null ↦ rw null tt
    | inr there ↦ rw there (unmap_finish-Posted _ _ _ _ h)
  ]

  handle_unmap-Posted :
      (u : ServerUnit) (cs : List Call) → Posted s r tt u cs → After Answered (handle_unmap os u cs)
  unfolding handle_unmap unmap_response
  handle_unmap-Posted u cs h =
      After-bind Reposted Answered (repost os) _ u cs (repost-Posted os s r u cs h) (λ err u' ds k.
        After-if Answered (err == 0) _ _ u' ds (unmap_resource-Posted _ _ _ u' ds k)
          (respond-Posted os s (r + 1) _ _ u' ds k))

  map_registered-Posted :
      (len ret addr mr : ℕ) (u : ServerUnit) (cs : List Call)
      → Reposted tt u cs
      → After Answered (map_registered os len ret addr mr u cs)
  unfolding map_registered map_response
  map_registered-Posted len ret addr mr u cs h =
      After-if Answered (mr == 0) _ _ u cs (respond-Posted os s (r + 1) _ _ u _ h)
        (respond-Posted os s (r + 1) _ _ u cs h)

  map_resource-Posted :
      (len p : ℕ) (u : ServerUnit) (cs : List Call)
      → Reposted tt u cs
      → After Answered (map_resource os len p u cs)
  unfolding map_resource
  map_resource-Posted len p u cs h = elim (Bool-cases (p == 0)) [
    | inl null ↦ rw null tt
    | inr there ↦ rw there (map_registered-Posted _ _ _ _ _ _ h)
  ]

  search_pool-Posted :
      (len : ℕ) (ps : List ℕ) (u : ServerUnit) (cs : List Call)
      → Reposted tt u cs
      → After Reposted (search_pool os len ps u cs)
  search_pool-Posted len ps u cs h =
      rw (search_pool-first_fit os len ps u cs)
        (elim (Option-cases (first_fit u.server.heap len ps)) [
          | inl none_fits ↦ rw none_fits h
          | inr (p, found) ↦ rw found h
        ])

  handle_map-Posted :
      (u : ServerUnit) (cs : List Call) → Posted s r tt u cs → After Answered (handle_map os u cs)
  unfolding handle_map map_refused map_response
  handle_map-Posted u cs h =
      After-bind Reposted Answered (repost os) _ u cs (repost-Posted os s r u cs h) (λ err u' ds k.
        After-if Answered (err == 0) _ _ u' ds
          (After-bind Reposted Answered (search_pool os _ u'.server.res_list) _ u' _
            (search_pool-Posted _ _ u' _ k)
            (λ p v es g.
              After-if Answered (v.res == 0) _ _ v _ (respond-Posted os s (r + 1) _ _ v _ g)
                (map_resource-Posted _ p v _ g)))
          (respond-Posted os s (r + 1) _ _ u' ds k))

-- How many responses and how many receives a request with this opcode makes the server post.
abbrev pub answers : ℕ → ℕ
answers opcode =
    if opcode == opcode_value Opcode.open_req
    then 1
    else if opcode == opcode_value Opcode.close_req
    then 1
    else if opcode == opcode_value Opcode.map_req
    then 1
    else if opcode == opcode_value Opcode.unmap_req
    then 1
    else if opcode == opcode_value Opcode.commit_req
    then 1
    else 0

abbrev pub reposts : ℕ → ℕ
reposts opcode = if opcode == opcode_value Opcode.close_req then 0 else answers opcode

-- What a request with the opcode `op` is to post, from `s` responses and `r` receives on.
abbrev Due : ℕ → ℕ → ℕ → ℕ → ServerUnit → List Call → Type 0
Due op s r ret u ds = (sends ds ≡ s + answers op) × (receives ds ≡ r + reposts op)

handled-Due :
    (op s r sent received : ℕ) (m : M ServerUnit ℕ) (u : ServerUnit) (cs : List Call)
    → After (Posted sent received) (m u cs)
    → sent ≡ s + answers op
    → received ≡ r + reposts op
    → After (Due op s r) ((m >> pure {A = ℕ} 0) u cs)
handled-Due op s r sent received m u cs h e g =
    After-bind (Posted sent received) (Due op s r) m (λ _. pure {A = ℕ} 0) u cs h
      (λ _ _ ds (a, b). (a ∙ e, b ∙ g))

-- A request that is handled without a fault makes the server post one response if its opcode is known
-- and none otherwise; and it makes it post one receive for the next request, but for a close request,
-- and none if its opcode is unknown.
pub rcv_completion-posts :
    (os : Os) (u : ServerUnit) (cs : List Call)
    → let opcode = get_u32 opcode_at u.conn.req in
      After
        (λ _ _ ds.
          (sends ds ≡ sends cs + answers opcode) × (receives ds ≡ receives cs + reposts opcode))
        (rcv_completion os u cs)
unfolding rcv_completion handle_close
rcv_completion-posts os u cs =
    let op = get_u32 opcode_at u.conn.req in
    let s = sends cs in
    let r = receives cs in
    let Q = Due op s r in
    After-if-test Q (op == 0) _ _ u cs
      (λ y0.
        handled-Due op s r (s + 1) (r + 1) (handle_open os) u cs
          (handle_open-Posted os s r u cs (refl, refl)) (ground arith) (ground arith))
      (λ n0.
        After-if-test Q (op == 2) _ _ u cs
          (λ y1.
            handled-Due op s r (s + 1) r (handle_close os) u cs
              (respond-Posted os s r _ _ u cs (refl, refl)) (ground arith) (ground arith))
          (λ n1.
            After-if-test Q (op == 4) _ _ u cs
              (λ y2.
                handled-Due op s r (s + 1) (r + 1) (handle_map os) u cs
                  (handle_map-Posted os s r u cs (refl, refl)) (ground arith) (ground arith))
              (λ n2.
                After-if-test Q (op == 6) _ _ u cs
                  (λ y3.
                    handled-Due op s r (s + 1) (r + 1) (handle_unmap os) u cs
                      (handle_unmap-Posted os s r u cs (refl, refl)) (ground arith) (ground arith))
                  (λ n3.
                    After-if-test Q (op == 8) _ _ u cs
                      (λ y4.
                        handled-Due op s r (s + 1) (r + 1) (handle_commit os) u cs
                          (handle_commit-Posted os s r u cs (refl, refl)) (ground arith)
                          (ground arith))
                      (λ n4. (ground arith, ground arith))))))
