-- ===== src/Server/AcceptTests.antt =====
-- The theorems on connection requests, at the sample platform.
use rpmem.Base.{ℕ, ◌+◌, ◌≡◌, ◌≢◌, ◌⊎◌, [], ◌∷◌, arith, ◌==◌, if◌then◌else◌}
use rpmem.Machine.{Ensures, Object, creations, destructions}
use rpmem.Server.{connect_request_handler}
use rpmem.Server.Accept.{RejectedLast, connect_request_handler_ends}
use rpmem.Server.Start.{start}
use rpmem.Server.Starting.{InOrder, made, start_ends}
use rpmem.Server.Samples.{world}
use rpmem.Server.Samples.{server, unit_with}
use rpmem.Protocol.{zeroed}

connect_request_handler_ends_example :
    Ensures
      (λ _ u' cs'.
        (u'.server.res_list ≡ 20 ∷ [])
        × (u'.server.free_size ≡ 8192)
        × (u'.server.in_use_size ≡ 0)
        × ((RejectedLast 4 cs' × (u'.server.conns_list ≡ []))
            ⊎ ((u'.server.conns_list ≡ 100 ∷ [])
                × (◌≢◌ {A = ℕ} 100 0)
                × (u'.conn.req_mr ≢ 0)
                × (u'.conn.rsp_mr ≢ 0)
                × (u'.res ≡ 0))))
      (connect_request_handler world 4 (unit_with server 0 zeroed) [])
connect_request_handler_ends_example =
    connect_request_handler_ends world 4 (unit_with server 0 zeroed) []

start_ends_example :
    Ensures
      (λ ret s' ds.
        (ret ≡ 0 → InOrder s')
        × (creations world Object.cm_id ds + 0
            ≡ 0 + destructions Object.cm_id ds + (if ret == 0 then made Object.cm_id else 0)))
      (start world 20 server [])
start_ends_example = start_ends world Object.cm_id 20 server [] (λ e. omega arith)
