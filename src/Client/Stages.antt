-- ===== src/Client/Stages.antt =====
-- `rpmem_addr_handler` against the discipline of `Conn.Acquire`.
use mathlib.Core.Bool.{not}
use rpmem.Base.{ℕ, ◌≡◌, List, [], ◌∷◌, ◌==◌, if◌then◌else◌, arith}
use rpmem.Machine.{Slot, Call, Os, M, ◌>>=◌, pure, gets, call}
use rpmem.Conn.Acquire.{Stage, acquire, unwind, arm, domain, region, channel, queue}
use rpmem.Client.{File, on_conn, addr_failed, addr_handler}

-- The objects of a connection of the client, in the order in which they are made.
abbrev pub stages : Os → List Stage
stages os = domain os ∷ region os Slot.rsp ∷ region os Slot.req ∷ channel os ∷ queue os 8 ∷ []

-- The route is resolved and the objects are made, or `rpmem_open` is woken.
unfoldable pub resolve : Os → M File ℕ
resolve os = do
  f ← gets (λ f. f)
  unresolved ← call os (Call.rdma_resolve_route f.conn.cma_id)
  if not (unresolved == 0) then addr_failed os else (do
    failed ← on_conn (acquire os (arm os) (stages os) [])
    if failed == 0 then pure 0 else addr_failed os)

-- `rpmem_addr_handler` resolves the route; then it makes the protection domain, the memory regions of
-- response and request, the channel and the queue in turn, arms the queue, starts its thread and returns
-- 0; where a call fails, it destroys what it has made, the latest first, by the handles that it got, posts the semaphore of
-- `rpmem_open` and returns -1.
pub addr_handler-resolve :
    (os : Os) (f : File) (cs : List Call) → addr_handler os f cs ≡ resolve os f cs
unfolding addr_handler resolve acquire unwind arm
addr_handler-resolve os f cs = ground arith
