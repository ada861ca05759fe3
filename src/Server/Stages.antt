-- ===== src/Server/Stages.antt =====
-- `rpmem_conn_init` against the discipline of `Conn.Acquire`.
use rpmem.Base.{◌≡◌, arith, List, [], ◌∷◌}
use rpmem.Machine.{Slot, Call, Os}
use rpmem.Conn.{Conn}
use rpmem.Conn.Acquire.{Stage, acquire, unwind, arm, domain, region, channel, queue}
use rpmem.Server.{conn_init}

-- The objects of a connection of the server, in the order in which they are made.
abbrev pub stages : Os → List Stage
stages os = domain os ∷ region os Slot.req ∷ region os Slot.rsp ∷ channel os ∷ queue os 128 ∷ []

-- `rpmem_conn_init` makes the protection domain, the memory regions of request and response, the
-- channel and the queue in turn, arms the queue, starts its thread and returns 0; where a call fails,
-- it destroys what it has made, the latest first, by the handles that it got, and returns 1.
pub conn_init-acquire :
    (os : Os) (c : Conn) (cs : List Call)
    → conn_init os c cs ≡ acquire os (arm os) (stages os) [] c cs
unfolding conn_init acquire unwind arm
conn_init-acquire os c cs = ground arith
