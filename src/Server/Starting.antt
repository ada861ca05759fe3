-- ===== src/Server/Starting.antt =====
-- What the server has when it starts, and what is left when it does not.
use rpmem.Base.{ℕ, ◌+◌, ◌≡◌, ◌≢◌, arith, ne→false, ◌==◌, if◌then◌else◌, List, [], ◌∷◌, u32}
use rpmem.Machine.{Call, Os, Ensures, Ensures-both, Ensures-mono, Object, creations, destructions}
use rpmem.Server.{Server}
use rpmem.Server.Start.{start}
use rpmem.Server.Pool.{pool_size}
use rpmem.Server.Accounts.{IsBalanced, IsExclusive}

-- The invariants of the server.
abbrev pub InOrder : Server → Type 0
InOrder s = IsBalanced s × IsExclusive [] s 0

-- The objects that the server makes when it starts.
abbrev pub made : Object → ℕ
made Object.event_channel = 1
made Object.cm_id = 1
made _ = 0

pub fresh-InOrder :
    (s : Server) (res : ℕ)
    → res ≢ 0
    → s.res_list ≡ res ∷ []
    → s.total_size ≡ u32 (s.heap res).st_size
    → s.free_size ≡ u32 (s.heap res).st_size
    → s.in_use_size ≡ 0
    → InOrder s
unfolding pool_size
fresh-InOrder s res there pool total free in_use = (
  record { free = rw (pool, free) (omega arith); total = rw (total, free, in_use) (omega arith) },
  record {
    once = λ a. rw pool (ground arith);
    no_null = rw pool (ground (arith, ne→false res 0 there));
  },
)

start_objects :
    (os : Os) (o : Object) (res : ℕ) (s : Server) (cs : List Call)
    → Ensures
        (λ ret s' ds.
          creations os o ds + destructions o cs
          ≡ creations os o cs + destructions o ds + (if ret == 0 then made o else 0))
        (start os res s cs)
unfolding start
start_objects os o res s cs = ground arith

pub start_order :
    (os : Os) (res : ℕ) (s : Server) (cs : List Call)
    → Ensures
        (λ ret s' ds.
          ret ≡ 0
          → (s'.res_list ≡ res ∷ [])
            × (s'.total_size ≡ u32 (s'.heap res).st_size)
            × (s'.free_size ≡ u32 (s'.heap res).st_size)
            × (s'.in_use_size ≡ 0))
        (start os res s cs)
unfolding start
start_order os res s cs = ground arith

-- `main`, behind its arguments and up to the end of `cm_thread`, always comes to its end. If it
-- returns 0, the server that it hands to `cm_thread` is in order: its books are balanced, and its
-- pool holds the one resource once. Of event channels and of ids it has made one each and kept it if
-- it returns 0, and destroyed what it made otherwise; it keeps no other object.
pub start_ends :
    (os : Os) (o : Object) (res : ℕ) (s : Server) (cs : List Call)
    → res ≢ 0
    → Ensures
        (λ ret s' ds.
          (ret ≡ 0 → InOrder s')
          × (creations os o ds + destructions o cs
              ≡ creations os o cs + destructions o ds + (if ret == 0 then made o else 0)))
        (start os res s cs)
start_ends os o res s cs there =
    Ensures-both _ _ (start os res s cs)
      (Ensures-mono _ _ (start os res s cs)
        (λ ret s' ds h zero_ret.
          let (pool, total, free, in_use) = h zero_ret in
          fresh-InOrder s' res there pool total free in_use)
        (start_order os res s cs))
      (start_objects os o res s cs)
