-- ===== src/Server/Keeps.antt =====
-- What every handler keeps of the server and of the resource of its unit: a receive and a response
-- change neither.
use rpmem.Base.{ℕ, ◌≡◌, ◌≢◌, some, List, arith}
use rpmem.Protocol.{Buf}
use rpmem.Machine.{Call, Os, After}
use rpmem.Server.{
  Resource, Server, ServerUnit, set_resource, return_resource, take_resource, respond, repost,
  handle_close, map_refused, map_registered, handle_commit,
}
use rpmem.Server.Pool.{first_fit}
use rpmem.Protocol.Spec.{pack_response}
use rpmem.Server.Stays.{
  WireLaws, StoreLaws, handle_close_stays, handle_commit_stays, map_refused_stays,
  map_registered_stays,
}

-- A property of the server and of the resource that a unit holds.
abbrev pub Property : Type 1
Property = Server → ℕ → Type 0

abbrev pub Holds : Property → ServerUnit → Type 0
Holds P u = P u.server u.res

pub record PoolLaws (P : Property) : Type 0 where
  pub stored :
      (u : ServerUnit) (p : ℕ) (r : Resource)
      → r.st_size ≡ (u.server.heap p).st_size
      → Holds P u
      → Holds P (set_resource p r u)
  pub taken :
      (u : ServerUnit) (len p : ℕ)
      → first_fit u.server.heap len u.server.res_list ≡ some p
      → Holds P u
      → Holds P (take_resource p u)
  pub returned : (u : ServerUnit) → u.res ≢ 0 → Holds P u → Holds P (return_resource u.res u)

abbrev pub Ends : Property → {A : Type 0} → A → ServerUnit → List Call → Type 0
Ends P a u cs = Holds P u

pub repost_keeps :
    (os : Os) (P : Property) (u : ServerUnit) (cs : List Call)
    → Holds P u
    → After (Ends P) (repost os u cs)
unfolding repost
repost_keeps os P u cs h = ground arith

pub respond_keeps :
    (os : Os) (P : Property) (pack : Buf → Buf) (ret : ℕ) (u : ServerUnit) (cs : List Call)
    → Holds P u
    → After (Ends P) (respond os pack ret u cs)
unfolding respond
respond_keeps os P pack ret u cs h = ground arith

-- It is a property of a unit that posting and sending leave alone.
pub Holds-wire : (os : Os) (P : Property) → WireLaws os (Holds P)
Holds-wire os P = record {
  reposts = repost_keeps os P;
  responds = λ r. respond_keeps os P (pack_response r);
}

pub Holds-store : (P : Property) → PoolLaws P → StoreLaws (Holds P)
Holds-store P laws = record { stored = laws.stored; taken = laws.taken; returned = laws.returned }

module _ (os : Os) (P : Property) where
  pub handle_close_keeps :
      (u : ServerUnit) (cs : List Call) → Holds P u → After (Ends P) (handle_close os u cs)
  handle_close_keeps = handle_close_stays os (Holds P) (Holds-wire os P)

  pub handle_commit_keeps :
      (u : ServerUnit) (cs : List Call) → Holds P u → After (Ends P) (handle_commit os u cs)
  handle_commit_keeps = handle_commit_stays os (Holds P) (Holds-wire os P)

  pub map_refused_keeps :
      (u : ServerUnit) (cs : List Call) → Holds P u → After (Ends P) (map_refused os u cs)
  map_refused_keeps = map_refused_stays os (Holds P) (Holds-wire os P)

  pub map_registered_keeps :
      (len ret addr mr : ℕ) (u : ServerUnit) (cs : List Call)
      → Holds P u
      → After (Ends P) (map_registered os len ret addr mr u cs)
  map_registered_keeps = map_registered_stays os (Holds P) (Holds-wire os P)
