-- ===== src/Server/Fleet.antt =====
-- The server with all its units. Each unit has a `cq_thread`, and `cm_thread` makes new units; the
-- threads take turns, from one completion, or one event of the connection manager, to the next.
pub mod Invariant
pub mod OneResource
pub mod Ready
pub mod Safety
use rpmem.Base.{ℕ, ◌≡◌, Bool, List, [], ◌∷◌, ◌++◌, length, ◌==◌, if◌then◌else◌}
use rpmem.Machine.{Wc, Call, Os, done}
use rpmem.Conn.{Conn}
use rpmem.Server.State.{Server, ServerUnit}
use rpmem.Server.Events.{handle_wc}
use rpmem.Server.Start.{cm_round}

-- What a unit has beside its pointer to the server.
pub record Member : Type 0 where
  pub conn : Conn
  pub res : ℕ

abbrev pub unit_of : Server → Member → ServerUnit
unit_of s m = record { server = s; conn = m.conn; res = m.res }

abbrev pub member_of : ServerUnit → Member
member_of u = record { conn = u.conn; res = u.res }

pub record Fleet : Type 0 where
  pub server : Server
  pub members : List Member

-- The units after a round of `cm_thread`, which ends in `u`: there is a new one if the list of
-- connections has grown.
abbrev pub admitted : Server → ServerUnit → List Member → List Member
admitted s u ms = if length u.server.conns_list == length s.conns_list then ms else member_of u ∷ ms

-- One turn of a thread. The calls made before it are any: what the world answers is not fixed by what
-- the thread itself has called.
pub data Step (os : Os) (from to : Fleet) : Type 0 where
  serves :
      (before after : List Member) (m : Member) (wc : Wc) (cs cs' : List Call) (u' : ServerUnit)
      → from.members ≡ before ++ m ∷ after
      → handle_wc os wc (unit_of from.server m) cs ≡ done tt u' cs'
      → to ≡ record { server = u'.server; members = before ++ member_of u' ∷ after }
      → Step os from to
  accepts :
      (blank : Member) (alive : Bool) (cs cs' : List Call) (u' : ServerUnit)
      → cm_round os (unit_of from.server blank) cs ≡ done alive u' cs'
      → to ≡ record { server = u'.server; members = admitted from.server u' from.members }
      → Step os from to

pub data Reach (os : Os) (from : Fleet) : Fleet → Type 0 where
  here : Reach os from from
  next : {to last : Fleet} → Reach os from to → Step os to last → Reach os from last
