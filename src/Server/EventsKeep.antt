-- ===== src/Server/EventsKeep.antt =====
-- What the handlers keep of the server and of the resource of a unit is kept by the dispatch of
-- completions and by the rounds of `cq_thread`.
use rpmem.Base.{All-any, List, take}
use rpmem.Machine.{Wc, Call, Os, After}
use rpmem.Server.{ServerUnit, handle_wc, cq_round}
use rpmem.Server.Keeps.{Property, Holds, PoolLaws, Ends, Holds-wire, Holds-store}
use rpmem.Server.EventsStay.{BringLaws, handle_wc_stays, cq_round_stays}

-- Any completion.
abbrev Any : Wc → Type 0
Any wc = Unit {0}

module _ (os : Os) (P : Property) (laws : PoolLaws P) where
  brings-Any : BringLaws (Holds P) Any
  brings-Any = record { receives = λ wc u _ h. h }

  pub handle_wc_keeps :
      (wc : Wc) (u : ServerUnit) (cs : List Call)
      → Holds P u
      → After (Ends P) (handle_wc os wc u cs)
  handle_wc_keeps wc u cs h =
      handle_wc_stays os (Holds P) Any (Holds-wire os P) (Holds-store P laws) brings-Any wc u cs tt
        h

  pub cq_round_keeps :
      (u : ServerUnit) (cs : List Call) → Holds P u → After (Ends P) (cq_round os u cs)
  cq_round_keeps =
      cq_round_stays os (Holds P) Any (Holds-wire os P) (Holds-store P laws) brings-Any
        (λ ds. All-any Any (take 16 (os.polled ds)) (λ wc. tt))
