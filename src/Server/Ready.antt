-- ===== src/Server/Ready.antt =====
-- The command buffers of a unit: they stay registered, and hold 48 bytes each, whatever it receives.
use mathlib.Core.Path.{subst}
use rpmem.Base.{All, take, sym, List}
use rpmem.Protocol.{IsCmd}
use rpmem.Protocol.Spec.{pack_response}
use rpmem.Machine.{Wc, Call, Os, After}
use rpmem.Server.{ServerUnit, handle_wc, cq_round}
use rpmem.Server.Stays.{Stays, WireLaws, StoreLaws}
use rpmem.Server.EventsStay.{BringLaws, handle_wc_stays, cq_round_stays}
use rpmem.Server.Wire.{IsReady, repost-eq, respond-eq}
use rpmem.Server.Serve.{reposted-IsReady, responded-IsReady}

abbrev Ready : ServerUnit → Type 0
Ready u = IsReady u.conn

-- The device places a whole command in the buffer.
abbrev pub Whole : Wc → Type 0
Whole wc = IsCmd wc.bytes

Ready-wire : (os : Os) → WireLaws os Ready
Ready-wire os = record {
  reposts = λ u cs h.
      subst (After (Stays Ready)) (sym (repost-eq os u cs h.req_registered))
        (reposted-IsReady os u cs h);
  responds = λ r ret u cs h.
      subst (After (Stays Ready)) (sym (respond-eq os (pack_response r) ret u cs h.rsp_registered))
        (responded-IsReady os u cs r h);
}

Ready-store : StoreLaws Ready
Ready-store = record {
  stored = λ u p r same h. h;
  taken = λ u len p found h. h;
  returned = λ u held h. h;
}

Ready-brings : BringLaws Ready Whole
Ready-brings = record {
  receives = λ wc u whole h. record {
    req_registered = h.req_registered;
    rsp_registered = h.rsp_registered;
    req_cmd = whole;
    rsp_cmd = h.rsp_cmd;
  };
}

pub handle_wc-IsReady :
    (os : Os) (wc : Wc) (u : ServerUnit) (cs : List Call)
    → IsCmd wc.bytes
    → IsReady u.conn
    → After (λ _ u' _. IsReady u'.conn) (handle_wc os wc u cs)
handle_wc-IsReady os wc u cs whole ready =
    handle_wc_stays os Ready Whole (Ready-wire os) Ready-store Ready-brings wc u cs whole ready

-- A round of `cq_thread` that comes to its end leaves both command buffers registered and holding 48
-- bytes each, if they did before and if every completion brings 48 bytes.
pub cq_round-IsReady :
    (os : Os) (u : ServerUnit) (cs : List Call)
    → IsReady u.conn
    → ((ds : List Call) → All Whole (take 16 (os.polled ds)))
    → After (λ _ u' _. IsReady u'.conn) (cq_round os u cs)
cq_round-IsReady os u cs ready whole =
    cq_round_stays os Ready Whole (Ready-wire os) Ready-store Ready-brings whole u cs ready
