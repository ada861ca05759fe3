-- ===== src/Server/Fleet/Ready.antt =====
-- The command buffers of all units, from their connection requests on.
use mathlib.Core.Path.{subst}
use rpmem.Base.{
  [], All, All-middle, All-replace, ◌≡◌, ◌≢◌, ◌⊎◌, ◌==◌, inl, inr, arith, Bool, true, false, List,
  ◌∷◌, ap, length, eq→true, if◌then◌else◌,
}
use rpmem.Protocol.{IsCmd, zeroed, zeroed-IsCmd}
use rpmem.Machine.{Call, Os, After}
use rpmem.Conn.{post_recv}
use rpmem.Server.State.{ServerUnit}
use rpmem.Server.Events.{handle_wc}
use rpmem.Server.Connect.{connect_request_handler, conn_init, create_qp, reject}
use rpmem.Server.Start.{cm_round, server_cma_handler}
use rpmem.Server.Wire.{IsReady}
use rpmem.Server.Ready.{handle_wc-IsReady}
use rpmem.Server.Fleet.{Member, Fleet, Step, serves, accepts, Reach, here, next, unit_of, member_of}
use rpmem.Server.Fleet.Invariant.{After-at}

-- A unit with two registered buffers that are empty.
abbrev IsBlank : ServerUnit → Type 0
IsBlank u =
    (u.conn.req_mr ≢ 0) × (u.conn.rsp_mr ≢ 0) × (u.conn.req ≡ zeroed) × (u.conn.rsp ≡ zeroed)

cm_round-IsBlank :
    (os : Os) (u : ServerUnit) (cs : List Call)
    → After (λ _ u' _. (u'.server.conns_list ≡ u.server.conns_list) ⊎ IsBlank u') (cm_round os u cs)
unfolding cm_round server_cma_handler connect_request_handler conn_init create_qp reject post_recv
cm_round-IsBlank os u cs = ground arith

-- The device brings a whole command.
abbrev pub StepWhole : {os : Os} {f g : Fleet} → Step os f g → Type 0
StepWhole (serves before after m wc cs cs' u' there run e) = IsCmd wc.bytes
StepWhole (accepts blank alive cs cs' u' run e) = Unit

abbrev pub OnlyWhole : {os : Os} {f g : Fleet} → Reach os f g → Type 0
OnlyWhole here = Unit
OnlyWhole (next r step) = OnlyWhole r × StepWhole step

abbrev pub IsReadyMember : Member → Type 0
IsReadyMember m = IsReady m.conn

blank-IsReady : (u : ServerUnit) → IsBlank u → IsReady u.conn
blank-IsReady u (req_mr, rsp_mr, req, rsp) = record {
  req_registered = req_mr;
  rsp_registered = rsp_mr;
  req_cmd = rw req zeroed-IsCmd;
  rsp_cmd = rw rsp zeroed-IsCmd;
}

joined-IsReady :
    (known : Bool) (ms : List Member) (m : Member)
    → IsReady m.conn
    → All IsReadyMember ms
    → All IsReadyMember (if known then ms else m ∷ ms)
joined-IsReady true ms m h hs = hs
joined-IsReady false ms m h hs = (h, hs)

Step-IsReady :
    {os : Os} {f g : Fleet} (step : Step os f g)
    → StepWhole step
    → All IsReadyMember f.members
    → All IsReadyMember g.members
Step-IsReady {os} {f} (serves before after m wc cs cs' u' there run e) whole h =
    let ready = subst (All IsReadyMember) there h in
    let kept : IsReady u'.conn =
      After-at _ (handle_wc os wc (unit_of f.server m) cs)
        (handle_wc-IsReady os wc (unit_of f.server m) cs whole
          (All-middle IsReadyMember before after m ready))
        run in
    rw e (All-replace IsReadyMember before after m (member_of u') kept ready)
Step-IsReady {os} {f} (accepts blank alive cs cs' u' run e) whole h =
    let known = length u'.server.conns_list == length f.server.conns_list in
    let fresh : (u'.server.conns_list ≡ f.server.conns_list) ⊎ IsBlank u' =
      After-at _ (cm_round os (unit_of f.server blank) cs)
        (cm_round-IsBlank os (unit_of f.server blank) cs) run in
    rw e (elim fresh [
      | inl same ↦
          rw (eq→true (length u'.server.conns_list) (length f.server.conns_list) (ap length same)) h
      | inr empty ↦ joined-IsReady known f.members (member_of u') (blank-IsReady u' empty) h
    ])

-- From a server without units on, whatever the turns of the threads and whatever their calls answer:
-- if every completion that is served brings 48 bytes, then each unit has both its command buffers
-- registered, and each of them holds 48 bytes.
pub Reach-IsReady :
    {os : Os} {f g : Fleet} (r : Reach os f g)
    → f.members ≡ []
    → OnlyWhole r
    → All IsReadyMember g.members
Reach-IsReady here none_yet whole = rw none_yet tt
Reach-IsReady (next r step) none_yet (earlier, whole) =
    Step-IsReady step whole (Reach-IsReady r none_yet earlier)
