-- ===== src/Client/Opening.antt =====
-- What `rpmem_open` leaves behind.
use mathlib.Core.Bool.{not}
use rpmem.Base.{
  ℕ, zero, suc, ◌+◌, ◌≡◌, ◌≢◌, refl, arith, ne→false, Bool, true, false, ◌||◌, ◌==◌, if◌then◌else◌,
  List, ◌∷◌,
}
use rpmem.Protocol.{pack_open_req, unpack_open_rsp}
use rpmem.Machine.{
  CmEvent, Lock, Thread, Call, Os, After, After-bind, After-if, Object, created, destroyed,
  creations, destructions,
}
use rpmem.Client.{
  File, addr_handler, route_handler, enter, on_event, cma_handler, cm_round, wait_connect,
  wait_command, expect_rsp, send_req, is_established, destroy_id, destroy_thread, opened, ask_open,
  connect,
}
use rpmem.Client.Waits.{
  WaitLaws, of_transport, wait_command_keeps, expect_rsp_keeps, send_req_keeps,
}

-- The two kinds of objects that `rpmem_open` makes itself.
abbrev pub OfOpen : Object → Type 0
OfOpen Object.event_channel = Unit
OfOpen Object.cm_id = Unit
OfOpen _ = ⊥

transport_opens_nothing :
    (o : Object) (c : Call) (ret : ℕ)
    → OfOpen o
    → of_transport c ≡ true
    → (created o c ret ≡ false) × (destroyed o c ≡ false)
transport_opens_nothing Object.event_channel c ret own h = ground arith
transport_opens_nothing Object.cm_id c ret own h = ground arith
transport_opens_nothing Object.pd c ret own h = absurd own
transport_opens_nothing Object.mr c ret own h = absurd own
transport_opens_nothing Object.cq c ret own h = absurd own
transport_opens_nothing Object.qp c ret own h = absurd own
transport_opens_nothing Object.comp_channel c ret own h = absurd own

module _ (os : Os) (o : Object) (cs : List Call) where
  -- Since the calls `cs`, `n` more objects of the kind have been created than destroyed.
  abbrev pub More : ℕ → List Call → Type 0
  More n ds = creations os o ds + destructions o cs ≡ creations os o cs + destructions o ds + n

  More-laws : (n : ℕ) → OfOpen o → WaitLaws (λ _ ds. More n ds)
  More-laws n own = record {
    connected = λ c f ds h. h;
    counted = λ k f ds h. h;
    called = λ c f ds t h.
        let quiet = transport_opens_nothing o c (os.reply ds c) own t in
        rw (quiet.0, quiet.1) (omega (arith, h));
  }

-- The handlers of events neither create nor destroy one.
cma_handler_quiet :
    (os : Os) (o : Object) (cs : List Call) (n : ℕ) (event : CmEvent) (f : File) (ds : List Call)
    → OfOpen o
    → More os o cs n ds
    → After (λ _ _ es. More os o cs n es) (cma_handler os event f ds)
unfolding cma_handler on_event enter addr_handler route_handler
cma_handler_quiet os Object.event_channel cs n event f ds own h = ground arith
cma_handler_quiet os Object.cm_id cs n event f ds own h = ground arith
cma_handler_quiet os Object.pd cs n event f ds own h = absurd own
cma_handler_quiet os Object.mr cs n event f ds own h = absurd own
cma_handler_quiet os Object.cq cs n event f ds own h = absurd own
cma_handler_quiet os Object.qp cs n event f ds own h = absurd own
cma_handler_quiet os Object.comp_channel cs n event f ds own h = absurd own

-- The calls of `cm_thread` and of `rpmem_open` that neither create nor destroy an object.
abbrev pub of_open : Call → Bool
of_open (Call.rdma_get_cm_event _) = true
of_open Call.rdma_ack_cm_event = true
of_open (Call.rdma_resolve_addr _) = true
of_open Call.thread_exit = true
of_open (Call.thread_create _) = true
of_open (Call.thread_cancel _) = true
of_open (Call.lock _) = true
of_open (Call.unlock _) = true
of_open (Call.mutex_init _) = true
of_open (Call.mutex_destroy _) = true
of_open (Call.sem_init _) = true
of_open (Call.sem_destroy _) = true
of_open (Call.free _) = true
of_open _ = false

of_open_quiet :
    (o : Object) (c : Call) (ret : ℕ)
    → of_open c ≡ true
    → (created o c ret ≡ false) × (destroyed o c ≡ false)
of_open_quiet Object.event_channel c ret h = ground arith
of_open_quiet Object.cm_id c ret h = ground arith
of_open_quiet Object.pd c ret h = ground arith
of_open_quiet Object.mr c ret h = ground arith
of_open_quiet Object.cq c ret h = ground arith
of_open_quiet Object.qp c ret h = ground arith
of_open_quiet Object.comp_channel c ret h = ground arith

-- What is left when `rpmem_open` returns `r`.
abbrev pub Left : Os → Object → List Call → ℕ → File → List Call → Type 0
Left os o cs r f ds = More os o cs (if r == 0 then 0 else 1) ds

pub destroy_id_balances :
    (os : Os) (o : Object) (cs : List Call) (p : ℕ) (f : File) (ds : List Call)
    → OfOpen o
    → More os o cs 1 ds
    → After (Left os o cs) (destroy_id os p f ds)
unfolding destroy_id
destroy_id_balances os Object.event_channel cs p f ds own h = omega (arith, h)
destroy_id_balances os Object.cm_id cs p f ds own h = omega (arith, h)
destroy_id_balances os Object.pd cs p f ds own h = absurd own
destroy_id_balances os Object.mr cs p f ds own h = absurd own
destroy_id_balances os Object.cq cs p f ds own h = absurd own
destroy_id_balances os Object.qp cs p f ds own h = absurd own
destroy_id_balances os Object.comp_channel cs p f ds own h = absurd own

module _ (os : Os) (o : Object) (cs : List Call) (own : OfOpen o) where
  abbrev pub Kept : ℕ → {A : Type 0} → A → File → List Call → Type 0
  Kept n _ _ ds = More os o cs n ds

  pub quiet :
      (n : ℕ) (c : Call) (ds : List Call)
      → of_open c ≡ true
      → More os o cs n ds
      → More os o cs n (c ∷ ds)
  quiet n c ds t h =
      let none_made = of_open_quiet o c (os.reply ds c) t in
      rw (none_made.0, none_made.1) (omega (arith, h))

  cm_round_quiet :
      (n : ℕ) (f : File) (ds : List Call) → More os o cs n ds → After (Kept n) (cm_round os f ds)
  unfolding cm_round
  cm_round_quiet n f ds h =
      let get = Call.rdma_get_cm_event f.cma_channel in
      let h' = quiet n get ds refl h in
      After-if (Kept n) (not (os.reply ds get == 0)) _ _ f (get ∷ ds)
        (quiet n Call.thread_exit (get ∷ ds) refl h')
        (After-bind (Kept n) (Kept n) (cma_handler os (os.cm_event (get ∷ ds))) _ f (get ∷ ds)
          (cma_handler_quiet os o cs n (os.cm_event (get ∷ ds)) f (get ∷ ds) own h')
          (λ ret g es k.
            After-if (Kept n) (ret == 0) _ _ g es (quiet n Call.rdma_ack_cm_event es refl k)
              (quiet n Call.thread_exit es refl k)))

  wait_connect_quiet :
      (n fuel : ℕ) (f : File) (ds : List Call)
      → More os o cs n ds
      → After (Kept n) (wait_connect os fuel f ds)
  unfolding wait_connect
  wait_connect_quiet n zero f ds h = tt
  wait_connect_quiet n (suc fuel) f ds h =
      After-if (Kept n) (f.sem_connect == 0) _ _ f ds
        (After-bind (Kept n) (Kept n) (cm_round os) _ f ds (cm_round_quiet n f ds h)
          (λ alive g es k.
            After-if (Kept n) (alive || not (g.sem_connect == 0)) _ _ g es
              (wait_connect_quiet n fuel g es k) tt))
        h

  destroy_thread_balances :
      (p : ℕ) (f : File) (ds : List Call)
      → More os o cs 1 ds
      → After (Left os o cs) (destroy_thread os p f ds)
  unfolding destroy_thread
  destroy_thread_balances p f ds h =
      destroy_id_balances os o cs p f _ own
        (quiet 1 (Call.thread_cancel Thread.cm_thread) ds refl h)

  ask_open_balances :
      (fuel p : ℕ) (f : File) (ds : List Call)
      → p ≢ 0
      → More os o cs 1 ds
      → After (Left os o cs) (ask_open os fuel p f ds)
  unfolding ask_open opened
  ask_open_balances fuel p f ds there h =
      let P = λ (_ : File) (es : List Call). More os o cs 1 es in
      let laws = More-laws os o cs 1 own in
      let Q = Left os o cs in
      After-bind (Kept 1) Q (expect_rsp os) _ f ds (expect_rsp_keeps os P laws f ds h)
        (λ unposted g es k.
          After-if Q (unposted == 0) _ _ g es
            (After-bind (Kept 1) Q (send_req os pack_open_req) _ g es
              (send_req_keeps os P laws pack_open_req g es k)
              (λ unsent g1 es1 k1.
                After-if Q (unsent == 0) _ _ g1 es1
                  (After-bind (Kept 1) Q (wait_command os fuel) _ g1 es1
                    (wait_command_keeps os P laws fuel g1 es1 k1)
                    (λ _ g2 es2 k2.
                      After-if Q ((unpack_open_rsp g2.conn.rsp g2.size).0 == 0) _ _ _ es2
                        (rw (ne→false p 0 there) k2) (destroy_thread_balances p _ es2 k2)))
                  (destroy_thread_balances p g1 es1 k1)))
            (destroy_thread_balances p g es k))

  pub connect_balances :
      (fuel p : ℕ) (f : File) (ds : List Call)
      → p ≢ 0
      → More os o cs 1 ds
      → After (Left os o cs) (connect os fuel p f ds)
  unfolding connect
  connect_balances fuel p f ds there h =
      let Q = Left os o cs in
      let resolve = Call.rdma_resolve_addr f.conn.cma_id in
      let h1 = quiet 1 resolve ds refl h in
      After-if Q (os.reply ds resolve == 0) _ _ f (resolve ∷ ds)
        (After-bind (Kept 1) Q (wait_connect os fuel) _ f (resolve ∷ ds)
          (wait_connect_quiet 1 fuel f (resolve ∷ ds) h1)
          (λ _ g es k.
            let es' = Call.unlock Lock.state_mutex ∷ Call.lock Lock.state_mutex ∷ es in
            let k' =
              quiet 1 (Call.unlock Lock.state_mutex) _ refl
                (quiet 1 (Call.lock Lock.state_mutex) es refl k) in
            After-if Q (is_established g.state) _ _ g es' (ask_open_balances fuel p g es' there k')
              (destroy_thread_balances p g es' k')))
        (destroy_thread_balances p f (resolve ∷ ds) h1)
