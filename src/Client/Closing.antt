-- ===== src/Client/Closing.antt =====
-- What `rpmem_close` destroys.
use rpmem.Base.{ℕ, ◌+◌, ◌≡◌, refl, arith, true, false, ◌==◌, List}
use rpmem.Protocol.{pack_close_req}
use rpmem.Machine.{Call, Os, After, After-bind, After-if, Object, destroyed, destructions}
use rpmem.Client.{File, expect_rsp, send_req, wait_command, tear_down, close_file}
use rpmem.Client.Waits.{
  Ends, WaitLaws, of_transport, wait_command_keeps, expect_rsp_keeps, send_req_keeps,
}

transport_destroys_nothing : (o : Object) (c : Call) → of_transport c ≡ true → destroyed o c ≡ false
transport_destroys_nothing Object.pd c h = ground arith
transport_destroys_nothing Object.mr c h = ground arith
transport_destroys_nothing Object.comp_channel c h = ground arith
transport_destroys_nothing Object.cq c h = ground arith
transport_destroys_nothing Object.qp c h = ground arith
transport_destroys_nothing Object.event_channel c h = ground arith
transport_destroys_nothing Object.cm_id c h = ground arith

-- What `rpmem_close` destroys of each kind.
abbrev pub torn_down : Object → ℕ
torn_down Object.mr = 0
torn_down _ = 1

module _ (o : Object) (f : File) (cs : List Call) where
  -- Nothing is destroyed yet, and the handles are those of the file.
  abbrev Whole : File → List Call → Type 0
  Whole g ds = destructions o ds ≡ destructions o cs

  Whole-laws : WaitLaws Whole
  Whole-laws = record {
    connected = λ c g ds h. h;
    counted = λ n g ds h. h;
    called = λ c g ds t h. rw (transport_destroys_nothing o c t) (omega (arith, h));
  }

  Closed : ℕ → File → List Call → Type 0
  Closed ret g ds = (ret ≡ 0) × (destructions o ds ≡ destructions o cs + torn_down o)

tear_down_destroys :
    (os : Os) (o : Object) (f : File) (cs : List Call) (p : ℕ) (g : File) (ds : List Call)
    → Whole o f cs g ds
    → After (Closed o f cs) (tear_down os p g ds)
unfolding tear_down Closed
tear_down_destroys os Object.mr f cs p g ds h = (refl, omega (arith, h))
tear_down_destroys os o f cs p g ds h = (refl, omega (arith, h))

-- However `rpmem_close` comes to its end once the file is off the list, it returns 0 and has
-- destroyed one queue pair, one id, one event channel, one completion queue, one completion channel
-- and one protection domain, but no memory region.
pub close_file_destroys :
    (os : Os) (fuel p : ℕ) (o : Object) (f : File) (cs : List Call)
    → After
        (λ ret _ ds. (ret ≡ 0) × (destructions o ds ≡ destructions o cs + torn_down o))
        (close_file os fuel p f cs)
unfolding close_file Closed
close_file_destroys os fuel p o f cs =
    let P = Whole o f cs in
    let laws = Whole-laws o f cs in
    let Q = Closed o f cs in
    let ends = tear_down_destroys os o f cs p in
    After-bind (Ends P) Q (expect_rsp os) _ f cs (expect_rsp_keeps os P laws f cs refl)
      (λ unposted g ds h.
        After-if Q (unposted == 0) _ _ g ds
          (After-bind (Ends P) Q (send_req os pack_close_req) _ g ds
            (send_req_keeps os P laws pack_close_req g ds h)
            (λ unsent g' ds' h'.
              After-if Q (unsent == 0) _ _ g' ds'
                (After-bind (Ends P) Q (wait_command os fuel) _ g' ds'
                  (wait_command_keeps os P laws fuel g' ds' h') (λ _ g2 ds2 h2. ends g2 ds2 h2))
                (ends g' ds' h')))
          (ends g ds h))
