-- ===== src/Examples/Memory.antt =====
-- What the examples do with the memory region that `rpmem_map` registers.
use rpmem.Base.{ℕ, ◌+◌, ◌≡◌, arith, ◌==◌, List}
use rpmem.Machine.{
  WrOpcode, Call, Os, After, After-mono, After-bind, After-if, After-if-test, Object, creations,
  destructions, pure,
}
use rpmem.Client.{
  File, expect_rsp, send_req, transfer, wait_command, drop_memory, unmapped, rpmem_unmap, rpmem_map,
  committed, rpmem_commit,
}
use rpmem.Client.Opening.{More}
use rpmem.Client.Memory.{Mapping, transport_creates_nothing, rpmem_map_balances}
use rpmem.Client.Waits.{
  Ends, WaitLaws, wait_command_keeps, expect_rsp_keeps, send_req_keeps, transfer_keeps,
}
use rpmem.Examples.{map_size, unmap_rmr, map_then_unmap, map_then_commit}

module _ (os : Os) (cs : List Call) where
  -- There are `n` more memory regions than when the calls were `cs`.
  abbrev Regions : ℕ → File → List Call → Type 0
  Regions n f ds = More os Object.mr cs n ds

  Regions-laws : (n : ℕ) → WaitLaws (Regions n)
  Regions-laws n = record {
    connected = λ c f ds h. h;
    counted = λ k f ds h. h;
    called = λ c f ds t h.
        let quiet = transport_creates_nothing c (os.reply ds c) t in
        rw (quiet.0, quiet.1) (omega (arith, h));
  }

  drop_memory-Regions :
      (ret : ℕ) (f : File) (ds : List Call)
      → Regions 1 f ds
      → After (Ends (Regions 0)) (drop_memory os ret f ds)
  unfolding drop_memory
  drop_memory-Regions ret f ds h = omega (arith, h)

  rpmem_unmap-Regions :
      (fuel : ℕ) (f : File) (ds : List Call)
      → Regions 1 f ds
      → After (Ends (Regions 0)) (rpmem_unmap os fuel f ds)
  unfolding rpmem_unmap unmapped
  rpmem_unmap-Regions fuel f ds h =
      let P = Regions 1 in
      let Q = Ends (Regions 0) in
      let laws = Regions-laws 1 in
      After-bind (Ends P) Q (expect_rsp os) _ f ds (expect_rsp_keeps os P laws f ds h)
        (λ unposted g es k.
          After-if Q (unposted == 0) _ _ g es
            (After-bind (Ends P) Q (send_req os _) _ g es (send_req_keeps os P laws _ g es k)
              (λ unsent g1 es1 k1.
                After-if Q (unsent == 0) _ _ g1 es1
                  (After-bind (Ends P) Q (wait_command os fuel) _ g1 es1
                    (wait_command_keeps os P laws fuel g1 es1 k1)
                    (λ _ g2 es2 k2. drop_memory-Regions _ g2 es2 k2))
                  (drop_memory-Regions _ g1 es1 k1)))
            (drop_memory-Regions _ g es k))

  rpmem_commit-Regions :
      (fuel n : ℕ) (f : File) (ds : List Call)
      → Regions n f ds
      → After (Ends (Regions n)) (rpmem_commit os fuel f ds)
  unfolding rpmem_commit committed
  rpmem_commit-Regions fuel n f ds h =
      let P = Regions n in
      let Q = Ends P in
      let laws = Regions-laws n in
      After-bind (Ends P) Q (expect_rsp os) _ f ds (expect_rsp_keeps os P laws f ds h)
        (λ unposted g es k.
          After-if Q (unposted == 0) _ _ g es
            (After-bind (Ends P) Q (transfer os WrOpcode.rdma_write) _ g es
              (transfer_keeps os P laws WrOpcode.rdma_write g es k)
              (λ unwritten g1 es1 k1.
                After-if Q (unwritten == 0) _ _ g1 es1
                  (After-bind (Ends P) Q (send_req os _) _ g1 es1
                    (send_req_keeps os P laws _ g1 es1 k1)
                    (λ unsent g2 es2 k2.
                      After-if Q (unsent == 0) _ _ g2 es2
                        (After-bind (Ends P) Q (wait_command os fuel) _ g2 es2
                          (wait_command_keeps os P laws fuel g2 es2 k2) (λ _ g3 es3 k3. k3))
                        k2))
                  k1))
            k)

  unmap_rmr-Regions :
      (fuel : ℕ) (f : File) (ds : List Call)
      → Regions 1 f ds
      → After (Ends (Regions 0)) (unmap_rmr os fuel f ds)
  unfolding unmap_rmr
  unmap_rmr-Regions fuel f ds h =
      After-bind (Ends (Regions 0)) (Ends (Regions 0)) (rpmem_unmap os fuel) _ f ds
        (rpmem_unmap-Regions fuel f ds h) (λ ret g es k. k)

-- However the part of simple_map_unmap.c between open and close comes to its end, there are as many
-- memory regions as before.
pub map_then_unmap_balances :
    (os : Os) (fuel : ℕ) (f : File) (cs : List Call)
    → After
        (λ _ _ ds.
          creations os Object.mr ds + destructions Object.mr cs
          ≡ creations os Object.mr cs + destructions Object.mr ds + 0)
        (map_then_unmap os fuel f cs)
unfolding map_then_unmap
map_then_unmap_balances os fuel f cs =
    let len = map_size f.size in
    let Q = Ends (Regions os cs 0) in
    After-bind (Mapping os len cs) Q (rpmem_map os fuel len) _ f cs
      (rpmem_map_balances os len cs fuel f)
      (λ mapped g ds h.
        After-if-test Q mapped (unmap_rmr os fuel) (pure 1) g ds
          (λ yes. unmap_rmr-Regions os cs fuel g ds (rw yes at h).3) (λ no. (rw no at h).1))

-- If the part of simple_commit.c between open and close comes to its end with 0, there are as many
-- memory regions as before.
pub map_then_commit_balances :
    (os : Os) (fuel : ℕ) (f : File) (cs : List Call)
    → After
        (λ ret _ ds.
          ret ≡ 0
          → creations os Object.mr ds + destructions Object.mr cs
            ≡ creations os Object.mr cs + destructions Object.mr ds + 0)
        (map_then_commit os fuel f cs)
unfolding map_then_commit
map_then_commit_balances os fuel f cs =
    let len = map_size f.size in
    let Q = λ (ret : ℕ) (_ : File) (ds : List Call). ret ≡ 0 → More os Object.mr cs 0 ds in
    After-bind (Mapping os len cs) Q (rpmem_map os fuel len) _ f cs
      (rpmem_map_balances os len cs fuel f)
      (λ mapped g ds h.
        After-if-test Q mapped _ (pure 1) g ds
          (λ yes.
            After-bind (Ends (Regions os cs 1)) Q (rpmem_commit os fuel) _ g ds
              (rpmem_commit-Regions os cs fuel 1 g ds (rw yes at h).3)
              (λ ret g1 es k.
                After-if Q (ret == 0) _ (pure 1) g1 es
                  (After-mono (Ends (Regions os cs 0)) Q (unmap_rmr os fuel g1 es)
                    (λ _ _ _ k1 _. k1) (unmap_rmr-Regions os cs fuel g1 es k))
                  (λ e. absurd (omega (arith, e)))))
          (λ no e. absurd (omega (arith, e))))
