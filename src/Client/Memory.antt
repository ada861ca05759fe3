-- ===== src/Client/Memory.antt =====
-- What `rpmem_map` and `rpmem_unmap` do with the memory and its registration, in every ending.
use rpmem.Base.{
  ℕ, ◌+◌, ◌≡◌, ◌≢◌, refl, ap, arith, Bool, true, false, ◌==◌, List, [], ◌∷◌, if◌then◌else◌,
  zero-cases, ne→false, inl, inr, ◌⊎◌, sym,
}
use rpmem.Protocol.{unpack_map_rsp}
use rpmem.Machine.{
  Call, Os, Region, Access, WrOpcode, After, After-bind, After-if, Object, created, destroyed,
  creations, destructions, one_if,
}
use rpmem.Client.{
  File, expect_rsp, send_req, transfer, wait_command, drop_memory, unmapped, rpmem_unmap, no_memory,
  destroy_addr, destroy_mr, destroy_rkey, fetch, rpmem_map, ask,
}
use rpmem.Client.Waits.{
  Ends, WaitLaws, of_transport, wait_command_keeps, expect_rsp_keeps, send_req_keeps,
  transfer_keeps,
}

-- The latest calls free the memory and, before that, deregister its region.
abbrev pub Released : ℕ → ℕ → List Call → Type 0
Released addr mr (c ∷ d ∷ cs) = (c ≡ Call.free addr) × (d ≡ Call.ibv_dereg_mr mr)
Released addr mr _ = ⊥

-- The file has these two.
abbrev Holds : ℕ → ℕ → File → List Call → Type 0
Holds addr mr f cs = (f.addr ≡ addr) × (f.mr ≡ mr)

Holds-laws : (addr mr : ℕ) → WaitLaws (Holds addr mr)
Holds-laws addr mr = record {
  connected = λ c f cs h. h;
  counted = λ n f cs h. h;
  called = λ c f cs t h. h;
}

abbrev Dropped : ℕ → ℕ → ℕ → File → List Call → Type 0
Dropped addr mr ret g ds = (g.len ≡ 0) × (g.rkey ≡ 0) × (g.remote_addr ≡ 0) × Released addr mr ds

drop_memory_releases :
    (os : Os) (addr mr ret : ℕ) (f : File) (cs : List Call)
    → Holds addr mr f cs
    → After (Dropped addr mr) (drop_memory os ret f cs)
unfolding drop_memory
drop_memory_releases os addr mr ret f cs (a, m) =
    (refl, refl, refl, (ap (λ p. Call.free p) a, ap (λ p. Call.ibv_dereg_mr p) m))

-- However `rpmem_unmap` comes to its end, it has deregistered the region and then freed the memory
-- of the file, and forgotten its length, its remote key and its remote address.
pub rpmem_unmap_releases :
    (os : Os) (fuel : ℕ) (f : File) (cs : List Call)
    → After
        (λ _ g ds. (g.len ≡ 0) × (g.rkey ≡ 0) × (g.remote_addr ≡ 0) × Released f.addr f.mr ds)
        (rpmem_unmap os fuel f cs)
unfolding rpmem_unmap unmapped
rpmem_unmap_releases os fuel f cs =
    let P = Holds f.addr f.mr in
    let laws = Holds-laws f.addr f.mr in
    let Q = Dropped f.addr f.mr in
    After-bind (Ends P) Q (expect_rsp os) _ f cs (expect_rsp_keeps os P laws f cs (refl, refl))
      (λ unposted g ds h.
        After-if Q (unposted == 0) _ _ g ds
          (After-bind (Ends P) Q (send_req os _) _ g ds (send_req_keeps os P laws _ g ds h)
            (λ unsent g' ds' h'.
              After-if Q (unsent == 0) _ _ g' ds'
                (After-bind (Ends P) Q (wait_command os fuel) _ g' ds'
                  (wait_command_keeps os P laws fuel g' ds' h')
                  (λ _ g2 ds2 h2. drop_memory_releases os _ _ _ g2 ds2 h2))
                (drop_memory_releases os _ _ _ g' ds' h')))
          (drop_memory_releases os _ _ _ g ds h))

pub transport_creates_nothing :
    (c : Call) (ret : ℕ)
    → of_transport c ≡ true
    → (created Object.mr c ret ≡ false) × (destroyed Object.mr c ≡ false)
transport_creates_nothing c ret h = ground arith

abbrev is_free : Call → Bool
is_free (Call.free _) = true
is_free _ = false

abbrev pub frees : List Call → ℕ
frees [] = 0
frees (c ∷ cs) = one_if (is_free c) + frees cs

transport_frees_nothing : (c : Call) → of_transport c ≡ true → is_free c ≡ false
transport_frees_nothing c h = ground arith

-- The latest call is `c`.
abbrev pub Latest : Call → List Call → Type 0
Latest c [] = ⊥
Latest c (d ∷ ds) = d ≡ c

module _ (os : Os) (len : ℕ) (cs : List Call) where
  -- The regions created and destroyed since the calls `cs` differ by `n`.
  abbrev Regions : ℕ → List Call → Type 0
  Regions n ds =
      creations os Object.mr ds + destructions Object.mr cs
      ≡ creations os Object.mr cs + destructions Object.mr ds + n

  -- While `rpmem_map` is on its way: the file has memory, and a region for it.
  abbrev Backed : File → List Call → Type 0
  Backed f ds =
      (f.len ≡ len)
      × (f.addr ≢ 0)
      × (f.mr ≢ 0)
      × Regions 1 ds
      × (f.addr ≡ os.reply cs (Call.calloc len))
      × (frees ds ≡ frees cs)

  -- The memory, if there was any, is freed at the end, once, and nothing else.
  abbrev pub Freed : ℕ → List Call → Type 0
  Freed addr ds =
      ((addr ≡ 0) × (frees ds ≡ frees cs))
      ⊎ (Latest (Call.free addr) ds × (frees ds ≡ 1 + frees cs))

  Backed-laws : WaitLaws Backed
  Backed-laws = record {
    connected = λ c f ds h. h;
    counted = λ n f ds h. h;
    called = λ c f ds t (l, a, m, r, from, none).
        let quiet = transport_creates_nothing c (os.reply ds c) t in
        (
          l,
          a,
          m,
          rw (quiet.0, quiet.1) (omega (arith, r)),
          from,
          rw (transport_frees_nothing c t) (omega (arith, none)),
        );
  }

  abbrev pub Mapping : Bool → File → List Call → Type 0
  Mapping ok f ds =
      if ok
      then Backed f ds
      else (f.len ≡ 0) × Regions 0 ds × (f.addr ≡ os.reply cs (Call.calloc len)) × Freed f.addr ds

  destroy_mr_balances :
      (f : File) (ds : List Call) → Backed f ds → After Mapping (destroy_mr os f ds)
  unfolding destroy_mr destroy_addr no_memory
  destroy_mr_balances f ds (_, _, _, regions, from, none) =
      (refl, omega (arith, regions), from, inr (refl, omega (arith, none)))

  fetch_balances :
      (fuel : ℕ) (f : File) (ds : List Call) → Backed f ds → After Mapping (fetch os fuel f ds)
  unfolding fetch destroy_rkey
  fetch_balances fuel f ds h =
      let result = unpack_map_rsp f.conn.rsp f.rkey f.remote_addr in
      let f' = record f { rkey = result.1; remote_addr = result.2 } in
      After-if Mapping (result.0 == 0) _ _ f' ds
        (After-bind (Ends Backed) Mapping (transfer os WrOpcode.rdma_read) _ f' ds
          (transfer_keeps os Backed Backed-laws WrOpcode.rdma_read f' ds h)
          (λ unread g es k.
            After-if Mapping (unread == 0) _ _ g es
              (After-bind (Ends Backed) Mapping (wait_command os fuel) _ g es
                (wait_command_keeps os Backed Backed-laws fuel g es k) (λ _ g' es' k'. k'))
              (destroy_mr_balances _ es k)))
        (destroy_mr_balances f' ds h)

  -- `rpmem_map` from the posting of the receive on.
  ask_balances :
      (fuel : ℕ) (f : File) (ds : List Call) → Backed f ds → After Mapping (ask os fuel len f ds)
  unfolding ask
  ask_balances fuel f ds h =
      After-bind (Ends Backed) Mapping (expect_rsp os) _ f ds
        (expect_rsp_keeps os Backed Backed-laws f ds h)
        (λ unposted g es k.
          After-if Mapping (unposted == 0) _ _ g es
            (After-bind (Ends Backed) Mapping (send_req os _) _ g es
              (send_req_keeps os Backed Backed-laws _ g es k)
              (λ unsent g' es' k'.
                After-if Mapping (unsent == 0) _ _ g' es'
                  (After-bind (Ends Backed) Mapping (wait_command os fuel) _ g' es'
                    (wait_command_keeps os Backed Backed-laws fuel g' es' k')
                    (λ _ g2 es2 k2. fetch_balances fuel g2 es2 k2))
                  (destroy_mr_balances g' es' k')))
            (destroy_mr_balances g es k))

  -- However `rpmem_map` comes to its end: if it returns a pointer, the file has the memory that it has
  -- allocated, of the length asked for, nothing is freed, and one more region is registered than
  -- before; if it returns NULL, the length is 0, as many regions are registered as before, and, if the
  -- memory could be allocated, the latest call frees it and nothing else is freed.
  pub rpmem_map_balances : (fuel : ℕ) (f : File) → After Mapping (rpmem_map os fuel len f cs)
  unfolding rpmem_map destroy_addr no_memory
  rpmem_map_balances fuel f =
      let alloc = Call.calloc len in
      let addr = os.reply cs alloc in
      let reg = Call.ibv_reg_mr f.conn.pd (Region.at addr) len (Access.local_write ∷ []) in
      let mr = os.reply (alloc ∷ cs) reg in
      let f' = record f { len = len; addr = addr; mr = mr } in
      elim (zero-cases addr) [
        | inl null ↦ rw null (refl, omega arith, sym null, inl (refl, omega arith))
        | inr there ↦ rw (ne→false addr 0 there) (elim (zero-cases mr) [
          | inl failed ↦ rw failed (refl, ground (arith, failed), refl, inr (refl, omega arith))
          | inr registered ↦ rw (ne→false mr 0 registered) (
              ask_balances fuel f' (reg ∷ alloc ∷ cs) (
                refl,
                there,
                registered,
                rw (ne→false mr 0 registered) (omega arith),
                refl,
                omega arith,
              ))
        ])
      ]
