-- ===== src/Conn/Acquire.antt =====
-- The discipline of `rpmem_conn_init` of rpmem_server.c and `rpmem_addr_handler` of rpmem.c, stated
-- once: the objects of a connection are made in turn, and where one cannot be made, those before it
-- are destroyed, the latest first.
use rpmem.Base.{ℕ, List, [], ◌∷◌, ◌==◌, if◌then◌else◌}
use rpmem.Protocol.{cmd_size}
use rpmem.Machine.{
  Slot, Region, Access, Thread, Call, Os, M, ◌>>=◌, ◌>>◌, pure, gets, modify, call, call_,
}
use rpmem.Conn.{Conn}

-- An object of a connection: the call that makes it, where its handle is kept, and the call that
-- destroys it, on its handle.
pub record Stage : Type 0 where
  pub make : Conn → Call
  pub keep : ℕ → Conn → Conn
  pub undo : ℕ → Call

module _ (os : Os) where
  -- The calls of `undos`, in their order.
  unfoldable pub unwind : List Call → M Conn ℕ
  unwind [] = pure 1
  unwind (undo ∷ undos) = call_ os undo >> unwind undos

  -- The stages in turn, and `finish` behind them; `undos` destroys what has been made.
  unfoldable pub acquire : (List Call → M Conn ℕ) → List Stage → List Call → M Conn ℕ
  acquire finish [] undos = finish undos
  acquire finish (stage ∷ stages) undos = do
    c ← gets (λ c. c)
    handle ← call os (stage.make c)
    modify (stage.keep handle)
    if handle == 0 then unwind undos else acquire finish stages (stage.undo handle ∷ undos)

  -- The queue is armed and its thread made.
  unfoldable pub arm : List Call → M Conn ℕ
  arm undos = do
    c ← gets (λ c. c)
    ret ← call os (Call.ibv_req_notify_cq c.cq)
    if ret == 0 then call_ os (Call.thread_create Thread.cq_thread) >> pure 0 else unwind undos

  abbrev pub domain : Stage
  domain = record {
    make = λ c. Call.ibv_alloc_pd (os.verbs_of c.cma_id);
    keep = λ h c. record c { pd = h };
    undo = Call.ibv_dealloc_pd;
  }

  abbrev pub region : Slot → Stage
  region slot = record {
    make = λ c. Call.ibv_reg_mr c.pd (Region.slot slot) cmd_size (Access.local_write ∷ []);
    keep = λ h c. elim slot [
      | Slot.req ↦ record c { req_mr = h }
      | Slot.rsp ↦ record c { rsp_mr = h }
    ];
    undo = Call.ibv_dereg_mr;
  }

  abbrev pub channel : Stage
  channel = record {
    make = λ c. Call.ibv_create_comp_channel (os.verbs_of c.cma_id);
    keep = λ h c. record c { comp_channel = h };
    undo = Call.ibv_destroy_comp_channel;
  }

  abbrev pub queue : ℕ → Stage
  queue depth = record {
    make = λ c. Call.ibv_create_cq (os.verbs_of c.cma_id) depth c.comp_channel;
    keep = λ h c. record c { cq = h };
    undo = Call.ibv_destroy_cq;
  }
