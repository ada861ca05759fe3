-- ===== src/Machine/Objects.antt =====
-- The objects of the verbs library and of the connection manager that the program creates and
-- destroys, counted in a record of calls.
use mathlib.Core.Bool.{not}
use rpmem.Base.{ℕ, ◌+◌, Bool, true, false, List, [], ◌∷◌, ◌==◌, if◌then◌else◌}
use rpmem.Machine.Calls.{Call, Os}

pub data Object : Type 0 where
  pd mr comp_channel cq qp event_channel cm_id : Object

-- Whether a call that returned `ret` has created an object. `rdma_create_qp` and `rdma_create_id`
-- return 0 if they succeed, the others a pointer.
abbrev pub created : Object → Call → ℕ → Bool
created Object.pd (Call.ibv_alloc_pd _) ret = not (ret == 0)
created Object.mr (Call.ibv_reg_mr _ _ _ _) ret = not (ret == 0)
created Object.comp_channel (Call.ibv_create_comp_channel _) ret = not (ret == 0)
created Object.cq (Call.ibv_create_cq _ _ _) ret = not (ret == 0)
created Object.qp (Call.rdma_create_qp _ _ _ _ _ _) ret = ret == 0
created Object.event_channel Call.rdma_create_event_channel ret = not (ret == 0)
created Object.cm_id (Call.rdma_create_id _) ret = ret == 0
created _ _ _ = false

abbrev pub destroyed : Object → Call → Bool
destroyed Object.pd (Call.ibv_dealloc_pd _) = true
destroyed Object.mr (Call.ibv_dereg_mr _) = true
destroyed Object.comp_channel (Call.ibv_destroy_comp_channel _) = true
destroyed Object.cq (Call.ibv_destroy_cq _) = true
destroyed Object.qp (Call.ibv_destroy_qp _) = true
destroyed Object.event_channel (Call.rdma_destroy_event_channel _) = true
destroyed Object.cm_id (Call.rdma_destroy_id _) = true
destroyed _ _ = false

abbrev pub one_if : Bool → ℕ
one_if b = if b then 1 else 0

abbrev pub creations : Os → Object → List Call → ℕ
creations os o [] = 0
creations os o (c ∷ cs) = one_if (created o c (os.reply cs c)) + creations os o cs

abbrev pub destructions : Object → List Call → ℕ
destructions o [] = 0
destructions o (c ∷ cs) = one_if (destroyed o c) + destructions o cs
