-- ===== src/Server/State.antt =====
-- The structs of rpmem_server.c.
use rpmem.Base.{ℕ, List, [], ◌∷◌, ◌==◌, if◌then◌else◌, u32, add32, sub32}
use rpmem.Machine.{M, within}
use rpmem.Conn.{Conn}

-- `struct rpmem_resource`, without the name, which is only printed. `st_size` is `stbuf.st_size`.
pub record Resource : Type 0 where
  pub fd : ℕ
  pub st_size : ℕ
  pub mr : ℕ
  pub addr : ℕ
  pub map_len : ℕ

-- `(int)res->stbuf.st_size`
abbrev pub int_size : Resource → ℕ
int_size r = u32 r.st_size

abbrev pub Heap : Type 0
Heap = ℕ → Resource

abbrev pub update : Heap → ℕ → Resource → Heap
update heap p r q = if q == p then r else heap q

-- `struct rpmem_server`: the lists hold pointers, and `heap` is what the pointers of resources
-- point to. The address, the threads, locks and semaphores are not part of it.
pub record Server : Type 0 where
  pub cma_id : ℕ
  pub cma_channel : ℕ
  pub heap : Heap
  pub conns_list : List ℕ
  pub res_list : List ℕ
  pub total_size : ℕ
  pub in_use_size : ℕ
  pub free_size : ℕ

-- `struct rpmem_server_unit` together with the server that it points to: the state of a handler.
pub record ServerUnit : Type 0 where
  pub server : Server
  pub conn : Conn
  pub res : ℕ

-- A function of rpmem_common.c, on the connection of the unit.
abbrev pub on_conn : {A : Type 0} → M Conn A → M ServerUnit A
on_conn = within (λ u. u.conn) (λ c u. record u { conn = c })

abbrev pub set_resource : ℕ → Resource → ServerUnit → ServerUnit
set_resource p r u = record u { server = record (u.server) { heap = update u.server.heap p r } }

-- `SLIST_REMOVE` of a pointer that is in the list.
unfoldable pub remove : ℕ → List ℕ → List ℕ
remove p [] = []
remove p (q ∷ ps) = if q == p then ps else q ∷ remove p ps

-- What `rpmem_handle_map` does with the resource that it takes from the pool, under the lock.
abbrev pub take_resource : ℕ → ServerUnit → ServerUnit
take_resource p u =
    let s = u.server in
    let size = int_size (s.heap p) in
    record u {
      res = p;
      server = record s {
        free_size = sub32 s.free_size size;
        in_use_size = add32 s.in_use_size size;
        res_list = remove p s.res_list;
      };
    }

-- What `rpmem_handle_unmap` does to bring it back, under the lock.
abbrev pub return_resource : ℕ → ServerUnit → ServerUnit
return_resource p u =
    let s = u.server in
    let size = int_size (s.heap p) in
    record u {
      res = 0;
      server = record s {
        res_list = p ∷ s.res_list;
        free_size = add32 s.free_size size;
        in_use_size = sub32 s.in_use_size size;
      };
    }
