-- ===== src/Server/Threads.antt =====
-- The threads of the server, section by section. `Fleet` has a turn for a whole completion; here a
-- handler of rpmem_server.c is cut where another thread can come in between: at the reads and
-- updates of what the units share, and where it takes and gives back `res_lock`. Under the lock, the
-- search of the pool and what is done with the resource that it finds are two sections. What a section
-- reads or writes outside the lock is the unit, the resource that the unit holds, and in
-- `rpmem_handle_open` the one int `free_size`.
use rpmem.Base.{
  ℕ, ◌≡◌, List, [], ◌∷◌, ◌++◌, ◌==◌, ◌&&◌, if◌then◌else◌, length, sext, minus_one, Bool, true,
  false, zero, suc, ◌+◌, int_ltb,
}
use rpmem.Protocol.{
  Opcode, opcode_value, opcode_at, len_at, remote_addr_at, get_u32, get_u64, pack_open_rsp,
}
use rpmem.Machine.{
  Wc, is_success, is_recv, Lock, Call, Os, done, M, ◌>>=◌, ◌>>◌, pure, gets, modify, call, call_,
}
use rpmem.Conn.{Conn}
use rpmem.Server.State.{Server, ServerUnit, int_size, set_resource, take_resource, return_resource}
use rpmem.Server.Handlers.{
  deref, repost, respond, handle_close, search_pool, map_refused, map_resource, unmap_response,
  handle_commit,
}
use rpmem.Server.Start.{cm_round}
use rpmem.Server.Fleet.{Member, Fleet, unit_of}
pub mod Runs
pub mod Quiet
pub mod Invariant
pub mod Safety
pub mod Lost
pub mod Locking

-- What is left of a handler: a section that runs without a break, and what follows on its value; or
-- `pthread_spin_lock` or `pthread_spin_unlock` of `res_lock`, and what follows.
pub data Cut : Type 0 where
  ends : ℕ → Cut
  section : (block : M ServerUnit ℕ) → (ℕ → Cut) → Cut
  acquire release : Cut → Cut

abbrev pub last : M ServerUnit ℕ → Cut
last block = Cut.section block Cut.ends

-- The sections one after the other, by a thread that finds the lock free.
unfoldable pub run : Os → Cut → M ServerUnit ℕ
run os (Cut.ends a) = pure a
run os (Cut.section block rest) = block >>= λ a. run os (rest a)
run os (Cut.acquire rest) = call_ os (Call.lock Lock.res_lock) >> run os rest
run os (Cut.release rest) = call_ os (Call.unlock Lock.res_lock) >> run os rest

module _ (os : Os) where
  -- `rpmem_handle_open` reads `free_size` without the lock.
  unfoldable pub open_cut : Cut
  open_cut = Cut.section (gets (λ u. u.server.free_size)) λ size.
      Cut.section (repost os)
        λ err. last (respond os (pack_open_rsp size) (if err == 0 then 0 else minus_one))

  -- The loop over the pool, up to the first resource that is larger than `len`: one more than its
  -- pointer, or 0 if there is none.
  unfoldable pub find_fit : ℕ → List ℕ → M ServerUnit ℕ
  find_fit len [] = pure 0
  find_fit len (p ∷ ps) = do
    res ← gets (λ u. u.server.heap p)
    if int_ltb len (int_size res) then pure (suc p) else find_fit len ps

  unfoldable pub search_locked : ℕ → M ServerUnit ℕ
  search_locked len = do pool ← gets (λ u. u.server.res_list); find_fit len pool

  -- What the loop does with the resource that it has found.
  unfoldable pub take_locked : ℕ → M ServerUnit ℕ
  take_locked zero = pure 0
  take_locked (suc p) = modify (take_resource p) >> pure p

  -- `rpmem_handle_map` behind the lock.
  unfoldable pub map_rest : ℕ → ℕ → M ServerUnit ℕ
  map_rest len p = do
    held ← gets (λ u. u.res)
    if held == 0 then map_refused os else map_resource os len p

  -- `rpmem_handle_map`
  unfoldable pub map_cut : Cut
  map_cut = Cut.section (gets (λ u. get_u32 len_at u.conn.req)) λ len.
      Cut.section (repost os) λ err.
        if err == 0
        then Cut.acquire (
            Cut.section (search_locked len)
              λ found. Cut.section (take_locked found) λ p. Cut.release (last (map_rest len p)))
        else last (map_refused os)

  -- `rpmem_handle_unmap` from `ibv_dereg_mr` to `munmap`.
  unfoldable pub unmap_private : ℕ → ℕ → ℕ → M ServerUnit ℕ
  unmap_private len addr p = do
    res ← deref p
    call_ os (Call.ibv_dereg_mr res.mr)
    modify (set_resource p (record res { map_len = 0; addr = 0 }))
    call os (Call.munmap addr (sext len))

  -- What `rpmem_handle_unmap` does under the lock.
  unfoldable pub return_locked : ℕ → M ServerUnit ℕ
  return_locked p = modify (return_resource p) >> pure 0

  unfoldable pub unmap_end : ℕ → ℕ → Cut
  unmap_end p ret =
      if ret == 0
      then Cut.acquire
          (Cut.section (return_locked p) (λ _. Cut.release (last (unmap_response os 0))))
      else last (unmap_response os ret)

  -- `rpmem_handle_unmap`
  unfoldable pub unmap_cut : Cut
  unmap_cut = Cut.section (gets (λ u. u.res)) λ p.
      Cut.section (gets (λ u. get_u32 len_at u.conn.req)) λ len.
        Cut.section (gets (λ u. get_u64 remote_addr_at u.conn.req)) λ addr.
          Cut.section (repost os) λ err.
            if err == 0
            then Cut.section (unmap_private len addr p) (unmap_end p)
            else last (unmap_response os minus_one)

  -- The `switch` of `rpmem_rcv_completion`. A close and a commit touch nothing that is shared.
  unfoldable pub request_cut : ℕ → Cut
  request_cut opcode =
      if opcode == opcode_value Opcode.open_req
      then open_cut
      else if opcode == opcode_value Opcode.close_req
      then last (handle_close os)
      else if opcode == opcode_value Opcode.map_req
      then map_cut
      else if opcode == opcode_value Opcode.unmap_req
      then unmap_cut
      else if opcode == opcode_value Opcode.commit_req
      then last (handle_commit os)
      else Cut.ends 0

  -- `rpmem_handle_wc`
  unfoldable pub wc_cut : Wc → Cut
  wc_cut wc =
      if is_success wc.status && is_recv wc.opcode
      then Cut.section
          (modify (λ u. record u { conn = record (u.conn) { req = wc.bytes } })
            >> gets (λ u. get_u32 opcode_at u.conn.req))
          request_cut
      else Cut.ends 0

-- A unit with its `cq_thread`, what is left of the completion that it handles, and whether the
-- thread has `res_lock`.
pub record Worker : Type 0 where
  pub conn : Conn
  pub res : ℕ
  pub rest : Cut
  pub owns : Bool

abbrev pub member : Worker → Member
member w = record { conn = w.conn; res = w.res }

-- A unit whose thread has not the lock.
abbrev pub resumed : ServerUnit → Cut → Worker
resumed u rest = record { conn = u.conn; res = u.res; rest = rest; owns = false }

-- A worker after a section.
abbrev pub moved : Worker → ServerUnit → Cut → Worker
moved w u rest = record { conn = u.conn; res = u.res; rest = rest; owns = w.owns }

abbrev pub IsIdle : Worker → Type 0
IsIdle w = ((r : ℕ) × (w.rest ≡ Cut.ends r)) × (w.owns ≡ false)

-- How many threads have `res_lock`.
abbrev pub owners : List Worker → ℕ
owners [] = 0
owners (w ∷ ws) = (if w.owns then 1 else 0) + owners ws

pub record Threads : Type 0 where
  pub server : Server
  pub workers : List Worker

-- The server with the worker at its place among the others.
abbrev pub seated : List Worker → List Worker → Server → Worker → Threads
seated before after s w = record { server = s; workers = before ++ w ∷ after }

-- One turn of a thread: a `cq_thread` takes the next completion, or runs the next section of the one
-- that it handles; takes `res_lock`, for which it waits as long as any thread has it, or gives it
-- back; or `cm_thread` runs a round, which shares only the list of connections with them. The calls
-- made before it are any.
pub data Turn (os : Os) : Threads → Threads → Type 0 where
  begins :
      (before after : List Worker) (s : Server) (w : Worker) (a : ℕ) (wc : Wc)
      → w.rest ≡ Cut.ends a
      → Turn os (seated before after s w) (seated before after s (record w { rest = wc_cut os wc }))
  moves :
      (before after : List Worker) (s : Server) (w : Worker) (block : M ServerUnit ℕ)
      (rest : ℕ → Cut) (cs cs' : List Call) (a : ℕ) (u' : ServerUnit)
      → w.rest ≡ Cut.section block rest
      → block (unit_of s (member w)) cs ≡ done a u' cs'
      → Turn os (seated before after s w) (seated before after u'.server (moved w u' (rest a)))
  locks :
      (before after : List Worker) (s : Server) (w : Worker) (rest : Cut)
      → w.rest ≡ Cut.acquire rest
      → owners (before ++ w ∷ after) ≡ 0
      → Turn os
          (seated before after s w)
          (seated before after s (record w { rest = rest; owns = true }))
  unlocks :
      (before after : List Worker) (s : Server) (w : Worker) (rest : Cut)
      → w.rest ≡ Cut.release rest
      → Turn os
          (seated before after s w)
          (seated before after s (record w { rest = rest; owns = false }))
  accepts :
      (ws : List Worker) (s : Server) (blank : Member) (alive : Bool) (cs cs' : List Call)
      (u' : ServerUnit)
      → cm_round os (unit_of s blank) cs ≡ done alive u' cs'
      → Turn os
          (record { server = s; workers = ws })
          (record {
            server = u'.server;
            workers =
                if length u'.server.conns_list == length s.conns_list
                then ws
                else resumed u' (Cut.ends 0) ∷ ws;
          })

pub data Turns (os : Os) (from : Threads) : Threads → Type 0 where
  here : Turns os from from
  next : {to end : Threads} → Turns os from to → Turn os to end → Turns os from end
