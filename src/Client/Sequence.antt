-- ===== src/Client/Sequence.antt =====
-- The three calls on an open file where everything goes well, one behind the other: what each needs
-- of the world is a record, and the file that it leaves is open again.
use rpmem.Base.{ℕ, suc, ◌≡◌, ◌≢◌, refl, true, List, ◌∷◌, u32}
use rpmem.Protocol.{Buf}
use rpmem.Protocol.Spec.{Request, Response, pack_request}
use rpmem.Protocol.Frame.{pack_request_frame}
use rpmem.Protocol.Carries.{Carries}
use rpmem.Machine.{Call, Os, done}
use rpmem.Client.{File, rpmem_map, rpmem_unmap, rpmem_commit}
use rpmem.Client.Posting.{IsOpen}
use rpmem.Client.Waiting.{Arrives, delivered, after_round}
use rpmem.Client.Mapping.{
  allocate, local_addr, register, local_mr, map_expects, map_sends, map_waiting, map_calls,
  map_reading, map_reads, map_read_calls, rpmem_map-eq,
}
use rpmem.Client.Committing.{
  commit_expects, commit_writes, commit_sends, commit_waiting, commit_calls, rpmem_commit-eq,
}
use rpmem.Client.Unmapping.{
  unmap_expects, unmap_sends, unmap_waiting, unmap_calls, unmap_left, unmap_last, rpmem_unmap-eq,
}

-- The memory of a map is allocated and registered, its work requests are posted, and its response and
-- its read complete.
pub record Maps (os : Os) (len : ℕ) (f : File) (cs : List Call) : Type 0 where
  pub rkey : ℕ
  pub remote : ℕ
  pub bytes : Buf
  pub last_bytes : Buf
  pub allocated : local_addr os len f cs ≢ 0
  pub registered : local_mr os len f cs ≢ 0
  pub expects :
      os.reply (register os len f cs ∷ allocate os len f cs ∷ cs) (map_expects os len f cs) ≡ 0
  pub sends :
      os.reply
        (map_expects os len f cs ∷ register os len f cs ∷ allocate os len f cs ∷ cs)
        (map_sends os len f cs)
      ≡ 0
  pub arrives : Arrives os (map_waiting os len f cs) (map_calls os len f cs) bytes
  pub carried : Carries (Response.mapping rkey remote) bytes
  pub reads :
      os.reply
        (after_round os (map_waiting os len f cs) (map_calls os len f cs))
        (map_reads os len f cs rkey remote bytes)
      ≡ 0
  pub read :
      Arrives os
        (map_reading os len f cs rkey remote bytes)
        (map_read_calls os len f cs rkey remote bytes)
        last_bytes

module _ {os : Os} {len : ℕ} {f : File} {cs : List Call} (maps : Maps os len f cs) where
  -- The file with its memory, and the calls made.
  abbrev pub mapped_file : File
  mapped_file =
      delivered os (map_reading os len f cs maps.rkey maps.remote maps.bytes)
        (map_read_calls os len f cs maps.rkey maps.remote maps.bytes) maps.last_bytes

  abbrev pub mapped_calls : List Call
  mapped_calls =
      after_round os (map_reading os len f cs maps.rkey maps.remote maps.bytes)
        (map_read_calls os len f cs maps.rkey maps.remote maps.bytes)

  pub rpmem_map-run :
      (fuel : ℕ)
      → IsOpen f
      → rpmem_map os (suc (suc fuel)) len f cs ≡ done true mapped_file mapped_calls
  rpmem_map-run fuel ready =
      rpmem_map-eq os len f cs maps.rkey maps.remote maps.bytes fuel maps.last_bytes ready
        maps.allocated maps.registered maps.expects maps.sends maps.arrives maps.carried maps.reads
        maps.read

  pub mapped_file-IsOpen : IsOpen f → IsOpen mapped_file
  unfolding pack_request
  mapped_file-IsOpen ready = record {
    req_registered = ready.req_registered;
    rsp_registered = ready.rsp_registered;
    req_cmd = (pack_request_frame (Request.mapping (u32 len)) f.conn.req ready.req_cmd).0;
    idle = refl;
  }

-- The work requests of a commit are posted, and its response comes.
pub record Commits (os : Os) (ret : ℕ) (f : File) (cs : List Call) : Type 0 where
  pub bytes : Buf
  pub expects : os.reply cs (commit_expects os f cs) ≡ 0
  pub writes : os.reply (commit_expects os f cs ∷ cs) (commit_writes os f cs) ≡ 0
  pub sends :
      os.reply (commit_writes os f cs ∷ commit_expects os f cs ∷ cs) (commit_sends os f cs) ≡ 0
  pub arrives : Arrives os (commit_waiting os f cs) (commit_calls os f cs) bytes
  pub carried : Carries (Response.committing ret) bytes

module _ {os : Os} {ret : ℕ} {f : File} {cs : List Call} (commits : Commits os ret f cs) where
  abbrev pub committed_file : File
  committed_file = delivered os (commit_waiting os f cs) (commit_calls os f cs) commits.bytes

  abbrev pub committed_calls : List Call
  committed_calls = after_round os (commit_waiting os f cs) (commit_calls os f cs)

  pub rpmem_commit-run :
      (fuel : ℕ)
      → IsOpen f
      → f.mr ≢ 0
      → rpmem_commit os (suc (suc fuel)) f cs ≡ done ret committed_file committed_calls
  rpmem_commit-run fuel ready mapped =
      rpmem_commit-eq os f cs fuel ret commits.bytes ready mapped commits.expects commits.writes
        commits.sends commits.arrives commits.carried

  pub committed_file-IsOpen : IsOpen f → IsOpen committed_file
  unfolding pack_request
  committed_file-IsOpen ready = record {
    req_registered = ready.req_registered;
    rsp_registered = ready.rsp_registered;
    req_cmd =
        (pack_request_frame (Request.committing (u32 f.len) f.remote_addr) f.conn.req
          ready.req_cmd).0;
    idle = refl;
  }

-- The work requests of an unmap are posted, and its response comes.
pub record Unmaps (os : Os) (ret : ℕ) (f : File) (cs : List Call) : Type 0 where
  pub bytes : Buf
  pub expects : os.reply cs (unmap_expects os f cs) ≡ 0
  pub sends : os.reply (unmap_expects os f cs ∷ cs) (unmap_sends os f cs) ≡ 0
  pub arrives : Arrives os (unmap_waiting os f cs) (unmap_calls os f cs) bytes
  pub carried : Carries (Response.unmapping ret) bytes

module _ {os : Os} {ret : ℕ} {f : File} {cs : List Call} (unmaps : Unmaps os ret f cs) where
  abbrev pub unmapped_file : File
  unmapped_file = unmap_left os f cs unmaps.bytes

  pub rpmem_unmap-run :
      (fuel : ℕ)
      → IsOpen f
      → rpmem_unmap os (suc (suc fuel)) f cs ≡ done ret unmapped_file (unmap_last os f cs)
  rpmem_unmap-run fuel ready =
      rpmem_unmap-eq os f cs fuel ret unmaps.bytes ready unmaps.expects unmaps.sends unmaps.arrives
        unmaps.carried

  pub unmapped_file-IsOpen : IsOpen f → IsOpen unmapped_file
  unfolding pack_request
  unmapped_file-IsOpen ready = record {
    req_registered = ready.req_registered;
    rsp_registered = ready.rsp_registered;
    req_cmd =
        (pack_request_frame (Request.unmapping (u32 f.len) f.remote_addr) f.conn.req
          ready.req_cmd).0;
    idle = refl;
  }
