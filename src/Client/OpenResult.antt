-- ===== src/Client/OpenResult.antt =====
-- `rpmem_open` from its first call to its result, where everything goes well.
use rpmem.Base.{ℕ, suc, ◌≡◌, ◌≢◌, refl, ◌∙◌, ne→false, some, List, ◌∷◌}
use rpmem.Protocol.{Buf, zeroed-IsCmd}
use rpmem.Protocol.Spec.{Request, Response, parse_request}
use rpmem.Protocol.Carries.{Carries}
use rpmem.Machine.{Lock, Call, Os, done, bind-done, within-done, Ensures, Ensures-done}
use rpmem.Client.{FileState, File, Library, fresh_file, open_file, rpmem_open, on_file}
use rpmem.Client.Posting.{IsOpen}
use rpmem.Client.Waiting.{Arrives, after_round}
use rpmem.Client.Opened.{
  Begins, Posts, open_waiting, open_calls, sized, open_request-parsed, open_waiting-IsCmd, begun,
  begun_calls, joined, joined_calls, open_file-eq,
}
use rpmem.Client.Connected.{Connects, established-IsOpen}

module _ (os : Os) (l : Library) (cs : List Call) where
  abbrev pub new_file : ℕ
  new_file = os.reply cs Call.calloc_struct

  abbrev pub opening_calls : List Call
  opening_calls = Call.calloc_struct ∷ cs

  module _ (h : Connects os (begun os opening_calls) (begun_calls os opening_calls)) where
    abbrev pub at_join : File
    at_join = joined os opening_calls h

    abbrev pub join_calls : List Call
    join_calls = joined_calls os opening_calls h

    abbrev pub opened_calls : List Call
    opened_calls =
        after_round os (open_waiting os at_join join_calls) (open_calls os at_join join_calls)

    -- The list of files, and the file, when the call returns.
    abbrev pub with_file : ℕ → Buf → Library
    with_file size b = record l {
      file_list = new_file ∷ l.file_list;
      file = sized os at_join join_calls size b;
    }

    pub rpmem_open-eq :
        (fuel size : ℕ) (b : Buf)
        → new_file ≢ 0
        → Begins os opening_calls
        → Posts os at_join join_calls
        → Arrives os (open_waiting os at_join join_calls) (open_calls os at_join join_calls) b
        → Carries (Response.opening size) b
        → rpmem_open os (suc (suc (suc (suc fuel)))) l cs
          ≡ done new_file
              (with_file size b)
              (Call.unlock Lock.file_list_mutex ∷ Call.lock Lock.file_list_mutex ∷ opened_calls)
    unfolding rpmem_open
    rpmem_open-eq fuel size b there begins posts arrives carried =
        let blank : Library = record l { file = fresh_file } in
        rw (ne→false new_file 0 there) (
          bind-done (on_file (open_file os (suc (suc (suc (suc fuel)))) new_file)) _ blank
            opening_calls
            (within-done (λ (l : Library). l.file) (λ f l. record l { file = f })
              (open_file os (suc (suc (suc (suc fuel)))) new_file) blank opening_calls
              (open_file-eq os opening_calls h fuel new_file size b begins posts arrives carried))
          ∙ rw (ne→false new_file 0 there) refl)

    pub with_file-IsOpen : (size : ℕ) (b : Buf) → IsOpen (with_file size b).file
    with_file-IsOpen size b =
        let ready = established-IsOpen os h refl zeroed-IsCmd refl in
        record {
          req_registered = ready.req_registered;
          rsp_registered = ready.rsp_registered;
          req_cmd = open_waiting-IsCmd os at_join join_calls ready.req_cmd;
          idle = refl;
        }

    -- An open returns the new file, which is at the head of the list of files, established and ready
    -- for calls, with the size that the response carries. The request that it sends is parsed as an
    -- open request. It needs that nothing it calls fails: the file is allocated, the event channel,
    -- the id and the thread are made, the address is resolved, the three events of the connection
    -- come and their handlers return 0, receive and request are posted, and the response comes.
    pub rpmem_open_returns :
        (fuel size : ℕ) (b : Buf)
        → new_file ≢ 0
        → Begins os opening_calls
        → Posts os at_join join_calls
        → Arrives os (open_waiting os at_join join_calls) (open_calls os at_join join_calls) b
        → Carries (Response.opening size) b
        → (parse_request (open_waiting os at_join join_calls).conn.req ≡ some Request.opening)
          × Ensures
              (λ r l' _.
                (r ≡ new_file)
                × (l'.file_list ≡ new_file ∷ l.file_list)
                × (l'.file.state ≡ FileState.established)
                × (l'.file.size ≡ size)
                × IsOpen l'.file)
              (rpmem_open os (suc (suc (suc (suc fuel)))) l cs)
    rpmem_open_returns fuel size b there begins posts arrives carried =
        let ready = established-IsOpen os h refl zeroed-IsCmd refl in
        (
          open_request-parsed os at_join join_calls ready.req_cmd,
          Ensures-done _ (rpmem_open os (suc (suc (suc (suc fuel)))) l cs)
              (rpmem_open-eq fuel size b there begins posts arrives carried)
              (refl, refl, refl, refl, with_file-IsOpen size b),
        )
