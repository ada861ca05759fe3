-- ===== src/Examples/Session.antt =====
-- What the example programs share where everything goes well: the open file that they work on, and
-- the close at their end.
use rpmem.Base.{ℕ, suc, ◌≡◌, ◌≢◌, refl, ◌∙◌, ne→false, true, List, [], ◌∷◌}
use rpmem.Protocol.{Buf}
use rpmem.Protocol.Spec.{Response}
use rpmem.Protocol.Carries.{Carries}
use rpmem.Machine.{Lock, Call, Os, M, done, bind-done}
use rpmem.Conn.Address.{is_known, get_addr}
use rpmem.Client.{Library, rpmem_open, rpmem_close}
use rpmem.Client.Posting.{IsOpen}
use rpmem.Client.Waiting.{Arrives}
use rpmem.Client.Connected.{Connects}
use rpmem.Client.Opened.{Begins, Posts, open_waiting, open_calls, begun, begun_calls}
use rpmem.Client.OpenResult.{
  new_file, opening_calls, at_join, join_calls, opened_calls, with_file, with_file-IsOpen,
  rpmem_open-eq,
}
use rpmem.Client.CloseResult.{Closes, closed_library, last_calls, rpmem_close-eq}
use rpmem.Examples.{with_rfile, close_rfile}

-- The address has been found.
abbrev pub located : List Call → List Call
located cs = Call.freeaddrinfo ∷ Call.getaddrinfo ∷ cs

get_addr-found :
    (os : Os) (l : Library) (cs : List Call)
    → os.reply cs Call.getaddrinfo ≡ 0
    → is_known (os.ai_family (Call.getaddrinfo ∷ cs)) ≡ true
    → get_addr os l cs ≡ done 0 l (located cs)
unfolding get_addr
get_addr-found os l cs found known = rw (found, known) refl

-- The address is found and of a known family, nothing that `rpmem_open` calls fails, and the response
-- comes, with a size.
pub record Opens (os : Os) (size : ℕ) (l : Library) (cs : List Call) : Type 0 where
  pub found : os.reply cs Call.getaddrinfo ≡ 0
  pub known : is_known (os.ai_family (Call.getaddrinfo ∷ cs)) ≡ true
  pub allocated : new_file os l (located cs) ≢ 0
  pub begins : Begins os (opening_calls os l (located cs))
  pub connects :
      Connects os
        (begun os (opening_calls os l (located cs)))
        (begun_calls os (opening_calls os l (located cs)))
  pub posts : Posts os (at_join os l (located cs) connects) (join_calls os l (located cs) connects)
  pub bytes : Buf
  pub arrives :
      Arrives os
        (open_waiting os
          (at_join os l (located cs) connects)
          (join_calls os l (located cs) connects))
        (open_calls os (at_join os l (located cs) connects) (join_calls os l (located cs) connects))
        bytes
  pub carried : Carries (Response.opening size) bytes

module _ {os : Os} {size : ℕ} {l : Library} {cs : List Call} (opens : Opens os size l cs) where
  abbrev pub rfile : ℕ
  rfile = new_file os l (located cs)

  -- The library when the file is open, and the calls that it has made.
  abbrev pub opened_library : Library
  opened_library = with_file os l (located cs) opens.connects size opens.bytes

  abbrev pub before_body : List Call
  before_body =
      Call.unlock Lock.file_list_mutex
      ∷ Call.lock Lock.file_list_mutex
      ∷ opened_calls os l (located cs) opens.connects

  pub opened_library-IsOpen : IsOpen opened_library.file
  opened_library-IsOpen = with_file-IsOpen os l (located cs) opens.connects size opens.bytes

  -- A program with its two arguments comes to what it does with the open file.
  pub with_rfile-eq :
      (fuel : ℕ) (body : ℕ → M Library ℕ)
      → with_rfile os (suc (suc (suc (suc fuel)))) 3 body l cs
        ≡ body rfile opened_library before_body
  unfolding with_rfile
  with_rfile-eq fuel body =
      bind-done (get_addr os) _ l cs (get_addr-found os l cs opens.found opens.known)
      ∙ bind-done (rpmem_open os (suc (suc (suc (suc fuel))))) _ l (located cs) (
          rpmem_open-eq os l (located cs) opens.connects fuel size opens.bytes opens.allocated
            opens.begins opens.posts opens.arrives opens.carried)
      ∙ rw (ne→false rfile 0 opens.allocated) refl

-- The calls before the request of a close, which has taken the file off the list.
abbrev pub closing_calls : List Call → List Call
closing_calls cs = Call.unlock Lock.file_list_mutex ∷ Call.lock Lock.file_list_mutex ∷ cs

-- The end of a program whose close is answered.
pub close_rfile-eq :
    (os : Os) (fuel p ret : ℕ) (others : List ℕ) (l : Library) (cs : List Call) (b : Buf)
    → l.file_list ≡ p ∷ others
    → IsOpen l.file
    → Closes os l.file (closing_calls cs) b
    → close_rfile os (suc (suc fuel)) p ret l cs
      ≡ done ret (closed_library os p [] others l cs b) (last_calls os p [] others l cs)
unfolding close_rfile
close_rfile-eq os fuel p ret others l cs b listed ready closes =
    bind-done (rpmem_close os (suc (suc fuel)) p) _ l cs
      (rpmem_close-eq os p [] others l cs fuel b listed tt ready closes)
