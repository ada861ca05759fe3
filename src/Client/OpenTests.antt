-- ===== src/Client/OpenTests.antt =====
-- The theorems on opening and closing, at the sample session.
use rpmem.Base.{slice, write}
use rpmem.Protocol.{Buf, get_u32, be_value, put_u32, be32, pack_close_req}
use rpmem.Protocol.Spec.{pack_response}
use rpmem.Machine.{WcOpcode}
use rpmem.Client.{Library, rpmem_close}
use rpmem.Client.CloseResult.{Closes, unlisting, close_waiting, last_calls, rpmem_close_returns}
use rpmem.Client.Samples.{completion, file, file-IsOpen}
use rpmem.Base.{◌≡◌, refl, arith, some, [], ◌∷◌}
use rpmem.Protocol.{zeroed, zeroed-IsCmd}
use rpmem.Protocol.Spec.{Request, Response, Kind, parse_request}
use rpmem.Protocol.RoundTrip.{unpack-pack_response}
use rpmem.Machine.{Ensures}
use rpmem.Client.{FileState, Library, fresh_file, addr_handler, route_handler, rpmem_open}
use rpmem.Client.Stages.{resolve, addr_handler-resolve}
use rpmem.Client.Posting.{IsOpen}
use rpmem.Client.Opened.{open_waiting}
use rpmem.Client.OpenResult.{rpmem_open_returns}
use rpmem.Client.OpenSamples.{
  session_world, library, connects, joined_file, joined_calls, rsp, open-Arrives,
}

-- With the file at 60 in front.
abbrev two_files : Library
two_files = record library { file_list = 60 ∷ 50 ∷ [] }

addr_handler-resolve_example :
    addr_handler session_world fresh_file [] ≡ resolve session_world fresh_file []
addr_handler-resolve_example = addr_handler-resolve session_world fresh_file []

rpmem_open_returns_example :
    (parse_request (open_waiting session_world joined_file joined_calls).conn.req
      ≡ some Request.opening)
    × Ensures
        (λ r l' _.
          (r ≡ 100)
          × (l'.file_list ≡ 100 ∷ 50 ∷ [])
          × (l'.file.state ≡ FileState.established)
          × (l'.file.size ≡ 8192)
          × IsOpen l'.file)
        (rpmem_open session_world 4 library [])
unfolding addr_handler route_handler connects
rpmem_open_returns_example =
    rpmem_open_returns session_world library [] connects 0 8192 rsp (λ e. omega arith)
      (record { channel = λ e. omega arith; named = refl; thread = refl; resolved = refl })
      (record { expects = refl; sends = refl }) open-Arrives
      (unpack-pack_response Kind.opening (Response.opening 8192) zeroed zeroed-IsCmd (omega arith))

-- The sample file is open at 60, in front of another one.
abbrev sample_library : Library
sample_library = record { file_list = 50 ∷ 60 ∷ []; file = file }

abbrev close_rsp : Buf
close_rsp = pack_response (Response.closing 0) zeroed

closes :
    Closes session_world file (unlisting session_world 60 (50 ∷ []) [] sample_library []) close_rsp
unfolding parse_request get_u32 be_value slice pack_close_req put_u32 write be32
closes = record {
  expects = refl;
  sends = refl;
  arrives = record {
    wcs = completion WcOpcode.recv close_rsp ∷ [];
    few = omega arith;
    once = refl;
    brought = refl;
    event = refl;
    for_queue = refl;
    arms = refl;
    polled = refl;
    polls = refl;
    drained = refl;
  };
}

rpmem_close_returns_example :
    (parse_request
        (close_waiting session_world file
          (unlisting session_world 60 (50 ∷ []) [] sample_library [])).conn.req
      ≡ some Request.closing)
    × Ensures
        (λ ret l' ds.
          (ret ≡ 0)
          × (l'.file_list ≡ 50 ∷ [])
          × (ds ≡ last_calls session_world 60 (50 ∷ []) [] sample_library []))
        (rpmem_close session_world 2 60 sample_library [])
rpmem_close_returns_example =
    rpmem_close_returns session_world 60 (50 ∷ []) [] sample_library [] 0 close_rsp refl
      ((λ e. omega arith), tt) file-IsOpen closes
