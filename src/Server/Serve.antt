-- ===== src/Server/Serve.antt =====
-- The parts of serving a request: reading it off the wire, and sending its response.
use rpmem.Base.{ℕ, ◌≡◌, refl, ap, ◌∙◌, true, List, [], ◌∷◌, if◌then◌else◌, some, none}
use rpmem.Protocol.{
  zeroed-IsCmd, Buf, IsCmd, pack_open_req, pack_close_req, pack_map_req, pack_unmap_req,
  pack_commit_req, get_u32, opcode_only-opcode, short-opcode, long-opcode,
}
use rpmem.Protocol.Spec.{
  Request, Response, Kind, ResponseFits, kind, same_kind, pack_request, pack_response,
  unpack_response,
}
use rpmem.Protocol.RoundTrip.{unpack-pack_response}
use rpmem.Protocol.Frame.{pack_response_frame}
use rpmem.Machine.{Call, Os, Outcome, done, fault, stuck, Ensures, M, ◌>>◌, pure}
use rpmem.Server.{ServerUnit, respond}
use rpmem.Server.Wire.{IsReady, sent, reposted, responded, respond-eq}

-- The calls before the latest.
abbrev pub earlier : List Call → List Call
earlier [] = []
earlier (c ∷ cs) = cs

-- The response of kind `k` that the latest call sends is `r`, and the unit can go on.
pub record Answers (k : Kind) (r : Response) (u : ServerUnit) (cs : List Call) : Type 0 where
  pub response : unpack_response k (sent cs) ≡ some r
  pub ready : IsReady u.conn

-- A response was sent from the state `v`, after the calls `cs`.
abbrev pub Responded : Response → ServerUnit → List Call → ℕ → ServerUnit → List Call → Type 0
Responded r v cs _ u' cs' =
    Answers (kind r) r u' cs' × (u'.server ≡ v.server) × (u'.res ≡ v.res) × (earlier cs' ≡ cs)

-- The opcode of a request.
abbrev pub request_opcode : Request → ℕ
request_opcode Request.opening = 0
request_opcode Request.closing = 2
request_opcode (Request.mapping len) = 4
request_opcode (Request.unmapping len remote_addr) = 6
request_opcode (Request.committing len remote_addr) = 8

pub pack_request-opcode :
    (r : Request) (b : Buf) → IsCmd b → get_u32 0 (pack_request r b) ≡ request_opcode r
unfolding pack_request pack_open_req pack_close_req pack_map_req pack_unmap_req pack_commit_req
pack_request-opcode Request.opening b h = opcode_only-opcode b h 0
pack_request-opcode Request.closing b h = opcode_only-opcode b h 2
pack_request-opcode (Request.mapping len) b h = short-opcode b h 4 len
pack_request-opcode (Request.unmapping len a) b h = long-opcode b h 6 len a
pack_request-opcode (Request.committing len a) b h = long-opcode b h 8 len a

-- The unit has received the request `r`.
pub record Received (r : Request) (u : ServerUnit) : Type 0 where
  pub ready : IsReady u.conn
  pub buffer : Buf
  pub was_cmd : IsCmd buffer
  pub bytes : u.conn.req ≡ pack_request r buffer

pub Received-opcode :
    (r : Request) (u : ServerUnit) → Received r u → get_u32 0 u.conn.req ≡ request_opcode r
Received-opcode r u h = rw h.bytes (pack_request-opcode r h.buffer h.was_cmd)

-- What is asked of the handler is asked of the dispatch, which drops its result.
pub dispatched :
    (Q : ServerUnit → List Call → Type 0) (m : M ServerUnit ℕ) (u : ServerUnit) (cs : List Call)
    → Ensures (λ _ u' cs'. Q u' cs') (m u cs)
    → Ensures (λ _ u' cs'. Q u' cs') ((m >> pure {A = ℕ} 0) u cs)
dispatched Q m u cs = go (m u cs)
  where
    go :
        (r : Outcome ServerUnit ℕ)
        → Ensures (λ _ u' cs'. Q u' cs') r
        → Ensures {A = ℕ}
            (λ _ u' cs'. Q u' cs')
            (elim r [ done a u' cs' ↦ done 0 u' cs' | fault ↦ fault | stuck ↦ stuck ])
    go (done a u' cs') h = h
    go fault h = h
    go stuck h = h

same_kind_refl : (k : Kind) → same_kind k k ≡ true
same_kind_refl Kind.opening = refl
same_kind_refl Kind.closing = refl
same_kind_refl Kind.mapping = refl
same_kind_refl Kind.unmapping = refl
same_kind_refl Kind.committing = refl

unpack_own :
    (r : Response) (b : Buf)
    → IsCmd b
    → ResponseFits r
    → unpack_response (kind r) (pack_response r b) ≡ some r
unpack_own r b h fits =
    unpack-pack_response (kind r) r b h fits
    ∙ ap (λ c. if c then some r else none) (same_kind_refl (kind r))

module _ (os : Os) (u : ServerUnit) (cs : List Call) where
  pub reposted-IsReady : IsReady u.conn → IsReady (reposted u).conn
  reposted-IsReady h = record {
    req_registered = h.req_registered;
    rsp_registered = h.rsp_registered;
    req_cmd = zeroed-IsCmd;
    rsp_cmd = h.rsp_cmd;
  }

  pub responded-IsReady :
      (r : Response) → IsReady u.conn → IsReady (responded (pack_response r) u).conn
  responded-IsReady r h = record {
    req_registered = h.req_registered;
    rsp_registered = h.rsp_registered;
    req_cmd = h.req_cmd;
    rsp_cmd = (pack_response_frame r u.conn.rsp h.rsp_cmd).0;
  }

  -- Sending the response `r` of kind `k`.
  pub respond_answers :
      (r : Response) (ret : ℕ)
      → IsReady u.conn
      → ResponseFits r
      → Ensures (Responded r u cs) (respond os (pack_response r) ret u cs)
  respond_answers r ret h fits = rw (respond-eq os (pack_response r) ret u cs h.rsp_registered) (
    record { response = unpack_own r u.conn.rsp h.rsp_cmd fits; ready = responded-IsReady r h },
    refl,
    refl,
    refl,
  )
