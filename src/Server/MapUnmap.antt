-- ===== src/Server/MapUnmap.antt =====
-- A map request and an unmap request of rpmem_server.c, one after the other.
use mathlib.Core.Path.{subst}
use mathlib.Core.Quot
use rpmem.Base.{ℕ, ◌≡◌, ◌≢◌, ◌<◌, some, List, ◌∷◌, arith, sext, add32, sub32, ap}
use rpmem.Protocol.{Buf}
use rpmem.Protocol.Spec.{Request, Response, RequestFits, ResponseFits}
use rpmem.Machine.{Call, Os, done, Ensures, Ensures-at, Ensures-mono}
use rpmem.Server.{ServerUnit, int_size, map_failed, rcv_completion}
use rpmem.Server.Pool.{first_fit}
use rpmem.Server.Accounts.{count-remove}
use rpmem.Server.Leases.{lease_of}
use rpmem.Server.Serve.{Received}
use rpmem.Server.Requests.{posted}
use rpmem.Server.Mapping.{Mapped, mapped_at, registered_as, rcv_completion-mapping}
use rpmem.Server.Unmapping.{Unmapped, rcv_completion-unmapping}

-- The bytes of the next request have come.
abbrev pub receiving : Buf → ServerUnit → ServerUnit
receiving bytes u = record u { conn = record (u.conn) { req = bytes } }

-- The pool, what the unit holds and the two sizes are the same, but for the order of the pool.
pub record Restored (u u' : ServerUnit) : Type 0 where
  pub lease : lease_of u'.server u'.res ≡ lease_of u.server u.res
  pub free : u'.server.free_size ≡ u.server.free_size
  pub in_use : u'.server.in_use_size ≡ u.server.in_use_size

add32-sub32 : (a b : ℕ) → a < 4294967296 → b < 4294967296 → add32 (sub32 a b) b ≡ a
add32-sub32 a b small fits = omega (arith, small, fits)

sub32-add32 : (a b : ℕ) → a < 4294967296 → b < 4294967296 → sub32 (add32 a b) b ≡ a
sub32-add32 a b small fits = omega (arith, small, fits)

module _ (os : Os) (u : ServerUnit) (cs : List Call) (len p : ℕ) where
  Unmapped-Restored :
      (bytes : Buf) (u' u'' : ServerUnit)
      → u.res ≡ 0
      → u.server.free_size < 4294967296
      → u.server.in_use_size < 4294967296
      → first_fit u.server.heap len u.server.res_list ≡ some p
      → Mapped os u cs len p u'
      → Unmapped 0 (receiving bytes u') u''
      → Restored u u''
  Unmapped-Restored bytes u' u'' null free in_use found mapped (gone, pool, more, less) =
      let size = int_size (u.server.heap p) in
      let same : int_size (u'.server.heap u'.res) ≡ size = rw mapped.held mapped.size in
      record {
        lease =
            rw (gone, null, pool, mapped.held, mapped.pool)
              (ap (λ ps. record { free = ps; held = 0 })
                (Quot.sound (λ a. count-remove u.server.heap len a p u.server.res_list found)));
        free =
            rw (more, same, mapped.free) (add32-sub32 u.server.free_size size free (omega arith));
        in_use =
            rw (less, same, mapped.in_use)
              (sub32-add32 u.server.in_use_size size in_use (omega arith));
      }

  -- A map request on a unit that holds nothing, for which `p` is the first resource of the pool that is
  -- larger than its length and is mapped and registered, with a key and an address that fit their
  -- fields, and then an unmap request, whatever its length and address, whose `munmap` returns 0: if
  -- the receives of both can be posted and the two sizes are patterns of 32 bits, the second is handled
  -- without a fault, and what the unit holds, the pool, up to its order, and the two sizes are then
  -- what they were before the first.
  pub unmapping-mapping :
      (bytes : Buf) (len' addr : ℕ) {a : ℕ} {u' : ServerUnit} {cs' : List Call} (ds : List Call)
      → Received (Request.mapping len) u
      → RequestFits (Request.mapping len)
      → u.res ≡ 0
      → u.server.free_size < 4294967296
      → u.server.in_use_size < 4294967296
      → os.reply cs (posted os u) ≡ 0
      → first_fit u.server.heap len u.server.res_list ≡ some p
      → p ≢ 0
      → mapped_at os u cs len p ≢ map_failed
      → registered_as os u cs len p ≢ 0
      → ResponseFits
          (Response.mapping (os.rkey_of (registered_as os u cs len p)) (mapped_at os u cs len p))
      → rcv_completion os u cs ≡ done a u' cs'
      → Received (Request.unmapping len' addr) (receiving bytes u')
      → RequestFits (Request.unmapping len' addr)
      → os.reply ds (posted os (receiving bytes u')) ≡ 0
      → os.reply
          (Call.ibv_dereg_mr (u'.server.heap u'.res).mr ∷ posted os (receiving bytes u') ∷ ds)
          (Call.munmap addr (sext len'))
        ≡ 0
      → Ensures (λ _ u'' _. Restored u u'') (rcv_completion os (receiving bytes u') ds)
  unmapping-mapping bytes len' addr {a} {u'} {cs'} ds got fits null free in_use ok found there
        mapping registered answer_fits served got' fits' ok' unmaps =
      let (_, mapped) =
        Ensures-at _ (rcv_completion os u cs)
          (rcv_completion-mapping os u cs len p got fits ok found there mapping registered
            answer_fits)
          served in
      Ensures-mono _ _ (rcv_completion os (receiving bytes u') ds)
        (λ _ u'' _ (_, unmapped).
          Unmapped-Restored bytes u' u'' null free in_use found mapped
            (subst (λ ret. Unmapped ret (receiving bytes u') u'') unmaps unmapped))
        (rcv_completion-unmapping os (receiving bytes u') ds len' addr got' fits'
          (λ none. there (omega (arith, none, mapped.held))) ok' (omega (arith, unmaps)))
