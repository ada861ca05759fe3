-- ===== src/Server/Threads/Quiet.antt =====
-- What a section leaves alone: it keeps the books and who holds what, and stores into no resource but
-- the one that its unit holds.
use mathlib.Core.Path.{subst}
use rpmem.Base.{
  minus_one, [], ◌∷◌, ℕ, ◌≡◌, ◌≢◌, ◌⊎◌, refl, sym, ap, ◌∙◌, inl, inr, Bool, true, false, Bool-cases,
  Option-cases, Option, none, some, ◌==◌, ◌&&◌, arith, List, if◌then◌else◌,
}
use rpmem.Protocol.{Buf, opcode_at, len_at, remote_addr_at, get_u32, get_u64}
use rpmem.Machine.{
  Wc, is_success, is_recv, Call, Os, Outcome, done, gets, Lock, After, After-mono, After-bind,
  After-if, M,
}
use rpmem.Server.State.{Resource, Server, ServerUnit, set_resource, take_resource, return_resource}
use rpmem.Server.Handlers.{
  handle_close, handle_commit, map_refused, map_resource, map_registered, map_response, repost,
  respond, search_pool, unmap_response, commit_response,
}
use rpmem.Server.Pool.{first_fit, search_pool-first_fit}
use rpmem.Server.Keeps.{
  Property, Holds, PoolLaws, Ends, repost_keeps, respond_keeps, handle_close_keeps,
  handle_commit_keeps, map_refused_keeps, map_registered_keeps,
}
use rpmem.Server.Since.{Since, Since-refl, Since-laws}
use rpmem.Server.Threads.{
  Cut, ends, section, last, open_cut, map_cut, search_locked, map_rest, unmap_cut, unmap_private,
  unmap_end, return_locked, request_cut, wc_cut,
}
pub mod Sections

-- A step of a unit from `u` to `u'`: it keeps what is in order, and the resources of others.
pub record Kept (u u' : ServerUnit) : Type 0 where
  pub order : Since u u'.server u'.res
  pub apart : (q : ℕ) → q ≢ u.res → u'.server.heap q ≡ u.server.heap q
  pub sizes : (q : ℕ) → (u'.server.heap q).st_size ≡ (u.server.heap q).st_size

-- What the lock protects: the pool, and with it the sizes, which nobody changes.
pub record View : Type 0 where
  pub pool : List ℕ
  pub sizes : ℕ → ℕ

abbrev pub view_of : Server → View
view_of s = record { pool = s.res_list; sizes = λ q. (s.heap q).st_size }

abbrev pub Agrees : View → Server → Type 0
Agrees v s = (s.res_list ≡ v.pool) × ((q : ℕ) → (s.heap q).st_size ≡ v.sizes q)

-- Section by section, whatever the calls answer, if the unit holds `r` before the first. A thread
-- that has not the lock leaves the pool alone, and takes the lock whatever it protects then; one that
-- has it finds what it protects as its last section has left it, and gives the lock back before its
-- handler ends.
abbrev pub StepsKept : Option View → Cut → ℕ → Type 0
StepsKept none (Cut.ends a) r = Unit
StepsKept none (Cut.section block rest) r =
    (u : ServerUnit) (cs : List Call)
    → u.res ≡ r
    → After
        (λ a u' _.
          Kept u u' × (u'.server.res_list ≡ u.server.res_list) × StepsKept none (rest a) u'.res)
        (block u cs)
StepsKept none (Cut.acquire rest) r = (v : View) → StepsKept (some v) rest r
StepsKept none (Cut.release rest) r = ⊥
StepsKept (some v) (Cut.ends a) r = ⊥
StepsKept (some v) (Cut.section block rest) r =
    (u : ServerUnit) (cs : List Call)
    → u.res ≡ r
    → Agrees v u.server
    → After (λ a u' _. Kept u u' × StepsKept (some (view_of u'.server)) (rest a) u'.res)
        (block u cs)
StepsKept (some v) (Cut.acquire rest) r = ⊥
StepsKept (some v) (Cut.release rest) r = StepsKept none rest r

-- Of a thread that has not the lock.
pub record IsQuiet (cut : Cut) (r : ℕ) : Type 0 where
  pub steps : StepsKept none cut r

-- Of a thread that has the lock.
pub record IsQuietUnder (v : View) (cut : Cut) (r : ℕ) : Type 0 where
  pub steps : StepsKept (some v) cut r

-- A section that leaves the server and the resource of its unit as they are.
abbrev pub Still : ServerUnit → Property
Still u s r = (s ≡ u.server) × (r ≡ u.res)

pub unchanged : (u : ServerUnit) → Kept u u
unchanged u = record { order = Since-refl u; apart = λ q _. refl; sizes = λ q. refl }

pub still-Kept : (u v u' : ServerUnit) → Kept u v → Holds (Still v) u' → Kept u u'
still-Kept u v u' k (server, res) = record {
  order = rw (server, res) k.order;
  apart = λ q other. ap (λ s. s.heap q) server ∙ k.apart q other;
  sizes = λ q. ap (λ (s : Server). (s.heap q).st_size) server ∙ k.sizes q;
}

module _ (r : ℕ) where
  pub still-IsQuiet :
      (block : M ServerUnit ℕ) (rest : ℕ → Cut)
      → ((u : ServerUnit) (cs : List Call) → After (Ends (Still u)) (block u cs))
      → ((a : ℕ) → IsQuiet (rest a) r)
      → IsQuiet (Cut.section block rest) r
  still-IsQuiet block rest still quiet = record {
    steps = λ u cs e.
        After-mono (Ends (Still u)) _ (block u cs)
          (λ a u' cs' (server, res). (
            still-Kept u u u' (unchanged u) (server, res),
            ap (λ (s : Server). s.res_list) server,
            subst (StepsKept none (rest a)) (sym (res ∙ e)) (quiet a).steps,
          ))
          (still u cs);
  }

  pub reads-IsQuiet :
      (f : ServerUnit → ℕ) (rest : ℕ → Cut)
      → ((a : ℕ) → IsQuiet (rest a) r)
      → IsQuiet (Cut.section (gets f) rest) r
  reads-IsQuiet f rest quiet = still-IsQuiet (gets f) rest (λ u cs. (refl, refl)) quiet

  pub last-IsQuiet :
      (block : M ServerUnit ℕ)
      → ((u : ServerUnit) (cs : List Call) → After (Ends (Still u)) (block u cs))
      → IsQuiet (last block) r
  last-IsQuiet block still = still-IsQuiet block Cut.ends still (λ a. record { steps = tt })

  pub if-IsQuiet :
      (c : Bool) (x y : Cut) → IsQuiet x r → IsQuiet y r → IsQuiet (if c then x else y) r
  if-IsQuiet true x y h g = h
  if-IsQuiet false x y h g = g

pub still-After :
    (u v : ServerUnit) (r : Outcome ServerUnit ℕ)
    → Kept u v
    → v.server.res_list ≡ u.server.res_list
    → After (Ends (Still v)) r
    → After (λ a u' _. Kept u u' × (u'.server.res_list ≡ u.server.res_list) × Unit {0}) r
still-After u v r k same h =
    After-mono (Ends (Still v)) _ r
      (λ a u' cs' still.
        (still-Kept u v u' k still, ap (λ (s : Server). s.res_list) still.0 ∙ same, tt))
      h

pub stored-Kept :
    (u : ServerUnit) (p : ℕ) (r : Resource)
    → u.res ≡ p
    → r.st_size ≡ (u.server.heap p).st_size
    → Kept u (set_resource p r u)
stored-Kept u p r own size = record {
  order = (Since-laws u).stored u p r size (unchanged u).order;
  apart = λ q other. ground arith;
  sizes = λ q. ground arith;
}

pub taken-Kept :
    (u : ServerUnit) (len p : ℕ)
    → first_fit u.server.heap len u.server.res_list ≡ some p
    → Kept u (take_resource p u)
taken-Kept u len p found = record {
  order = (Since-laws u).taken u len p found (unchanged u).order;
  apart = λ q other. refl;
  sizes = λ q. refl;
}

pub returned-Kept : (u : ServerUnit) (p : ℕ) → p ≢ 0 → u.res ≡ p → Kept u (return_resource p u)
returned-Kept u p there e = record {
  order =
      subst (λ q. Since u (return_resource q u).server 0) e
        ((Since-laws u).returned u (λ null. there (sym e ∙ null)) (unchanged u).order);
  apart = λ q other. refl;
  sizes = λ q. refl;
}
