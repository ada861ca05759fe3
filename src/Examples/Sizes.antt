-- ===== src/Examples/Sizes.antt =====
-- The length that the examples map, against what the server can give.
use rpmem.Base.{
  ℕ, ◌≡◌, ◌<◌, refl, arith, ◌&&◌, ltb, int_ltb, if◌then◌else◌, Bool-cases, inl, inr, List, [], ◌∷◌,
}
use rpmem.Server.{Heap, ServerUnit, int_size, take_resource, search_pool}
use rpmem.Machine.{Call, Os, done}
use rpmem.Examples.{map_size}

map_size-fits :
    (size : ℕ)
    → size < 4294967296
    → int_ltb (map_size size) size ≡ (ltb 1024 size && ltb size 2147483648)
unfolding map_size
map_size-fits size fits = ground arith

int_size-lt : (heap : Heap) (p : ℕ) → int_size (heap p) < 4294967296
int_size-lt heap p = omega arith

-- Where a server has one resource and reports its size, the search for the length that the examples
-- ask for takes the resource and gives it to the unit exactly if the size is above 1024 bytes, as an
-- int, and otherwise finds nothing and leaves the server as it is: a resource of the minimum of 1024
-- bytes is refused.
pub search_pool-map_size :
    (os : Os) (u : ServerUnit) (p : ℕ) (cs : List Call)
    → let size = int_size (u.server.heap p) in
      search_pool os (map_size size) (p ∷ []) u cs ≡ (
        if ltb 1024 size && ltb size 2147483648 then done p (take_resource p u) cs else done 0 u cs)
unfolding search_pool
search_pool-map_size os u p cs =
    let size = int_size (u.server.heap p) in
    rw (map_size-fits size (int_size-lt u.server.heap p))
      (elim (Bool-cases (ltb 1024 size && ltb size 2147483648)) [
        | inl h ↦ rw h refl
        | inr h ↦ rw h refl
      ])
