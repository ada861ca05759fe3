-- ===== src/Examples.antt =====
-- The example programs, simple_open_close.c, simple_map_unmap.c and simple_commit.c: each opens a
-- connection, does what it shows, and closes it. A program is its exit status; the arguments are
-- their number, since the address and the port go to `getaddrinfo`.
pub mod Sizes
pub mod Runs
pub mod Memory
pub mod Session
pub mod Exits
mod Tests
pub mod Samples
mod OpenTests
use mathlib.Core.Bool.{not}
use rpmem.Base.{ℕ, ◌*◌, Bool, ◌==◌, if◌then◌else◌, u32, sub32, int_ltb, int_div}
use rpmem.Machine.{Os, M, ◌>>=◌, ◌>>◌, pure, gets}
use rpmem.Conn.Address.{get_addr}
use rpmem.Client.{
  File, Library, on_file, rpmem_open, rpmem_close, rpmem_map, rpmem_unmap, rpmem_commit,
}

-- The length that the examples map, from the size of the file: both are ints.
unfoldable pub map_size : ℕ → ℕ
map_size size =
    let kib = int_div size 1024 in if int_ltb 1 kib then u32 (1024 * sub32 kib 1) else 1024

module _ (os : Os) (fuel : ℕ) where
  -- The beginning that the programs share, up to the open file, and what they do with it.
  unfoldable pub with_rfile : ℕ → (ℕ → M Library ℕ) → M Library ℕ
  with_rfile argc body = if not (argc == 3) then pure 1 else (do
    unknown ← get_addr os
    if not (unknown == 0)
        then pure 1
        else (do rfile ← rpmem_open os fuel; if rfile == 0 then pure 1 else body rfile))

  -- The end that they share: `rpmem_close`, and the exit status.
  unfoldable pub close_rfile : ℕ → ℕ → M Library ℕ
  close_rfile rfile ret = do
    failed ← rpmem_close os fuel rfile
    pure (if failed == 0 then ret else 1)

  -- `main` of simple_open_close.c
  unfoldable pub open_close : ℕ → M Library ℕ
  open_close argc = with_rfile argc (λ rfile. close_rfile rfile 0)

  -- `rpmem_unmap`, as the last step before `out`.
  unfoldable pub unmap_rmr : M File ℕ
  unmap_rmr = do ret ← rpmem_unmap os fuel; pure (if ret == 0 then 0 else 1)

  -- `main` of simple_map_unmap.c between open and close.
  unfoldable pub map_then_unmap : M File ℕ
  unfolding unmap_rmr
  map_then_unmap = do
    size ← gets (λ f. f.size)
    mapped ← rpmem_map os fuel (map_size size)
    if mapped then unmap_rmr else pure 1

  -- `main` of simple_map_unmap.c
  unfoldable pub map_unmap : ℕ → M Library ℕ
  map_unmap argc = with_rfile argc (λ rfile. do ret ← on_file map_then_unmap; close_rfile rfile ret)

  -- `main` of simple_commit.c between open and close.
  unfoldable pub map_then_commit : M File ℕ
  unfolding unmap_rmr
  map_then_commit = do
    size ← gets (λ f. f.size)
    mapped ← rpmem_map os fuel (map_size size)
    if mapped
        then (do uncommitted ← rpmem_commit os fuel; if uncommitted == 0 then unmap_rmr else pure 1)
        else pure 1

  -- `main` of simple_commit.c
  unfoldable pub commit : ℕ → M Library ℕ
  commit argc = with_rfile argc (λ rfile. do ret ← on_file map_then_commit; close_rfile rfile ret)
