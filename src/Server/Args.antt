-- ===== src/Server/Args.antt =====
-- The arguments of the server, `process_inargs` and `main` of rpmem_server.c. What `getopt_long` finds
-- on the command line is given: the options in their order, up to its -1, and `optind` behind them.
pub mod Choices
use mathlib.Core.Bool.{not}
use rpmem.Base.{ℕ, ◌%◌, Bool, ◌||◌, List, [], ◌∷◌, ◌==◌, ltb, if◌then◌else◌}
use rpmem.Machine.{Call, Os, M, ◌>>=◌, ◌>>◌, pure, gets, modify, call, call_, within}
use rpmem.Server.State.{Server}
use rpmem.Server.Start.{start}

-- What `getopt_long` returns: an option of the table, of which `port` comes with what `strtol` reads, or
-- anything else.
pub data Choice : Type 0 where
  addr resource help : Choice
  port : ℕ → Choice
  invalid : Choice

-- `struct inargs`, of which the port is not yet in the order of the network. `main` sets none of it.
pub record InArgs : Type 0 where
  pub server_addr : ℕ
  pub server_port : ℕ
  pub resource : ℕ

-- The function returns 0, or ends the program.
pub data Parsed : Type 0 where
  goes_on : Parsed
  exits : ℕ → Parsed

module _ (os : Os) where
  unfoldable pub free_addr : ℕ → M InArgs Parsed
  free_addr code = do
    server_addr ← gets (λ a. a.server_addr)
    if server_addr == 0
        then pure (Parsed.exits code)
        else call_ os (Call.free server_addr) >> pure (Parsed.exits code)

  -- The `while`, and what stands behind it; `argc` and `optind` are the last values.
  unfoldable pub process_inargs : ℕ → ℕ → List Choice → M InArgs Parsed
  unfolding free_addr
  process_inargs argc optind [] = if ltb optind argc then free_addr 1 else pure Parsed.goes_on
  process_inargs argc optind (Choice.addr ∷ cs) = do
    p ← call os Call.strdup
    modify (λ a. record a { server_addr = p })
    process_inargs argc optind cs
  process_inargs argc optind (Choice.port n ∷ cs) = do
    modify (λ a. record a { server_port = n % 65536 })
    process_inargs argc optind cs
  process_inargs argc optind (Choice.resource ∷ cs) = do
    p ← call os Call.strdup
    modify (λ a. record a { resource = p })
    process_inargs argc optind cs
  process_inargs argc optind (Choice.help ∷ cs) = free_addr 0
  process_inargs argc optind (Choice.invalid ∷ cs) = free_addr 1

-- `main`, with its `struct inargs` and its `struct rpmem_server`.
pub record Program : Type 0 where
  pub inargs : InArgs
  pub server : Server

module _ (os : Os) where
  -- `out:` of `main`
  unfoldable pub out : M Program ℕ
  out = do
    p ← gets (λ p. p)
    call_ os (Call.free p.inargs.resource)
    call_ os (Call.free p.inargs.server_addr)
    pure 1

  -- `main`, once the arguments are read, with its `struct rpmem_resource` at `res`.
  unfoldable pub run : ℕ → Parsed → M Program ℕ
  unfolding out
  run res (Parsed.exits code) = pure code
  run res Parsed.goes_on = do
    ret ← within (λ p. p.server) (λ s p. record p { server = s }) (start os res)
    if ret == 0 then pure 0 else out

  -- `main`
  unfoldable pub main : ℕ → ℕ → ℕ → List Choice → M Program ℕ
  unfolding run
  main res argc optind cs = do
    parsed ←
        within (λ p. p.inargs) (λ a p. record p { inargs = a }) (process_inargs os argc optind cs)
    run res parsed
