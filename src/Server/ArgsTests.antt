-- ===== src/Server/ArgsTests.antt =====
-- The theorems on the arguments of the server, at small command lines.
use rpmem.Base.{ℕ, ◌≢◌, refl, arith, List, [], ◌∷◌, minus_one}
use rpmem.Machine.{Call, Os, Ensures}
use rpmem.Server.Args.{Choice, InArgs, Program, main}
use rpmem.Server.Args.Choices.{FreedLast, main_frees_unset}
use rpmem.Server.Samples.{world, answer, server}

-- What the stack happens to hold.
abbrev unset : InArgs
unset = record { server_addr = 111; server_port = 222; resource = 333 }

abbrev program : Program
program = record { inargs = unset; server = server }

abbrev choices : List Choice
choices = Choice.port 8000 ∷ Choice.resource ∷ []

-- The resource cannot be opened.
abbrev closed_answer : Call → ℕ
closed_answer Call.file_open = minus_one
closed_answer c = answer c

abbrev closed_world : Os
closed_world = record world { reply = λ cs c. closed_answer c }

main_frees_unset_example :
    Ensures (λ code _ es. code ≢ 0 → FreedLast 333 111 es) (main closed_world 20 1 1 [] program [])
main_frees_unset_example =
    main_frees_unset closed_world 20 1 1 [] program [] (λ e. omega arith) refl refl refl
