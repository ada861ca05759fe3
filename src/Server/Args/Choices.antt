-- ===== src/Server/Args/Choices.antt =====
-- What the server makes of its options.
use rpmem.Base.{
  ℕ, ◌≡◌, ◌≢◌, ◌%◌, refl, ◌∙◌, ap, arith, zero-cases, inl, inr, ne→false, Bool, true, false, List,
  [], ◌∷◌, ◌==◌, ltb, if◌then◌else◌,
}
use rpmem.Machine.{
  within, pure, Call, Os, Ensures, Object, Ensures-mono, Ensures-then, Ensures-within,
}
use rpmem.Server.Start.{start}
use rpmem.Server.Starting.{start_ends}
use rpmem.Server.Args.{Choice, InArgs, Parsed, Program, process_inargs, out, run, main}

-- What an option decides: nothing, or the end of the program with a status.
abbrev decides : Choice → Parsed
decides Choice.help = Parsed.exits 0
decides Choice.invalid = Parsed.exits 1
decides _ = Parsed.goes_on

-- The first option that decides, or that an argument is left over.
abbrev pub verdict : ℕ → ℕ → List Choice → Parsed
verdict argc optind [] = if ltb optind argc then Parsed.exits 1 else Parsed.goes_on
verdict argc optind (c ∷ cs) = elim (decides c) [
  | Parsed.goes_on ↦ verdict argc optind cs
  | Parsed.exits code ↦ Parsed.exits code
]

abbrev pub sets_addr : List Choice → Bool
sets_addr [] = false
sets_addr (Choice.addr ∷ cs) = true
sets_addr (c ∷ cs) = sets_addr cs

abbrev pub sets_resource : List Choice → Bool
sets_resource [] = false
sets_resource (Choice.resource ∷ cs) = true
sets_resource (c ∷ cs) = sets_resource cs

-- `process_inargs` always comes to its end. It goes on if every option is one of the three settings and
-- no argument is left over; the first `help` ends the program with 0, and the first unknown option, or
-- an argument that is left over, with 1. An address and a resource that no option names stay as they
-- were.
pub process_inargs_ends :
    (os : Os) (argc optind : ℕ) (cs : List Choice) (a : InArgs) (ds : List Call)
    → Ensures
        (λ parsed a' _.
          (parsed ≡ verdict argc optind cs)
          × (sets_addr cs ≡ false → a'.server_addr ≡ a.server_addr)
          × (sets_resource cs ≡ false → a'.resource ≡ a.resource))
        (process_inargs os argc optind cs a ds)
unfolding process_inargs
process_inargs_ends os argc optind [] a ds = ground arith
process_inargs_ends os argc optind (Choice.addr ∷ cs) a ds =
    let p = os.reply ds Call.strdup in
    Ensures-mono _ _
      (process_inargs os argc optind cs (record a { server_addr = p }) (Call.strdup ∷ ds))
      (λ parsed a' es (is, addr, res). (is, (λ e. cc), res))
      (process_inargs_ends os argc optind cs (record a { server_addr = p }) (Call.strdup ∷ ds))
process_inargs_ends os argc optind (Choice.port n ∷ cs) a ds =
    process_inargs_ends os argc optind cs (record a { server_port = n % 65536 }) ds
process_inargs_ends os argc optind (Choice.resource ∷ cs) a ds =
    let p = os.reply ds Call.strdup in
    Ensures-mono _ _
      (process_inargs os argc optind cs (record a { resource = p }) (Call.strdup ∷ ds))
      (λ parsed a' es (is, addr, res). (is, addr, (λ e. cc)))
      (process_inargs_ends os argc optind cs (record a { resource = p }) (Call.strdup ∷ ds))
process_inargs_ends os argc optind (Choice.help ∷ cs) a ds = ground arith
process_inargs_ends os argc optind (Choice.invalid ∷ cs) a ds = ground arith

-- The latest calls free the address and, before that, the resource.
abbrev pub FreedLast : ℕ → ℕ → List Call → Type 0
FreedLast resource server_addr (c ∷ d ∷ cs) = (c ≡ Call.free server_addr) × (d ≡ Call.free resource)
FreedLast resource server_addr _ = ⊥

module _ (os : Os) (res : ℕ) (resource server_addr : ℕ) where
  abbrev FailsFreeing : ℕ → Program → List Call → Type 0
  FailsFreeing code p es = code ≢ 0 → FreedLast resource server_addr es

  abbrev Unset : Program → Type 0
  Unset p = (p.inargs.server_addr ≡ server_addr) × (p.inargs.resource ≡ resource)

  leaves :
      (ret : ℕ) (p : Program) (ds : List Call)
      → Unset p
      → Ensures FailsFreeing ((if ret == 0 then pure 0 else out os) p ds)
  unfolding out
  leaves ret p ds (addr, resource) = elim (zero-cases ret) [
    | inl fine ↦ rw fine (λ bad. absurd (bad refl))
    | inr failed ↦
        rw (ne→false ret 0 failed)
          (λ _. (ap (λ a. Call.free a) addr, ap (λ a. Call.free a) resource))
  ]

  starts :
      (p : Program) (ds : List Call)
      → res ≢ 0
      → Unset p
      → Ensures FailsFreeing (run os res Parsed.goes_on p ds)
  unfolding run
  starts p ds there unset =
      Ensures-then (λ _ q _. Unset q) FailsFreeing
        (within (λ p. p.server) (λ s p. record p { server = s }) (start os res)) _ p ds
        (Ensures-within (λ (p : Program). p.server) (λ s p. record p { server = s })
          (λ _ q _. Unset q) (start os res) p ds
          (Ensures-mono _ _ (start os res p.server ds) (λ _ _ _ _. unset)
            (start_ends os Object.pd res p.server ds there)))
        (λ ret q es same. leaves ret q es same)

-- `main` that reads its options to the end, of which none names the address or the resource, always
-- comes to its end, and if it fails it frees the two pointers of its `struct inargs`, which it has
-- never set. The variable of the resource is not at NULL.
pub main_frees_unset :
    (os : Os) (res argc optind : ℕ) (cs : List Choice) (p : Program) (ds : List Call)
    → res ≢ 0
    → verdict argc optind cs ≡ Parsed.goes_on
    → sets_addr cs ≡ false
    → sets_resource cs ≡ false
    → Ensures
        (λ code _ es. code ≢ 0 → FreedLast p.inargs.resource p.inargs.server_addr es)
        (main os res argc optind cs p ds)
unfolding main
main_frees_unset os res argc optind cs p ds there reads no_addr no_resource =
    let Q = FailsFreeing os res p.inargs.resource p.inargs.server_addr in
    let P = λ (parsed : Parsed) (q : Program) (_ : List Call).
      (parsed ≡ Parsed.goes_on) × Unset os res p.inargs.resource p.inargs.server_addr q in
    Ensures-then P Q
      (within (λ p. p.inargs) (λ a p. record p { inargs = a }) (process_inargs os argc optind cs))
      (run os res) p ds
      (Ensures-within (λ (p : Program). p.inargs) (λ a p. record p { inargs = a }) P
        (process_inargs os argc optind cs) p ds
        (Ensures-mono _ _ (process_inargs os argc optind cs p.inargs ds)
          (λ parsed a es (is, addr, resource). (is ∙ reads, (addr no_addr, resource no_resource)))
          (process_inargs_ends os argc optind cs p.inargs ds)))
      (λ parsed q es (goes, unset).
        rw goes (starts os res p.inargs.resource p.inargs.server_addr q es there unset))
