-- ===== src/Log.antt =====
-- The log, rpmem_log.h and rpmem_log.c. The state is what has been printed, as character codes; a
-- message is the text that `vsnprintf` makes of a format and its arguments, without its end.
mod Printing
mod Tests
use rpmem.Base.{
  ℕ, zero, suc, ◌+◌, Bool, true, false, ◌&&◌, List, [], ◌∷◌, ◌++◌, take, ◌==◌, ltb, leb,
  if◌then◌else◌,
}
use rpmem.Machine.{M, ◌>>=◌, ◌>>◌, pure, faults, modify}

-- `enum rpmem_log_level`
pub data Level : Type 0 where
  error warn info debug last : Level

abbrev pub level_value : Level → ℕ
level_value Level.error = 0
level_value Level.warn = 1
level_value Level.info = 2
level_value Level.debug = 3
level_value Level.last = 4

abbrev pub percent : ℕ
percent = 37

abbrev emit : ℕ → M (List ℕ) (Unit {0})
emit c = modify (λ out. out ++ c ∷ [])

-- `printf` of a string without further arguments, of which a `%` has been read if the flag says so:
-- `%%` prints one `%`, and any other directive takes an argument that is not there, or ends too early.
unfoldable pub printf : Bool → List ℕ → M (List ℕ) (Unit {0})
printf false [] = pure tt
printf true [] = faults
printf false (c ∷ cs) = if c == percent then printf true cs else emit c >> printf false cs
printf true (c ∷ cs) = if c == percent then emit percent >> printf false cs else faults

-- `rpmem_vlog`: `vsnprintf` into 2048 bytes, the last of which is the end of the string; then the text
-- is the format of a `printf`.
unfoldable pub vlog : List ℕ → M (List ℕ) (Unit {0})
vlog text = printf false (take 2047 text)

-- `rpmem_log`, at the level of the message, with `rpmem_logging_level`.
unfoldable pub log : Level → Level → List ℕ → M (List ℕ) (Unit {0})
log level logging_level text =
    if ltb (level_value level) (level_value Level.last)
      && leb (level_value level) (level_value logging_level)
    then vlog text
    else pure tt
