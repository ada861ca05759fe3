-- ===== src/Log/Tests.antt =====
-- The theorems on the log, at small messages.
use rpmem.Base.{◌≡◌, arith, [], ◌∷◌, take}
use rpmem.Machine.{done}
use rpmem.Log.{Level, log}
use rpmem.Log.Printing.{log-prints}

log-prints_example : log Level.warn Level.info (104 ∷ 105 ∷ []) [] [] ≡ done tt (104 ∷ 105 ∷ []) []
unfolding take
log-prints_example =
    log-prints Level.warn Level.info (104 ∷ 105 ∷ []) [] []
      ((λ e. omega arith), ((λ e. omega arith), tt))
