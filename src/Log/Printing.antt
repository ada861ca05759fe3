-- ===== src/Log/Printing.antt =====
-- What the log prints.
use mathlib.Core.List.{append-nil, append_assoc}
use rpmem.Base.{
  ℕ, ◌≡◌, ◌≢◌, refl, sym, ◌∙◌, ap, ne→false, true, false, Bool, ◌&&◌, All, List, [], ◌∷◌, ◌++◌,
  take, ltb, leb, if◌then◌else◌,
}
use rpmem.Machine.{Call, done, fault, pure}
use rpmem.Log.{Level, level_value, percent, printf, vlog, log}

abbrev pub NoDirective : List ℕ → Type 0
NoDirective = All (λ c. c ≢ percent)

printf-plain :
    (text out : List ℕ) (cs : List Call)
    → NoDirective text
    → printf false text out cs ≡ done tt (out ++ text) cs
unfolding printf
printf-plain [] out cs h = ap (λ o. done tt o cs) (sym (append-nil out))
printf-plain (c ∷ text) out cs (plain, rest) = rw (ne→false c percent plain) (
    printf-plain text (out ++ c ∷ []) cs rest
    ∙ ap (λ o. done tt o cs) (append_assoc out (c ∷ []) text))

printf-directive :
    (before after out : List ℕ) (c : ℕ) (cs : List Call)
    → NoDirective before
    → c ≢ percent
    → printf false (before ++ percent ∷ c ∷ after) out cs ≡ fault
unfolding printf
printf-directive [] after out c cs h other = rw (ne→false c percent other) refl
printf-directive (b ∷ before) after out c cs (plain, rest) other =
    rw (ne→false b percent plain) (printf-directive before after (out ++ b ∷ []) c cs rest other)

printed_if :
    (b : Bool) (text out : List ℕ) (cs : List Call)
    → NoDirective (take 2047 text)
    → (if b then vlog text else pure tt) out cs
      ≡ (if b then done tt (out ++ take 2047 text) cs else done tt out cs)
unfolding vlog
printed_if true text out cs h = printf-plain (take 2047 text) out cs h
printed_if false text out cs h = refl

-- A message without `%` among its first 2047 characters is printed up to there if its level is not
-- above the level of logging and is a level at all, and not printed otherwise.
pub log-prints :
    (level logging_level : Level) (text out : List ℕ) (cs : List Call)
    → NoDirective (take 2047 text)
    → log level logging_level text out cs ≡ (
        if ltb (level_value level) 4 && leb (level_value level) (level_value logging_level)
        then done tt (out ++ take 2047 text) cs
        else done tt out cs)
unfolding log
log-prints level logging_level text out cs h =
    printed_if (ltb (level_value level) 4 && leb (level_value level) (level_value logging_level))
      text out cs h

-- A message whose first `%` is followed by another character, both within the first 2047, has no
-- meaning in C if it is printed, although it is only the text of a message.
pub vlog_fault :
    (before after text out : List ℕ) (c : ℕ) (cs : List Call)
    → take 2047 text ≡ before ++ percent ∷ c ∷ after
    → NoDirective before
    → c ≢ percent
    → vlog text out cs ≡ fault
unfolding vlog
vlog_fault before after text out c cs e plain other =
    ap (λ t. printf false t out cs) e ∙ printf-directive before after out c cs plain other
