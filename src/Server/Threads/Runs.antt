-- ===== src/Server/Threads/Runs.antt =====
-- The sections of a completion, one after the other, are the completion.
use rpmem.Base.{
  ℕ, ◌≡◌, refl, Option, none, some, inl, inr, Bool-cases, ◌==◌, List, ◌∷◌, ◌&&◌, sext, sym, ap, ◌∙◌,
  Bool, true, false, if◌then◌else◌,
}
use rpmem.Machine.{
  Lock, is_success, is_recv, Wc, Call, Os, Outcome, done, fault, stuck, M, ◌>>=◌, ◌>>◌, pure,
}
use rpmem.Protocol.{opcode_at, len_at, get_u32}
use rpmem.Server.State.{ServerUnit, return_resource, set_resource}
use rpmem.Server.Handlers.{
  handle_open, handle_close, handle_map, handle_unmap, handle_commit, unmap_resource, unmap_finish,
  unmap_response, repost, respond, search_pool,
}
use rpmem.Server.Pool.{first_fit, searched, search_pool-first_fit}
use rpmem.Server.Threads.Quiet.Sections.{place, find_fit-first_fit}
use rpmem.Server.Events.{rcv_completion, handle_wc}
use rpmem.Server.Threads.{
  Cut, last, run, open_cut, map_cut, find_fit, search_locked, take_locked, map_rest, unmap_cut,
  unmap_private, unmap_end, return_locked, request_cut, wc_cut,
}

bind-pure : {L A : Type 0} (m : M L A) (l : L) (cs : List Call) → (m >>= pure) l cs ≡ m l cs
bind-pure {L} {A} m l cs = go (m l cs)
  where
    go :
        (r : Outcome L A)
        → elim r [ done a l' cs' ↦ pure a l' cs' | fault ↦ fault | stuck ↦ stuck ] ≡ r
    go (done a l' cs') = refl
    go fault = refl
    go stuck = refl

bind_congr :
    {L A B : Type 0} (m : M L A) (f g : A → M L B) (l : L) (cs : List Call)
    → ((a : A) (l' : L) (cs' : List Call) → f a l' cs' ≡ g a l' cs')
    → (m >>= f) l cs ≡ (m >>= g) l cs
bind_congr {L} {A} m f g l cs same = go (m l cs)
  where
    go :
        (r : Outcome L A)
        → elim r [ done a l' cs' ↦ f a l' cs' | fault ↦ fault | stuck ↦ stuck ]
          ≡ elim r [ done a l' cs' ↦ g a l' cs' | fault ↦ fault | stuck ↦ stuck ]
    go (done a l' cs') = same a l' cs'
    go fault = refl
    go stuck = refl

-- A piece that ends in a given way.
abbrev given : {L A : Type 0} → Outcome L A → M L A
given r l cs = r

bind_assoc :
    {L A B C : Type 0} (m : M L A) (f : A → M L B) (g : B → M L C) (l : L) (cs : List Call)
    → ((m >>= f) >>= g) l cs ≡ (m >>= λ a. f a >>= g) l cs
bind_assoc {L} {A} {B} {C} m f g l cs = go (m l cs)
  where
    go : (r : Outcome L A) → ((given r >>= f) >>= g) l cs ≡ (given r >>= λ a. f a >>= g) l cs
    go (done a l' cs') = refl
    go fault = refl
    go stuck = refl

-- A cut computes what a piece of the program computes.
abbrev Computes : Os → Cut → M ServerUnit ℕ → Type 0
Computes os cut m = (u : ServerUnit) (cs : List Call) → run os cut u cs ≡ m u cs

last-Computes : (os : Os) (m : M ServerUnit ℕ) → Computes os (last m) m
unfolding run
last-Computes os m u cs = bind-pure m u cs

-- A test between two ways to go on.
if-Computes :
    (os : Os) (c : Bool) (x y : Cut) (m k : M ServerUnit ℕ)
    → Computes os x m
    → Computes os y k
    → Computes os (if c then x else y) (if c then m else k)
if-Computes os true x y m k h g = h
if-Computes os false x y m k h g = g

module _ (os : Os) where
  open_cut-Computes : Computes os (open_cut os) (handle_open os)
  unfolding open_cut handle_open run
  open_cut-Computes u cs =
      bind_congr (repost os) _ _ u cs (λ err u' cs'. bind-pure (respond os _ _) u' cs')

  take_locked-searched :
      (found : Option ℕ) (u : ServerUnit) (cs : List Call)
      → take_locked os (place found) u cs ≡ searched found u cs
  unfolding take_locked
  take_locked-searched none u cs = refl
  take_locked-searched (some p) u cs = refl

  search_locked-search_pool :
      (len : ℕ) (ps : List ℕ) (u : ServerUnit) (cs : List Call)
      → (find_fit os len ps >>= take_locked os) u cs ≡ search_pool os len ps u cs
  search_locked-search_pool len ps u cs =
      ap (λ r. (given r >>= take_locked os) u cs) (find_fit-first_fit os len ps u cs)
      ∙ take_locked-searched (first_fit u.server.heap len ps) u cs
      ∙ sym (search_pool-first_fit os len ps u cs)

  map_cut-Computes : Computes os (map_cut os) (handle_map os)
  unfolding map_cut handle_map run search_locked map_rest
  map_cut-Computes u cs = bind_congr (repost os) _ _ u cs (λ err u' cs'.
      if-Computes os (err == 0) _ _ _ _
        (λ v ds.
          let ds' = Call.lock Lock.res_lock ∷ ds in
          let rest =
            λ (p : ℕ). run os (Cut.release (last (map_rest os (get_u32 len_at u.conn.req) p))) in
          sym (bind_assoc (find_fit os _ v.server.res_list) (take_locked os) rest v ds')
          ∙ ap (λ r. (given r >>= rest) v ds')
              (search_locked-search_pool (get_u32 len_at u.conn.req) v.server.res_list v ds')
          ∙ bind_congr (search_pool os _ _) rest _ v ds' (λ p v' ds''.
            bind-pure (map_rest os (get_u32 len_at u.conn.req) p) v'
              (Call.unlock Lock.res_lock ∷ ds'')))
        (last-Computes os _) u' cs')

  unmap_end-Computes : (p ret : ℕ) → Computes os (unmap_end os p ret) (unmap_finish os p ret)
  unfolding unmap_end unmap_finish return_locked run
  unmap_end-Computes p ret =
      if-Computes os (ret == 0) _ _ _ _
        (λ u cs.
          bind-pure (unmap_response os 0) (return_resource p u)
            (Call.unlock Lock.res_lock ∷ Call.lock Lock.res_lock ∷ cs))
        (last-Computes os _)

  unmap_cut-Computes : Computes os (unmap_cut os) (handle_unmap os)
  unfolding unmap_cut handle_unmap unmap_private unmap_resource run
  unmap_cut-Computes u cs = bind_congr (repost os) _ _ u cs (λ err u' cs'.
      if-Computes os (err == 0) _ _ _ _ (λ v ds. private (get_u32 len_at u.conn.req) _ u.res v ds)
        (last-Computes os _) u' cs')
    where
      private :
          (len addr p : ℕ)
          → Computes os
              (Cut.section (unmap_private os len addr p) (unmap_end os p))
              (unmap_resource os len addr p)
      private len addr p u cs = elim (Bool-cases (p == 0)) [
        | inl null ↦ rw null refl
        | inr there ↦ rw there (
            unmap_end-Computes p
              (os.reply (Call.ibv_dereg_mr (u.server.heap p).mr ∷ cs) (Call.munmap addr (sext len)))
              (set_resource p (record (u.server.heap p) { map_len = 0; addr = 0 }) u)
              (Call.munmap addr (sext len) ∷ Call.ibv_dereg_mr (u.server.heap p).mr ∷ cs))
      ]

  -- A cut does what a piece does whose value is dropped.
  abbrev Does : Cut → M ServerUnit ℕ → Type 0
  Does cut m =
      (u : ServerUnit) (cs : List Call) → (run os cut >> pure tt) u cs ≡ (m >> pure tt) u cs

  dropped-Does : (cut : Cut) (m : M ServerUnit ℕ) → Computes os cut m → Does cut (m >> pure 0)
  dropped-Does cut m h u cs =
      ap (λ r. (given r >> pure tt) u cs) (h u cs)
      ∙ sym (bind_assoc m (λ _. pure {A = ℕ} 0) (λ _. pure tt) u cs)

  if-Does :
      (c : Bool) (x y : Cut) (m k : M ServerUnit ℕ)
      → Does x m
      → Does y k
      → Does (if c then x else y) (if c then m else k)
  if-Does true x y m k h g = h
  if-Does false x y m k h g = g

  request_cut-Does :
      (u : ServerUnit) (cs : List Call)
      → (run os (request_cut os (get_u32 opcode_at u.conn.req)) >> pure tt) u cs
        ≡ (rcv_completion os >> pure tt) u cs
  unfolding request_cut rcv_completion run
  request_cut-Does u cs =
      let op = get_u32 opcode_at u.conn.req in
      if-Does (op == 0) _ _ _ _ (dropped-Does (open_cut os) (handle_open os) open_cut-Computes)
        (if-Does (op == 2) _ _ _ _
          (dropped-Does (last (handle_close os)) (handle_close os)
            (last-Computes os (handle_close os)))
          (if-Does (op == 4) _ _ _ _ (dropped-Does (map_cut os) (handle_map os) map_cut-Computes) (
            if-Does (op == 6) _ _ _ _
              (dropped-Does (unmap_cut os) (handle_unmap os) unmap_cut-Computes)
              (if-Does (op == 8) _ _ _ _
                (dropped-Does (last (handle_commit os)) (handle_commit os)
                  (last-Computes os (handle_commit os)))
                nothing))))
        u cs
    where
      nothing : Does (Cut.ends 0) (pure 0)
      nothing u cs = refl

-- The sections of a completion, one after the other and with no other thread in between, do what
-- `rpmem_handle_wc` does with it.
run-wc_cut :
    (os : Os) (wc : Wc) (u : ServerUnit) (cs : List Call)
    → (run os (wc_cut os wc) >> pure tt) u cs ≡ handle_wc os wc u cs
unfolding wc_cut handle_wc run
run-wc_cut os wc u cs = elim (Bool-cases (is_success wc.status && is_recv wc.opcode)) [
  | inl taken ↦
      rw taken (request_cut-Does os (record u { conn = record (u.conn) { req = wc.bytes } }) cs)
  | inr other ↦ rw other refl
]
