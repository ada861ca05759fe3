-- ===== src/Client/Files.antt =====
-- The list of open files: what `rpmem_open` puts in it and `rpmem_close` takes out.
use mathlib.Core.Bool.{not}
use mathlib.Core.Path.{subst}
use rpmem.Base.{
  ℕ, ◌≡◌, ◌≢◌, ◌⊎◌, inl, inr, refl, sym, arith, ne→false, eq→true, zero-cases, ◌==◌, All, List, [],
  ◌∷◌, ◌++◌,
}
use rpmem.Protocol.{pack_open_req, unpack_open_rsp}
use rpmem.Machine.{
  Object, Lock, Thread, Call, Os, done, fault, bind-done, bind-fault, After, After-mono, After-bind,
  After-if, After-within, After-trivial,
}
use rpmem.Client.OpenFile.{inits}
use rpmem.Client.Closing.{close_file_destroys}
use rpmem.Client.{
  File, Library, fresh_file, expect_rsp, send_req, wait_connect, wait_command, is_established,
  on_file, slist_remove, destroy_rfile, destroy_event_channel, destroy_id, destroy_thread, opened,
  ask_open, connect, open_file, rpmem_open, close_file, rpmem_close,
}

slist_remove-member :
    (p : ℕ) (before after : List ℕ) (l : Library) (cs : List Call)
    → All (λ q. q ≢ p) before
    → slist_remove p (before ++ p ∷ after) l cs ≡ done (before ++ after) l cs
unfolding slist_remove
slist_remove-member p [] after l cs h = rw (eq→true p p refl) refl
slist_remove-member p (q ∷ before) after l cs (other, others) = rw (ne→false q p other) (
    bind-done (slist_remove p (before ++ p ∷ after)) _ l cs
      (slist_remove-member p before after l cs others))

slist_remove-stranger :
    (p : ℕ) (files : List ℕ) (l : Library) (cs : List Call)
    → All (λ q. q ≢ p) files
    → slist_remove p files l cs ≡ fault
unfolding slist_remove
slist_remove-stranger p [] l cs h = refl
slist_remove-stranger p (q ∷ files) l cs (other, others) =
    rw (ne→false q p other)
      (bind-fault (slist_remove p files) _ l cs (slist_remove-stranger p files l cs others))

-- A pointer that is NULL or `p`.
abbrev NullOr : ℕ → ℕ → File → List Call → Type 0
NullOr p r f cs = (r ≡ 0) ⊎ (r ≡ p)

module _ (os : Os) (fuel p : ℕ) where
  ask_open-NullOr : (f : File) (cs : List Call) → After (NullOr p) (ask_open os fuel p f cs)
  unfolding ask_open opened destroy_thread
  ask_open-NullOr f cs =
      After-bind (λ _ _ _. Unit) (NullOr p) (expect_rsp os) _ f cs
        (After-trivial (expect_rsp os f cs))
        (λ unposted g ds _.
          After-if (NullOr p) (unposted == 0) _ _ g ds
            (After-bind (λ _ _ _. Unit) (NullOr p) (send_req os pack_open_req) _ g ds
              (After-trivial (send_req os pack_open_req g ds))
              (λ unsent g1 ds1 _.
                After-if (NullOr p) (unsent == 0) _ _ g1 ds1
                  (After-bind (λ _ _ _. Unit) (NullOr p) (wait_command os fuel) _ g1 ds1
                    (After-trivial (wait_command os fuel g1 ds1))
                    (λ _ g2 ds2 _.
                      After-if (NullOr p) ((unpack_open_rsp g2.conn.rsp g2.size).0 == 0) _ _ _ ds2
                        (inr refl) (inl refl)))
                  (inl refl)))
            (inl refl))

  connect-NullOr : (f : File) (cs : List Call) → After (NullOr p) (connect os fuel p f cs)
  unfolding connect destroy_thread
  connect-NullOr f cs =
      let resolve = Call.rdma_resolve_addr f.conn.cma_id in
      After-if (NullOr p) (os.reply cs resolve == 0) _ _ f (resolve ∷ cs)
        (After-bind (λ _ _ _. Unit) (NullOr p) (wait_connect os fuel) _ f (resolve ∷ cs)
          (After-trivial (wait_connect os fuel f (resolve ∷ cs)))
          (λ _ g ds _.
            After-if (NullOr p) (is_established g.state) _ _ g _ (ask_open-NullOr g _) (inl refl)))
        (inl refl)

  open_file-NullOr : (f : File) (cs : List Call) → After (NullOr p) (open_file os fuel p f cs)
  unfolding open_file destroy_rfile destroy_event_channel destroy_id
  open_file-NullOr f cs =
      let create = Call.rdma_create_event_channel in
      let channel = os.reply (inits cs) create in
      let name = Call.rdma_create_id channel in
      let start = Call.thread_create Thread.cm_thread in
      After-if (NullOr p) (channel == 0) _ _ _ (create ∷ inits cs) (inl refl) (
        After-if (NullOr p) (not (os.reply (create ∷ inits cs) name == 0)) _ _ _ _ (inl refl) (
          After-if (NullOr p) (not (os.reply (name ∷ create ∷ inits cs) start == 0)) _ _ _ _
            (inl refl) (connect-NullOr _ _)))

-- What `rpmem_open` does to the list of files.
abbrev pub Listed : List ℕ → ℕ → Library → List Call → Type 0
Listed files r l cs = ((r ≡ 0) × (l.file_list ≡ files)) ⊎ ((r ≢ 0) × (l.file_list ≡ r ∷ files))

-- However `rpmem_open` comes to its end: if it returns NULL the list of files is as before, and if it
-- returns a file, the file is put at the head of the list.
pub rpmem_open-Listed :
    (os : Os) (fuel : ℕ) (l : Library) (cs : List Call)
    → After (Listed l.file_list) (rpmem_open os fuel l cs)
unfolding rpmem_open
rpmem_open-Listed os fuel l cs =
    let p = os.reply cs Call.calloc_struct in
    let Q = Listed l.file_list in
    let calls = Call.calloc_struct ∷ cs in
    let blank : Library = record l { file = fresh_file } in
    let P = λ (r : ℕ) (l' : Library) (_ : List Call).
      ((r ≡ 0) ⊎ (r ≡ p)) × (l'.file_list ≡ l.file_list) in
    elim (zero-cases p) [
      | inl null ↦ rw null (inl (refl, refl))
      | inr there ↦ rw (ne→false p 0 there) (
          After-bind P Q (on_file (open_file os fuel p)) _ blank calls
            (After-within (λ (l : Library). l.file) (λ f l. record l { file = f }) P
              (open_file os fuel p) blank calls
              (After-mono (NullOr p) _ (open_file os fuel p fresh_file calls)
                (λ r f ds h. (h, refl)) (open_file-NullOr os fuel p fresh_file calls)))
            (λ r l' ds (which, same). elim (zero-cases r) [
              | inl failed ↦ rw failed (inl (refl, same))
              | inr given ↦ ground (arith, which, same, given)
            ]))
    ]

abbrev pub listing : List ℕ → Library → Library
listing files l = record l { file_list = files }

pub rpmem_close-run :
    (os : Os) (fuel p : ℕ) (before after : List ℕ) (l : Library) (cs : List Call)
    → All (λ q. q ≢ p) before
    → rpmem_close os fuel p (listing (before ++ p ∷ after) l) cs
      ≡ on_file
          (close_file os fuel p)
          (listing (before ++ after) l)
          (Call.unlock Lock.file_list_mutex ∷ Call.lock Lock.file_list_mutex ∷ cs)
unfolding rpmem_close
rpmem_close-run os fuel p before after l cs others =
    let calls = Call.lock Lock.file_list_mutex ∷ cs in
    bind-done (slist_remove p (before ++ p ∷ after)) _ (listing (before ++ p ∷ after) l) calls
      (slist_remove-member p before after (listing (before ++ p ∷ after) l) calls others)

-- `rpmem_close` of a file that is on the list, and not earlier on it, returns 0 if it comes to its
-- end, and takes the file off the list.
pub rpmem_close-list :
    (os : Os) (fuel p : ℕ) (before after : List ℕ) (l : Library) (cs : List Call)
    → l.file_list ≡ before ++ p ∷ after
    → All (λ q. q ≢ p) before
    → After (λ ret l' _. (ret ≡ 0) × (l'.file_list ≡ before ++ after)) (rpmem_close os fuel p l cs)
rpmem_close-list os fuel p before after l cs listed others =
    let Q =
      λ (ret : ℕ) (l' : Library) (_ : List Call). (ret ≡ 0) × (l'.file_list ≡ before ++ after) in
    let calls = Call.unlock Lock.file_list_mutex ∷ Call.lock Lock.file_list_mutex ∷ cs in
    rw listed (
      subst (λ r. After Q r) (sym (rpmem_close-run os fuel p before after l cs others))
        (After-within (λ (l : Library). l.file) (λ f l. record l { file = f }) Q
          (close_file os fuel p) (listing (before ++ after) l) calls
          (After-mono _ _ (close_file os fuel p l.file calls)
            (λ ret f ds (zero_ret, _). (zero_ret, refl))
            (close_file_destroys os fuel p Object.mr l.file calls))))

-- `rpmem_close` of a file that is not on the list reads through NULL.
pub rpmem_close-stranger :
    (os : Os) (fuel p : ℕ) (l : Library) (cs : List Call)
    → All (λ q. q ≢ p) l.file_list
    → rpmem_close os fuel p l cs ≡ fault
unfolding rpmem_close
rpmem_close-stranger os fuel p l cs others =
    bind-fault (slist_remove p l.file_list) _ l (Call.lock Lock.file_list_mutex ∷ cs)
      (slist_remove-stranger p l.file_list l (Call.lock Lock.file_list_mutex ∷ cs) others)
