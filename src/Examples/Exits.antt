-- ===== src/Examples/Exits.antt =====
-- The example programs from their start to their exit, where everything goes well.
use rpmem.Base.{ℕ, suc, ◌≡◌, refl, ◌∙◌, List}
use rpmem.Protocol.{Buf}
use rpmem.Machine.{
  Call, Os, M, ◌>>=◌, done, bind-done, within-done, Ensures-bind, Ensures, Ensures-done,
}
use rpmem.Client.{File, Library, rpmem_map, rpmem_unmap, rpmem_commit, on_file}
use rpmem.Client.Posting.{IsOpen}
use rpmem.Client.CloseResult.{Closes}
use rpmem.Client.Unmapping.{unmap_last}
use rpmem.Client.Sequence.{
  Maps, mapped_file, mapped_calls, rpmem_map-run, mapped_file-IsOpen, Commits, committed_file,
  committed_calls, rpmem_commit-run, committed_file-IsOpen, Unmaps, unmapped_file, rpmem_unmap-run,
  unmapped_file-IsOpen,
}
use rpmem.Examples.{
  map_size, close_rfile, open_close, unmap_rmr, map_then_unmap, map_unmap, map_then_commit, commit,
}
use rpmem.Examples.Session.{
  closing_calls, Opens, rfile, opened_library, opened_library-IsOpen, before_body, with_rfile-eq,
  close_rfile-eq,
}

module _ (os : Os) (fuel : ℕ) (f : File) (cs : List Call) (ready : IsOpen f) where
  unmap_rmr-eq :
      (unmaps : Unmaps os 0 f cs)
      → unmap_rmr os (suc (suc fuel)) f cs ≡ done 0 (unmapped_file unmaps) (unmap_last os f cs)
  unfolding unmap_rmr
  unmap_rmr-eq unmaps =
      bind-done (rpmem_unmap os (suc (suc fuel))) _ f cs (rpmem_unmap-run unmaps fuel ready)

module _ (os : Os) (fuel : ℕ) (f : File) (cs : List Call) (ready : IsOpen f)
    (maps : Maps os (map_size f.size) f cs) where
  map_then_unmap-eq :
      (unmaps : Unmaps os 0 (mapped_file maps) (mapped_calls maps))
      → map_then_unmap os (suc (suc fuel)) f cs
        ≡ done 0 (unmapped_file unmaps) (unmap_last os (mapped_file maps) (mapped_calls maps))
  unfolding map_then_unmap
  map_then_unmap-eq unmaps =
      bind-done (rpmem_map os (suc (suc fuel)) (map_size f.size)) _ f cs
        (rpmem_map-run maps fuel ready)
      ∙ unmap_rmr-eq os fuel (mapped_file maps) (mapped_calls maps) (mapped_file-IsOpen maps ready)
          unmaps

  map_then_commit-eq :
      (commits : Commits os 0 (mapped_file maps) (mapped_calls maps))
      (unmaps : Unmaps os 0 (committed_file commits) (committed_calls commits))
      → map_then_commit os (suc (suc fuel)) f cs
        ≡ done 0
            (unmapped_file unmaps)
            (unmap_last os (committed_file commits) (committed_calls commits))
  unfolding map_then_commit
  map_then_commit-eq commits unmaps =
      let mapped = mapped_file-IsOpen maps ready in
      bind-done (rpmem_map os (suc (suc fuel)) (map_size f.size)) _ f cs
        (rpmem_map-run maps fuel ready)
      ∙ bind-done (rpmem_commit os (suc (suc fuel))) _ (mapped_file maps) (mapped_calls maps)
          (rpmem_commit-run commits fuel mapped maps.registered)
      ∙ unmap_rmr-eq os fuel (committed_file commits) (committed_calls commits)
          (committed_file-IsOpen commits mapped) unmaps

module _ {os : Os} {size : ℕ} {l : Library} {cs : List Call} (opens : Opens os size l cs) where
  -- A program ends with 0, and the list of open files is as it was.
  abbrev Succeeds : ℕ → Library → List Call → Type 0
  Succeeds code l' _ = (code ≡ 0) × (l'.file_list ≡ l.file_list)

  closed-Succeeds :
      (fuel : ℕ) (f : File) (ds : List Call) (b : Buf)
      → IsOpen f
      → Closes os f (closing_calls ds) b
      → Ensures Succeeds (
          close_rfile os
            (suc (suc fuel))
            (rfile opens)
            0
            (record (opened_library opens) { file = f })
            ds)
  closed-Succeeds fuel f ds b ready closes =
      let worked : Library = record (opened_library opens) { file = f } in
      Ensures-done Succeeds (close_rfile os (suc (suc fuel)) (rfile opens) 0 worked ds)
        (close_rfile-eq os fuel (rfile opens) 0 l.file_list worked ds b refl ready closes)
        (refl, refl)

  -- What a program does with the open file, and the close behind it.
  worked-Succeeds :
      (fuel : ℕ) (body : M File ℕ) (f : File) (ds : List Call) (b : Buf)
      → body (opened_library opens).file (before_body opens) ≡ done 0 f ds
      → IsOpen f
      → Closes os f (closing_calls ds) b
      → Ensures Succeeds (
          (on_file body >>= close_rfile os (suc (suc fuel)) (rfile opens))
            (opened_library opens)
            (before_body opens))
  worked-Succeeds fuel body f ds b ran ready closes =
      Ensures-bind Succeeds (on_file body) _ (opened_library opens) (before_body opens)
        (within-done (λ (l : Library). l.file) (λ f l. record l { file = f }) body
          (opened_library opens) (before_body opens) ran)
        (closed-Succeeds fuel f ds b ready closes)

  module _ (fuel : ℕ) (c : Buf) where
    -- simple_open_close.c with its two arguments exits with 0, and the list of open files is as it was
    -- before, where the address is found and of a known family, nothing that `rpmem_open` calls fails,
    -- the request of `rpmem_close` and its receive are posted, and the responses come.
    pub open_close_exits :
        Closes os (opened_library opens).file (closing_calls (before_body opens)) c
        → Ensures
            (λ code l' _. (code ≡ 0) × (l'.file_list ≡ l.file_list))
            (open_close os (suc (suc (suc (suc fuel)))) 3 l cs)
    unfolding open_close
    open_close_exits closes =
        rw (with_rfile-eq opens fuel (λ p. close_rfile os (suc (suc (suc (suc fuel)))) p 0)) (
          closed-Succeeds (suc (suc fuel)) (opened_library opens).file (before_body opens) c
            (opened_library-IsOpen opens) closes)

    module _ (maps : Maps os (map_size size) (opened_library opens).file (before_body opens)) where
      -- simple_map_unmap.c with its two arguments exits with 0, and the list of open files is as it
      -- was before, where the address is found and of a known family, nothing that `rpmem_open` calls
      -- fails, the memory of the map is allocated and registered, all work requests are posted, their
      -- responses and the read of the map come, and the response of the unmap carries 0.
      pub map_unmap_exits :
          (unmaps : Unmaps os 0 (mapped_file maps) (mapped_calls maps))
          → Closes os
              (unmapped_file unmaps)
              (closing_calls (unmap_last os (mapped_file maps) (mapped_calls maps)))
              c
          → Ensures
              (λ code l' _. (code ≡ 0) × (l'.file_list ≡ l.file_list))
              (map_unmap os (suc (suc (suc (suc fuel)))) 3 l cs)
      unfolding map_unmap
      map_unmap_exits unmaps closes = rw (with_rfile-eq opens fuel _) (
          worked-Succeeds (suc (suc fuel)) (map_then_unmap os (suc (suc (suc (suc fuel)))))
            (unmapped_file unmaps) _ c
            (map_then_unmap-eq os (suc (suc fuel)) (opened_library opens).file (before_body opens)
              (opened_library-IsOpen opens) maps unmaps)
            (unmapped_file-IsOpen unmaps (mapped_file-IsOpen maps (opened_library-IsOpen opens)))
            closes)

      -- simple_commit.c with its two arguments exits with 0, and the list of open files is as it was
      -- before, where the address is found and of a known family, nothing that `rpmem_open` calls
      -- fails, the memory of the map is allocated and registered, all work requests are posted, their
      -- responses and the read of the map come, and the responses of the commit and of the unmap carry
      -- 0.
      pub commit_exits :
          (commits : Commits os 0 (mapped_file maps) (mapped_calls maps))
          (unmaps : Unmaps os 0 (committed_file commits) (committed_calls commits))
          → Closes os
              (unmapped_file unmaps)
              (closing_calls (unmap_last os (committed_file commits) (committed_calls commits)))
              c
          → Ensures
              (λ code l' _. (code ≡ 0) × (l'.file_list ≡ l.file_list))
              (commit os (suc (suc (suc (suc fuel)))) 3 l cs)
      unfolding commit
      commit_exits commits unmaps closes =
          let mapped = mapped_file-IsOpen maps (opened_library-IsOpen opens) in
          rw (with_rfile-eq opens fuel _) (
            worked-Succeeds (suc (suc fuel)) (map_then_commit os (suc (suc (suc (suc fuel)))))
              (unmapped_file unmaps) _ c
              (map_then_commit-eq os (suc (suc fuel)) (opened_library opens).file
                (before_body opens) (opened_library-IsOpen opens) maps commits unmaps)
              (unmapped_file-IsOpen unmaps (committed_file-IsOpen commits mapped)) closes)
