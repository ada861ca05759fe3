-- ===== src/Examples/Runs.antt =====
-- What the examples leave behind.
use mathlib.Core.Bool.{not}
use rpmem.Base.{ℕ, ◌≡◌, ◌⊎◌, inl, inr, refl, arith, ap, ◌∙◌, ne→false, ◌==◌, List, [], ◌∷◌}
use rpmem.Machine.{
  Call, Os, M, ◌>>=◌, pure, After, After-mono, After-bind, After-if, After-within, After-trivial,
}
use rpmem.Conn.Address.{get_addr}
use rpmem.Client.{
  File, Library, on_file, rpmem_open, rpmem_close, rpmem_map, rpmem_unmap, rpmem_commit,
}
use rpmem.Client.Files.{Listed, rpmem_open-Listed, rpmem_close-list}
use rpmem.Examples.{
  map_size, with_rfile, close_rfile, open_close, map_then_unmap, map_unmap, map_then_commit, commit,
  unmap_rmr,
}

-- The program exits with 0 or 1, and the list of files is `files`.
abbrev pub Exits : List ℕ → ℕ → Library → List Call → Type 0
Exits files code l cs = ((code ≡ 0) ⊎ (code ≡ 1)) × (l.file_list ≡ files)

abbrev IsStatus : ℕ → File → List Call → Type 0
IsStatus code f cs = (code ≡ 0) ⊎ (code ≡ 1)

module _ (os : Os) (fuel : ℕ) (files : List ℕ) where
  close_rfile-Exits :
      (p ret : ℕ) (l : Library) (cs : List Call)
      → (ret ≡ 0) ⊎ (ret ≡ 1)
      → l.file_list ≡ p ∷ files
      → After (Exits files) (close_rfile os fuel p ret l cs)
  unfolding close_rfile
  close_rfile-Exits p ret l cs status listed =
      After-bind (λ failed l' _. (failed ≡ 0) × (l'.file_list ≡ files)) (Exits files)
        (rpmem_close os fuel p) _ l cs (rpmem_close-list os fuel p [] files l cs listed tt)
        (λ failed l' ds (none_failed, same). rw none_failed (status, same))

  -- What a program does with the open file at `p`.
  abbrev KeepsList : (ℕ → M Library ℕ) → Type 0
  KeepsList body =
      (p : ℕ) (l : Library) (cs : List Call)
      → l.file_list ≡ p ∷ files
      → After (Exits files) (body p l cs)

  body-KeepsList :
      (m : M File ℕ)
      → ((f : File) (cs : List Call) → After IsStatus (m f cs))
      → KeepsList (λ p. on_file m >>= λ ret. close_rfile os fuel p ret)
  body-KeepsList m status p l cs listed =
      let P = λ (ret : ℕ) (l' : Library) (_ : List Call).
        ((ret ≡ 0) ⊎ (ret ≡ 1)) × (l'.file_list ≡ p ∷ files) in
      After-bind P (Exits files) (on_file m) _ l cs
        (After-within (λ (l : Library). l.file) (λ f l. record l { file = f }) P m l cs
          (After-mono IsStatus _ (m l.file cs) (λ ret f ds h. (h, listed)) (status l.file cs)))
        (λ ret l' ds (is, same). close_rfile-Exits p ret l' ds is same)

get_addr-list :
    (os : Os) (l : Library) (cs : List Call)
    → After (λ _ l' _. l'.file_list ≡ l.file_list) (get_addr os l cs)
unfolding get_addr
get_addr-list os l cs = ground arith

with_rfile-Exits :
    (os : Os) (fuel argc : ℕ) (body : ℕ → M Library ℕ) (l : Library) (cs : List Call)
    → KeepsList os fuel l.file_list body
    → After (Exits l.file_list) (with_rfile os fuel argc body l cs)
unfolding with_rfile
with_rfile-Exits os fuel argc body l cs h =
    let Q = Exits l.file_list in
    After-if Q (not (argc == 3)) _ _ l cs (inr refl, refl)
      (After-bind (λ _ l' _. l'.file_list ≡ l.file_list) Q (get_addr os) _ l cs
        (get_addr-list os l cs)
        (λ unknown l1 ds kept.
          After-if Q (not (unknown == 0)) _ _ l1 ds (inr refl, kept)
            (After-bind (Listed l1.file_list) Q (rpmem_open os fuel) _ l1 ds
              (rpmem_open-Listed os fuel l1 ds)
              (λ rfile l2 es listed. elim listed [
                | inl (null, same) ↦ rw null (inr refl, same ∙ kept)
                | inr (there, same) ↦
                    rw (ne→false rfile 0 there) (h rfile l2 es (same ∙ ap (λ ps. rfile ∷ ps) kept))
              ]))))

unmap_rmr-IsStatus :
    (os : Os) (fuel : ℕ) (f : File) (cs : List Call) → After IsStatus (unmap_rmr os fuel f cs)
unfolding unmap_rmr
unmap_rmr-IsStatus os fuel f cs =
    After-bind (λ _ _ _. Unit) IsStatus (rpmem_unmap os fuel) _ f cs
      (After-trivial (rpmem_unmap os fuel f cs)) (λ ret g ds _. ground arith)

map_then_unmap-IsStatus :
    (os : Os) (fuel : ℕ) (f : File) (cs : List Call) → After IsStatus (map_then_unmap os fuel f cs)
unfolding map_then_unmap
map_then_unmap-IsStatus os fuel f cs =
    After-bind (λ _ _ _. Unit) IsStatus (rpmem_map os fuel (map_size f.size)) _ f cs
      (After-trivial (rpmem_map os fuel (map_size f.size) f cs))
      (λ mapped g ds _.
        After-if IsStatus mapped (unmap_rmr os fuel) (pure 1) g ds (unmap_rmr-IsStatus os fuel g ds)
          (inr refl))

map_then_commit-IsStatus :
    (os : Os) (fuel : ℕ) (f : File) (cs : List Call) → After IsStatus (map_then_commit os fuel f cs)
unfolding map_then_commit
map_then_commit-IsStatus os fuel f cs =
    After-bind (λ _ _ _. Unit) IsStatus (rpmem_map os fuel (map_size f.size)) _ f cs
      (After-trivial (rpmem_map os fuel (map_size f.size) f cs))
      (λ mapped g ds _.
        After-if IsStatus mapped _ (pure 1) g ds
          (After-bind (λ _ _ _. Unit) IsStatus (rpmem_commit os fuel) _ g ds
            (After-trivial (rpmem_commit os fuel g ds))
            (λ ret g1 ds1 _.
              After-if IsStatus (ret == 0) (unmap_rmr os fuel) (pure 1) g1 ds1
                (unmap_rmr-IsStatus os fuel g1 ds1) (inr refl)))
          (inr refl))

-- However an example comes to its end, and whatever its calls answer, it exits with 0 or 1, and the
-- list of open files is as it was before.
pub examples-Exits :
    (os : Os) (fuel argc : ℕ) (l : Library) (cs : List Call)
    → After (Exits l.file_list) (open_close os fuel argc l cs)
      × After (Exits l.file_list) (map_unmap os fuel argc l cs)
      × After (Exits l.file_list) (commit os fuel argc l cs)
unfolding open_close map_unmap commit
examples-Exits os fuel argc l cs = (
  with_rfile-Exits os fuel argc _ l cs
      (λ p l' ds listed. close_rfile-Exits os fuel l.file_list p 0 l' ds (inl refl) listed),
  with_rfile-Exits os fuel argc _ l cs (
      body-KeepsList os fuel l.file_list (map_then_unmap os fuel)
        (map_then_unmap-IsStatus os fuel)),
  with_rfile-Exits os fuel argc _ l cs (
      body-KeepsList os fuel l.file_list (map_then_commit os fuel)
        (map_then_commit-IsStatus os fuel)),
)
