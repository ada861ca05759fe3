-- ===== src/Protocol/Buffer.antt =====
-- A command buffer: `struct rpmem_cmd` of rpmem_protocol.h, 48 bytes, over which the request and
-- response structs are laid. A field of those is stored by `htonl`, `htobe32` or `htobe64`, so the
-- bytes in memory are big-endian on every host; `put_*` and `get_*` are such a store and load.
use rpmem.Base.{
  ℕ, ◌+◌, ◌*◌, ◌/◌, ◌%◌, ◌≤◌, ◌<◌, ◌≡◌, refl, ◌⊎◌, inl, inr, ◌∙◌, List, [], ◌∷◌, arith, All, length,
  replicate, slice, write, slice-write, slice-write_before, slice-write_after, length-write,
  All-write, u32,
}

abbrev pub Buf : Type 0
Buf = List ℕ

-- `RPMEM_CMD_SIZE`
abbrev pub cmd_size : ℕ
cmd_size = 48

-- 48 bytes, each below 256.
abbrev pub IsCmd : Buf → Type 0
IsCmd b = (length b ≡ cmd_size) × All (λ x. x < 256) b

-- `memset(cmd, 0, RPMEM_CMD_SIZE)` on a command buffer.
abbrev pub zeroed : Buf
zeroed = replicate cmd_size 0

-- The bytes of a 32-bit value in network order.
unfoldable pub be32 : ℕ → List ℕ
be32 v = (v / 16777216) % 256 ∷ (v / 65536) % 256 ∷ (v / 256) % 256 ∷ v % 256 ∷ []

unfoldable pub be_value : ℕ → List ℕ → ℕ
be_value acc [] = acc
be_value acc (x ∷ xs) = be_value (acc * 256 + x) xs

-- `*(uint32_t *)(b + i) = htonl(v)` and `ntohl(*(uint32_t *)(b + i))`.
unfoldable pub put_u32 : ℕ → ℕ → Buf → Buf
put_u32 i v b = write i (be32 v) b

unfoldable pub get_u32 : ℕ → Buf → ℕ
get_u32 i b = be_value 0 (slice i 4 b)

-- The same with `htobe64` and `be64toh`: the high word stands first.
unfoldable pub put_u64 : ℕ → ℕ → Buf → Buf
put_u64 i v b = put_u32 (i + 4) (u32 v) (put_u32 i (u32 (v / 4294967296)) b)

unfoldable pub get_u64 : ℕ → Buf → ℕ
get_u64 i b = get_u32 i b * 4294967296 + get_u32 (i + 4) b

be_value-be32 : (v : ℕ) → be_value 0 (be32 v) ≡ u32 v
unfolding be32 be_value
be_value-be32 v = omega arith

be32-bytes : (v : ℕ) → All (λ x. x < 256) (be32 v)
unfolding be32
be32-bytes v = omega arith

length-be32 : (v : ℕ) → length (be32 v) ≡ 4
unfolding be32
length-be32 v = refl

pub length-put_u32 : (i v : ℕ) (b : Buf) → length (put_u32 i v b) ≡ length b
length-put_u32 i v b = unfold put_u32 in length-write i (be32 v) b

pub length-put_u64 : (i v : ℕ) (b : Buf) → length (put_u64 i v b) ≡ length b
length-put_u64 i v b =
    unfold put_u64 in
    omega (
      arith,
      length-put_u32 (i + 4) (u32 v) (put_u32 i (u32 (v / 4294967296)) b),
      length-put_u32 i (u32 (v / 4294967296)) b,
    )

pub put_u32-IsCmd : (i v : ℕ) (b : Buf) → IsCmd b → IsCmd (put_u32 i v b)
put_u32-IsCmd i v b h =
    (length-put_u32 i v b ∙ h.0, unfold put_u32 in All-write _ i (be32 v) b (be32-bytes v) h.1)

pub put_u64-IsCmd : (i v : ℕ) (b : Buf) → IsCmd b → IsCmd (put_u64 i v b)
put_u64-IsCmd i v b h = unfold put_u64 in put_u32-IsCmd (i + 4) _ _ (put_u32-IsCmd i _ b h)

-- What a store leaves to be loaded: the value, cut to 32 bits.
pub get_u32-put_u32 : (i v : ℕ) (b : Buf) → i + 4 ≤ length b → get_u32 i (put_u32 i v b) ≡ u32 v
unfolding be32
get_u32-put_u32 i v b h =
    unfold get_u32 put_u32 in rw (slice-write i (be32 v) b h) (be_value-be32 v)

-- Two fields that do not overlap do not disturb one another.
abbrev pub Apart : ℕ → ℕ → ℕ → Type 0
Apart j n i = (j + n ≤ i) ⊎ (i + 4 ≤ j)

pub slice-put_u32 : (j n i v : ℕ) (b : Buf) → Apart j n i → slice j n (put_u32 i v b) ≡ slice j n b
unfolding be32
slice-put_u32 j n i v b (inl h) = unfold put_u32 in slice-write_before j n i (be32 v) b h
slice-put_u32 j n i v b (inr h) = unfold put_u32 in slice-write_after j n i (be32 v) b h

pub get_u32-put_u32-Apart :
    (j i v : ℕ) (b : Buf) → Apart j 4 i → get_u32 j (put_u32 i v b) ≡ get_u32 j b
get_u32-put_u32-Apart j i v b h = unfold get_u32 in rw (slice-put_u32 j 4 i v b h)

pub get_u64-put_u64 :
    (i v : ℕ) (b : Buf)
    → i + 8 ≤ length b
    → v < 18446744073709551616
    → get_u64 i (put_u64 i v b) ≡ v
get_u64-put_u64 i v b h hv =
    let inner = put_u32 i (u32 (v / 4294967296)) b in
    unfold get_u64 put_u64 in
    omega (
      arith,
      get_u32-put_u32 (i + 4) (u32 v) inner
          (omega (arith, length-put_u32 i (u32 (v / 4294967296)) b)),
      get_u32-put_u32-Apart i (i + 4) (u32 v) inner (inl (omega arith)),
      get_u32-put_u32 i (u32 (v / 4294967296)) b (omega arith),
    )

pub get_u32-put_u64_apart :
    (j i v : ℕ) (b : Buf) → j + 4 ≤ i → get_u32 j (put_u64 i v b) ≡ get_u32 j b
get_u32-put_u64_apart j i v b h =
    let inner = put_u32 i (u32 (v / 4294967296)) b in
    unfold put_u64 in
    get_u32-put_u32-Apart j (i + 4) (u32 v) inner (inl (omega arith))
    ∙ get_u32-put_u32-Apart j i (u32 (v / 4294967296)) b (inl h)

pub slice-put_u64 : (j n i v : ℕ) (b : Buf) → i + 8 ≤ j → slice j n (put_u64 i v b) ≡ slice j n b
slice-put_u64 j n i v b h =
    let inner = put_u32 i (u32 (v / 4294967296)) b in
    unfold put_u64 in
    slice-put_u32 j n (i + 4) (u32 v) inner (inr (omega arith))
    ∙ slice-put_u32 j n i (u32 (v / 4294967296)) b (inr (omega arith))

pub zeroed-IsCmd : IsCmd zeroed
zeroed-IsCmd = omega arith
