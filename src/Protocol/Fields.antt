-- ===== src/Protocol/Fields.antt =====
-- What the fields of a packed command hold: one lemma for each shape of struct, in a buffer of 48
-- bytes.
use rpmem.Base.{ℕ, ◌≤◌, ◌<◌, ◌≡◌, ◌∙◌, inl, inr, arith, slice, u32}
use rpmem.Protocol.Buffer.{
  Buf, IsCmd, put_u32, get_u32, put_u64, get_u64, length-put_u32, get_u32-put_u32,
  get_u32-put_u32-Apart, get_u64-put_u64, get_u32-put_u64_apart, put_u32-IsCmd, put_u64-IsCmd,
  slice-put_u32, slice-put_u64,
}

-- A buffer after an opcode `op`, a 32-bit field `w` and a 64-bit field `a` were stored.
abbrev pub opcode_only : ℕ → Buf → Buf
opcode_only op b = put_u32 0 op b

abbrev pub short : ℕ → ℕ → Buf → Buf
short op w b = put_u32 4 w (put_u32 0 op b)

abbrev pub long : ℕ → ℕ → ℕ → Buf → Buf
long op w a b = put_u64 8 a (put_u32 4 w (put_u32 0 op b))

module _ (b : Buf) (h : IsCmd b) where
  pub opcode_only-opcode : (op : ℕ) → get_u32 0 (opcode_only op b) ≡ u32 op
  opcode_only-opcode op = get_u32-put_u32 0 op b (omega arith)

  pub short-opcode : (op w : ℕ) → get_u32 0 (short op w b) ≡ u32 op
  short-opcode op w =
      get_u32-put_u32-Apart 0 4 w (put_u32 0 op b) (inl (omega arith)) ∙ opcode_only-opcode op

  pub short-word : (op w : ℕ) → get_u32 4 (short op w b) ≡ u32 w
  short-word op w = get_u32-put_u32 4 w _ (omega (arith, length-put_u32 0 op b))

  pub long-opcode : (op w a : ℕ) → get_u32 0 (long op w a b) ≡ u32 op
  long-opcode op w a = get_u32-put_u64_apart 0 8 a _ (omega arith) ∙ short-opcode op w

  pub long-word : (op w a : ℕ) → get_u32 4 (long op w a b) ≡ u32 w
  long-word op w a = get_u32-put_u64_apart 4 8 a _ (omega arith) ∙ short-word op w

  pub long-addr : (op w a : ℕ) → a < 18446744073709551616 → get_u64 8 (long op w a b) ≡ a
  long-addr op w a ha =
      get_u64-put_u64 8 a _
        (omega (arith, length-put_u32 0 op b, length-put_u32 4 w (put_u32 0 op b))) ha

  pub short-IsCmd : (op w : ℕ) → IsCmd (short op w b)
  short-IsCmd op w = put_u32-IsCmd 4 w _ (put_u32-IsCmd 0 op b h)

  pub long-IsCmd : (op w a : ℕ) → IsCmd (long op w a b)
  long-IsCmd op w a = put_u64-IsCmd 8 a _ (short-IsCmd op w)

-- Everything behind the fields stays.
pub slice-short : (op w : ℕ) (b : Buf) (j n : ℕ) → 8 ≤ j → slice j n (short op w b) ≡ slice j n b
slice-short op w b j n h =
    slice-put_u32 j n 4 w (put_u32 0 op b) (inr (omega arith))
    ∙ slice-put_u32 j n 0 op b (inr (omega arith))

pub slice-long : (op w a : ℕ) (b : Buf) (j n : ℕ) → 16 ≤ j → slice j n (long op w a b) ≡ slice j n b
slice-long op w a b j n h =
    slice-put_u64 j n 8 a (short op w b) (omega arith) ∙ slice-short op w b j n (omega arith)
