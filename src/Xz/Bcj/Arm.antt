-- ===== src/Xz/Bcj/Arm.antt =====
-- The ARM filter: the branch offsets of the encoder come back, and nothing else changes.
use galaxys2_kernel_repack.Base.{
  ℕ, zero, suc, ◌+◌, ◌-◌, ◌*◌, ◌/◌, ◌%◌, ◌^◌, ◌<◌, ◌≤◌, ◌≡◌, ◌≢◌, ap, ◌∙◌, arith, bit_or,
}
use galaxys2_kernel_repack.Base.{refl, sym, subst, if_has, ◌==◌, ◌⊎◌, inl, inr}
use galaxys2_kernel_repack.Base.Bytes.{u8, u32, sub32}
use galaxys2_kernel_repack.Base.Bits
use galaxys2_kernel_repack.Xz.Types.{Ptr, Mem, load, store}
use galaxys2_kernel_repack.Xz.Types.Memory.{load-store, IsBytes, store_at-IsBytes}
use galaxys2_kernel_repack.Xz.Bcj.{Bcj, arm_step, arm_loop, bcj_arm}

-- The offset of the branch instruction at `p + i`, in words.
abbrev pub imm24 : Mem → Ptr → ℕ → ℕ
imm24 m p i = load m p i + load m p (i + 1) * 2 ^ 8 + load m p (i + 2) * 2 ^ 16

-- The encoder's number is the absolute target in words; the offset counts from two instructions
-- behind the branch.
abbrev pub relative : ℕ → ℕ → ℕ
relative target at = (target + 2 ^ 24 - (at + 8) / 4 % 2 ^ 24) % 2 ^ 24

addr_number :
    (a b c : ℕ)
    → a < 256
    → b < 256
    → bit_or (bit_or a (b * 2 ^ 8)) (c * 2 ^ 16) ≡ a + b * 2 ^ 8 + c * 2 ^ 16
addr_number a b c ha hb =
    ap (λ (t : ℕ). bit_or t (c * 2 ^ 16)) (Bits.bit_or-add 8 a b ha)
    ∙ Bits.bit_or-add 16 (a + b * 2 ^ 8) c (omega arith)

addr_relative :
    (imm at : ℕ)
    → imm < 2 ^ 24
    → at % 4 ≡ 0
    → sub32 (u32 (imm * 2 ^ 2)) (u32 (at + 8)) / 2 ^ 2 % 2 ^ 24 ≡ relative imm at
addr_relative imm at small aligned = omega arith

pub arm_step_branch :
    (pos : ℕ) (m : Mem) (p : Ptr) (i : ℕ)
    → IsBytes m
    → (pos + i) % 4 ≡ 0
    → load m p (i + 3) ≡ 0xeb
    → imm24 (arm_step pos m p i) p i ≡ relative (imm24 m p i) (pos + i)
unfolding arm_step
arm_step_branch pos m p i h aligned branch =
    let a = load m p i in
    let b = load m p (i + 1) in
    let c = load m p (i + 2) in
    let ha = h p.region (p.offset + i) in
    let hb = h p.region (p.offset + (i + 1)) in
    let hc = h p.region (p.offset + (i + 2)) in
    let number = addr_number a b c ha hb in
    let addr = sub32 (u32 (imm24 m p i * 2 ^ 2)) (u32 (pos + i + 8)) / 2 ^ 2 in
    let m0 = store m p i (u8 addr) in
    let m1 = store m0 p (i + 1) (u8 (addr / 2 ^ 8)) in
    rw (number, branch)
      (ground (
        arith,
        load-store m1 p (i + 2) (u8 (addr / 2 ^ 16)) i,
        load-store m1 p (i + 2) (u8 (addr / 2 ^ 16)) (i + 1),
        load-store m1 p (i + 2) (u8 (addr / 2 ^ 16)) (i + 2),
        load-store m0 p (i + 1) (u8 (addr / 2 ^ 8)) i,
        load-store m0 p (i + 1) (u8 (addr / 2 ^ 8)) (i + 1),
        load-store m p i (u8 addr) i,
        addr_relative (imm24 m p i) (pos + i),
      ))

-- Only the three low bytes of the instruction are written.
arm_step_other :
    (pos : ℕ) (m : Mem) (p : Ptr) (i j : ℕ)
    → (j < i) ⊎ (i + 3 ≤ j)
    → load (arm_step pos m p i) p j ≡ load m p j
unfolding arm_step
arm_step_other pos m p i j away =
    let value =
      bit_or (bit_or (load m p i) (load m p (i + 1) * 2 ^ 8)) (load m p (i + 2) * 2 ^ 16) in
    let addr = sub32 (u32 (value * 2 ^ 2)) (u32 (pos + i + 8)) / 2 ^ 2 in
    let m0 = store m p i (u8 addr) in
    let m1 = store m0 p (i + 1) (u8 (addr / 2 ^ 8)) in
    ground (
      arith,
      load-store m1 p (i + 2) (u8 (addr / 2 ^ 16)) j,
      load-store m0 p (i + 1) (u8 (addr / 2 ^ 8)) j,
      load-store m p i (u8 addr) j,
    )

arm_step_plain :
    (pos : ℕ) (m : Mem) (p : Ptr) (i : ℕ) → load m p (i + 3) ≢ 0xeb → arm_step pos m p i ≡ m
unfolding arm_step
arm_step_plain pos m p i plain = ground arith

arm_step-IsBytes : (pos : ℕ) (m : Mem) (p : Ptr) (i : ℕ) → IsBytes m → IsBytes (arm_step pos m p i)
unfolding arm_step
arm_step-IsBytes pos m p i h =
    let value =
      bit_or (bit_or (load m p i) (load m p (i + 1) * 2 ^ 8)) (load m p (i + 2) * 2 ^ 16) in
    let addr = sub32 (u32 (value * 2 ^ 2)) (u32 (pos + i + 8)) / 2 ^ 2 in
    let m0 = store m p i (u8 addr) in
    let m1 = store m0 p (i + 1) (u8 (addr / 2 ^ 8)) in
    let h0 = store_at-IsBytes m p.region (p.offset + i) (u8 addr) h (omega arith) in
    let h1 =
      store_at-IsBytes m0 p.region (p.offset + (i + 1)) (u8 (addr / 2 ^ 8)) h0 (omega arith) in
    if_has IsBytes (load m p (i + 3) == 0xeb)
      (λ _. store_at-IsBytes m1 p.region (p.offset + (i + 2)) (u8 (addr / 2 ^ 16)) h1 (omega arith))
      (λ _. h)

arm_loop_other :
    (left pos : ℕ) (m : Mem) (p : Ptr) (i j : ℕ)
    → (j < i) ⊎ (i + 4 * left ≤ j)
    → load (arm_loop left pos m p i) p j ≡ load m p j
unfolding arm_loop
arm_loop_other zero pos m p i j away = refl
arm_loop_other (suc left) pos m p i j away =
    arm_loop_other left pos (arm_step pos m p i) p (i + 4) j (omega arith)
    ∙ arm_step_other pos m p i j (omega arith)

-- What becomes of the instruction at `at`.
pub record IsDecoded (pos : ℕ) (m m' : Mem) (p : Ptr) (at : ℕ) : Type 0 where
  pub opcode : load m' p (at + 3) ≡ load m p (at + 3)
  pub branch : load m p (at + 3) ≡ 0xeb → imm24 m' p at ≡ relative (imm24 m p at) (pos + at)
  pub plain : load m p (at + 3) ≢ 0xeb → imm24 m' p at ≡ imm24 m p at

same_imm24 :
    (m m' : Mem) (p : Ptr) (at : ℕ)
    → ((j : ℕ) → at ≤ j → j < at + 3 → load m' p j ≡ load m p j)
    → imm24 m' p at ≡ imm24 m p at
same_imm24 m m' p at h = omega (
  arith,
  h at (omega arith) (omega arith),
  h (at + 1) (omega arith) (omega arith),
  h (at + 2) (omega arith) (omega arith),
)

first-IsDecoded :
    (left pos : ℕ) (m : Mem) (p : Ptr) (i : ℕ)
    → IsBytes m
    → (pos + i) % 4 ≡ 0
    → IsDecoded pos m (arm_loop (suc left) pos m p i) p i
unfolding arm_loop
first-IsDecoded left pos m p i h aligned =
    let m1 = arm_step pos m p i in
    let m2 = arm_loop left pos m1 p (i + 4) in
    let later = λ (j : ℕ) (low : i ≤ j) (high : j < i + 3).
      arm_loop_other left pos m1 p (i + 4) j (inl (omega arith)) in
    let kept = same_imm24 m1 m2 p i later in
    record {
      opcode =
          arm_loop_other left pos m1 p (i + 4) (i + 3) (inl (omega arith))
          ∙ arm_step_other pos m p i (i + 3) (inr (omega arith));
      branch = λ b. kept ∙ arm_step_branch pos m p i h aligned b;
      plain = λ b. kept ∙ ap (λ (t : Mem). imm24 t p i) (arm_step_plain pos m p i b);
    }

arm_loop-IsDecoded :
    (left pos : ℕ) (m : Mem) (p : Ptr) (i k : ℕ)
    → IsBytes m
    → (pos + i) % 4 ≡ 0
    → k < left
    → IsDecoded pos m (arm_loop left pos m p i) p (i + 4 * k)
unfolding arm_loop
arm_loop-IsDecoded zero pos m p i k h aligned inside = absurd (omega arith)
arm_loop-IsDecoded (suc left) pos m p i zero h aligned inside =
    let same : i + 4 * 0 ≡ i = omega arith in rw same (first-IsDecoded left pos m p i h aligned)
arm_loop-IsDecoded (suc left) pos m p i (suc k) h aligned inside =
    let m1 = arm_step pos m p i in
    let shift : i + 4 * suc k ≡ i + 4 + 4 * k = omega arith in
    let r =
      arm_loop-IsDecoded left pos m1 p (i + 4) k (arm_step-IsBytes pos m p i h) (omega arith)
        (omega arith) in
    let at = i + 4 + 4 * k in
    let early = λ (j : ℕ) (low : at ≤ j) (high : j < at + 3).
      arm_step_other pos m p i j (inr (omega arith)) in
    let op = arm_step_other pos m p i (at + 3) (inr (omega arith)) in
    let imm = same_imm24 m m1 p at early in
    rw shift (record {
      opcode = r.opcode ∙ op;
      branch = λ b. r.branch (op ∙ b) ∙ ap (λ (t : ℕ). relative t (pos + at)) imm;
      plain = λ b. r.plain (λ e. b (sym op ∙ e)) ∙ imm;
    })

-- In aligned code, `bcj_arm` turns the absolute target of every whole branch instruction (`BL`, of
-- which the last byte is `0xeb`) into the offset from two instructions behind it, leaves every
-- other instruction and the bytes of an incomplete one alone, and counts the whole ones.
pub bcj_arm_lem :
    (s : Bcj) (m : Mem) (p : Ptr) (size : ℕ)
    → IsBytes m
    → s.pos % 4 ≡ 0
    → let r = bcj_arm s m p size in
      (r.filtered ≡ size / 4 * 4)
      × ((k : ℕ) → k < size / 4 → IsDecoded s.pos m r.mem p (4 * k))
      × ((j : ℕ) → size / 4 * 4 ≤ j → load r.mem p j ≡ load m p j)
unfolding bcj_arm
bcj_arm_lem s m p size h aligned = (
  refl,
  λ k inside. whole k inside,
  λ j behind. arm_loop_other (size / 4) s.pos m p 0 j (inr (omega arith)),
)
  where
    whole : (k : ℕ) → k < size / 4 → IsDecoded s.pos m (arm_loop (size / 4) s.pos m p 0) p (4 * k)
    whole k inside =
        let start : 0 + 4 * k ≡ 4 * k = omega arith in
        subst (λ (n : ℕ). IsDecoded s.pos m (arm_loop (size / 4) s.pos m p 0) p n) start
          (arm_loop-IsDecoded (size / 4) s.pos m p 0 k h (omega arith) inside)
