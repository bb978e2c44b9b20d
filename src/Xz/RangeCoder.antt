-- ===== src/Xz/RangeCoder.antt =====
-- The range decoder of resources/lib/xz/xz_dec_lzma2.c, with the constants of xz_lzma2.h. The
-- probabilities are one array of 16-bit words, and a probability is named by its index.
use galaxys2_kernel_repack.Base.{
  ℕ, zero, suc, ◌+◌, ◌-◌, ◌*◌, ◌/◌, ◌%◌, ◌^◌, Bool, true, false, bit_and, List,
}
use galaxys2_kernel_repack.Base.{ltb, ◌==◌, if◌then◌else◌, get_or}
use galaxys2_kernel_repack.Base.Bytes.{u32, sub32, update}
use galaxys2_kernel_repack.Xz.Types.{XzBuf, in_size, in_byte}
use galaxys2_kernel_repack.Xz.Dict.{do_while_rounds}
pub mod Invariant
pub mod First
pub mod Cost
pub mod Trees
pub mod DirectBits
mod Tests

-- `input` is what `rc->in` points to. A read past its end, which C leaves undefined, gives 0.
pub record Rc : Type 0 where
  pub range : ℕ
  pub code : ℕ
  pub init_bytes_left : ℕ
  pub input : List ℕ
  pub in_pos : ℕ
  pub in_limit : ℕ

abbrev pub rc_init_bytes : ℕ
rc_init_bytes = 5

unfoldable pub rc_reset : Rc → Rc
rc_reset rc = record rc { range = 2 ^ 32 - 1; code = 0; init_bytes_left = rc_init_bytes }

-- The loop of `rc_read_init` with its bytes left.
pub record InitStep : Type 0 where
  pub done : Bool
  pub rc : Rc
  pub buf : XzBuf

pub read_init_loop : ℕ → Rc → XzBuf → InitStep
read_init_loop zero rc b = record { done = true; rc = rc; buf = b }
read_init_loop (suc left) rc b =
    let more =
      read_init_loop left
        (record rc {
          code = u32 (u32 (rc.code * 2 ^ 8) + in_byte b b.in_pos);
          init_bytes_left = left;
        })
        (record b { in_pos = b.in_pos + 1 }) in
    if b.in_pos == in_size b then record { done = false; rc = rc; buf = b } else more

pub rc_read_init : Rc → XzBuf → InitStep
rc_read_init rc b = read_init_loop rc.init_bytes_left rc b

abbrev pub rc_limit_exceeded : Rc → Bool
rc_limit_exceeded rc = ltb rc.in_limit rc.in_pos

abbrev pub rc_is_finished : Rc → Bool
rc_is_finished rc = rc.code == 0

unfoldable pub rc_normalize : Rc → Rc
rc_normalize rc =
    if ltb rc.range (2 ^ 24)
    then record rc {
      range = u32 (rc.range * 2 ^ 8);
      code = u32 (u32 (rc.code * 2 ^ 8) + get_or rc.input rc.in_pos 0);
      in_pos = rc.in_pos + 1;
    }
    else rc

-- What a decoding function leaves: its value, the decoder and the probabilities.
pub record Decoded : Type 0 where
  pub value : ℕ
  pub rc : Rc
  pub probs : ℕ → ℕ

-- The adaptive bit with the probability at index `i`, on a decoder that is normalized.
unfoldable pub bit_step : Rc → (ℕ → ℕ) → ℕ → Decoded
bit_step rc probs i =
    let p = probs i in
    let bound = u32 (rc.range / 2 ^ 11 * p) in
    if ltb rc.code bound
    then record {
      value = 0;
      rc = record rc { range = bound };
      probs = update probs i ((p + (2 ^ 11 - p) / 2 ^ 5) % 2 ^ 16);
    }
    else record {
      value = 1;
      rc = record rc { range = sub32 rc.range bound; code = sub32 rc.code bound };
      probs = update probs i (p - p / 2 ^ 5);
    }

unfoldable pub rc_bit : Rc → (ℕ → ℕ) → ℕ → Decoded
rc_bit rc probs i = bit_step (rc_normalize rc) probs i

-- The loop of `rc_bittree` over the probabilities from index `base` on. The symbol doubles in
-- each round, so `limit` rounds are enough.
unfoldable pub bittree_loop : ℕ → Rc → (ℕ → ℕ) → ℕ → ℕ → ℕ → Decoded
bittree_loop zero rc probs base limit symbol = record { value = symbol; rc = rc; probs = probs }
bittree_loop (suc fuel) rc probs base limit symbol =
    let b = rc_bit rc probs (base + symbol) in
    let symbol' = symbol * 2 + b.value in
    let more = bittree_loop fuel b.rc b.probs base limit symbol' in
    if ltb symbol' limit then more else record { value = symbol'; rc = b.rc; probs = b.probs }

unfoldable pub rc_bittree : Rc → (ℕ → ℕ) → ℕ → ℕ → Decoded
rc_bittree rc probs base limit = bittree_loop limit rc probs base limit 1

-- The loop of `rc_bittree_reverse`: rounds left, `i`, `symbol` and `*dest`.
pub reverse_loop : ℕ → Rc → (ℕ → ℕ) → ℕ → ℕ → ℕ → ℕ → Decoded
reverse_loop zero rc probs base i symbol dest = record { value = dest; rc = rc; probs = probs }
reverse_loop (suc left) rc probs base i symbol dest =
    let b = rc_bit rc probs (base + symbol) in
    reverse_loop left b.rc b.probs base (i + 1) (symbol * 2 + b.value)
      (u32 (dest + b.value * 2 ^ i))

pub rc_bittree_reverse : Rc → (ℕ → ℕ) → ℕ → ℕ → ℕ → Decoded
rc_bittree_reverse rc probs base dest limit = reverse_loop limit rc probs base 0 1 dest

-- One direct bit, without a branch: `mask` is all ones where the subtraction went below 0.
pub record Direct : Type 0 where
  pub rc : Rc
  pub dest : ℕ

pub direct_step : Rc → ℕ → Direct
direct_step rc dest =
    let range = rc.range / 2 in
    let code = sub32 rc.code range in
    let mask = sub32 0 (code / 2 ^ 31) in
    record {
      rc = record rc { range = range; code = u32 (code + bit_and range mask) };
      dest = u32 (u32 (dest * 2) + u32 (mask + 1));
    }

pub direct_loop : ℕ → Rc → ℕ → Direct
direct_loop zero rc dest = record { rc = rc; dest = dest }
direct_loop (suc left) rc dest =
    let r = direct_step (rc_normalize rc) dest in direct_loop left r.rc r.dest

pub rc_direct : Rc → ℕ → ℕ → Direct
rc_direct rc dest limit = direct_loop (do_while_rounds limit) rc dest
