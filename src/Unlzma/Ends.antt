-- ===== src/Unlzma/Ends.antt =====
-- The loop of unlzma ends on an output in memory: every round that goes on writes a byte at least.
use galaxys2_kernel_repack.Base.{
  ℕ, zero, suc, ◌+◌, ◌-◌, ◌*◌, ◌^◌, ◌<◌, ◌≤◌, ◌≡◌, ◌≢◌, refl, sym, subst, ◌∙◌, arith, bit_and,
}
use galaxys2_kernel_repack.Base.{true, false, not, ◌&&◌, ◌||◌, ltb, ◌==◌, if◌then◌else◌, if_has}
use galaxys2_kernel_repack.Unlzma.{Reader}
use galaxys2_kernel_repack.Unlzma.Decoder
use galaxys2_kernel_repack.Unlzma.Distances.{
  Places, places, new_distance-places, older_rep-places, decode_len-Keeps, write_byte-places,
  process_bit0-places,
}
use mathlib.Core.Option.{Option, none, some}

module _ (e : Reader) (o : Decoder.Output e) (h : Decoder.Header)
    (in_memory : o.has_flush ≡ false) where
  -- At a place of an output without flushes.
  abbrev At : ℕ → Places → Type 0
  At n p = (p.global ≡ 0) × (p.place ≡ n)

  -- From a place further on, and not beyond the end.
  record Between (from : ℕ) (p : Places) : Type 0 where
    whole : p.global ≡ 0
    low : from ≤ p.place
    high : p.place ≤ h.dst_size

  written :
      (s : Decoder.State e o h) (b n : ℕ)
      → At n (places e o h s)
      → n < h.dst_size
      → Between (n + 1) (places e o h (Decoder.write_byte e o h s b).next)
  written s b n a room =
      subst (Between (n + 1)) (sym (write_byte-places e o h in_memory s b).0)
        (record { whole = a.0; low = omega (arith, a.1); high = omega (arith, a.1) })

  copied :
      (left : ℕ) (s : Decoder.State e o h) (rep n : ℕ)
      → 0 < left
      → At n (places e o h s)
      → n < h.dst_size
      → Between (n + 1) (places e o h (Decoder.copy_bytes e o h left s rep).next)
  unfolding Decoder.copy_bytes Decoder.copy_byte
  copied zero s rep n some_byte a room = absurd (omega arith)
  copied (suc left) s rep n some_byte a room =
      let r = Decoder.copy_byte e o h s rep in
      let first = written s (Decoder.peek_old_byte e o h s rep) n a room in
      let P = λ (x : Decoder.Result e o h). Between (n + 1) (places e o h x.next) in
      if_has P (not r.good) (λ _. first)
        (λ _.
          if_has P (not (left == 0) && ltb r.next.buffer_pos h.dst_size)
            (λ more.
              let (some_left, further) : (0 < left) × (r.next.buffer_pos < h.dst_size) =
                ground (arith, more) in
              let rest =
                copied left r.next rep r.next.buffer_pos some_left (first.whole, refl) further in
              record {
                whole = rest.whole;
                low = omega (arith, rest.low, first.low);
                high = rest.high;
              })
            (λ _. first))

  finished :
      (s : Decoder.State e o h) (coder pos_state n : ℕ)
      → At n (places e o h s)
      → n < h.dst_size
      → let r = Decoder.finish_match e o h s coder pos_state in
        r.good ≡ true → r.next.rep0 ≢ 0 → Between (n + 1) (places e o h r.next)
  unfolding Decoder.finish_match
  finished s coder pos_state n a room =
      let l = Decoder.decode_len e o h s coder pos_state in
      let t = Decoder.new_distance e o h l.next l.len in
      let start = subst (At n) (sym (decode_len-Keeps e o h s coder pos_state)) a in
      let there = new_distance-places e o h (At n) (λ p rep w. w) l.next l.len start in
      let P = λ (r : Decoder.Result e o h).
        r.good ≡ true → r.next.rep0 ≢ 0 → Between (n + 1) (places e o h r.next) in
      if_has P (ltb s.state 4)
        (λ _.
          if_has P (t.rep0 == 0) (λ zero_rep good other. absurd (other (ground (arith, zero_rep))))
            (λ _.
              if_has P (ltb h.dict_size t.rep0 || ltb (Decoder.get_pos e o h t) t.rep0)
                (λ _ good other. cc)
                (λ _ good other. copied (l.len + 2) t t.rep0 n (omega arith) there room)))
        (λ _ good other. copied (l.len + 2) l.next l.next.rep0 n (omega arith) start room)

  -- What a match leaves, unless it failed or is the end marker.
  abbrev Moved : ℕ → Decoder.Result e o h → Type 0
  Moved n r = r.good ≡ true → r.next.rep0 ≢ 0 → Between (n + 1) (places e o h r.next)

  matched :
      (s : Decoder.State e o h) (pos_state n : ℕ)
      → At n (places e o h s)
      → n < h.dst_size
      → Moved n (Decoder.process_bit1 e o h s pos_state)
  unfolding Decoder.process_bit1 Decoder.choose Decoder.copy_byte
  matched s pos_state n a room =
      let rep = Decoder.choose e o h s (Decoder.is_rep + s.state) in
      let fresh : Decoder.State e o h = record (rep.next) {
        rep3 = s.rep2;
        rep2 = s.rep1;
        rep1 = s.rep0;
        state = if ltb s.state 7 then 0 else 3;
      } in
      let g0 = Decoder.choose e o h rep.next (Decoder.is_rep_g0 + s.state) in
      let long =
        Decoder.choose e o h g0.next (Decoder.is_rep_0_long + s.state * 2 ^ 4 + pos_state) in
      let byte : Decoder.State e o h = record (long.next) {
        state = if ltb s.state 7 then 9 else 11;
      } in
      let after = if ltb s.state 7 then 8 else 11 in
      let older = Decoder.older_rep e o h g0.next in
      let (global, place) = older_rep-places e o h g0.next in
      if_has (Moved n) (rep.bit == 0) (λ _. finished fresh Decoder.len_coder pos_state n a room)
        (λ _.
          if_has (Moved n) (g0.bit == 0)
            (λ _.
              if_has (Moved n) (long.bit == 0)
                (λ _ _ _. written byte (Decoder.peek_old_byte e o h byte s.rep0) n a room)
                (λ _.
                  finished (record (long.next) { state = after }) Decoder.rep_len_coder pos_state n
                    a room))
            (λ _.
              finished (record older { state = after }) Decoder.rep_len_coder pos_state n
                (global ∙ a.0, place ∙ a.1) room))

  -- What a round leaves, if it goes on.
  abbrev Next : ℕ → Decoder.Round e o h → Type 0
  Next n r = r.turn ≡ Decoder.goes_on → Between (n + 1) (places e o h r.next)

  after_symbol-Next :
      (n : ℕ) (t : Decoder.State e o h)
      → Between (n + 1) (places e o h t)
      → Next n (Decoder.after_symbol e o h t)
  unfolding Decoder.after_symbol
  after_symbol-Next n t w = if_has (Next n) (t.rc.size == 0) (λ _ _. w) (λ _ _. w)

  round-Next :
      (s : Decoder.State e o h) (n : ℕ)
      → At n (places e o h s)
      → n < h.dst_size
      → Next n (Decoder.round e o h s)
  unfolding Decoder.round Decoder.choose
  round-Next s n a room =
      let pos_state = bit_and (Decoder.get_pos e o h s) h.pos_state_mask in
      let c = Decoder.choose e o h s (s.state * 2 ^ 4 + pos_state) in
      let r0 = Decoder.process_bit0 e o h c.next in
      let r1 = Decoder.process_bit1 e o h c.next pos_state in
      let literal : Between (n + 1) (places e o h r0.next) =
        subst (Between (n + 1)) (sym (process_bit0-places e o h in_memory c.next))
          (record { whole = a.0; low = omega (arith, a.1); high = omega (arith, a.1) }) in
      if_has (Next n) (c.bit == 0)
        (λ _.
          if_has (Next n) (not r0.good) (λ _ turn. literal)
            (λ _. after_symbol-Next n r0.next literal))
        (λ _.
          if_has (Next n) (not r1.good) (λ _ turn. cc)
            (λ good.
              if_has (Next n) (r1.next.rep0 == 0) (λ _ turn. cc)
                (λ some_rep. after_symbol-Next n r1.next (
                  matched c.next pos_state n a room (ground (arith, good))
                    (λ z. ground (arith, some_rep, z))))))

  turned :
      (r : Decoder.Round e o h) (rest : Option (Decoder.Round e o h)) (t : Decoder.Turn e o h)
      → (t ≡ Decoder.goes_on → rest ≢ none)
      → elim t as (λ _. Option (Decoder.Round e o h)) [
        | Decoder.goes_on ↦ rest
        | Decoder.ends ↦ some r
        | Decoder.corrupt ↦ some r
        | Decoder.stops ↦ some r
      ]
        ≢ none
  turned r rest Decoder.goes_on k = k refl
  turned r rest Decoder.ends k = λ p. cc
  turned r rest Decoder.corrupt k = λ p. cc
  turned r rest Decoder.stops k = λ p. cc

  -- On an output in memory of fewer than 2 ^ 32 bytes, the loop of `unlzma` returns: a round more
  -- than there are bytes to write is enough, whatever the input.
  pub unlzma_loop-returns :
      (fuel : ℕ) (s : Decoder.State e o h)
      → h.dst_size < 2 ^ 32
      → s.global_pos ≡ 0
      → s.buffer_pos ≤ h.dst_size
      → h.dst_size - s.buffer_pos < fuel
      → Decoder.unlzma_loop e o h fuel s ≢ none
  unfolding Decoder.unlzma_loop Decoder.get_pos
  unlzma_loop-returns zero s small global inside enough = absurd (omega arith)
  unlzma_loop-returns (suc fuel) s small global inside enough =
      let r = Decoder.round e o h s in
      let P = λ (x : Option (Decoder.Round e o h)). x ≢ none in
      if_has P (not (ltb (Decoder.get_pos e o h s) h.dst_size)) (λ _. λ p. cc)
        (λ below.
          let room : s.buffer_pos < h.dst_size = ground (arith, below, global, small) in
          let next = round-Next s s.buffer_pos (global, refl) room in
          turned r (Decoder.unlzma_loop e o h fuel r.next) r.turn (λ go.
            let b = next go in
            unlzma_loop-returns fuel r.next small b.whole b.high
              (omega (arith, b.low, enough, room))))
