-- ===== src/Unlzma/Distances.antt =====
-- The distances of unlzma stay inside what is written, on an output in memory.
use galaxys2_kernel_repack.Base.{
  ℕ, zero, suc, ◌+◌, ◌-◌, ◌*◌, ◌/◌, ◌%◌, ◌^◌, ◌≤◌, ◌≡◌, ◌≢◌, refl, sym, subst, ap, ◌∙◌, arith, min,
  bit_and, bit_or,
}
use galaxys2_kernel_repack.Base.{
  true, false, not, ◌&&◌, ◌||◌, ltb, leb, ◌==◌, if◌then◌else◌, if_has,
}
use galaxys2_kernel_repack.Base.Bytes.{u8, u32}
use galaxys2_kernel_repack.Unlzma.{Reader, rc_get_bit, rc_bit_tree_decode, rc_direct_bit}
use galaxys2_kernel_repack.Unlzma.Decoder

-- The position and the distances of a state.
pub record Places : Type 0 where
  pub global : ℕ
  pub place : ℕ
  pub rep0 : ℕ
  pub rep1 : ℕ
  pub rep2 : ℕ
  pub rep3 : ℕ

-- A distance to a byte among the `n` that are written.
abbrev pub IsBack : ℕ → ℕ → Type 0
IsBack n rep = (1 ≤ rep) × (rep ≤ n)

-- All distances but the newest, and all.
pub record IsOlder (p : Places) : Type 0 where
  pub whole : p.global ≡ 0
  pub back1 : IsBack p.place p.rep1
  pub back2 : IsBack p.place p.rep2
  pub back3 : IsBack p.place p.rep3

pub record IsWritten (p : Places) : Type 0 where
  pub older : IsOlder p
  pub back0 : IsBack p.place p.rep0

module _ (e : Reader) (o : Decoder.Output e) (h : Decoder.Header) where
  abbrev pub places : Decoder.State e o h → Places
  places s = record {
    global = s.global_pos;
    place = s.buffer_pos;
    rep0 = s.rep0;
    rep1 = s.rep1;
    rep2 = s.rep2;
    rep3 = s.rep3;
  }

  -- What only decodes bits leaves the places alone.
  abbrev pub Keeps : Decoder.State e o h → Decoder.State e o h → Type 0
  Keeps s t = places t ≡ places s

  pub choose-Keeps : (s : Decoder.State e o h) (i : ℕ) → Keeps s (Decoder.choose e o h s i).next
  unfolding Decoder.choose
  choose-Keeps s i = refl

  plain_loop-Keeps :
      (fuel : ℕ) (s : Decoder.State e o h) (base mi : ℕ)
      → Keeps s (Decoder.plain_loop e o h fuel s base mi).next
  unfolding Decoder.plain_loop
  plain_loop-Keeps zero s base mi = refl
  plain_loop-Keeps (suc fuel) s base mi =
      let g = rc_get_bit e s.rc s.probs (base + mi) mi in
      if_has (λ (l : Decoder.Literal e o h). Keeps s l.next) (ltb mi 0x100)
        (λ _. plain_loop-Keeps fuel (record s { rc = g.rc; probs = g.probs }) base g.symbol)
        (λ _. refl)

  matched_loop-Keeps :
      (fuel : ℕ) (s : Decoder.State e o h) (base match_byte mi : ℕ)
      → Keeps s (Decoder.matched_loop e o h fuel s base match_byte mi).next
  unfolding Decoder.matched_loop
  matched_loop-Keeps zero s base match_byte mi = refl
  matched_loop-Keeps (suc fuel) s base match_byte mi =
      let bit = bit_and (match_byte * 2) 0x100 in
      let g = rc_get_bit e s.rc s.probs (base + 0x100 + bit + mi) mi in
      let differs = if g.bit == 1 then bit == 0 else not (bit == 0) in
      if_has (λ (l : Decoder.Literal e o h). Keeps s l.next) (differs || not (ltb g.symbol 0x100))
        (λ _. refl)
        (λ _.
          matched_loop-Keeps fuel (record s { rc = g.rc; probs = g.probs }) base (match_byte * 2)
            g.symbol)

  pub decode_len-Keeps :
      (s : Decoder.State e o h) (coder pos_state : ℕ)
      → Keeps s (Decoder.decode_len e o h s coder pos_state).next
  unfolding Decoder.decode_len Decoder.read_len Decoder.choose
  decode_len-Keeps s coder pos_state =
      let c = Decoder.choose e o h s coder in
      let c2 = Decoder.choose e o h c.next (coder + 1) in
      let P = λ (l : Decoder.Length e o h). Keeps s l.next in
      if_has P (c.bit == 0) (λ _. refl) (λ _. if_has P (c2.bit == 0) (λ _. refl) (λ _. refl))

  direct_loop-Keeps :
      (left : ℕ) (s : Decoder.State e o h) (rep0 : ℕ)
      → Keeps s (Decoder.direct_loop e o h left s rep0).1
  unfolding Decoder.direct_loop
  direct_loop-Keeps zero s rep0 = refl
  direct_loop-Keeps (suc left) s rep0 =
      let (bit, rc) = rc_direct_bit e s.rc in
      direct_loop-Keeps left (record s { rc = rc }) (bit_or (u32 (rep0 * 2)) bit)

  low_loop-Keeps :
      (left : ℕ) (s : Decoder.State e o h) (base mi i rep0 : ℕ)
      → Keeps s (Decoder.low_loop e o h left s base mi i rep0).1
  unfolding Decoder.low_loop
  low_loop-Keeps zero s base mi i rep0 = refl
  low_loop-Keeps (suc left) s base mi i rep0 =
      let g = rc_get_bit e s.rc s.probs (base + mi) mi in
      low_loop-Keeps left (record s { rc = g.rc; probs = g.probs }) base g.symbol (i * 2)
        (if g.bit == 1 then bit_or rep0 i else rep0)

  slot_distance-Keeps :
      (s : Decoder.State e o h) (slot : ℕ) → Keeps s (Decoder.slot_distance e o h s slot).1
  unfolding Decoder.slot_distance
  slot_distance-Keeps s slot =
      let num_bits = slot / 2 - 1 in
      let from = 2 + slot % 2 in
      let short = from * 2 ^ num_bits in
      let d = Decoder.direct_loop e o h (num_bits - 4) s from in
      if_has (λ (r : ℕ × Decoder.State e o h). Keeps s r.1) (ltb slot 14)
        (λ _. low_loop-Keeps num_bits s (Decoder.spec_pos + short - slot - 1) 1 1 short)
        (λ _.
          low_loop-Keeps 4 d.1 Decoder.align 1 1 (u32 (d.0 * 2 ^ 4))
          ∙ direct_loop-Keeps (num_bits - 4) s from)

  -- A new distance changes nothing else: what does not depend on the newest distance stays true.
  pub new_distance-places :
      (P : Places → Type 0)
      → ((p : Places) (rep : ℕ) → P p → P (record p { rep0 = rep }))
      → (s : Decoder.State e o h) (len : ℕ) → P (places s)
      → P (places (Decoder.new_distance e o h s len))
  unfolding Decoder.new_distance
  new_distance-places P any s len w =
      let g = rc_bit_tree_decode e s.rc s.probs (Decoder.pos_slots + min len 3 * 2 ^ 6) 6 in
      let s' : Decoder.State e o h = record s { rc = g.rc; probs = g.probs; state = s.state + 7 } in
      let d = Decoder.slot_distance e o h s' g.symbol in
      let kept = slot_distance-Keeps s' g.symbol in
      if_has (λ (t : Decoder.State e o h). P (places t)) (leb 4 g.symbol)
        (λ _. any (places d.1) (u32 (d.0 + 1)) (subst P (sym kept) w))
        (λ _. any (places s') (g.symbol + 1) w)

  new_distance-IsOlder :
      (s : Decoder.State e o h) (len : ℕ)
      → IsOlder (places s)
      → IsOlder (places (Decoder.new_distance e o h s len))
  new_distance-IsOlder s len w =
      new_distance-places IsOlder
        (λ p rep w. record { whole = w.whole; back1 = w.back1; back2 = w.back2; back3 = w.back3 }) s
        len w

  pub older_rep-places :
      (s : Decoder.State e o h)
      → ((Decoder.older_rep e o h s).global_pos ≡ s.global_pos)
        × ((Decoder.older_rep e o h s).buffer_pos ≡ s.buffer_pos)
  unfolding Decoder.older_rep Decoder.choose
  older_rep-places s =
      let g1 = Decoder.choose e o h s (Decoder.is_rep_g1 + s.state) in
      let g2 = Decoder.choose e o h g1.next (Decoder.is_rep_g2 + s.state) in
      let P = λ (t : Decoder.State e o h).
        (t.global_pos ≡ s.global_pos) × (t.buffer_pos ≡ s.buffer_pos) in
      if_has P (g1.bit == 0) (λ _. (refl, refl))
        (λ _. if_has P (g2.bit == 0) (λ _. (refl, refl)) (λ _. (refl, refl)))

  older_rep-IsWritten :
      (s : Decoder.State e o h)
      → IsWritten (places s)
      → IsWritten (places (Decoder.older_rep e o h s))
  unfolding Decoder.older_rep Decoder.choose
  older_rep-IsWritten s w =
      let g1 = Decoder.choose e o h s (Decoder.is_rep_g1 + s.state) in
      let g2 = Decoder.choose e o h g1.next (Decoder.is_rep_g2 + s.state) in
      let P = λ (t : Decoder.State e o h). IsWritten (places t) in
      let all = w.older in
      if_has P (g1.bit == 0)
        (λ _. record {
          older = record {
            whole = all.whole;
            back1 = w.back0;
            back2 = all.back2;
            back3 = all.back3;
          };
          back0 = all.back1;
        })
        (λ _.
          if_has P (g2.bit == 0)
            (λ _. record {
              older = record {
                whole = all.whole;
                back1 = w.back0;
                back2 = all.back1;
                back3 = all.back3;
              };
              back0 = all.back2;
            })
            (λ _. record {
              older = record {
                whole = all.whole;
                back1 = w.back0;
                back2 = all.back1;
                back3 = all.back2;
              };
              back0 = all.back3;
            }))

  -- On an output in memory, a byte goes to the next place.
  module _ (in_memory : o.has_flush ≡ false) where
    pub write_byte-places :
        (s : Decoder.State e o h) (b : ℕ)
        → let r = Decoder.write_byte e o h s b in
          (places r.next ≡ record (places s) { place = s.buffer_pos + 1 }) × (r.good ≡ true)
    unfolding Decoder.write_byte
    write_byte-places s b = rw in_memory (refl, refl)

    further : (p : Places) → IsWritten p → IsWritten (record p { place = p.place + 1 })
    further p w = record {
      older = record {
        whole = w.older.whole;
        back1 = omega (arith, w.older.back1);
        back2 = omega (arith, w.older.back2);
        back3 = omega (arith, w.older.back3);
      };
      back0 = omega (arith, w.back0);
    }

    write_byte-IsWritten :
        (s : Decoder.State e o h) (b : ℕ)
        → IsWritten (places s)
        → IsWritten (places (Decoder.write_byte e o h s b).next)
    write_byte-IsWritten s b w =
        subst IsWritten (sym (write_byte-places s b).0) (further (places s) w)

    copy_bytes-IsWritten :
        (left : ℕ) (s : Decoder.State e o h) (rep : ℕ)
        → IsWritten (places s)
        → IsWritten (places (Decoder.copy_bytes e o h left s rep).next)
    unfolding Decoder.copy_bytes Decoder.copy_byte
    copy_bytes-IsWritten zero s rep w = w
    copy_bytes-IsWritten (suc left) s rep w =
        let r = Decoder.copy_byte e o h s rep in
        let first = write_byte-IsWritten s (Decoder.peek_old_byte e o h s rep) w in
        let P = λ (x : Decoder.Result e o h). IsWritten (places x.next) in
        if_has P (not r.good) (λ _. first)
          (λ _.
            if_has P (not (left == 0) && ltb r.next.buffer_pos h.dst_size)
              (λ _. copy_bytes-IsWritten left r.next rep first) (λ _. first))

    -- A literal takes one place further.
    pub process_bit0-places :
        (s : Decoder.State e o h)
        → places (Decoder.process_bit0 e o h s).next
          ≡ record (places s) { place = s.buffer_pos + 1 }
    unfolding Decoder.process_bit0
    process_bit0-places s =
        let base =
          Decoder.literals
          + 768
            * (bit_and (Decoder.get_pos e o h s) h.literal_pos_mask * 2 ^ h.lc
                + s.previous_byte / 2 ^ (8 - h.lc)) in
        let m = Decoder.matched_loop e o h 8 s base (Decoder.peek_old_byte e o h s s.rep0) 1 in
        let l : Decoder.Literal e o h =
          if leb 7 s.state then m else record { symbol = 1; next = s } in
        let r = Decoder.plain_loop e o h 8 l.next base l.symbol in
        let state =
          if ltb s.state 4 then 0 else if ltb s.state 10 then s.state - 3 else s.state - 6 in
        let first : Keeps s l.next =
          if_has (λ (l : Decoder.Literal e o h). Keeps s l.next) (leb 7 s.state)
            (λ _. matched_loop-Keeps 8 s base (Decoder.peek_old_byte e o h s s.rep0) 1)
            (λ _. refl) in
        (write_byte-places (record (r.next) { state = state }) (u8 r.symbol)).0
        ∙ ap (λ (p : Places). record p { place = p.place + 1 })
            (plain_loop-Keeps 8 l.next base l.symbol ∙ first)

    -- A match: the distances are right, unless it failed or is the end marker.
    finish_match-IsWritten :
        (s : Decoder.State e o h) (coder pos_state : ℕ)
        → IsWritten (places s)
        → let r = Decoder.finish_match e o h s coder pos_state in
          r.good ≡ true → r.next.rep0 ≢ 0 → IsWritten (places r.next)
    unfolding Decoder.finish_match Decoder.get_pos
    finish_match-IsWritten s coder pos_state w =
        let l = Decoder.decode_len e o h s coder pos_state in
        let t = Decoder.new_distance e o h l.next l.len in
        let start = subst IsWritten (sym (decode_len-Keeps s coder pos_state)) w in
        let older = new_distance-IsOlder l.next l.len start.older in
        let P = λ (r : Decoder.Result e o h).
          r.good ≡ true → r.next.rep0 ≢ 0 → IsWritten (places r.next) in
        if_has P (ltb s.state 4)
          (λ _.
            if_has P (t.rep0 == 0)
              (λ zero_rep good other. absurd (other (ground (arith, zero_rep))))
              (λ some_rep.
                if_has P (ltb h.dict_size t.rep0 || ltb (Decoder.get_pos e o h t) t.rep0)
                  (λ _ good other. absurd (ground (arith, good)))
                  (λ near good other. copy_bytes-IsWritten (l.len + 2) t t.rep0 (record {
                    older = older;
                    back0 = ground (arith, near, some_rep, older.whole);
                  }))))
          (λ _ good other. copy_bytes-IsWritten (l.len + 2) l.next l.next.rep0 start)

    process_bit1-IsWritten :
        (s : Decoder.State e o h) (pos_state : ℕ)
        → IsWritten (places s)
        → let r = Decoder.process_bit1 e o h s pos_state in
          r.good ≡ true → r.next.rep0 ≢ 0 → IsWritten (places r.next)
    unfolding Decoder.process_bit1 Decoder.choose Decoder.copy_byte
    process_bit1-IsWritten s pos_state w =
        let rep = Decoder.choose e o h s (Decoder.is_rep + s.state) in
        let fresh : Decoder.State e o h = record (rep.next) {
          rep3 = s.rep2;
          rep2 = s.rep1;
          rep1 = s.rep0;
          state = if ltb s.state 7 then 0 else 3;
        } in
        let g0 = Decoder.choose e o h rep.next (Decoder.is_rep_g0 + s.state) in
        let long =
          Decoder.choose e o h g0.next (Decoder.is_rep_0_long + s.state * 2 ^ 4 + pos_state) in
        let byte : Decoder.State e o h = record (long.next) {
          state = if ltb s.state 7 then 9 else 11;
        } in
        let after = if ltb s.state 7 then 8 else 11 in
        let older = Decoder.older_rep e o h g0.next in
        let P = λ (r : Decoder.Result e o h).
          r.good ≡ true → r.next.rep0 ≢ 0 → IsWritten (places r.next) in
        let all = w.older in
        let shifted : IsWritten (places fresh) = record {
          older = record {
            whole = all.whole;
            back1 = w.back0;
            back2 = all.back1;
            back3 = all.back2;
          };
          back0 = w.back0;
        } in
        if_has P (rep.bit == 0)
          (λ _. finish_match-IsWritten fresh Decoder.len_coder pos_state shifted)
          (λ _.
            if_has P (g0.bit == 0)
              (λ _.
                if_has P (long.bit == 0)
                  (λ _ _ _. write_byte-IsWritten byte (Decoder.peek_old_byte e o h byte s.rep0) w)
                  (λ _.
                    finish_match-IsWritten (record (long.next) { state = after })
                      Decoder.rep_len_coder pos_state w))
              (λ _.
                finish_match-IsWritten (record older { state = after }) Decoder.rep_len_coder
                  pos_state (older_rep-IsWritten g0.next w)))

    -- What a round leaves, if it goes on.
    abbrev Next : Decoder.Round e o h → Type 0
    Next r = r.turn ≡ Decoder.goes_on → IsWritten (places r.next)

    after_symbol-Next :
        (t : Decoder.State e o h) → IsWritten (places t) → Next (Decoder.after_symbol e o h t)
    unfolding Decoder.after_symbol
    after_symbol-Next t w = if_has Next (t.rc.size == 0) (λ _ _. w) (λ _ _. w)

    round-Next : (s : Decoder.State e o h) → IsWritten (places s) → Next (Decoder.round e o h s)
    unfolding Decoder.round
    round-Next s w =
        let pos_state = bit_and (Decoder.get_pos e o h s) h.pos_state_mask in
        let c = Decoder.choose e o h s (s.state * 2 ^ 4 + pos_state) in
        let start = subst IsWritten (sym (choose-Keeps s (s.state * 2 ^ 4 + pos_state))) w in
        let r0 = Decoder.process_bit0 e o h c.next in
        let r1 = Decoder.process_bit1 e o h c.next pos_state in
        let literal =
          subst IsWritten (sym (process_bit0-places c.next)) (further (places c.next) start) in
        if_has Next (c.bit == 0)
          (λ _.
            if_has Next (not r0.good) (λ _ turn. literal) (λ _. after_symbol-Next r0.next literal))
          (λ _.
            if_has Next (not r1.good) (λ _ turn. cc)
              (λ good.
                if_has Next (r1.next.rep0 == 0) (λ _ turn. cc)
                  (λ some_rep. after_symbol-Next r1.next (
                    process_bit1-IsWritten c.next pos_state start (ground (arith, good))
                      (λ z. ground (arith, some_rep, z))))))

    -- On an output in memory, without `flush`, the four distances lie between 1 and the number of bytes
    -- written from the first literal on: the literal establishes it where all distances are 1 and
    -- nothing is written yet, and every round that goes on keeps it.
    pub round-IsWritten :
        (s : Decoder.State e o h)
        → ((places s ≡ record { global = 0; place = 0; rep0 = 1; rep1 = 1; rep2 = 1; rep3 = 1 })
            → IsWritten (places (Decoder.process_bit0 e o h s).next))
          × (IsWritten (places s)
              → (Decoder.round e o h s).turn ≡ Decoder.goes_on
              → IsWritten (places (Decoder.round e o h s).next))
    round-IsWritten s = (
      λ first.
          subst IsWritten
            (sym
              (process_bit0-places s ∙ ap (λ (p : Places). record p { place = p.place + 1 }) first))
            one,
      λ w. round-Next s w,
    )
      where
        one : IsWritten (record { global = 0; place = 1; rep0 = 1; rep1 = 1; rep2 = 1; rep3 = 1 })
        one = record {
          older = record {
            whole = refl;
            back1 = (omega arith, omega arith);
            back2 = (omega arith, omega arith);
            back3 = (omega arith, omega arith);
          };
          back0 = (omega arith, omega arith);
        }
