-- ===== src/Ring/Cycle.antt =====
-- The cycle bits tell the controller which entries are new.
use mikan_os.Prelude.{
  some, ℕ, Bool, ◌+◌, ◌-◌, ◌%◌, ◌^◌, ◌<◌, ◌≤◌, ◌≡◌, refl, ◌==◌, bit_and, if◌then◌else◌, arith,
  Bool-cases, inl, inr,
}
use mikan_os.Prelude.Bits.{bit_and_low, bit_or_low}
use mikan_os.Ring.{
  Trb, Ring, initialize_ring, link_trb, with_cycle, copy_to_last, next_index, last_index, push_trb,
}

abbrev pub cycle_of : Trb → ℕ
cycle_of trb = trb.data3 % 2

-- The entries before the write index carry the cycle bit of the ring, the others, up to the end of the
-- array, the other one.
pub record IsCycled (r : Ring) : Type 0 where
  pub bit : r.cycle_bit ≤ 1
  pub index : r.write_index + 1 < r.buf_size
  pub size : r.buf_size < 2 ^ 64
  pub new : (i : ℕ) → i < r.write_index → cycle_of (r.buf i) ≡ r.cycle_bit
  pub old : (i : ℕ) → r.write_index ≤ i → i < r.buf_size → cycle_of (r.buf i) ≡ 1 - r.cycle_bit

pub cycle_of-with_cycle : (trb : Trb) (c : ℕ) → c ≤ 1 → cycle_of (with_cycle trb c) ≡ c
cycle_of-with_cycle trb c h =
    omega (arith, bit_and_low trb.data3 4294967294, bit_or_low (bit_and trb.data3 4294967294) c)

pub initialize_ring-IsCycled :
    (address buf_size : ℕ)
    → 2 ≤ buf_size
    → buf_size < 2 ^ 64
    → IsCycled (initialize_ring (some address) buf_size).1
unfolding initialize_ring
initialize_ring-IsCycled address buf_size l h = record {
  bit = omega arith;
  index = omega arith;
  size = h;
  new = λ i b. absurd (omega arith);
  old = λ i b e. refl;
}

-- `Push` away from the end of the array.
pushed-IsCycled :
    (r : Ring) (trb : Trb)
    → IsCycled r
    → r.write_index + 2 < r.buf_size
    → IsCycled (record (copy_to_last r trb) { write_index = r.write_index + 1 })
unfolding copy_to_last
pushed-IsCycled r trb v inner = record {
  bit = v.bit;
  index = omega arith;
  size = v.size;
  new = λ i b. ground (arith, cycle_of-with_cycle trb r.cycle_bit v.bit, v.new i);
  old = λ i b e. ground (arith, v.old i);
}

-- `Push` to the last entry before the link.
wrapped-IsCycled :
    (r : Ring) (trb : Trb)
    → IsCycled r
    → r.write_index + 2 ≡ r.buf_size
    → let next = record (copy_to_last r trb) { write_index = r.write_index + 1 } in
      IsCycled (record (copy_to_last next (link_trb r.address)) {
        write_index = 0;
        cycle_bit = 1 - r.cycle_bit;
      })
unfolding copy_to_last
wrapped-IsCycled r trb v last = record {
  bit = omega arith;
  index = omega (arith, v.index);
  size = v.size;
  new = λ i b. absurd (omega arith);
  old = λ i b e. ground (
    arith,
    cycle_of-with_cycle trb r.cycle_bit v.bit,
    cycle_of-with_cycle (link_trb r.address) r.cycle_bit v.bit,
    v.new i,
  );
}

-- `Push` without the wrap-around of `size_t`: a ring of two entries or more never meets it.
abbrev pub at_end : Ring → Bool
at_end r = r.write_index + 1 == r.buf_size - 1

pub push_trb_lem :
    (r : Ring) (trb : Trb)
    → IsCycled r
    → let next = record (copy_to_last r trb) { write_index = r.write_index + 1 } in
      (push_trb r trb).0 ≡ (
        if at_end r
        then record (copy_to_last next (link_trb r.address)) {
          write_index = 0;
          cycle_bit = 1 - r.cycle_bit;
        }
        else next)
unfolding push_trb copy_to_last
push_trb_lem r trb v =
    let e : next_index r.write_index ≡ r.write_index + 1 = omega (arith, v.index, v.size) in
    let f : last_index r.buf_size ≡ r.buf_size - 1 = omega (arith, v.index, v.size) in
    rw (push_trb, e, f) refl

pub push_trb-IsCycled : (r : Ring) (trb : Trb) → IsCycled r → IsCycled (push_trb r trb).0
push_trb-IsCycled r trb v =
    let next = record (copy_to_last r trb) { write_index = r.write_index + 1 } in
    rw (push_trb_lem r trb v) (elim (Bool-cases (at_end r)) [
      | inl end ↦ rw end (wrapped-IsCycled r trb v (ground (arith, v.index)))
      | inr inner ↦ rw inner (pushed-IsCycled r trb v (ground (arith, v.index)))
    ])
