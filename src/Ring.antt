-- ===== src/Ring.antt =====
-- kernel/usb/xhci/ring.hpp and kernel/usb/xhci/ring.cpp: the command and transfer rings that the USB
-- host controller reads. The event ring, whose state is in registers, is not modelled.
pub mod Cycle
pub mod Reader
mod Tests
use mikan_os.Error.{Code}
use mikan_os.Prelude.{
  Option, none, some, ℕ, ◌+◌, ◌-◌, ◌*◌, ◌/◌, ◌%◌, ◌^◌, List, [], ◌∷◌, Bool, ◌==◌, bit_and, bit_or,
  if◌then◌else◌,
}

-- Four words of 32 bits.
pub record Trb : Type 0 where
  pub data0 : ℕ
  pub data1 : ℕ
  pub data2 : ℕ
  pub data3 : ℕ

pub record Ring : Type 0 where
  -- the address of the array, and the array
  pub address : ℕ
  pub buf : ℕ → Trb
  pub buf_size : ℕ
  pub cycle_bit : ℕ
  pub write_index : ℕ

abbrev pub zero_trb : Trb
zero_trb = record { data0 = 0; data1 = 0; data2 = 0; data3 = 0 }

-- A ring with its array at an address, 0 for none.
abbrev pub empty_ring : ℕ → ℕ → Ring
empty_ring address buf_size = record {
  address = address;
  buf = λ i. zero_trb;
  buf_size = buf_size;
  cycle_bit = 1;
  write_index = 0;
}

-- `Ring::Initialize`, with what `AllocArray` returns.
unfoldable pub initialize_ring : Option ℕ → ℕ → Code × Ring
initialize_ring none buf_size = (Code.no_enough_memory, empty_ring 0 buf_size)
initialize_ring (some address) buf_size = (Code.success, empty_ring address buf_size)

-- A `LinkTRB` with its pointer and `toggle_cycle`: the type 6 stands at bit 10, `toggle_cycle` at bit 1.
abbrev pub link_trb : ℕ → Trb
link_trb address = record {
  data0 = address / 2 ^ 4 * 2 ^ 4 % 2 ^ 32;
  data1 = address / 2 ^ 32 % 2 ^ 32;
  data2 = 0;
  data3 = 6 * 2 ^ 10 + 2;
}

-- The entry as it is written: bit 0 of the last word is the cycle bit.
abbrev pub with_cycle : Trb → ℕ → Trb
with_cycle trb cycle_bit = record trb { data3 = bit_or (bit_and trb.data3 4294967294) cycle_bit }

-- `CopyToLast`.
unfoldable pub copy_to_last : Ring → Trb → Ring
copy_to_last r trb = record r {
  buf = λ i. if i == r.write_index then with_cycle trb r.cycle_bit else r.buf i;
}

-- `++write_index_` and `buf_size_ - 1`.
abbrev pub next_index : ℕ → ℕ
next_index i = (i + 1) % 2 ^ 64

abbrev pub last_index : ℕ → ℕ
last_index buf_size = (buf_size + 2 ^ 64 - 1) % 2 ^ 64

-- `Push`, with the index of the entry that it returns.
unfoldable pub push_trb : Ring → Trb → Ring × ℕ
push_trb r trb =
    let written = copy_to_last r trb in
    let next = record written { write_index = next_index r.write_index } in
    let linked = copy_to_last next (link_trb r.address) in
    let wrapped = record linked { write_index = 0; cycle_bit = 1 - r.cycle_bit } in
    (if next.write_index == last_index r.buf_size then wrapped else next, r.write_index)
