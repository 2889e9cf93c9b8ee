-- ===== src/Ring/Reader.antt =====
-- Runs of pushes: a reader that follows the cycle bits gets what was pushed.
use mikan_os.Prelude.{
  some, ℕ, zero, suc, ◌+◌, ◌-◌, ◌<◌, ◌≤◌, ◌≡◌, ◌≢◌, ◌^◌, refl, ◌∙◌, ap, ap₂, sym, List, [], ◌∷◌,
  leb, ◌==◌, if◌then◌else◌, arith, Bool-cases, inl, inr, length, ==_no,
}
use mikan_os.Ring.{Trb, Ring, initialize_ring, with_cycle, copy_to_last, push_trb}
use mikan_os.Ring.Cycle.{
  IsCycled, cycle_of, cycle_of-with_cycle, initialize_ring-IsCycled, at_end, push_trb_lem,
  push_trb-IsCycled,
}

-- Pushes one after another.
unfoldable pub push_all : Ring → List Trb → Ring
push_all r [] = r
push_all r (trb ∷ trbs) = push_all (push_trb r trb).0 trbs

push_more-IsCycled : (trbs : List Trb) (r : Ring) → IsCycled r → IsCycled (push_all r trbs)
unfolding push_all
push_more-IsCycled [] r v = v
push_more-IsCycled (trb ∷ trbs) r v =
    push_more-IsCycled trbs (push_trb r trb).0 (push_trb-IsCycled r trb v)

-- After Initialize with memory, of a ring of two entries or more, which fits `size_t`, and any pushes: the entries
-- before the write index carry the cycle bit of the ring, and the others, the link among them, the
-- other bit; and the write index is before the link.
pub push_all-IsCycled :
    (address buf_size : ℕ) (trbs : List Trb)
    → 2 ≤ buf_size
    → buf_size < 2 ^ 64
    → IsCycled (push_all (initialize_ring (some address) buf_size).1 trbs)
push_all-IsCycled address buf_size trbs l h =
    push_more-IsCycled trbs (initialize_ring (some address) buf_size).1
      (initialize_ring-IsCycled address buf_size l h)

-- The entries of the pushes, each with the cycle bit that the ring had.
unfoldable pub entries : Ring → List Trb → List Trb
entries r [] = []
entries r (trb ∷ trbs) = with_cycle trb r.cycle_bit ∷ entries (push_trb r trb).0 trbs

-- At most `n` entries that a reader takes from index `i` on when it expects the cycle bit `c`. At the
-- link, the last entry, it goes back to the start and expects the other bit.
unfoldable pub read_entries : ℕ → (ℕ → Trb) → ℕ → ℕ → ℕ → List Trb
read_entries zero buf last i c = []
read_entries (suc n) buf last i c =
    let rest =
      if i + 1 == last
      then read_entries n buf last 0 (1 - c)
      else read_entries n buf last (i + 1) c in
    if cycle_of (buf i) == c then buf i ∷ rest else []

pushed-buf_size : (r : Ring) (trb : Trb) → IsCycled r → (push_trb r trb).0.buf_size ≡ r.buf_size
unfolding copy_to_last
pushed-buf_size r trb v = rw (push_trb_lem r trb v) (ground arith)

-- How many pushes come before the one to `i`.
abbrev distance : Ring → ℕ → ℕ
distance r i =
    if leb r.write_index i then i - r.write_index else i + (r.buf_size - 1) - r.write_index

pushed-buf :
    (r : Ring) (trb : Trb) (i : ℕ)
    → IsCycled r
    → i + 1 < r.buf_size
    → 0 < distance r i
    → let r' = (push_trb r trb).0 in (r'.buf i ≡ r.buf i) × (distance r' i + 1 ≡ distance r i)
unfolding copy_to_last
pushed-buf r trb i v inside far = rw (push_trb_lem r trb v) (elim (Bool-cases (at_end r)) [
  | inl end ↦ rw end (ground (arith, v.index), ground (arith, v.index))
  | inr inner ↦ rw inner (ground (arith, v.index), ground (arith, v.index))
])

kept :
    (trbs : List Trb) (r : Ring) (i : ℕ)
    → IsCycled r
    → i + 1 < r.buf_size
    → length trbs ≤ distance r i
    → (push_all r trbs).buf i ≡ r.buf i
unfolding push_all
kept [] r i v inside far = refl
kept (trb ∷ trbs) r i v inside far =
    let r' = (push_trb r trb).0 in
    let (same, near) = pushed-buf r trb i v inside (omega (arith, far)) in
    let size = pushed-buf_size r trb v in
    kept trbs r' i (push_trb-IsCycled r trb v) (omega (arith, size, inside))
      (omega (arith, near, far))
    ∙ same

-- The entry that is pushed, and the place of the next one.
pushed-entry :
    (r : Ring) (trb : Trb)
    → IsCycled r
    → let r' = (push_trb r trb).0 in
      (r'.buf r.write_index ≡ with_cycle trb r.cycle_bit)
      × (r'.write_index ≡ (if at_end r then 0 else r.write_index + 1))
      × (r'.cycle_bit ≡ (if at_end r then 1 - r.cycle_bit else r.cycle_bit))
      × (distance r' r.write_index + 2 ≡ r.buf_size)
unfolding copy_to_last
pushed-entry r trb v = rw (push_trb_lem r trb v) (elim (Bool-cases (at_end r)) [
  | inl end ↦ rw end (ground arith, refl, refl, ground (arith, v.index))
  | inr inner ↦ rw inner (ground arith, refl, refl, ground (arith, v.index))
])

read_round :
    (n : ℕ) (buf : ℕ → Trb) (last i c : ℕ)
    → cycle_of (buf i) ≡ c
    → read_entries (suc n) buf last i c
      ≡ buf i
        ∷ read_entries n buf last
            (if i + 1 == last then 0 else i + 1)
            (if i + 1 == last then 1 - c else c)
unfolding read_entries
read_round n buf last i c new = elim (Bool-cases (i + 1 == last)) [
  | inl end ↦ rw (read_entries, new, end) (ground arith)
  | inr inner ↦ rw (read_entries, new, inner) (ground arith)
]

-- After at most as many pushes as the ring has entries before its link, a reader that starts at the
-- write index of before, and expects the cycle bit of before, gets the entries pushed, in order and
-- each once, and then stops, as the next entry has the other bit.
pub read-push_all :
    (trbs : List Trb) (r : Ring)
    → IsCycled r
    → length trbs < r.buf_size
    → read_entries
        (suc (length trbs))
        (push_all r trbs).buf
        (r.buf_size - 1)
        r.write_index
        r.cycle_bit
      ≡ entries r trbs
unfolding read_entries entries push_all
read-push_all [] r v h =
    let other : cycle_of (r.buf r.write_index) ≢ r.cycle_bit = λ e.
      omega
        (arith, v.bit, v.index, v.old r.write_index (omega arith) (omega (arith, v.index)), e) in
    rw (==_no (cycle_of (r.buf r.write_index)) r.cycle_bit other) refl
read-push_all (trb ∷ trbs) r v h =
    let r' = (push_trb r trb).0 in
    let buf = (push_all r' trbs).buf in
    let v' = push_trb-IsCycled r trb v in
    let size = pushed-buf_size r trb v in
    let (entry, index, bit, far) = pushed-entry r trb v in
    let mine : buf r.write_index ≡ with_cycle trb r.cycle_bit =
      kept trbs r' r.write_index v' (omega (arith, size, v.index)) (omega (arith, far, h))
      ∙ entry in
    let ih = read-push_all trbs r' v' (omega (arith, size, h)) in
    read_round (suc (length trbs)) buf (r.buf_size - 1) r.write_index r.cycle_bit
      (ap cycle_of mine ∙ cycle_of-with_cycle trb r.cycle_bit v.bit)
    ∙ ap₂ ◌∷◌ mine (
        ap₂ (read_entries (suc (length trbs)) buf (r.buf_size - 1)) (sym index) (sym bit)
        ∙ ap (λ (k : ℕ). read_entries (suc (length trbs)) buf (k - 1) r'.write_index r'.cycle_bit)
            (sym size)
        ∙ ih)
