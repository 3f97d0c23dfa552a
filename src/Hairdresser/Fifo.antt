-- ===== src/Hairdresser/Fifo.antt =====
-- The waiting room of cw07 (fifo.h and fifo.c, the same text in zad1 and zad2): a ring of process
-- ids in shared memory. `max` and `tail` are `int`s that the code never makes negative; `head` is
-- -1 while the room is empty. A function that updates `*fifo` returns its result and the new ring.
pub mod Queue
pub mod Refine
use systemy_operacyjne_c.Base.{ℕ, ◌+◌, List, Bool, true, false, if◌then◌else◌, ◌==◌, get_or, set}
use systemy_operacyjne_c.Base.Int.{ℤ, pos, minus_one, pos_part, eqb_ℤ, suc_ℤ}

-- `typedef struct Fifo`
pub record Fifo : Type 0 where
  pub max : ℕ
  pub head : ℤ
  pub tail : ℕ
  pub chair : ℤ
  pub tab : List ℤ

unfoldable pub fifo_init : Fifo → ℕ → Fifo
fifo_init fifo cn = record fifo { max = cn; head = minus_one; tail = 0; chair = pos 0 }

unfoldable pub is_empty_fifo : Fifo → Bool
is_empty_fifo fifo = if eqb_ℤ fifo.head minus_one then true else false

unfoldable pub is_full_fifo : Fifo → Bool
is_full_fifo fifo = if eqb_ℤ fifo.head (pos fifo.tail) then true else false

-- The read of `tab` is out of range only at a negative head, which `is_empty_fifo` excludes.
unfoldable pub pop_fifo : Fifo → ℤ × Fifo
unfolding is_empty_fifo
pop_fifo fifo =
    let taken : Fifo = record fifo {
      chair = get_or fifo.tab (pos_part fifo.head) (pos 0);
      head = suc_ℤ fifo.head;
    } in
    let turned : Fifo =
      if eqb_ℤ taken.head (pos taken.max) then record taken { head = pos 0 } else taken in
    let left : Fifo =
      if eqb_ℤ turned.head (pos turned.tail) then record turned { head = minus_one } else turned in
    if is_empty_fifo fifo then (minus_one, fifo) else (left.chair, left)

unfoldable pub push_fifo : Fifo → ℤ → ℤ × Fifo
unfolding is_empty_fifo is_full_fifo
push_fifo fifo x =
    let opened : Fifo = if is_empty_fifo fifo then record fifo { head = pos fifo.tail } else fifo in
    let stored : Fifo = record opened {
      tab = set opened.tab opened.tail x;
      tail = opened.tail + 1;
    } in
    let turned : Fifo = if stored.tail == stored.max then record stored { tail = 0 } else stored in
    if is_full_fifo fifo then (minus_one, fifo) else (pos 0, turned)
