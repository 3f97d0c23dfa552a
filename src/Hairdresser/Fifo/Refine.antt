-- ===== src/Hairdresser/Fifo/Refine.antt =====
-- A valid ring of fifo.c behaves as the bounded queue of the ids that it holds.
use systemy_operacyjne_c.Base.{
  ℕ, zero, suc, ◌+◌, ◌-◌, ◌≤◌, ◌<◌, ◌≡◌, ◌≢◌, refl, ap, ap₂, ◌∙◌, List, [], ◌∷◌, ◌++◌, arith, ltb,
  if◌then◌else◌, length, get_or, set, length-set, get_or-set_self, get_or-set_ne,
}
use systemy_operacyjne_c.Base.Int.{ℤ, pos, negsuc, minus_one, pos_part}
use systemy_operacyjne_c.Hairdresser.Fifo.Queue
use systemy_operacyjne_c.Hairdresser.Fifo.{Fifo, fifo_init, pop_fifo, push_fifo}

-- -1, or an index below `max`
abbrev pub HeadIn : ℤ → ℕ → Type 0
HeadIn (pos h) max = h < max
HeadIn (negsuc n) max = n ≡ 0

pub record IsValid (f : Fifo) : Type 0 where
  pub room : 0 < f.max
  pub storage : f.max ≤ length f.tab
  pub tail_in : f.tail < f.max
  pub head_in : HeadIn f.head f.max

-- The chair is no part of the ring.
pub sit-IsValid : (f : Fifo) (z : ℤ) → IsValid f → IsValid (record f { chair = z })
sit-IsValid f z v = record {
  room = v.room;
  storage = v.storage;
  tail_in = v.tail_in;
  head_in = v.head_in;
}

-- index `i`, which is below `2 * max`, taken round the ring
abbrev wrap : ℕ → ℕ → ℕ
wrap max i = if ltb i max then i else i - max

-- the `n` entries from index `h` on
abbrev window : List ℤ → ℕ → ℕ → ℕ → List ℤ
window tab max h zero = []
window tab max h (suc n) = get_or tab h (pos 0) ∷ window tab max (wrap max (h + 1)) n

-- how many ids the ring holds
abbrev pub held : Fifo → ℤ → ℕ
held f (negsuc _) = 0
held f (pos h) = if ltb h f.tail then f.tail - h else f.max - h + f.tail

abbrev pub contents : Fifo → List ℤ
contents f = window f.tab f.max (pos_part f.head) (held f f.head)

length-window : (tab : List ℤ) (max h n : ℕ) → length (window tab max h n) ≡ n
length-window tab max h zero = refl
length-window tab max h (suc n) = ap suc (length-window tab max (wrap max (h + 1)) n)

window_of_pos :
    (tab : List ℤ) (max h n : ℕ)
    → 0 < n
    → window tab max h n ≡ get_or tab h (pos 0) ∷ window tab max (wrap max (h + 1)) (n - 1)
window_of_pos tab max h zero p = elim p [ ]
window_of_pos tab max h (suc n) p = ap (λ k. window tab max h (suc k)) (omega arith)

-- A write just past a window that does not fill the ring extends it.
window-set :
    (tab : List ℤ) (max : ℕ) (x : ℤ) (n h i : ℕ)
    → max ≤ length tab
    → h < max
    → n < max
    → i ≡ wrap max (h + n)
    → window (set tab i x) max h (suc n) ≡ window tab max h n ++ (x ∷ [])
window-set tab max x zero h i hs hh hn e =
    ap (λ y. y ∷ [])
      (ap (λ k. get_or (set tab k x) h (pos 0)) (ground (arith, e))
        ∙ get_or-set_self tab h x (pos 0) (omega arith))
window-set tab max x (suc n) h i hs hh hn e =
    ap₂ ◌∷◌ (get_or-set_ne tab i h x (pos 0) (ground (arith, e))) (
      window-set tab max x n (wrap max (h + 1)) i hs (ground arith) (omega arith)
        (ground (arith, e)))

pub length-contents : (f : Fifo) → length (contents f) ≡ held f f.head
length-contents f = length-window f.tab f.max (pos_part f.head) (held f f.head)

-- `fifoInit` leaves an empty, valid room, if the array holds `cn` ids.
pub fifo_init-IsValid :
    (f : Fifo) (cn : ℕ)
    → 0 < cn
    → cn ≤ length f.tab
    → IsValid (fifo_init f cn) × (contents (fifo_init f cn) ≡ [])
unfolding fifo_init
fifo_init-IsValid f cn h k = (record { room = h; storage = k; tail_in = h; head_in = refl }, refl)

-- `pushFifo` keeps the ring valid.
pub push_fifo-IsValid : (f : Fifo) (x : ℤ) → IsValid f → IsValid (push_fifo f x).1
unfolding push_fifo
push_fifo-IsValid f x v = ground (arith, length-set f.tab f.tail x)

-- `popFifo` keeps the ring valid.
pub pop_fifo-IsValid : (f : Fifo) → IsValid f → IsValid (pop_fifo f).1
unfolding pop_fifo
pop_fifo-IsValid f v = ground arith

pub max-push_fifo : (f : Fifo) (x : ℤ) → (push_fifo f x).1.max ≡ f.max
unfolding push_fifo
max-push_fifo f x = ground arith

pub max-pop_fifo : (f : Fifo) → (pop_fifo f).1.max ≡ f.max
unfolding pop_fifo
max-pop_fifo f = ground arith

pub chair-push_fifo : (f : Fifo) (x : ℤ) → (push_fifo f x).1.chair ≡ f.chair
unfolding push_fifo
chair-push_fifo f x = ground arith

pub chair-pop_fifo : (f : Fifo) → (pop_fifo f).0 ≢ minus_one → (pop_fifo f).1.chair ≡ (pop_fifo f).0
unfolding pop_fifo
chair-pop_fifo f h = ground arith

-- On a valid ring `pushFifo` returns what a bounded queue returns for the ids that the ring holds, in
-- their order, and leaves a valid ring with the ids that the queue leaves.
pub push_fifo_refines :
    (f : Fifo) (x : ℤ)
    → IsValid f
    → let (r, f') = push_fifo f x in
      IsValid f' × ((r, contents f') ≡ Queue.push f.max (contents f) x)
unfolding push_fifo Queue.push
push_fifo_refines f x v = (
  push_fifo-IsValid f x v,
  ground (
    arith,
    length-contents f,
    window-set f.tab f.max x (held f f.head) (pos_part f.head) f.tail,
    get_or-set_self f.tab f.tail x (pos 0),
  ),
)

-- On a valid ring `popFifo` returns what the queue of the ids that the ring holds returns, and leaves
-- a valid ring with the ids that the queue leaves.
pub pop_fifo_refines :
    (f : Fifo)
    → IsValid f
    → let (r, f') = pop_fifo f in IsValid f' × ((r, contents f') ≡ Queue.pop (contents f))
unfolding pop_fifo Queue.pop
pop_fifo_refines f v = (
  pop_fifo-IsValid f v,
  ground (arith, window_of_pos f.tab f.max (pos_part f.head) (held f f.head)),
)
