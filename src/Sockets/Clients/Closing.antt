-- ===== src/Sockets/Clients/Closing.antt =====
-- What `close_client` leaves in the table.
use systemy_operacyjne_c.Base.{
  All, ℕ, zero, suc, ◌+◌, ◌-◌, ◌≤◌, ◌≡◌, ◌≢◌, refl, sym, ap, ◌∙◌, Bool, false, List, [], ◌∷◌, ◌++◌,
  arith, length, take, get_or, set, append_assoc, append-nil, length-append, take-append,
}
use systemy_operacyjne_c.Base.Int.{ℤ, minus_one, eqb_ℤ_iff}
use systemy_operacyjne_c.Sockets.Clients.{Clients, fd_at, returns, close_loop, close_client}

-- The clients in the table.
abbrev pub live : Clients → List ℤ
live c = take c.count c.client_fds

-- The descriptors that stay behind a closed one: those after it move up but for the last, which is
-- lost, and the place before that keeps what it had.
abbrev pub kept : ℤ → List ℤ → List ℤ
kept x [] = []
kept x (p ∷ []) = x ∷ []
kept x (p ∷ q ∷ r) = p ∷ kept p (q ∷ r)

get_or-middle : (A : List ℤ) (x d : ℤ) (B : List ℤ) → get_or (A ++ (x ∷ B)) (length A) d ≡ x
get_or-middle [] x d B = refl
get_or-middle (a ∷ A) x d B = get_or-middle A x d B

set-middle : (A : List ℤ) (x v : ℤ) (B : List ℤ) → set (A ++ (x ∷ B)) (length A) v ≡ A ++ (v ∷ B)
set-middle [] x v B = refl
set-middle (a ∷ A) x v B = ap (λ t. a ∷ t) (set-middle A x v B)

live_front :
    (A : List ℤ) (x : ℤ) (tail : List ℤ) (c : Clients)
    → c.client_fds ≡ A ++ (x ∷ tail)
    → c.count ≡ length A + 0
    → live c ≡ A ++ []
live_front A x tail c e n =
    ap (take c.count) e ∙ take-append A (x ∷ tail) c.count (omega arith) ∙ sym (append-nil A)

live_next :
    (A : List ℤ) (x p : ℤ) (tail : List ℤ) (c : Clients)
    → c.client_fds ≡ A ++ (x ∷ p ∷ tail)
    → c.count ≡ length A + 1
    → live c ≡ A ++ (x ∷ [])
live_next A x p tail c e n =
    ap (take c.count) (e ∙ sym (append_assoc A (x ∷ []) (p ∷ tail)))
    ∙ take-append (A ++ (x ∷ [])) (p ∷ tail) c.count (omega (arith, length-append A (x ∷ [])))

fd_after :
    (A : List ℤ) (x p : ℤ) (tail : List ℤ) (c : Clients)
    → c.client_fds ≡ A ++ (x ∷ p ∷ tail)
    → fd_at c (length A + 1) ≡ p
fd_after A x p tail c e =
    ap (λ f. get_or f (length A + 1) minus_one) (e ∙ sym (append_assoc A (x ∷ []) (p ∷ tail)))
    ∙ ap (λ k. get_or ((A ++ (x ∷ [])) ++ (p ∷ tail)) k minus_one)
        (omega (arith, length-append A (x ∷ [])))
    ∙ get_or-middle (A ++ (x ∷ [])) p minus_one tail

module _ (close_fails : ℤ → Bool) (fd : ℤ) where
  -- After the match: `x` is the entry to overwrite next.
  after_match :
      (left : ℕ) (A : List ℤ) (x : ℤ) (post tail : List ℤ) (c : Clients)
      → c.client_fds ≡ A ++ (x ∷ (post ++ tail))
      → c.count ≡ length A + length post
      → All (λ y. y ≢ fd) post
      → length post ≤ left
      → (c' : Clients) × (close_loop close_fails fd left (length A + 1) (length A) c ≡ returns c')
        × (live c' ≡ A ++ kept x post)
        × (c'.count ≡ c.count)
  unfolding close_loop
  after_match zero A x [] tail c e n a h = (c, refl, live_front A x tail c e n, refl)
  after_match zero A x (p ∷ post) tail c e n a h = absurd (omega arith)
  after_match (suc left) A x [] tail c e n a h = (c, ground arith, live_front A x tail c e n, refl)
  after_match (suc left) A x (p ∷ []) tail c e n a h =
      (c, ground arith, live_next A x p tail c e (omega arith), refl)
  after_match (suc left) A x (p ∷ q ∷ r) tail c e n a h =
      let c1 : Clients = record c {
        client_fds = set c.client_fds (length A) (fd_at c (length A + 1));
      } in
      let found : fd_at c (length A + 1) ≡ p = fd_after A x p _ c e in
      let (c', run, shape, size) =
        after_match left (A ++ (p ∷ [])) p (q ∷ r) tail c1
          (ap (λ f. set f (length A) (fd_at c (length A + 1))) e
            ∙ ap (λ v. set (A ++ (x ∷ (p ∷ q ∷ r) ++ tail)) (length A) v) found
            ∙ set-middle A x p ((p ∷ q ∷ r) ++ tail)
            ∙ sym (append_assoc A (p ∷ []) (p ∷ ((q ∷ r) ++ tail))))
          (omega (arith, length-append A (p ∷ []))) a.1 (omega arith) in
      (
        c',
        ground (arith, found, eqb_ℤ_iff p fd, a.0, run, length-append A (p ∷ [])),
        shape ∙ append_assoc A (p ∷ []) (kept p (q ∷ r)),
        size,
      )

  -- Before the match each entry is copied onto itself.
  before_match :
      (left : ℕ) (pre A : List ℤ) (post tail : List ℤ) (c : Clients)
      → c.client_fds ≡ A ++ (pre ++ (fd ∷ (post ++ tail)))
      → c.count ≡ length A + (length pre + suc (length post))
      → All (λ y. y ≢ fd) pre
      → All (λ y. y ≢ fd) post
      → close_fails fd ≡ false
      → length pre + suc (length post) ≤ left
      → (c' : Clients) × (close_loop close_fails fd left (length A) (length A) c ≡ returns c')
        × (live c' ≡ A ++ (pre ++ kept fd post))
        × (c'.count + 1 ≡ c.count)
  unfolding close_loop
  before_match zero pre A post tail c e n a b ok h = absurd (omega arith)
  before_match (suc left) [] A post tail c e n a b ok h =
      let found : fd_at c (length A) ≡ fd =
        ap (λ f. get_or f (length A) minus_one) e ∙ get_or-middle A fd minus_one (post ++ tail) in
      let c1 : Clients = record c { count = c.count - 1 } in
      let (c', run, shape, size) =
        after_match left A fd post tail c1 e (omega (arith, n)) b (omega arith) in
      (c', ground (arith, found, eqb_ℤ_iff fd fd, ok, run), shape, omega (arith, size, n))
  before_match (suc left) (p ∷ pre) A post tail c e n a b ok h =
      let found : fd_at c (length A) ≡ p =
        ap (λ f. get_or f (length A) minus_one) e ∙ get_or-middle A p minus_one _ in
      let c1 : Clients = record c {
        client_fds = set c.client_fds (length A) (fd_at c (length A));
      } in
      let (c', run, shape, size) =
        before_match left pre (A ++ (p ∷ [])) post tail c1
          (ap (λ f. set f (length A) (fd_at c (length A))) e
            ∙ ap (λ v. set (A ++ (p ∷ (pre ++ (fd ∷ (post ++ tail))))) (length A) v) found
            ∙ set-middle A p p (pre ++ (fd ∷ (post ++ tail)))
            ∙ sym (append_assoc A (p ∷ []) (pre ++ (fd ∷ (post ++ tail)))))
          (omega (arith, n, length-append A (p ∷ []))) a.1 b ok (omega arith) in
      (
        c',
        ground (arith, found, eqb_ℤ_iff p fd, a.0, run, length-append A (p ∷ [])),
        shape ∙ append_assoc A (p ∷ []) (pre ++ kept fd post),
        size,
      )

-- What closing the descriptor `fd` of a client leaves, in a table where no other client has it, if
-- `close` succeeds. The
-- clients before it stay. Of those behind it each moves up by one, except the last: it is dropped,
-- and the entry before it is there twice; the closed descriptor itself stays if one client was
-- behind it.
pub close_client_lem :
    (close_fails : ℤ → Bool) (fd : ℤ) (pre post tail : List ℤ) (c : Clients)
    → c.client_fds ≡ pre ++ (fd ∷ (post ++ tail))
    → c.count ≡ length pre + suc (length post)
    → All (λ y. y ≢ fd) pre
    → All (λ y. y ≢ fd) post
    → close_fails fd ≡ false
    → (c' : Clients) × (close_client close_fails fd c ≡ returns c')
      × (live c' ≡ pre ++ kept fd post)
      × (c'.count + 1 ≡ c.count)
unfolding close_client
close_client_lem close_fails fd pre post tail c e n a b ok =
    before_match close_fails fd c.count pre [] post tail c e (omega (arith, n)) a b ok
      (omega (arith, n))
