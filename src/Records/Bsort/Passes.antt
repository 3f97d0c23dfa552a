-- ===== src/Records/Bsort/Passes.antt =====
-- What the reads, the writes and the passes of bsort.c do to a file that holds whole records.
use systemy_operacyjne_c.Base.{
  All, ℕ, ◌+◌, ◌*◌, ◌-◌, ◌≡◌, refl, sym, ap, ap₂, ◌∙◌, Bool, true, ◌||◌, List, [], ◌∷◌, ◌++◌,
  if◌then◌else◌, arith, length, take, drop, replicate, append_assoc, length-append, drop-append,
  take-append, Bool-cases, inl, inr, ◌==◌, ==_iff,
}
use systemy_operacyjne_c.Records.Io.{
  ok, RecordIo, IsRecordIo, Handle, read_bytes, overwrite, bind_ok, pure,
}
use systemy_operacyjne_c.Records.Bsort.{
  out_of_order, read_record, write_record, swap_adjacent, pass,
}
use systemy_operacyjne_c.Records.Bsort.Bubble.{Rec, lower, top, swaps}

-- The bytes of a file of records.
unfoldable pub concat : List Rec → List ℕ
concat [] = []
concat (r ∷ rs) = r ++ concat rs

pub concat-append : (rs ss : List Rec) → concat (rs ++ ss) ≡ concat rs ++ concat ss
unfolding concat
concat-append [] ss = refl
concat-append (r ∷ rs) ss =
    ap (λ t. r ++ t) (concat-append rs ss) ∙ sym (append_assoc r (concat rs) (concat ss))

pub read_bytes_at :
    (f : Handle) (A x B : List ℕ) (n : ℕ)
    → f.bytes ≡ A ++ (x ++ B)
    → f.offset ≡ length A
    → length x ≡ n
    → read_bytes n f ≡ x
read_bytes_at f A x B n e o l =
    ap (λ t. take n (drop f.offset t)) e
    ∙ ap (λ t. take n t) (drop-append A (x ++ B) f.offset o)
    ∙ take-append x B n (sym l)

overwrite_at :
    (w : List ℕ) (f : Handle) (A x B : List ℕ)
    → f.bytes ≡ A ++ (x ++ B)
    → f.offset ≡ length A
    → length w ≡ length x
    → overwrite w f ≡ A ++ (w ++ B)
overwrite_at w f A x B e o l = ap₂ (λ a b. a ++ (w ++ b)) front back
  where
    zeros : List ℕ
    zeros = replicate (f.offset - length f.bytes) 0

    front : take f.offset (f.bytes ++ zeros) ≡ A
    front =
        ap (λ t. take f.offset (t ++ zeros)) e
        ∙ ap (λ t. take f.offset t) (append_assoc A (x ++ B) zeros)
        ∙ take-append A ((x ++ B) ++ zeros) f.offset o

    back : drop (f.offset + length w) f.bytes ≡ B
    back =
        ap (λ t. drop (f.offset + length w) t) (e ∙ sym (append_assoc A x B))
        ∙ drop-append (A ++ x) B (f.offset + length w) (omega (arith, length-append A x))

module _ {S : Type 0} (io : RecordIo S) (laws : IsRecordIo io) (size : ℕ) where
  -- The file holds `A`, then `R`, and the offset stands between them.
  pub record At (s : S) (A R : List ℕ) : Type 0 where
    pub held : (io.file s).bytes ≡ A ++ R
    pub between : (io.file s).offset ≡ length A

  pub seek-At :
      (s : S) (A R : List ℕ) (k : ℕ)
      → (io.file s).bytes ≡ A ++ R
      → k ≡ length A
      → At (io.seek k s) A R
  seek-At s A R k h e = record {
    held = laws.bytes-seek k s ∙ h;
    between = laws.offset-seek k s ∙ e;
  }

  pub read-At :
      (s : S) (A x B : List ℕ)
      → At s A (x ++ B)
      → io.readable s ≡ true
      → length x ≡ size
      → (read_record io size s ≡ (ok x, (io.read size s).1)) × At (io.read size s).1 (A ++ x) B
  unfolding read_record
  read-At s A x B at ready l = (returned, record { held = held; between = between })
    where
      got : read_bytes size (io.file s) ≡ x
      got = read_bytes_at (io.file s) A x B size at.held at.between l

      answer : io.read size s ≡ (ok x, (io.read size s).1)
      answer = λ i. ((laws.ok-read size s ready ∙ ap ok got) i, (io.read size s).1)

      returned : read_record io size s ≡ (ok x, (io.read size s).1)
      returned =
          bind_ok (io.read size) (λ r. if length r == size then pure r else _) answer
          ∙ rw ((==_iff (length x) size).1 l)

      held : (io.file (io.read size s).1).bytes ≡ (A ++ x) ++ B
      held = laws.bytes-read size s ready ∙ at.held ∙ sym (append_assoc A x B)

      between : (io.file (io.read size s).1).offset ≡ length (A ++ x)
      between =
          omega (arith, laws.offset-read size s ready, ap length got, at.between, length-append A x)

  pub write-At :
      (s : S) (A x B w : List ℕ)
      → At s A (x ++ B)
      → io.writable s ≡ true
      → length x ≡ size
      → length w ≡ size
      → (write_record io size w s ≡ (ok tt, (io.write w s).1)) × At (io.write w s).1 (A ++ w) B
  unfolding write_record
  write-At s A x B w at ready l m = (returned, record { held = held; between = between })
    where
      answer : io.write w s ≡ (ok (length w), (io.write w s).1)
      answer = λ i. (laws.ok-write w s ready i, (io.write w s).1)

      returned : write_record io size w s ≡ (ok tt, (io.write w s).1)
      returned =
          bind_ok (io.write w) (λ n. if n == size then pure tt else _) answer
          ∙ rw ((==_iff (length w) size).1 m)

      held : (io.file (io.write w s).1).bytes ≡ (A ++ w) ++ B
      held =
          laws.bytes-write w s ready
          ∙ overwrite_at w (io.file s) A x B at.held at.between (m ∙ sym l)
          ∙ sym (append_assoc A w B)

      between : (io.file (io.write w s).1).offset ≡ length (A ++ w)
      between = omega (arith, laws.offset-write w s ready, at.between, length-append A w)

  -- One round puts two neighbours in order.
  pub swap_adjacent_lem :
      (s : S) (A x y B : List ℕ) (k : ℕ)
      → (io.file s).bytes ≡ A ++ (x ++ (y ++ B))
      → k * size ≡ length A
      → length x ≡ size
      → length y ≡ size
      → (s' : S) × (swap_adjacent io size k s ≡ (ok (out_of_order x y), s'))
        × ((io.file s').bytes
            ≡ (if out_of_order x y then A ++ (y ++ (x ++ B)) else A ++ (x ++ (y ++ B))))
  unfolding swap_adjacent
  swap_adjacent_lem s A x y B k h e lx ly = elim (Bool-cases (out_of_order x y)) [
    | inl c ↦ (
      s5,
      ground (arith, c, first.0, second.0, third.0, fourth.0),
      rw c (fourth.1.held ∙ append_assoc (A ++ y) x B ∙ append_assoc A y (x ++ B)),
    )
    | inr c ↦ (
      s2,
      ground (arith, c, first.0, second.0),
      rw c (second.1.held ∙ append_assoc (A ++ x) y B ∙ append_assoc A x (y ++ B)),
    )
  ]
    where
      s0 : S
      s0 = io.seek (k * size) s

      s1 : S
      s1 = (io.read size s0).1

      s2 : S
      s2 = (io.read size s1).1

      s3 : S
      s3 = io.seek (k * size) s2

      s4 : S
      s4 = (io.write y s3).1

      s5 : S
      s5 = (io.write x s4).1

      first : (read_record io size s0 ≡ (ok x, s1)) × At s1 (A ++ x) (y ++ B)
      first = read-At s0 A x (y ++ B) (seek-At s A _ (k * size) h e) (laws.readable-seek _ s) lx

      second : (read_record io size s1 ≡ (ok y, s2)) × At s2 ((A ++ x) ++ y) B
      second =
          read-At s1 (A ++ x) y B first.1 (laws.readable-read size s0 (laws.readable-seek _ s)) ly

      back : At s3 A (x ++ (y ++ B))
      back =
          seek-At s2 A _ (k * size)
            (second.1.held ∙ append_assoc (A ++ x) y B ∙ append_assoc A x (y ++ B)) e

      third : (write_record io size y s3 ≡ (ok tt, s4)) × At s4 (A ++ y) (y ++ B)
      third = write-At s3 A x (y ++ B) y back (laws.writable-seek _ s2) lx ly

      fourth : (write_record io size x s4 ≡ (ok tt, s5)) × At s5 ((A ++ y) ++ x) B
      fourth =
          write-At s4 (A ++ y) y B x third.1 (laws.writable-write y s3 (laws.writable-seek _ s2)) ly
            lx

  -- A pass carries a greatest record to the end of the part that it sorts.
  pub pass_lem :
      (xs : List Rec) (s : S) (A : List ℕ) (x : Rec) (B : List ℕ) (k : ℕ) (change : Bool)
      → (io.file s).bytes ≡ A ++ (x ++ (concat xs ++ B))
      → k * size ≡ length A
      → length x ≡ size
      → All (λ r. length r ≡ size) xs
      → (s' : S) × (pass io size (length xs) k change s ≡ (ok (swaps x xs || change), s'))
        × ((io.file s').bytes ≡ A ++ (concat (lower x xs) ++ (top x xs ++ B)))
  unfolding pass concat lower top swaps
  pass_lem [] s A x B k change h e lx sizes = (s, refl, h)
  pass_lem (y ∷ ys) s A x B k change h e lx sizes = elim (Bool-cases (out_of_order x y)) [
    | inl c ↦
        let rest =
          pass_lem ys one.0 (A ++ y) x B (k + 1) true ((rw c at one.2) ∙ sym (append_assoc A y _))
            (next y sizes.0) lx sizes.1 in
        (
          rest.0,
          ground (arith, c, one.1, rest.1),
          rw c (rest.2 ∙ regroup y (concat (lower x ys)) _),
        )
    | inr c ↦
        let rest =
          pass_lem ys one.0 (A ++ x) y B (k + 1) change ((rw c at one.2) ∙ sym (append_assoc A x _))
            (next x lx) sizes.0 sizes.1 in
        (
          rest.0,
          ground (arith, c, one.1, rest.1),
          rw c (rest.2 ∙ regroup x (concat (lower y ys)) _),
        )
  ]
    where
      one :
          (s' : S) × (swap_adjacent io size k s ≡ (ok (out_of_order x y), s'))
          × ((io.file s').bytes ≡ (
              if out_of_order x y
              then A ++ (y ++ (x ++ (concat ys ++ B)))
              else A ++ (x ++ (y ++ (concat ys ++ B)))))
      one =
          swap_adjacent_lem s A x y (concat ys ++ B) k
            (h ∙ ap (λ t. A ++ (x ++ t)) (append_assoc y (concat ys) B)) e lx sizes.0

      next : (z : Rec) → length z ≡ size → (k + 1) * size ≡ length (A ++ z)
      next z l = omega (arith, e, l, length-append A z)

      regroup : (z m r : List ℕ) → (A ++ z) ++ (m ++ r) ≡ A ++ ((z ++ m) ++ r)
      regroup z m r = append_assoc A z (m ++ r) ∙ ap (λ t. A ++ t) (sym (append_assoc z m r))
