-- ===== src/Locks/Laws.antt =====
-- What the calls do to the file and what they report.
use systemy_operacyjne_c.Base.{
  ℕ, zero, suc, ◌+◌, ◌-◌, ◌≤◌, ◌<◌, ◌≡◌, ◌≢◌, ◌⊎◌, ◌↔◌, inl, inr, refl, ap, subst, true, List, [],
  ◌∷◌, ◌++◌, none, some, length, get_elem?, take, drop, replicate, drop-append, length-take,
  length-append, length-replicate, arith, dec_lt, ℕ_discrete, Option-cases,
}
use systemy_operacyjne_c.Base.Text.{c_string}
use systemy_operacyjne_c.Base.Int.{pos}
use systemy_operacyjne_c.Records.Io.{read_bytes, overwrite as over}
use systemy_operacyjne_c.Locks.{
  System, Session, overwrited, free, read_by, written_by, Printed, symbol_read, read_lock_at,
  write_lock_at,
}
use systemy_operacyjne_c.Locks.Calls.{print, readf, overwrite, print_loop, print_locks}

-- One printed line among others.
abbrev pub In : Printed → List Printed → Type 0
In x [] = x ≢ x
In x (y ∷ ys) = (x ≡ y) ⊎ In x ys

-- Lines about locks at rising positions from `b` on.
abbrev pub Rising : ℕ → List Printed → Type 0
Rising b [] = Unit
Rising b (read_lock_at i pid ∷ xs) = (b ≤ i) × Rising (i + 1) xs
Rising b (write_lock_at i pid ∷ xs) = (b ≤ i) × Rising (i + 1) xs
Rising b (x ∷ xs) = x ≢ x

module _ {K : Type 0} (sys : System K) (locks : K) where
  print_loop-Rising :
      (left b : ℕ)
      → ((i : ℕ) → sys.get_lock i locks ≢ none)
      → (c : ℕ) → c ≤ b
      → Rising c (print_loop sys locks left b).1
  unfolding print_loop
  print_loop-Rising zero b works c h = tt
  print_loop-Rising (suc left) b works c h = elim (Option-cases (sys.get_lock b locks)) [
    | inl e ↦ absurd (works b e)
    | inr (free, e) ↦ ground (arith, print_loop-Rising left (b + 1) works c)
    | inr (read_by pid, e) ↦ ground (arith, print_loop-Rising left (b + 1) works (b + 1))
    | inr (written_by pid, e) ↦ ground (arith, print_loop-Rising left (b + 1) works (b + 1))
  ]

  print_loop-In :
      (left b : ℕ)
      → ((i : ℕ) → sys.get_lock i locks ≢ none)
      → (i pid : ℕ)
      → (In (read_lock_at i pid) (print_loop sys locks left b).1
          ↔ ((b ≤ i) × (i < b + left) × (sys.get_lock i locks ≡ some (read_by pid))))
        × (In (write_lock_at i pid) (print_loop sys locks left b).1
            ↔ ((b ≤ i) × (i < b + left) × (sys.get_lock i locks ≡ some (written_by pid))))
        × ((print_loop sys locks left b).0 ≡ pos 0)
  unfolding print_loop
  print_loop-In zero b works i pid = ground arith
  print_loop-In (suc left) b works i pid = elim (Option-cases (sys.get_lock b locks)) [
    | inl e ↦ absurd (works b e)
    | inr (free, e) ↦ ground (arith, print_loop-In left (b + 1) works i pid)
    | inr (read_by p, e) ↦ ground (arith, print_loop-In left (b + 1) works i pid)
    | inr (written_by p, e) ↦ ground (arith, print_loop-In left (b + 1) works i pid)
  ]

-- What the write leaves: the new byte stands at the offset, behind zeros if the file was too short,
-- and the other bytes are as they were.
over-read :
    (bytes : List ℕ) (o c : ℕ)
    → read_bytes 1
        (record { bytes = over (c ∷ []) (record { bytes = bytes; offset = o }); offset = o })
      ≡ c ∷ []
over-read bytes o c =
    let padded = bytes ++ replicate (o - length bytes) 0 in
    ap (take 1) (
      drop-append (take o padded) (c ∷ drop (o + 1) bytes) o (
        omega (
          arith,
          length-take o padded,
          length-append bytes (replicate (o - length bytes) 0),
          length-replicate {A = ℕ} (o - length bytes) 0,
        )))

spliced :
    (bytes pad : List ℕ) (o c i : ℕ)
    → i ≢ o
    → i < length bytes
    → get_elem? (take o (bytes ++ pad) ++ (c ∷ drop (suc o) bytes)) i ≡ get_elem? bytes i
spliced [] pad o c i ne h = absurd (omega arith)
spliced (x ∷ xs) pad zero c zero ne h = absurd (ne refl)
spliced (x ∷ xs) pad zero c (suc i) ne h = refl
spliced (x ∷ xs) pad (suc o) c zero ne h = refl
spliced (x ∷ xs) pad (suc o) c (suc i) ne h =
    spliced xs pad o c i (λ e. ne (ap suc e)) (omega arith)

over-get_elem? :
    (bytes : List ℕ) (o c i : ℕ)
    → i ≢ o
    → i < length bytes
    → get_elem? (over (c ∷ []) (record { bytes = bytes; offset = o })) i ≡ get_elem? bytes i
over-get_elem? bytes o c i ne h =
    let pad : List ℕ = replicate (o - length bytes) 0 in
    let next : suc o ≡ o + 1 = omega arith in
    subst (λ n. get_elem? (take o (bytes ++ pad) ++ (c ∷ drop n bytes)) i ≡ get_elem? bytes i) next
      (spliced bytes pad o c i ne h)

module _ {K : Type 0} (sys : System K) where
  abbrev written : Session K → (o symbol : ℕ) → Session K
  written s o symbol =
      print (overwrited (pos o) (c_string (symbol ∷ sys.behind s.round))) (record s {
        file = record {
          bytes = over (symbol ∷ []) (record (s.file) { offset = o });
          offset = o + 1;
        };
      })

  overwrite_granted :
      (s : Session K) (o symbol : ℕ)
      → sys.may_write o s.locks ≡ true
      → overwrite sys (pos o) symbol s ≡ (pos 0, written s o symbol)
  unfolding overwrite
  overwrite_granted s o symbol w = rw w refl

  readf_granted :
      (s : Session K) (o symbol : ℕ)
      → sys.may_read o s.locks ≡ true
      → read_bytes 1 (record (s.file) { offset = o }) ≡ symbol ∷ []
      → (readf sys (pos o) s).printed
        ≡ s.printed ++ (symbol_read (pos o) (c_string (symbol ∷ sys.behind s.round)) ∷ [])
  unfolding readf
  readf_granted s o symbol r e = rw r (rw e refl)

  -- `printlocks` and `pl`, when no F_GETLK fails, return 0 and print, in rising order and each
  -- position at most once, exactly the bytes of the file on which another process holds a lock,
  -- with the kind of lock and its owner; the bytes and the locks stay.
  pub print_locks_lem :
      (s : Session K)
      → ((i : ℕ) → sys.get_lock i s.locks ≢ none)
      → (lines : List Printed) × ((print_locks sys s).1.printed ≡ s.printed ++ lines)
        × Rising 0 lines
        × ((i pid : ℕ)
            → (In (read_lock_at i pid) lines
                ↔ ((i < length s.file.bytes) × (sys.get_lock i s.locks ≡ some (read_by pid))))
              × (In (write_lock_at i pid) lines
                  ↔ ((i < length s.file.bytes) × (sys.get_lock i s.locks ≡ some (written_by pid)))))
        × ((print_locks sys s).0 ≡ pos 0)
        × ((print_locks sys s).1.file.bytes ≡ s.file.bytes)
        × ((print_locks sys s).1.locks ≡ s.locks)
  unfolding print_locks
  print_locks_lem s works =
      let len = length s.file.bytes in
      (
        (print_loop sys s.locks len 0).1,
        refl,
        print_loop-Rising sys s.locks len 0 works 0 (omega arith),
        λ i pid. ground (arith, print_loop-In sys s.locks len 0 works i pid),
        (print_loop-In sys s.locks len 0 works 0 0).2,
        refl,
        refl,
      )

  -- A byte that `overwrite` has written, past the end of the file too, is the one that `readf` reads
  -- next at that offset, in whatever round, if the locks let both through: it prints a string of the
  -- byte and what lies in memory behind it, up to the first zero. The other bytes and the locks are as
  -- they were.
  pub readf-overwrite :
      (s : Session K) (o symbol round : ℕ)
      → sys.may_write o s.locks ≡ true
      → sys.may_read o s.locks ≡ true
      → let t = (overwrite sys (pos o) symbol s).1 in
        ((overwrite sys (pos o) symbol s).0 ≡ pos 0)
        × ((readf sys (pos o) (record t { round = round })).printed
            ≡ t.printed ++ (symbol_read (pos o) (c_string (symbol ∷ sys.behind round)) ∷ []))
        × ((i : ℕ)
            → (i ≡ o)
              ⊎ (length s.file.bytes ≤ i)
              ⊎ (get_elem? t.file.bytes i ≡ get_elem? s.file.bytes i))
        × (t.locks ≡ s.locks)
  readf-overwrite s o symbol round w r = rw (overwrite_granted s o symbol w) (
    refl,
    readf_granted (record (written s o symbol) { round = round }) o symbol r
        (over-read s.file.bytes o symbol),
    λ i. elim (ℕ_discrete i o) [
      | yes e ↦ inl e
      | no ne ↦ elim (dec_lt i (length s.file.bytes)) [
        | yes h ↦ inr (inr (over-get_elem? s.file.bytes o symbol i ne h))
        | no n ↦ inr (inl (omega arith))
      ]
    ],
    refl,
  )
