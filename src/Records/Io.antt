-- ===== src/Records/Io.antt =====
-- What the record programs of cw02/zad1 use of an open file, and the monad of their calls.
use systemy_operacyjne_c.Base.{
  ℕ, ◌+◌, ◌≡◌, Bool, true, List, ◌++◌, arith, length, take, drop, replicate, ◌-◌,
}

-- An open regular file: its bytes and the offset of the next read or write.
pub record Handle : Type 0 where
  pub bytes : List ℕ
  pub offset : ℕ

-- A call returns, ends the program (`exit(status)`), or is undefined by the C standard.
pub data Result (A : Type 0) : Type 0 where
  ok : A → Result A
  exited : ℕ → Result A
  undefined : Result A

abbrev pub M : Type 0 → Type 0 → Type 0
M S A = S → Result A × S

module _ {S : Type 0} where
  abbrev pub pure : {A : Type 0} → A → M S A
  pure a s = (ok a, s)

  abbrev pub exit : {A : Type 0} → ℕ → M S A
  exit status s = (exited status, s)

  abbrev pub modify : (S → S) → M S (Unit {0})
  modify f s = (ok tt, f s)

  infixl 5 ◌>>=◌ ◌>>◌
  abbrev pub ◌>>=◌ : {A B : Type 0} → M S A → (A → M S B) → M S B
  ◌>>=◌ m f s = elim (m s).0 [
    | ok a ↦ f a (m s).1
    | exited n ↦ (exited n, (m s).1)
    | undefined ↦ (undefined, (m s).1)
  ]

  abbrev pub ◌>>◌ : {B : Type 0} → M S (Unit {0}) → M S B → M S B
  m >> k = m >>= λ _. k

  pub bind_ok :
      {A B : Type 0} (m : M S A) (f : A → M S B) {s s' : S} {a : A}
      → m s ≡ (ok a, s')
      → (m >>= f) s ≡ f a s'
  bind_ok m f e = ground arith

-- The transfer itself: at most `n` bytes from the offset, and a write over what stands there, after
-- zeros if the offset is past the end.
abbrev pub read_bytes : ℕ → Handle → List ℕ
read_bytes n f = take n (drop f.offset f.bytes)

abbrev pub overwrite : List ℕ → Handle → List ℕ
overwrite w f =
    take f.offset (f.bytes ++ replicate (f.offset - length f.bytes) 0)
    ++ (w ++ drop (f.offset + length w) f.bytes)

-- An open file as the record programs use it. `readable` and `writable` say whether the next
-- transfer may be a read or a write.
pub record RecordIo (S : Type 0) : Type 0 where
  pub file : S → Handle
  pub readable : S → Bool
  pub writable : S → Bool
  pub seek : ℕ → S → S
  pub read : ℕ → M S (List ℕ)
  pub write : List ℕ → M S ℕ

pub record IsRecordIo {S : Type 0} (io : RecordIo S) : Type 0 where
  pub bytes-seek : (k : ℕ) (s : S) → (io.file (io.seek k s)).bytes ≡ (io.file s).bytes
  pub offset-seek : (k : ℕ) (s : S) → (io.file (io.seek k s)).offset ≡ k
  pub readable-seek : (k : ℕ) (s : S) → io.readable (io.seek k s) ≡ true
  pub writable-seek : (k : ℕ) (s : S) → io.writable (io.seek k s) ≡ true
  pub ok-read :
      (n : ℕ) (s : S) → io.readable s ≡ true → (io.read n s).0 ≡ ok (read_bytes n (io.file s))
  pub bytes-read :
      (n : ℕ) (s : S) → io.readable s ≡ true → (io.file (io.read n s).1).bytes ≡ (io.file s).bytes
  pub offset-read :
      (n : ℕ) (s : S)
      → io.readable s ≡ true
      → (io.file (io.read n s).1).offset ≡ (io.file s).offset + length (read_bytes n (io.file s))
  pub readable-read : (n : ℕ) (s : S) → io.readable s ≡ true → io.readable (io.read n s).1 ≡ true
  pub ok-write : (w : List ℕ) (s : S) → io.writable s ≡ true → (io.write w s).0 ≡ ok (length w)
  pub bytes-write :
      (w : List ℕ) (s : S)
      → io.writable s ≡ true
      → (io.file (io.write w s).1).bytes ≡ overwrite w (io.file s)
  pub offset-write :
      (w : List ℕ) (s : S)
      → io.writable s ≡ true
      → (io.file (io.write w s).1).offset ≡ (io.file s).offset + length w
  pub writable-write :
      (w : List ℕ) (s : S) → io.writable s ≡ true → io.writable (io.write w s).1 ≡ true
