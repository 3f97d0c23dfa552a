-- ===== src/Search.antt =====
-- cw08/zad1/main.c with VERSION 3: threads that read a file of records block by block under a mutex and
-- search what they have read for a word. Threads take turns at the mutex in any order. `behind` is
-- what lies in memory behind a buffer, which has no room for a terminator; `atoi` is the C library's.
pub mod Laws
mod Tests
use systemy_operacyjne_c.Base.{
  ℕ, zero, suc, ◌-◌, Bool, true, false, ◌&&◌, ◌||◌, List, [], ◌∷◌, ◌++◌, if◌then◌else◌, ◌==◌,
  length, take, drop, replicate,
}
use systemy_operacyjne_c.Base.Text.{c_string}

abbrev pub buff_size : ℕ
buff_size = 1024

-- `calloc(1024, 1)` and a `read` of at most that many bytes.
abbrev pub buffer_of : List ℕ → List ℕ
buffer_of bytes = bytes ++ replicate (buff_size - length bytes) 0

-- The loop of reads of one thread: its buffers, and the file behind the last.
unfoldable pub read_loop : (left : ℕ) → List ℕ → List (List ℕ) × List ℕ
read_loop zero file = ([], file)
read_loop (suc left) file =
    let rest = read_loop left (drop buff_size file) in
    (buffer_of (take buff_size file) ∷ rest.0, rest.1)

abbrev pub starts_with : List ℕ → List ℕ → Bool
starts_with [] s = true
starts_with (w ∷ ws) [] = false
starts_with (w ∷ ws) (c ∷ cs) = (w == c) && starts_with ws cs

-- `strstr(s, word) != NULL`.
abbrev pub strstr : List ℕ → List ℕ → Bool
strstr word [] = starts_with word []
strstr word (c ∷ cs) = starts_with word (c ∷ cs) || strstr word cs

module _ (atoi : List ℕ → ℕ) (behind word : List ℕ) where
  abbrev pub holds_word : List ℕ → Bool
  holds_word buffer = strstr word (c_string (buffer ++ behind))

  -- `strncpy(record_no, readingBuffer[i], 2)`: the number of a record is its first two bytes.
  abbrev pub record_no : List ℕ → ℕ
  record_no buffer = atoi (take 2 buffer)

  -- The loop of searches: the numbers printed.
  unfoldable pub search_loop : List (List ℕ) → List ℕ
  search_loop [] = []
  search_loop (buffer ∷ buffers) =
      let rest = search_loop buffers in if holds_word buffer then record_no buffer ∷ rest else rest

  -- `run` by a thread: the numbers that it prints, and what it leaves of the file.
  unfoldable pub run : (records_no : ℕ) → List ℕ → List ℕ × List ℕ
  unfolding read_loop search_loop
  run records_no file =
      let (buffers, rest) = read_loop records_no file in (search_loop buffers, rest)

  -- The threads of `main` in the order in which they get the mutex: what each prints.
  unfoldable pub run_threads : (records_no : ℕ) → (threads : List ℕ) → List ℕ → List (ℕ × List ℕ)
  unfolding run
  run_threads records_no [] file = []
  run_threads records_no (thread ∷ threads) file =
      let (found, rest) = run records_no file in
      (thread, found) ∷ run_threads records_no threads rest
