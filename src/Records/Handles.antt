-- ===== src/Records/Handles.antt =====
-- The two ways in which cw02/zad1 opens a file: `open` with `lseek`, `read` and `write`, and
-- `fopen` with `fseek`, `fread` and `fwrite`.
use systemy_operacyjne_c.Base.{◌+◌, refl, Bool, true, false, if◌then◌else◌, length}
use systemy_operacyjne_c.Records.Io.{
  Handle, ok, undefined, read_bytes, overwrite, RecordIo, IsRecordIo,
}

-- A descriptor: any transfer may follow any other.
abbrev pub sys_io : RecordIo Handle
sys_io = record {
  file = λ f. f;
  readable = λ _. true;
  writable = λ _. true;
  seek = λ k f. record f { offset = k };
  read = λ n f. (ok (read_bytes n f), record f { offset = f.offset + length (read_bytes n f) });
  write = λ w f. (ok (length w), record f { bytes = overwrite w f; offset = f.offset + length w });
}

pub sys_io-IsRecordIo : IsRecordIo sys_io
sys_io-IsRecordIo = record {
  bytes-seek = λ k s. refl;
  offset-seek = λ k s. refl;
  readable-seek = λ k s. refl;
  writable-seek = λ k s. refl;
  ok-read = λ n s h. refl;
  bytes-read = λ n s h. refl;
  offset-read = λ n s h. refl;
  readable-read = λ n s h. refl;
  ok-write = λ w s h. refl;
  bytes-write = λ w s h. refl;
  offset-write = λ w s h. refl;
  writable-write = λ w s h. refl;
}

-- What the last operation on a stream was.
pub data LastOp : Type 0 where
  positioned reading writing : LastOp

-- A stream opened for update. The C standard leaves a read right after a write, and a write right
-- after a read, undefined unless the stream is positioned in between.
pub record Stream : Type 0 where
  pub handle : Handle
  pub last : LastOp

abbrev pub may_read : LastOp → Bool
may_read writing = false
may_read _ = true

abbrev pub may_write : LastOp → Bool
may_write reading = false
may_write _ = true

abbrev pub lib_io : RecordIo Stream
lib_io = record {
  file = λ s. s.handle;
  readable = λ s. may_read s.last;
  writable = λ s. may_write s.last;
  seek = λ k s. record { handle = record (s.handle) { offset = k }; last = positioned };
  read = λ n s.
      if may_read s.last
      then (
        ok (read_bytes n s.handle),
        record {
          handle = record (s.handle) { offset = s.handle.offset + length (read_bytes n s.handle) };
          last = reading;
        },
      )
      else (undefined, s);
  write = λ w s.
      if may_write s.last
      then (
        ok (length w),
        record {
          handle = record (s.handle) {
            bytes = overwrite w s.handle;
            offset = s.handle.offset + length w;
          };
          last = writing;
        },
      )
      else (undefined, s);
}

pub lib_io-IsRecordIo : IsRecordIo lib_io
lib_io-IsRecordIo = record {
  bytes-seek = λ k s. refl;
  offset-seek = λ k s. refl;
  readable-seek = λ k s. refl;
  writable-seek = λ k s. refl;
  ok-read = λ n s h. rw h;
  bytes-read = λ n s h. rw h;
  offset-read = λ n s h. rw h;
  readable-read = λ n s h. rw h;
  ok-write = λ w s h. rw h;
  bytes-write = λ w s h. rw h;
  offset-write = λ w s h. rw h;
  writable-write = λ w s h. rw h;
}
