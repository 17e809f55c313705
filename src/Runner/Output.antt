-- ===== src/Runner/Output.antt =====
-- internal/runner/output.go: the two output streams of a process share one limit.
pub mod Laws
use mgate_agent.Base.{
  ℕ, ◌-◌, Bool, true, false, List, [], ◌∷◌, ◌++◌, leb, ltb, if◌then◌else◌, length, take,
}
use mgate_agent.Base.Text.{Text}

pub data Stream : Type 0 where
  stdout stderr : Stream

-- the buffers of the two limitedStreams and their outputLimiter
pub record Streams : Type 0 where
  pub stdout : Text
  pub stderr : Text
  pub remaining : ℕ
  pub truncated : Bool

-- newOutputStreams; 0 stands for any limit that is not positive
unfoldable pub new_output_streams : ℕ → Streams
new_output_streams max_bytes = record {
  stdout = [];
  stderr = [];
  remaining = if leb max_bytes 0 then 1 else max_bytes;
  truncated = false;
}

-- s.buf.Write(p)
unfoldable pub append_to : Stream → Text → Streams → Streams
append_to stdout p s = record s { stdout = s.stdout ++ p }
append_to stderr p s = record s { stderr = s.stderr ++ p }

-- (*limitedStream).Write: the streams after it, and the count that it reports
unfoldable pub write : Stream → Text → Streams → Streams × ℕ
unfolding append_to
write stream p s =
    if leb s.remaining 0
    then (record s { truncated = true }, length p)
    else if ltb s.remaining (length p)
    then (
      append_to stream (take s.remaining p) (record s { remaining = 0; truncated = true }),
      length p,
    )
    else (append_to stream p (record s { remaining = s.remaining - length p }), length p)

-- the writes of a process in the order in which the limiter's lock lets them in
unfoldable pub write_all : List (Stream × Text) → Streams → Streams
unfolding write
write_all [] s = s
write_all ((stream, p) ∷ rest) s = write_all rest (write stream p s).0
