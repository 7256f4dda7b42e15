-- ===== src/Observer/Feed.antt =====
-- The feeds of internal/grpcobs/observer.go: a bounded queue of chunks from the relay to a parser, and
-- the reader that makes a stream of bytes of them.
use airpc.Prelude.{
  ℕ, Bool, true, false, Option, none, some, List, [], ◌∷◌, ◌++◌, Text, length, take, drop, ltb,
  if◌then◌else◌,
}

abbrev pub feed_queue_size : ℕ
feed_queue_size = 256

-- `feed`: the chunks in the channel, oldest first.
pub record Feed : Type 0 where
  pub queue : List Text
  pub dead : Bool

abbrev pub new_feed : Feed
new_feed = record { queue = []; dead = false }

-- A full queue kills the feed instead of holding the relay up.
unfoldable pub put : Text → Feed → Feed
put p f =
    if f.dead
    then f
    else if ltb (length f.queue) feed_queue_size
    then record f { queue = f.queue ++ p ∷ [] }
    else record f { dead = true }

-- A feed with its reader (`feedReader`), and whether the observer is closed.
pub record Pipe : Type 0 where
  pub feed : Feed
  pub done : Bool
  pub rest : Text

abbrev pub new_pipe : Pipe
new_pipe = record { feed = new_feed; done = false; rest = [] }

-- The result of a call of `Read`: bytes, `io.EOF`, or no result yet, since the reader waits.
pub data Reading : Type 0 where
  got : Text → Reading
  eof : Reading
  waiting : Reading

-- The loop of `Read`: what is left of a chunk, or of the first chunk in the queue that is not empty. Once
-- the observer is closed either `select` takes that chunk.
unfoldable pub next_chunk : Text → List Text → Text × List Text
next_chunk (c ∷ r) q = (c ∷ r, q)
next_chunk [] [] = ([], [])
next_chunk [] (chunk ∷ q) = next_chunk chunk q

-- The end of `Read`: `copy` into a buffer of `n` bytes.
unfoldable pub copied : ℕ → Text × List Text → Pipe → Reading × Pipe
copied n ([], q) p =
    ((if p.done then eof else waiting), record p { feed = record p.feed { queue = q }; rest = [] })
copied n (c ∷ r, q) p =
    (got (take n (c ∷ r)), record p { feed = record p.feed { queue = q }; rest = drop n (c ∷ r) })

unfoldable pub read : ℕ → Pipe → Reading × Pipe
unfolding next_chunk copied
read n p = copied n (next_chunk p.rest p.feed.queue) p

-- The calls on a pipe: `ClientBytes` or `BackendBytes`, `Close`, and `Read` with a buffer of a size.
pub data Call : Type 0 where
  put_bytes : Text → Call
  close_done : Call
  read_into : ℕ → Call

unfoldable pub call : Pipe → Call → Option Reading × Pipe
unfolding put read
call p (put_bytes chunk) = (none, record p { feed = put chunk p.feed })
call p close_done = (none, record p { done = true })
call p (read_into n) = let (r, p') = read n p in (some r, p')

-- The replies of a list of calls, with the pipe that they leave.
unfoldable pub run : Pipe → List Call → List (Option Reading) × Pipe
unfolding call
run p [] = ([], p)
run p (c ∷ cs) = let (r, p') = call p c in let (rs, q) = run p' cs in (r ∷ rs, q)
