-- ===== src/Examples/Deadlines.antt =====
-- A stream that stalls (engine.go: streamDeadline).
use gateway.Prelude.{refl, arith}
use gateway.Deadline.{touch, until, new_stream_deadline, ceiling, fired}
use gateway.Deadline.Bounds.{
  World, begun, silent, reads, fires, Reach, here, next, Explained, Reach-Explained,
}

-- The idle time is 10 and the limit is 25: a chunk comes after 8, and then none.
abbrev one_chunk : World
one_chunk = record {
  deadline = touch 108 (begun 100 10 25).deadline;
  clock = 108;
  last = 108;
  longest = silent (begun 100 10 25) 108;
}

abbrev stalled_stream : World
stalled_stream = record one_chunk {
  deadline = fired 119 one_chunk.deadline;
  clock = 119;
  longest = silent one_chunk 119;
}

stalls : Reach (begun 100 10 25) stalled_stream
unfolding begun new_stream_deadline touch until ceiling
stalls = next (next here (reads 108 (omega arith))) (fires 119 118 (omega arith) refl (omega arith))

Reach-Explained_example : Explained 100 10 25 stalled_stream
Reach-Explained_example = Reach-Explained 100 10 25 stalls
