-- ===== src/Tests/Pipe.antt =====
-- A pipe that has ended.
use rmosh.Prelude.{◌≡◌, some, none, [], ◌∷◌, arith}
use rmosh.Network.Transport.Advance.{advanced}
use rmosh.Pipe.Stream.{Stream, diff_from, pipe_sync}
use rmosh.Pipe.Stream.Diff.{advanced-pipe_sync}

abbrev held : Stream
held = record { out = 1 ∷ []; err = []; end = none }

abbrev base : Stream
base = record { out = 7 ∷ 1 ∷ []; err = []; end = none }

abbrev later : Stream
later = record { out = 7 ∷ 1 ∷ 2 ∷ 3 ∷ []; err = 9 ∷ []; end = some 0 }

advanced-pipe_sync_example :
    advanced pipe_sync held (diff_from later base)
    ≡ some (record { out = 1 ∷ 2 ∷ 3 ∷ []; err = 9 ∷ []; end = some 0 })
advanced-pipe_sync_example =
    advanced-pipe_sync held base (2 ∷ 3 ∷ []) (9 ∷ []) (some 0) (omega arith) (omega arith)
      (omega arith)
