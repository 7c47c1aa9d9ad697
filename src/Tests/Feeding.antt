-- ===== src/Tests/Feeding.antt =====
-- The progress parser on concrete inputs.
use hamstercam.Base.{
  ℕ, ◌≡◌, refl, false, some, List, [], ◌∷◌, Bytes, codes, replicate, bytes_eq, arith,
}
use hamstercam.Text.{split_at, strip_last}
use hamstercam.Progress.{
  ProgressParser, parse_u64, parse_measure, stamp, store_key, parse_pair, parse_line, feed_loop,
  feed,
}
use hamstercam.Progress.Lines.{
  last, line, parse_lines, feed-Cut, IsBuffered, feed-IsBuffered, feed_all, feed_all-concat, concat,
}
use hamstercam.Progress.Overflow.{Fed, feed_all-Fed}
use hamstercam.Progress.Numbers.{parse_u64_lem}
use hamstercam.Progress.Keys.{Stored, parse_line-Stored}
use hamstercam.Tests.Fake.{World, fake_clock, micro}

abbrev quiet : World
quiet = record { now = 7_000_000_000; opens = []; formats = []; starts = []; frames = [] }

abbrev fresh : ProgressParser World ℕ
fresh = record {
  stats = record {
    frames_total = 0;
    fps = 0;
    dropped_frames_total = 0;
    duplicated_frames_total = 0;
    speed_ratio = 0;
    connected = false;
    last_update_unixtime = 0;
  };
  buffer = [];
  world = quiet;
}

-- A block in two chunks, the first of which ends within a line.
abbrev chunks : List Bytes
chunks = codes "frame=12\nfps=N/A\r\nfr" ∷ codes "ame=15\ndrop_frames=x\nprogress=end\nsp" ∷ []

fed :
    let first = feed fake_clock micro (codes "frame=12\nfps=N/A\r\nfr") fresh in
    (feed fake_clock micro (codes "ame=15\ndrop_frames=x\nprogress=end\nsp") first).stats
    ≡ record fresh.stats { frames_total = 15; last_update_unixtime = 7 }
unfolding feed feed_loop parse_line parse_pair store_key stamp split_at strip_last parse_u64
    parse_measure bytes_eq
fed = refl

feed-Cut_example :
    feed fake_clock micro (codes "frame=3\nx") fresh
    ≡ record (parse_lines fake_clock micro (codes "frame=3" ∷ []) fresh) { buffer = codes "x" }
feed-Cut_example =
    feed-Cut fake_clock micro (codes "frame=3\nx") fresh (omega arith)
      (line (codes "frame=3") (omega arith) refl (last (omega arith)))

feed_all-concat_example :
    feed_all fake_clock micro chunks fresh ≡ feed fake_clock micro (concat chunks) fresh
feed_all-concat_example =
    feed_all-concat fake_clock micro chunks fresh (record { partial = tt; within = omega arith })
      (omega arith)

-- A complete line is lost behind a long partial one.
abbrev long : ProgressParser World ℕ
long = record fresh { buffer = replicate 65_530 b'x' }

feed_all-Fed_example :
    (ls : List Bytes) × (r : Bytes) × Fed long.buffer
      (codes "\nframe=3\n" ∷ codes "fps=4\nx" ∷ [])
      ls
      r
    × (feed_all fake_clock micro (codes "\nframe=3\n" ∷ codes "fps=4\nx" ∷ []) long
        ≡ record (parse_lines fake_clock micro ls long) { buffer = r })
feed_all-Fed_example =
    feed_all-Fed fake_clock micro (codes "\nframe=3\n" ∷ codes "fps=4\nx" ∷ []) long

-- 2 ^ 64 + 7 is read as 7.
parse_u64_lem_example : parse_u64 (codes "18446744073709551623") ≡ some 7
parse_u64_lem_example =
    (parse_u64_lem (codes "18446744073709551623") 7).1 ((λ e. cc), omega arith, refl)

parse_line-Stored_example :
    Stored micro
      (codes "frame")
      (codes "12")
      7_000_000_000
      fresh.stats
      (parse_line fake_clock micro (codes "frame=12") fresh).stats
parse_line-Stored_example =
    (parse_line-Stored fake_clock micro (codes "frame") (codes "12") fresh (omega arith)
      (omega arith)).0

feed-IsBuffered_example : IsBuffered (feed fake_clock micro (codes "frame=3\nx") fresh)
feed-IsBuffered_example = feed-IsBuffered fake_clock micro (codes "frame=3\nx") fresh
