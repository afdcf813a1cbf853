-- ===== src/Tests/Streams.antt =====
-- `read_lines` on a concrete descriptor.
use docker_baseimage.Base.{◌≡◌, refl, true, false, List, [], ◌∷◌, ℕ, arith}
use docker_baseimage.Text.{codes}
use docker_baseimage.Lines.{Fd, read_lines, finished}
use docker_baseimage.Lines.Cutting.{segments}
use docker_baseimage.Lines.Chunks.{reading, read_lines-remaining}

-- A line was begun by an earlier read, and two reads of one byte are to come.
abbrev fd : Fd
fd = record { buf = codes "a"; is_open = true; eof = false; pending = codes "b\nc" }

abbrev sizes : List ℕ
sizes = 0 ∷ 0 ∷ 5 ∷ 0 ∷ 0 ∷ 0 ∷ 0 ∷ []

read_lines-remaining_example :
    read_lines (fd ∷ []) (reading sizes) ≡ (segments (codes "a") (codes "b\nc"), finished)
read_lines-remaining_example =
    read_lines-remaining sizes fd
      (record {
        unfinished = (refl, tt);
        fits = omega arith;
        buf_nul = (refl, tt);
        pending_nul = (refl, (refl, (refl, tt)));
      })
      refl refl (omega arith)
