-- ===== src/Tests/Monitoring.antt =====
-- The reads of the log monitor on concrete files.
use docker_baseimage.Base.{suc, ◌≡◌, refl, true, false, [], ◌∷◌, none, some, arith}
use docker_baseimage.Base.Int.{pos}
use docker_baseimage.Text.{codes}
use docker_baseimage.Monitor.{
  Target, Notification, MonitoredFile, MonitorOs, Watch, FileStat, delivered,
}
use docker_baseimage.Monitor.Reading.{put_pending, handle_reads}
use docker_baseimage.Monitor.Reading.Cutting.{whole, unfinished, handle_all}
use docker_baseimage.Monitor.Reading.Pieces.{handle_reads-whole}
use docker_baseimage.Monitor.Tail.{Look, note_read, visit_file}
use docker_baseimage.Monitor.Tail.Visits.{
  IsFollowed, pieces, at_start, visit_file-log, visit_file-status,
}

abbrev os : MonitorOs
os = record {
  clock = λ k. suc k;
  memory = λ size. true;
  pipe = λ k. true;
  run = λ k exe line. some (record { output = []; exit_status = some 0 });
  fork = λ k. true;
  bufsiz = 4;
}

abbrev stat : FileStat
stat = record { st_size = 5; st_mtime = 1; st_dev = 1; st_ino = 1 }

abbrev mail : Target
mail = record {
  name = codes "m";
  send = some (codes "/m");
  debouncing = pos 5;
  last_notif_sent = 0 ∷ [];
}

abbrev up : Notification
up = record {
  name = codes "n";
  filter = some (codes "/f");
  title = some (codes "T");
  is_title_exe = false;
  desc = some (codes "D");
  is_desc_exe = false;
  level = some (codes "INFO");
  is_level_exe = false;
  monitored_files = (codes "/a", false) ∷ [];
  targets = 0 ∷ [];
}

-- A line was begun by an earlier read.
abbrev log_file : MonitoredFile
log_file = record {
  path = codes "/a";
  fd = some 3;
  is_status = false;
  last_read = 0;
  last_stat = stat;
  pending_buf = some (codes "a");
}

abbrev watching : MonitoredFile → Watch
watching mf = record {
  ctx = record {
    config_dir = codes "/c";
    monitored_files = mf ∷ [];
    notifications = up ∷ [];
    targets = mail ∷ [];
  };
  calls = 9;
  events = [];
}

handle_reads-whole_example :
    handle_reads os 0 (codes "b\nc" ∷ codes "d\n" ∷ []) (watching log_file)
    ≡ handle_all os 0 (codes "ab" ∷ codes "cd" ∷ []) (put_pending 0 none (watching log_file))
unfolding whole unfinished
handle_reads-whole_example =
    handle_reads-whole os 0 (λ size. refl) (codes "b\nc" ∷ codes "d\n" ∷ []) (codes "a")
      (watching log_file) (refl, tt) (omega arith) refl
      (omega arith, omega arith, (omega arith, omega arith, tt))

abbrev look : Look
look = record {
  path_stat = some stat;
  fd_stat = some stat;
  new_fd = none;
  turns = record { size = some 5; current = 1; answers = delivered (codes "b\n") ∷ [] } ∷ [];
}

look-IsFollowed : IsFollowed os 0 3 look (codes "a") (watching log_file)
unfolding pieces whole unfinished
look-IsFollowed = record {
  is_file = omega arith;
  has_fd = refl;
  same_file = refl;
  begun = refl;
  unbroken = (refl, tt);
  grown = (refl, tt);
  fits = (omega arith, omega arith, tt);
  memory = λ size. refl;
}

visit_file-log_example :
    visit_file os 0 look (watching log_file)
    ≡ note_read os 0 (handle_all os 0 (codes "ab" ∷ []) (put_pending 0 none (watching log_file)))
unfolding pieces whole unfinished
visit_file-log_example =
    visit_file-log os 0 3 look (codes "a") (watching log_file) look-IsFollowed refl

-- A status file, the last line of which did not end when it was read.
abbrev status_file : MonitoredFile
status_file = record log_file { is_status = true }

abbrev changed : FileStat
changed = record stat { st_mtime = 2 }

abbrev changed_look : Look
changed_look = record look { path_stat = some changed; fd_stat = some changed }

status_look-IsFollowed : IsFollowed os 0 3 changed_look (codes "a") (watching status_file)
unfolding pieces whole unfinished
status_look-IsFollowed = record {
  is_file = omega arith;
  has_fd = refl;
  same_file = refl;
  begun = refl;
  unbroken = (refl, tt);
  grown = (refl, tt);
  fits = (omega arith, omega arith, tt);
  memory = λ size. refl;
}

-- What the last look left is in front of the first line of this one.
visit_file-status_example :
    visit_file os 0 changed_look (watching status_file)
    ≡ note_read os 0 (
        handle_all os 0
          (codes "ab" ∷ [])
          (put_pending 0 none (at_start os 0 3 changed (watching status_file))))
unfolding pieces whole unfinished
visit_file-status_example =
    visit_file-status os 0 3 changed_look (codes "a") changed (watching status_file)
      status_look-IsFollowed refl refl
