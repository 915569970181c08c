-- ===== src/Logger/Tests.antt =====
-- A line of the log, and a log file that could not be opened.
use simple_messenger.Prelude.{replicate, ◌≡◌, refl, none, [], codes}
use simple_messenger.Logger.{replicate, construct, log, six_wide, digits}

-- No digit is printed for 0.
no_microseconds : six_wide 0 ≡ codes "      "
unfolding six_wide digits replicate
no_microseconds = refl

no_file : log (construct none) ([], 1, [], []) ≡ none
unfolding log construct
no_file = refl
